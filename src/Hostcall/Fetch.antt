-- ===== src/Hostcall/Fetch.antt =====
-- hostFetch of web/app/hostcall.ts. What the browser does is `Web`: its URLs, base64 and `fetch`.
-- The stream of a response is the list of chunks that the reader gives, and whether it then ends or
-- throws. `aborted` tells which of the two signals was set when something threw.
use vinx.Prelude.{
  ℕ, ◌+◌, ◌-◌, Bool, true, false, Option, none, some, List, [], ◌∷◌, ◌++◌, ltb, if◌then◌else◌,
  length, take, drop, replicate,
}
use vinx.Prelude.Text.{codes, or_else}
use vinx.Rpc.Json.{Json, Number}
use vinx.Hostcall.{max_fetch_bytes, clamp_ms}

pub record HostFetchRequest : Type 0 where
  pub url : Option (List ℕ)
  pub method : Option (List ℕ)
  pub headers : Option Json
  pub body : Option (List ℕ)
  pub body_b64 : Option (List ℕ)
  pub body_bytes : Option (List ℕ)
  pub timeout_ms : Option Number

pub data BodyInit : Type 0 where
  bytes : List ℕ → BodyInit
  text : List ℕ → BodyInit

-- What `fetch` is asked, and the time until its signal is set.
pub record Asked : Type 0 where
  pub url : List ℕ
  pub method : List ℕ
  pub headers : Option Json
  pub body : Option BodyInit
  pub limit_ms : ℕ

pub record Stream : Type 0 where
  pub chunks : List (List ℕ)
  pub ends : Bool

pub record Response : Type 0 where
  pub status : Number
  pub status_text : List ℕ
  pub url : List ℕ
  pub headers : List (List ℕ × List ℕ)
  pub body : Option Stream

pub record Web : Type 0 where
  pub resolve : List ℕ → Option (List ℕ)
  pub atob : List ℕ → Option (List ℕ)
  pub btoa : List ℕ → List ℕ
  pub encode : List ℕ → List ℕ
  -- the fatal decoder
  pub decode : List ℕ → Option (List ℕ)
  pub fetch : Asked → Option Response
  -- the caller's signal, and the one of this fetch
  pub aborted : Asked → Bool × Bool

pub data FetchError : Type 0 where
  bad_url bad_base64 cancelled timed_out unreachable : FetchError

pub record Fetched : Type 0 where
  pub status : Number
  pub status_text : List ℕ
  pub url : List ℕ
  pub headers : List (List ℕ × List ℕ)
  pub bytes : List ℕ
  pub truncated : Bool

pub data HostFetchResult : Type 0 where
  fetched : Fetched → HostFetchResult
  failed : FetchError → HostFetchResult

pub record Reading : Type 0 where
  pub chunks : List (List ℕ)
  pub total : ℕ
  pub truncated : Bool

abbrev pub nothing_read : Reading
nothing_read = record { chunks = []; total = 0; truncated = false }

-- A chunk that is not empty, and what is read after it.
abbrev pub add_chunk : List ℕ → Reading → Reading
add_chunk value r = record r { chunks = r.chunks ++ value ∷ []; total = r.total + length value }

abbrev pub cut_chunk : List ℕ → Reading → Reading
cut_chunk value r = record {
  chunks = r.chunks ++ take (max_fetch_bytes - r.total) value ∷ [];
  total = max_fetch_bytes;
  truncated = true;
}

unfoldable pub read_loop : List (List ℕ) → Bool → Reading → Option Reading
read_loop [] ends r = if ends then some r else none
read_loop ([] ∷ rest) ends r = read_loop rest ends r
read_loop ((x ∷ xs) ∷ rest) ends r =
    let more = read_loop rest ends (add_chunk (x ∷ xs) r) in
    if ltb max_fetch_bytes (r.total + length (x ∷ xs)) then some (cut_chunk (x ∷ xs) r) else more

-- `bytes.set(c, at)`, chunk after chunk.
unfoldable pub set_chunks : List ℕ → ℕ → List (List ℕ) → List ℕ
set_chunks buffer at [] = buffer
set_chunks buffer at (c ∷ cs) =
    set_chunks (take at buffer ++ (c ++ drop (at + length c) buffer)) (at + length c) cs

abbrev pub stream_of : Option Stream → Option Reading
stream_of none = some nothing_read
stream_of (some s) = read_loop s.chunks s.ends nothing_read

abbrev pub whole_of : Response → Reading → Fetched
whole_of res r = record {
  status = res.status;
  status_text = res.status_text;
  url = res.url;
  headers = res.headers;
  bytes = set_chunks (replicate r.total 0) 0 r.chunks;
  truncated = r.truncated;
}

abbrev pub or_get : Option (List ℕ) → List ℕ
or_get none = codes "GET"
or_get (some method) = or_else method (codes "GET")

module _ (web : Web) where
  abbrev pub decoded_body : Option (List ℕ) → Option (Option BodyInit)
  decoded_body none = none
  decoded_body (some b) = some (some (bytes b))

  abbrev pub text_body : Option (List ℕ) → Option BodyInit
  text_body none = none
  text_body (some t) = some (text t)

  -- The body of a request; `none` if it is not base64.
  unfoldable pub body_init : HostFetchRequest → Option (Option BodyInit)
  body_init req = elim req.body_bytes [
    | some b ↦ some (some (bytes b))
    | none ↦ elim req.body_b64 [
      | some t ↦ decoded_body (web.atob t)
      | none ↦ some (text_body req.body)
    ]
  ]

  abbrev pub thrown : Bool × Bool → HostFetchResult
  thrown (outer, inner) =
      failed (if outer then cancelled else if inner then timed_out else unreachable)

  abbrev pub response_read : Asked → Response → Option Reading → HostFetchResult
  response_read asked res none = thrown (web.aborted asked)
  response_read asked res (some r) = fetched (whole_of res r)

  abbrev pub response_of : Asked → Option Response → HostFetchResult
  response_of asked none = thrown (web.aborted asked)
  response_of asked (some res) = response_read asked res (stream_of res.body)

  abbrev pub asked_of : List ℕ → HostFetchRequest → Option BodyInit → Asked
  asked_of url req body = record {
    url = url;
    method = or_get req.method;
    headers = req.headers;
    body = body;
    limit_ms = clamp_ms 30_000 req.timeout_ms;
  }

  abbrev pub body_found : List ℕ → HostFetchRequest → Option (Option BodyInit) → HostFetchResult
  body_found url req none = failed bad_base64
  body_found url req (some body) =
      let asked = asked_of url req body in response_of asked (web.fetch asked)

  abbrev pub url_found : HostFetchRequest → Option (List ℕ) → HostFetchResult
  url_found req none = failed bad_url
  url_found req (some url) = body_found url req (body_init req)

  abbrev pub or_empty : Option (List ℕ) → List ℕ
  or_empty none = []
  or_empty (some url) = url

  unfoldable pub host_fetch : HostFetchRequest → HostFetchResult
  host_fetch req = url_found req (web.resolve (or_empty req.url))
