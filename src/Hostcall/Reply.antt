-- ===== src/Hostcall/Reply.antt =====
-- `http.fetch` of web/app/hostcall.ts: what the machine is told of a fetch. The size of a result as
-- JSON is `weigh`.
use vinx.Prelude.{
  ℕ, ◌+◌, Bool, true, false, Option, none, some, List, [], ◌∷◌, ◌++◌, ltb, leb, if◌then◌else◌,
  length,
}
use vinx.Prelude.Text.{codes}
use vinx.Rpc.Json.{Json, Number, null, bool, num, str, arr, obj, property, as_string, as_number}
use vinx.Rpc.Link.State.{inline_max_size}
use vinx.Hostcall.{result_budget, RefIo, Serve, pure, ◌>>=◌}
use vinx.Hostcall.Refs.{safe_id, read_ref, write_ref}
use vinx.Hostcall.Fetch.{
  HostFetchRequest, Web, Fetched, FetchError, HostFetchResult, fetched, failed, host_fetch,
}

-- `trimHeaders`, from the bytes used so far.
unfoldable pub trim_headers : List (List ℕ × List ℕ) → ℕ → List (List ℕ × List ℕ) × Bool
trim_headers [] used = ([], false)
trim_headers ((k, v) ∷ rest) used =
    let now = used + length k + length v + 6 in
    let (headers, cut) = trim_headers rest now in
    if ltb 2048 now then (headers, true) else ((k, v) ∷ headers, cut)

pub record Meta : Type 0 where
  pub status : Number
  pub status_text : List ℕ
  pub url : List ℕ
  pub headers : List (List ℕ × List ℕ)
  pub headers_truncated : Bool
  pub truncated : Bool

pub data FetchReply : Type 0 where
  no_answer : FetchError → FetchReply
  with_body : Meta → List ℕ → FetchReply
  with_b64 : Meta → List ℕ → FetchReply
  -- the path and size of the resource, and whether it is no text
  with_ref : Meta → List ℕ → ℕ → Bool → FetchReply

abbrev pub as_headers : Option Json → Option Json
as_headers none = none
as_headers (some null) = none
as_headers (some (bool b)) = none
as_headers (some (num n)) = none
as_headers (some (str s)) = none
as_headers (some (arr xs)) = some (arr xs)
as_headers (some (obj fs)) = some (obj fs)

abbrev pub request_of : Json → Option (List ℕ) → HostFetchRequest
request_of params staged = record {
  url = as_string (property (codes "url") params);
  method = as_string (property (codes "method") params);
  headers = as_headers (property (codes "headers") params);
  body = as_string (property (codes "body") params);
  body_b64 = as_string (property (codes "bodyB64") params);
  body_bytes = staged;
  timeout_ms = as_number (property (codes "timeoutMs") params);
}

abbrev pub meta_of : Fetched → Meta
meta_of got =
    let (headers, cut) = trim_headers got.headers 0 in
    record {
      status = got.status;
      status_text = got.status_text;
      url = got.url;
      headers = headers;
      headers_truncated = cut;
      truncated = got.truncated;
    }

abbrev pub is_binary : Option (List ℕ) → Bool
is_binary none = true
is_binary (some t) = false

module _ (web : Web) where
  abbrev pub inline_of : Meta → List ℕ → Option (List ℕ) → FetchReply
  inline_of meta bytes (some text) = with_body meta text
  inline_of meta bytes none = with_b64 meta (web.btoa bytes)

module _ {S : Type 0} (io : RefIo S) where
  abbrev pub staged_of : Option Json → Serve S (Option (List ℕ))
  staged_of none = pure none
  staged_of (some ref) = do bytes ← read_ref io (some ref); pure (some bytes)

  module _ (web : Web) (weigh : FetchReply → ℕ) where
    abbrev pub fits : FetchReply → Bool
    fits reply = leb (weigh reply) result_budget

    abbrev pub by_ref : List ℕ → Fetched → Serve S FetchReply
    by_ref id got = do
      path ← write_ref io (codes "fetch-" ++ (safe_id id ++ codes ".bin")) got.bytes
      pure (with_ref (meta_of got) path (length got.bytes) (is_binary (web.decode got.bytes)))

    unfoldable pub answer : List ℕ → HostFetchResult → Serve S FetchReply
    answer id (failed e) = pure (no_answer e)
    answer id (fetched got) =
        let inline = inline_of web (meta_of got) got.bytes (web.decode got.bytes) in
        if leb (length got.bytes) inline_max_size
        then (if fits inline then pure inline else by_ref id got)
        else by_ref id got

    unfoldable pub http_fetch : List ℕ → Json → Serve S FetchReply
    http_fetch id params = do
      staged ← staged_of (property (codes "bodyRef") params)
      answer id (host_fetch web (request_of params staged))
