-- ===== src/Hostcall/Delivery.antt =====
-- What the machine gets of a response that the page fetched (web/app/hostcall.ts).
use vinx.Prelude.{
  arith, ℕ, ◌≡◌, ◌⊎◌, inl, inr, refl, sym, ap, subst, ◌∙◌, Bool, true, false, Option, none, some,
  List, [], ◌∷◌, ◌++◌, ltb, leb, if◌then◌else◌, length, take, joined,
}
use vinx.Prelude.Text.{codes}
use vinx.Rpc.Json.{Json, property, as_string}
use vinx.Rpc.Link.State.{inline_max_size}
use vinx.Hostcall.{
  max_fetch_bytes, tmp_prefix, data_plane_unavailable, Result, ok, err, RefIo, Serve, pure, ◌>>=◌,
}
use vinx.Hostcall.Refs.{is_bare, is_base, safe_id, read_ref, written, write_ref}
use vinx.Hostcall.Fetch.{
  BodyInit, Asked, Stream, Response, Web, Fetched, fetched, nothing_read, stream_of, whole_of,
  response_read, read_loop, response_of, body_init, asked_of, body_found, url_found, or_empty,
  host_fetch,
}
use vinx.Hostcall.Reply.{
  Meta, FetchReply, no_answer, with_body, with_b64, with_ref, request_of, meta_of, is_binary,
  inline_of, staged_of, fits, by_ref, answer, http_fetch,
}
use vinx.Hostcall.Reading.{read_loop-IsReadingOf, set_chunks-joined}
use vinx.Hostcall.Staged.{bind_ok, IsRefIo, ref_of, all_append, all-safe_id, read_ref-written}

-- The byte order mark, which a TextDecoder takes off.
abbrev pub bom : List ℕ
bom = 0xEF ∷ 0xBB ∷ 0xBF ∷ []

-- What the base64 and the text codecs of a browser promise.
pub record IsWeb (web : Web) : Type 0 where
  pub atob-btoa : (b : List ℕ) → web.atob (web.btoa b) ≡ some b
  pub encode-decode :
      (b t : List ℕ) → web.decode b ≡ some t → (web.encode t ≡ b) ⊎ (bom ++ web.encode t ≡ b)

abbrev pub read_back : {S : Type 0} → Result (List ℕ) × S → Option (List ℕ)
read_back (ok bytes, s) = some bytes
read_back (err f, s) = none

-- Whether a reply with a body says that it was cut.
abbrev pub cut_in : FetchReply → Option Bool
cut_in (no_answer e) = none
cut_in (with_body meta t) = some meta.truncated
cut_in (with_b64 meta t) = some meta.truncated
cut_in (with_ref meta path size binary) = some meta.truncated

module _ {S : Type 0} (io : RefIo S) (web : Web) where
  -- The bytes of a reply, as the machine has them: in the reply, or by naming the ref.
  abbrev pub received : S → FetchReply → Option (List ℕ)
  received s (no_answer e) = none
  received s (with_body meta t) = some (web.encode t)
  received s (with_b64 meta t) = web.atob t
  received s (with_ref meta path size binary) = read_back (read_ref io (some (ref_of path size)) s)

  -- A reply that is marked so and has these bytes, a text without its byte order mark; or an error, as the file for them
  -- could not be written.
  abbrev pub IsDelivered : Bool → List ℕ → S → Result FetchReply × S → Type 0
  IsDelivered cut body s (ok reply, s') =
      (cut_in reply ≡ some cut)
      × ((received s' reply ≡ some body)
          ⊎ ((b : List ℕ) × (received s' reply ≡ some b) × (bom ++ b ≡ body)))
  IsDelivered cut body s (err f, s') =
      (f ≡ data_plane_unavailable) × ((path : List ℕ) × (io.write s path body ≡ none)) × (s' ≡ s)

  module _ (laws : IsRefIo io) (kept : IsWeb web) (weigh : FetchReply → ℕ) where
    either :
        (got : Fetched) (s : S) (c : Bool) (x y : Serve S FetchReply)
        → IsDelivered got.truncated got.bytes s (x s)
        → IsDelivered got.truncated got.bytes s (y s)
        → IsDelivered got.truncated got.bytes s ((if c then x else y) s)
    either got s true x y hx hy = hx
    either got s false x y hx hy = hy

    inline_of-IsDelivered :
        (s : S) (meta : Meta) (b : List ℕ) (d : Option (List ℕ))
        → web.decode b ≡ d
        → IsDelivered meta.truncated b s (ok (inline_of web meta b d), s)
    inline_of-IsDelivered s meta b none e = (refl, inl (kept.atob-btoa b))
    inline_of-IsDelivered s meta b (some t) e = elim (kept.encode-decode b t e) [
      | inl same ↦ (refl, inl (ap some same))
      | inr marked ↦ (refl, inr (web.encode t, refl, marked))
    ]

    file_name : List ℕ → List ℕ
    file_name id = codes "fetch-" ++ (safe_id id ++ codes ".bin")

    file_name-base : (id : List ℕ) → is_base (file_name id) ≡ true
    unfolding file_name
    file_name-base id = all_append is_bare (safe_id id) (codes ".bin") (all-safe_id id) refl

    -- What by_ref makes of an answer of `write`.
    abbrev after_write : List ℕ → Fetched → Option S → Serve S FetchReply
    after_write path got o = do
      p ← written io path o
      pure (with_ref (meta_of got) p (length got.bytes) (is_binary (web.decode got.bytes)))

    after_write-IsDelivered :
        (id : List ℕ) (s : S) (got : Fetched) (o : Option S)
        → io.write s (tmp_prefix ++ file_name id) got.bytes ≡ o
        → IsDelivered got.truncated got.bytes s (after_write (tmp_prefix ++ file_name id) got o s)
    after_write-IsDelivered id s got none e = (refl, (tmp_prefix ++ file_name id, e), refl)
    after_write-IsDelivered id s got (some s') e = (
      refl,
      inl (
          ap read_back
            (read_ref-written io laws s s' (file_name id) got.bytes (file_name-base id) e)),
    )

    by_ref-IsDelivered :
        (id : List ℕ) (s : S) (got : Fetched)
        → IsDelivered got.truncated got.bytes s (by_ref io web weigh id got s)
    unfolding write_ref file_name
    by_ref-IsDelivered id s got = after_write-IsDelivered id s got _ refl

    pub answer-IsDelivered :
        (id : List ℕ) (s : S) (got : Fetched)
        → IsDelivered got.truncated got.bytes s (answer io web weigh id (fetched got) s)
    unfolding answer
    answer-IsDelivered id s got =
        let told = inline_of web (meta_of got) got.bytes (web.decode got.bytes) in
        let filed = by_ref io web weigh id got in
        let small = fits io web weigh told in
        either got s (leb (length got.bytes) inline_max_size) (if small then pure told else filed)
          filed
          (either got s small (pure told) filed
            (inline_of-IsDelivered s (meta_of got) got.bytes (web.decode got.bytes) refl)
            (by_ref-IsDelivered id s got))
          (by_ref-IsDelivered id s got)

-- A response whose stream ends.
fetched_whole :
    (res : Response) (asked : Asked) (stream : Stream) (web : Web)
    → res.body ≡ some stream
    → stream.ends ≡ true
    → (got : Fetched) × (response_of web asked (some res) ≡ fetched got)
      × (got.bytes ≡ take max_fetch_bytes (joined stream.chunks))
      × (got.truncated ≡ ltb max_fetch_bytes (length (joined stream.chunks)))
fetched_whole res asked stream web has_body ends =
    let (r, reads, is_of) =
      read_loop-IsReadingOf stream.chunks nothing_read
        (record { total = refl; within = omega arith; whole = refl }) in
    let e : stream_of res.body ≡ some r =
      ap stream_of has_body ∙ ap (λ b. read_loop stream.chunks b nothing_read) ends ∙ reads in
    (
      whole_of res r,
      ap (response_read web asked res) e,
      set_chunks-joined r is_of.total ∙ is_of.bytes,
      is_of.truncated,
    )

module _ {S : Type 0} (io : RefIo S) (web : Web) (laws : IsRefIo io) (kept : IsWeb web)
    (weigh : FetchReply → ℕ) where
  -- Where the body of a request could be had, its URL read, and the fetch was answered by a response
  -- whose stream ends, `http.fetch` returns its first 2 MB: within the reply or as a file that the
  -- machine may name, and marked as cut just if there was more. Only the byte order mark of a text
  -- may be missing. The one error is that the file could not be written, and then none is.
  pub http_fetch-IsDelivered :
      (id : List ℕ) (params : Json) (s : S) (staged : Option (List ℕ)) (url : List ℕ)
      (body : Option BodyInit) (res : Response) (stream : Stream)
      → staged_of io (property (codes "bodyRef") params) s ≡ (ok staged, s)
      → web.resolve (or_empty web (as_string (property (codes "url") params))) ≡ some url
      → body_init web (request_of params staged) ≡ some body
      → web.fetch (asked_of web url (request_of params staged) body) ≡ some res
      → res.body ≡ some stream
      → stream.ends ≡ true
      → IsDelivered io web
          (ltb max_fetch_bytes (length (joined stream.chunks)))
          (take max_fetch_bytes (joined stream.chunks))
          s
          (http_fetch io web weigh id params s)
  unfolding http_fetch host_fetch
  http_fetch-IsDelivered id params s staged url body res stream has_staged at_url has_body answered
        streams ends =
      let asked = asked_of web url (request_of params staged) body in
      let (got, is_got, bytes, cut) = fetched_whole res asked stream web streams ends in
      let answers : host_fetch web (request_of params staged) ≡ fetched got =
        ap (url_found web (request_of params staged)) at_url
        ∙ ap (body_found web url (request_of params staged)) has_body
        ∙ ap (response_of web asked) answered
        ∙ is_got in
      let runs : http_fetch io web weigh id params s ≡ answer io web weigh id (fetched got) s =
        bind_ok (staged_of io (property (codes "bodyRef") params))
          (λ b. answer io web weigh id (host_fetch web (request_of params b))) s s staged has_staged
        ∙ ap (λ r. answer io web weigh id r s) answers in
      subst
        (λ c.
          IsDelivered io web c (take max_fetch_bytes (joined stream.chunks)) s
            (http_fetch io web weigh id params s))
        cut
        (subst (λ b. IsDelivered io web got.truncated b s (http_fetch io web weigh id params s))
          bytes
          (subst (IsDelivered io web got.truncated got.bytes s) (sym runs)
            (answer-IsDelivered io web laws kept weigh id s got)))
