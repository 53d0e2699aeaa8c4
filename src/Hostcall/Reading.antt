-- ===== src/Hostcall/Reading.antt =====
-- The loop of hostFetch that reads a response (web/app/hostcall.ts).
use vinx.Prelude.{
  ℕ, zero, suc, ◌+◌, ◌-◌, ◌≤◌, ◌<◌, ◌≡◌, refl, sym, ap, ap₂, subst, ◌∙◌, true, false, some, List,
  [], ◌∷◌, ◌++◌, append-nil, append_assoc, arith, ltb, ltb→lt, ltb→le, lt→ltb, le→ltb, if_true,
  if_false, length, take, drop, replicate, joined, joined-append, length-append, length-take,
  length-drop, length-replicate, take-append, take-all, take-length, Bool-cases, inl, inr,
}
use vinx.Hostcall.{max_fetch_bytes}
use vinx.Hostcall.Fetch.{Reading, add_chunk, cut_chunk, read_loop, set_chunks}

-- What has been read is the first part of what was sent, within the limit.
pub record IsPrefix (r : Reading) : Type 0 where
  pub total : r.total ≡ length (joined r.chunks)
  pub within : r.total ≤ max_fetch_bytes
  pub whole : r.truncated ≡ false

-- A reading of `all`, as far as the limit goes.
pub record IsReadingOf (all : List ℕ) (r : Reading) : Type 0 where
  pub bytes : joined r.chunks ≡ take max_fetch_bytes all
  pub total : r.total ≡ length (joined r.chunks)
  pub truncated : r.truncated ≡ ltb max_fetch_bytes (length all)

joined-last : (cs : List (List ℕ)) (c : List ℕ) → joined (cs ++ c ∷ []) ≡ joined cs ++ c
joined-last cs c = joined-append cs (c ∷ []) ∙ ap (◌++◌ (joined cs)) (append-nil c)

add_chunk-IsPrefix :
    (c : List ℕ) (r : Reading)
    → IsPrefix r
    → ltb max_fetch_bytes (r.total + length c) ≡ false
    → IsPrefix (add_chunk c r)
add_chunk-IsPrefix c r h fits = record {
  total =
      ap (λ n. n + length c) h.total
      ∙ sym (ap length (joined-last r.chunks c) ∙ length-append (joined r.chunks) c);
  within = ltb→le max_fetch_bytes (r.total + length c) fits;
  whole = h.whole;
}

-- `take` past the first part.
take_past :
    {A : Type 0} (n : ℕ) (xs ys : List A)
    → length xs ≤ n
    → take n (xs ++ ys) ≡ xs ++ take (n - length xs) ys
take_past n [] ys le = ap (λ k. take k ys) (omega arith)
take_past zero (x ∷ xs) ys le = absurd (omega arith)
take_past (suc n) (x ∷ xs) ys le =
    ap (◌∷◌ x) (take_past n xs ys (omega arith) ∙ ap (λ k. xs ++ take k ys) (omega arith))

cut_chunk-IsReadingOf :
    (c : List ℕ) (rest : List (List ℕ)) (r : Reading)
    → IsPrefix r
    → ltb max_fetch_bytes (r.total + length c) ≡ true
    → IsReadingOf (joined r.chunks ++ (c ++ joined rest)) (cut_chunk c r)
cut_chunk-IsReadingOf c rest r h over =
    let front = joined r.chunks in
    let short : length front ≤ max_fetch_bytes = omega (arith, h.total, h.within) in
    let more : max_fetch_bytes < r.total + length c =
      ltb→lt max_fetch_bytes (r.total + length c) over in
    let cut : joined (cut_chunk c r).chunks ≡ front ++ take (max_fetch_bytes - length front) c =
      joined-last r.chunks _ ∙ ap (λ n. front ++ take (max_fetch_bytes - n) c) h.total in
    record {
      bytes =
          cut
          ∙ sym (
              take_past max_fetch_bytes front (c ++ joined rest) short
              ∙ ap (◌++◌ front) (
                  take-append (max_fetch_bytes - length front) c (joined rest)
                    (omega (arith, h.total, more))));
      total = sym (
          ap length cut
          ∙ length-append front _
          ∙ ap (◌+◌ (length front)) (length-take (max_fetch_bytes - length front) c)
          ∙ omega (arith, h.total, more, short));
      truncated = sym (
          ap (ltb max_fetch_bytes)
            (length-append front _ ∙ ap (◌+◌ (length front)) (length-append c (joined rest)))
          ∙ lt→ltb _ _ (omega (arith, h.total, more)));
    }

ended : (r : Reading) → IsPrefix r → IsReadingOf (joined r.chunks ++ []) r
ended r h = record {
  bytes = sym (
      ap (take max_fetch_bytes) (append-nil (joined r.chunks))
      ∙ take-all max_fetch_bytes (joined r.chunks) (omega (arith, h.total, h.within)));
  total = h.total;
  truncated =
      h.whole
      ∙ sym (
          ap (λ l. ltb max_fetch_bytes (length l)) (append-nil (joined r.chunks))
          ∙ le→ltb _ _ (omega (arith, h.total, h.within)));
}

after :
    (front : List (List ℕ)) (c : List ℕ) (rest : List (List ℕ))
    → joined (front ++ c ∷ []) ++ joined rest ≡ joined front ++ (c ++ joined rest)
after front c rest =
    ap (λ l. l ++ joined rest) (joined-last front c) ∙ append_assoc (joined front) c (joined rest)

-- A stream that ends is read up to the limit, and it is told whether there was more.
pub read_loop-IsReadingOf :
    (cs : List (List ℕ)) (r : Reading)
    → IsPrefix r
    → (r' : Reading) × (read_loop cs true r ≡ some r')
      × IsReadingOf (joined r.chunks ++ joined cs) r'
unfolding read_loop
read_loop-IsReadingOf [] r h = (r, refl, ended r h)
read_loop-IsReadingOf ([] ∷ cs) r h = read_loop-IsReadingOf cs r h
read_loop-IsReadingOf ((x ∷ xs) ∷ cs) r h =
    elim (Bool-cases (ltb max_fetch_bytes (r.total + length (x ∷ xs)))) [
      | inl over ↦
          (cut_chunk (x ∷ xs) r, if_true _ _ _ over, cut_chunk-IsReadingOf (x ∷ xs) cs r h over)
      | inr fits ↦
          let (r', reads, is_of) =
            read_loop-IsReadingOf cs (add_chunk (x ∷ xs) r)
              (add_chunk-IsPrefix (x ∷ xs) r h fits) in
          (
            r',
            if_false _ _ _ fits ∙ reads,
            subst (λ all. IsReadingOf all r') (after r.chunks (x ∷ xs) cs) is_of,
          )
    ]

drop_past : (xs ys : List ℕ) (n : ℕ) → drop (length xs + n) (xs ++ ys) ≡ drop n ys
drop_past [] ys n = ap (λ k. drop k ys) (omega arith)
drop_past (x ∷ xs) ys n =
    let sum : suc (length xs) + n ≡ suc (length xs + n) = omega arith in
    ap (λ k. drop k (x ∷ (xs ++ ys))) sum ∙ drop_past xs ys n

set_chunks-after :
    (cs : List (List ℕ)) (front buffer : List ℕ)
    → length buffer ≡ length (joined cs)
    → set_chunks (front ++ buffer) (length front) cs ≡ front ++ joined cs
unfolding set_chunks
set_chunks-after [] front [] same = refl
set_chunks-after [] front (b ∷ bs) same = absurd (omega arith)
set_chunks-after (c ∷ cs) front buffer same =
    let long : length c ≤ length buffer = omega (arith, same, length-append c (joined cs)) in
    ap (λ l. set_chunks l (length front + length c) cs)
      (ap₂ (λ a b. a ++ (c ++ b)) (take-length front buffer (length front) refl)
          (drop_past front buffer (length c))
        ∙ sym (append_assoc front c (drop (length c) buffer)))
    ∙ ap (λ n. set_chunks ((front ++ c) ++ drop (length c) buffer) n cs)
        (sym (length-append front c))
    ∙ set_chunks-after cs (front ++ c) (drop (length c) buffer)
        (length-drop (length c) buffer ∙ omega (arith, same, length-append c (joined cs)))
    ∙ append_assoc front c (joined cs)

-- The chunks one after another are the bytes.
pub set_chunks-joined :
    (r : Reading)
    → r.total ≡ length (joined r.chunks)
    → set_chunks (replicate r.total 0) 0 r.chunks ≡ joined r.chunks
set_chunks-joined r same =
    set_chunks-after r.chunks [] (replicate r.total 0) (length-replicate r.total 0 ∙ same)
