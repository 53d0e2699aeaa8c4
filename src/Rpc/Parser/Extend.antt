-- ===== src/Rpc/Parser/Extend.antt =====
-- A round of the parser's loop on a queue with bytes behind it, against the round on the queue.
use native.Mathlib.Nat.{add_assoc}
use vinx.Prelude.{
  ℕ, ◌+◌, ◌≤◌, ◌<◌, ◌≡◌, refl, sym, ap, ap₂, subst, ◌∙◌, List, ◌++◌, none, some, ◌⊎◌, inl, inr,
  arith, length, drop, length-append, drop-append, drop-drop, length-drop, Option-cases,
}
use vinx.Rpc.Frame.{Utf8, Frame}
use vinx.Rpc.Parser.{
  Parser, Outcome, frame, wait, bad, stop, again, parse_at_head, on_outcome, turn, skip_noise,
  with_need, find_header,
}
use vinx.Rpc.Parser.Stable.{Kept}
use vinx.Rpc.Parser.Search.{
  find_header-some, find_header-append, find_header-drop, find_header-tail, tail_start, shift_by,
}
use vinx.Rpc.Parser.Rounds.{
  extend, turn_short, turn-none, turn-some, skip_noise-zero, skip_noise-extend,
  on_outcome-with_need, on_outcome-append, parse-Kept, parse_at_head-used,
}

Outcome-cases :
    (o : Outcome)
    → ((n : ℕ) × (o ≡ wait n)) ⊎ ((p : Parser) (q : Parser) → ¬ (on_outcome o p ≡ stop q))
unfolding on_outcome
Outcome-cases (wait n) = inl (n, refl)
Outcome-cases bad = inr (λ p q h. cc)
Outcome-cases (frame f n) = inr (λ p q h. cc)

drop-tail :
    (t k : ℕ) (xs ys : List ℕ) → t ≤ length xs → drop (t + k) (xs ++ ys) ≡ drop k (drop t xs ++ ys)
drop-tail t k xs ys h = sym (drop-drop k t (xs ++ ys)) ∙ ap (drop k) (drop-append t xs ys h)

skip_noise-skip_noise :
    (t k : ℕ) (p : Parser) (ys : List ℕ)
    → t ≤ length p.fifo
    → skip_noise k (extend (skip_noise t p) ys) ≡ skip_noise (t + k) (extend p ys)
unfolding skip_noise
skip_noise-skip_noise t k p ys h =
    rw (drop-tail t k p.fifo ys h, ← add_assoc p.stats.noise_bytes t k)

module _ (utf8 : Utf8) where
  waits :
      (p q : Parser) (i n : ℕ)
      → find_header p.fifo ≡ some i
      → parse_at_head utf8 (drop i p.fifo) ≡ wait n
      → turn utf8 p ≡ stop q
      → with_need n (skip_noise i p) ≡ q
  unfolding on_outcome
  waits p q i n e o h = cc (h, turn-some utf8 p i e, ap (λ r. on_outcome r (skip_noise i p)) o)

  -- At a header, the longer queue goes on with its own answer at the same place.
  turn-some-extend :
      (p : Parser) (ys : List ℕ) (i : ℕ)
      → find_header p.fifo ≡ some i
      → turn utf8 (extend p ys)
        ≡ on_outcome (parse_at_head utf8 (drop i p.fifo ++ ys)) (extend (skip_noise i p) ys)
  turn-some-extend p ys i h =
      let inside : i ≤ length p.fifo = omega (arith, (find_header-some p.fifo i h).0) in
      turn-some utf8 (extend p ys) i (find_header-append p.fifo ys i h)
      ∙ ap₂ on_outcome (ap (parse_at_head utf8) (drop-append i p.fifo ys inside))
          (skip_noise-extend i p ys inside)

  -- A round that delivers or skips does the same, whatever bytes follow.
  pub turn-again-extend :
      (p q : Parser) (fs : List Frame) (ys : List ℕ)
      → turn utf8 p ≡ again fs q
      → turn utf8 (extend p ys) ≡ again fs (extend q ys)
  turn-again-extend p q fs ys h = elim (Option-cases (find_header p.fifo)) [
    | inl e ↦ cc (turn-none utf8 p e)
    | inr (i, e) ↦
        let four = (find_header-some p.fifo i e).0 in
        turn-some-extend p ys i e
        ∙ on_outcome-append utf8 (skip_noise i p) ys (parse_at_head utf8 (drop i p.fifo)) _ fs q
            (unfold skip_noise in omega (arith, four, length-drop i p.fifo))
            (λ f n o. unfold skip_noise in (parse_at_head-used utf8 (drop i p.fifo) o).1)
            (unfold skip_noise in parse-Kept utf8 (drop i p.fifo) ys)
            (sym (turn-some utf8 p i e) ∙ h)
  ]

  none-after :
      (p : Parser) (ys : List ℕ) (t : ℕ)
      → find_header (drop t p.fifo ++ ys) ≡ none
      → turn utf8 (extend (with_need 4 (skip_noise t p)) ys)
        ≡ stop (
            with_need 4
              (skip_noise (tail_start (drop t p.fifo ++ ys)) (extend (skip_noise t p) ys)))
  unfolding skip_noise
  none-after p ys t absent = turn-none utf8 (extend (with_need 4 (skip_noise t p)) ys) absent

  some-after :
      (p : Parser) (ys : List ℕ) (t j : ℕ)
      → find_header (drop t p.fifo ++ ys) ≡ some j
      → turn utf8 (extend (with_need 4 (skip_noise t p)) ys)
        ≡ on_outcome
            (parse_at_head utf8 (drop j (drop t p.fifo ++ ys)))
            (with_need 4 (skip_noise j (extend (skip_noise t p) ys)))
  unfolding skip_noise
  some-after p ys t j found = turn-some utf8 (extend (with_need 4 (skip_noise t p)) ys) j found

  -- A queue without a header may drop all but its last three bytes before more come.
  none-extend :
      (p : Parser) (ys : List ℕ)
      → find_header p.fifo ≡ none
      → turn utf8 (extend p ys)
        ≡ turn utf8 (extend (with_need 4 (skip_noise (tail_start p.fifo) p)) ys)
  none-extend p ys e = elim (Option-cases (find_header (drop t p.fifo ++ ys))) [
    | inl absent ↦
        turn-none utf8 (extend p ys) (later ∙ ap (shift_by t) absent)
        ∙ ap (λ r. stop (with_need 4 r)) merged
        ∙ sym (none-after p ys t absent)
    | inr (j, found) ↦
        turn-some utf8 (extend p ys) (t + j) (later ∙ ap (shift_by t) found)
        ∙ ap₂ (λ zs r. on_outcome (parse_at_head utf8 zs) r) (drop-tail t j p.fifo ys inside)
            (sym (skip_noise-skip_noise t j p ys inside))
        ∙ sym (on_outcome-with_need _ 4 _)
        ∙ sym (some-after p ys t j found)
  ]
    where
      t : ℕ
      t = tail_start p.fifo

      inside : t ≤ length p.fifo
      inside = omega arith

      later : find_header (p.fifo ++ ys) ≡ shift_by t (find_header (drop t p.fifo ++ ys))
      later = find_header-tail p.fifo ys e

      start_sum : tail_start (p.fifo ++ ys) ≡ t + tail_start (drop t p.fifo ++ ys)
      start_sum =
          omega
            (arith, length-append p.fifo ys, length-append (drop t p.fifo) ys, length-drop t p.fifo)

      merged :
          skip_noise (tail_start (p.fifo ++ ys)) (extend p ys)
          ≡ skip_noise (tail_start (drop t p.fifo ++ ys)) (extend (skip_noise t p) ys)
      merged = rw start_sum (sym (skip_noise-skip_noise t _ p ys inside))

  some-extend :
      (p : Parser) (ys : List ℕ) (i n : ℕ)
      → find_header p.fifo ≡ some i
      → turn utf8 (extend (with_need n (skip_noise i p)) ys)
        ≡ on_outcome (parse_at_head utf8 (drop i p.fifo ++ ys)) (extend (skip_noise i p) ys)
  some-extend p ys i n e =
      turn-some utf8 (extend (with_need n (skip_noise i p)) ys) 0
        (unfold skip_noise in find_header-drop p.fifo ys i e)
      ∙ rw (skip_noise-zero (extend (with_need n (skip_noise i p)) ys))
          (unfold skip_noise in on_outcome-with_need _ n _)

  waiting_lem :
      (p : Parser) (ys : List ℕ) (i n : ℕ)
      → parse_at_head utf8 (drop i p.fifo) ≡ wait n
      → length ((skip_noise i p).fifo ++ ys) < n
      → on_outcome (parse_at_head utf8 (drop i p.fifo ++ ys)) (extend (skip_noise i p) ys)
        ≡ stop (extend (with_need n (skip_noise i p)) ys)
  unfolding on_outcome skip_noise
  waiting_lem p ys i n o short = rw (kept short)
    where
      kept : Kept (length (drop i p.fifo ++ ys)) (wait n) (parse_at_head utf8 (drop i p.fifo ++ ys))
      kept =
          subst
            (λ r. Kept (length (drop i p.fifo ++ ys)) r (parse_at_head utf8 (drop i p.fifo ++ ys)))
            o (parse-Kept utf8 (drop i p.fifo) ys)

  -- A round that waits leaves a queue on which, with more bytes, the round is the same.
  pub turn-stop-extend :
      (p q : Parser) (ys : List ℕ)
      → turn utf8 p ≡ stop q
      → turn utf8 (extend p ys) ≡ turn utf8 (extend q ys)
  turn-stop-extend p q ys h = elim (Option-cases (find_header p.fifo)) [
    | inl e ↦
        let same : with_need 4 (skip_noise (tail_start p.fifo) p) ≡ q =
          cc (h, turn-none utf8 p e) in
        none-extend p ys e ∙ ap (λ r. turn utf8 (extend r ys)) same
    | inr (i, e) ↦ elim (Outcome-cases (parse_at_head utf8 (drop i p.fifo))) [
      | inl (n, o) ↦
          let same : with_need n (skip_noise i p) ≡ q = waits p q i n e o h in
          turn-some-extend p ys i e
          ∙ sym (some-extend p ys i n e)
          ∙ ap (λ r. turn utf8 (extend r ys)) same
      | inr never ↦ absurd (never _ _ (sym (turn-some utf8 p i e) ∙ h))
    ]
  ]

  -- No round is due before the bytes that it waits for are there.
  pub turn-gate :
      (p q : Parser) (ys : List ℕ)
      → turn utf8 p ≡ stop q
      → length (q.fifo ++ ys) < q.need
      → turn utf8 (extend q ys) ≡ stop (extend q ys)
  turn-gate p q ys h few = elim (Option-cases (find_header p.fifo)) [
    | inl e ↦ subst Gated (same e) (λ short. turn_short utf8 _ short) few
    | inr (i, e) ↦ elim (Outcome-cases (parse_at_head utf8 (drop i p.fifo))) [
      | inl (n, o) ↦ subst Gated (waits p q i n e o h) (waiting i n e o) few
      | inr never ↦ absurd (never _ _ (sym (turn-some utf8 p i e) ∙ h))
    ]
  ]
    where
      Gated : Parser → Type 0
      Gated r = length (r.fifo ++ ys) < r.need → turn utf8 (extend r ys) ≡ stop (extend r ys)

      same : find_header p.fifo ≡ none → with_need 4 (skip_noise (tail_start p.fifo) p) ≡ q
      same e = cc (h, turn-none utf8 p e)

      waiting :
          (i n : ℕ)
          → find_header p.fifo ≡ some i
          → parse_at_head utf8 (drop i p.fifo) ≡ wait n
          → Gated (with_need n (skip_noise i p))
      waiting i n e o short = some-extend p ys i n e ∙ waiting_lem p ys i n o short
