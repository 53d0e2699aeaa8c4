-- ===== src/Rpc/Parser/Chunks.antt =====
-- The loop of `drain`, and bytes that come in several pushes (web/app/rpc.ts).
use vinx.Prelude.{
  joined, ℕ, zero, suc, ◌-◌, ◌<◌, ◌≡◌, refl, sym, ap, ◌∙◌, List, [], ◌∷◌, ◌++◌, inl, inr, arith,
  leb, length, drop, length-drop, Option-cases, append-nil, append_assoc, Bool-cases,
}
use vinx.Rpc.Frame.{Utf8, Frame}
use vinx.Rpc.Parser.{
  Parser, Outcome, frame, wait, bad, stop, again, on_outcome, turn, skip_noise, find_header,
  drain_loop, drain, push_all, push, reset, new_parser,
}
use vinx.Rpc.Parser.Search.{find_header-some}
use vinx.Rpc.Parser.Rounds.{
  extend, Turn-cases, turn_short, turn-none, turn-some, parse_at_head-used,
}
use vinx.Rpc.Parser.Extend.{turn-again-extend, turn-stop-extend, turn-gate}

-- Nothing is left to do before more bytes come.
abbrev pub IsSettled : Utf8 → Parser → Type 0
IsSettled utf8 p = turn utf8 p ≡ stop p

-- Frames in front of a result.
abbrev pub prepend : List Frame → List Frame × Parser → List Frame × Parser
prepend fs r = (fs ++ r.0, r.1)

extend-nil : (p : Parser) → extend p [] ≡ p
extend-nil p = rw append-nil

on_outcome-drops :
    (o : Outcome) (p q : Parser) (fs : List Frame)
    → 0 < length p.fifo
    → ((f : Frame) (n : ℕ) → o ≡ frame f n → 0 < n)
    → on_outcome o p ≡ again fs q
    → length q.fifo < length p.fifo
unfolding on_outcome skip_noise
on_outcome-drops (wait n) p q fs some_bytes used h = cc
on_outcome-drops bad p q fs some_bytes used h = ground (arith, length-drop 4 p.fifo)
on_outcome-drops (frame f n) p q fs some_bytes used h =
    ground (arith, used f n refl, length-drop n p.fifo)

module _ (utf8 : Utf8) where
  -- Each round that goes on drops at least one byte.
  pub turn-drops :
      (p q : Parser) (fs : List Frame) → turn utf8 p ≡ again fs q → length q.fifo < length p.fifo
  turn-drops p q fs h = elim (Option-cases (find_header p.fifo)) [
    | inl e ↦ cc (turn-none utf8 p e)
    | inr (i, e) ↦
        let four = (find_header-some p.fifo i e).0 in
        let shorter : length (skip_noise i p).fifo ≡ length p.fifo - i =
          unfold skip_noise in length-drop i p.fifo in
        let drops =
          on_outcome-drops _ (skip_noise i p) q fs (omega (arith, four, shorter))
            (λ f n o. (parse_at_head-used utf8 (drop i p.fifo) o).0)
            (sym (turn-some utf8 p i e) ∙ h) in
        omega (arith, shorter, drops)
  ]

  drain_loop-stop :
      (fuel : ℕ) (p q : Parser) → turn utf8 p ≡ stop q → drain_loop utf8 (suc fuel) p ≡ ([], q)
  unfolding drain_loop
  drain_loop-stop fuel p q h = rw (h, drain_loop)

  drain_loop-again :
      (fuel : ℕ) (p q : Parser) (fs : List Frame)
      → turn utf8 p ≡ again fs q
      → drain_loop utf8 (suc fuel) p ≡ prepend fs (drain_loop utf8 fuel q)
  unfolding drain_loop
  drain_loop-again fuel p q fs h = rw (h, drain_loop)

  -- Any fuel above the number of bytes gives the same result.
  drain_loop_fuel :
      (m n : ℕ) (p : Parser)
      → length p.fifo < m
      → length p.fifo < n
      → drain_loop utf8 m p ≡ drain_loop utf8 n p
  drain_loop_fuel zero n p h k = absurd (omega arith)
  drain_loop_fuel (suc m) zero p h k = absurd (omega arith)
  drain_loop_fuel (suc m) (suc n) p h k = elim (Turn-cases (turn utf8 p)) [
    | inl (q, e) ↦ drain_loop-stop m p q e ∙ sym (drain_loop-stop n p q e)
    | inr (fs, q, e) ↦
        drain_loop-again m p q fs e
        ∙ ap (prepend fs) (
            drain_loop_fuel m n q (omega (arith, turn-drops p q fs e))
              (omega (arith, turn-drops p q fs e)))
        ∙ sym (drain_loop-again n p q fs e)
  ]

  pub drain-stop : (p q : Parser) → turn utf8 p ≡ stop q → drain utf8 p ≡ ([], q)
  unfolding drain
  drain-stop p q h = drain_loop-stop (length p.fifo) p q h

  pub drain-again :
      (p q : Parser) (fs : List Frame)
      → turn utf8 p ≡ again fs q
      → drain utf8 p ≡ prepend fs (drain utf8 q)
  unfolding drain
  drain-again p q fs h =
      drain_loop-again (length p.fifo) p q fs h
      ∙ ap (prepend fs) (
          drain_loop_fuel (length p.fifo) (suc (length q.fifo)) q (turn-drops p q fs h)
            (omega arith))

  drain-turn : (p q : Parser) → turn utf8 p ≡ turn utf8 q → drain utf8 p ≡ drain utf8 q
  drain-turn p q same = elim (Turn-cases (turn utf8 p)) [
    | inl (r, e) ↦ drain-stop p r e ∙ sym (drain-stop q r (sym same ∙ e))
    | inr (fs, r, e) ↦ drain-again p r fs e ∙ sym (drain-again q r fs (sym same ∙ e))
  ]

  turn-stop-IsSettled : (p q : Parser) → turn utf8 p ≡ stop q → IsSettled utf8 q
  turn-stop-IsSettled p q h =
      ap (turn utf8) (sym (extend-nil q))
      ∙ sym (turn-stop-extend utf8 p q [] h)
      ∙ ap (turn utf8) (extend-nil p)
      ∙ h

  drain_within-IsSettled :
      (bound : ℕ) (p : Parser) → length p.fifo < bound → IsSettled utf8 (drain utf8 p).1
  drain_within-IsSettled zero p h = absurd (omega arith)
  drain_within-IsSettled (suc bound) p h = elim (Turn-cases (turn utf8 p)) [
    | inl (q, e) ↦ rw (drain-stop p q e) (turn-stop-IsSettled p q e)
    | inr (fs, q, e) ↦
        rw (drain-again p q fs e)
          (drain_within-IsSettled bound q (omega (arith, turn-drops p q fs e)))
  ]

  -- `drain` ends because the loop returns, never for want of fuel: another round from the state that
  -- it leaves returns at once and changes nothing.
  pub drain-IsSettled : (p : Parser) → IsSettled utf8 (drain utf8 p).1
  drain-IsSettled p = drain_within-IsSettled (suc (length p.fifo)) p (omega arith)

  drain_within-extend :
      (bound : ℕ) (p : Parser) (ys : List ℕ)
      → length p.fifo < bound
      → drain utf8 (extend p ys)
        ≡ prepend (drain utf8 p).0 (drain utf8 (extend (drain utf8 p).1 ys))
  drain_within-extend zero p ys h = absurd (omega arith)
  drain_within-extend (suc bound) p ys h = elim (Turn-cases (turn utf8 p)) [
    | inl (q, e) ↦
        rw (drain-stop p q e)
          (drain-turn (extend p ys) (extend q ys) (turn-stop-extend utf8 p q ys e))
    | inr (fs, q, e) ↦
        drain-again (extend p ys) (extend q ys) fs (turn-again-extend utf8 p q fs ys e)
        ∙ ap (prepend fs) (drain_within-extend bound q ys (omega (arith, turn-drops p q fs e)))
        ∙ rw (drain-again p q fs e) (rw append_assoc refl)
  ]

  -- Draining a longer queue is draining the queue, and then what is left with the bytes behind it.
  pub drain-extend :
      (p : Parser) (ys : List ℕ)
      → drain utf8 (extend p ys)
        ≡ prepend (drain utf8 p).0 (drain utf8 (extend (drain utf8 p).1 ys))
  drain-extend p ys = drain_within-extend (suc (length p.fifo)) p ys (omega arith)

  -- The gate of `push` and `pushAll` saves work and changes nothing.
  pub push_all-drain :
      (p : Parser) (ys : List ℕ) → IsSettled utf8 p → push_all utf8 p ys ≡ drain utf8 (extend p ys)
  unfolding push_all
  push_all-drain p ys settled = elim (Bool-cases (leb p.need (length (p.fifo ++ ys)))) [
    | inl due ↦ rw due
    | inr early ↦ rw early (
        sym (drain-stop (extend p ys) (extend p ys) (turn-gate utf8 p p ys settled (ground arith))))
  ]

  pub push-push_all : (p : Parser) (b : ℕ) → push utf8 p b ≡ push_all utf8 p (b ∷ [])
  unfolding push push_all
  push-push_all p b = refl

  pub push_all-IsSettled :
      (p : Parser) (ys : List ℕ) → IsSettled utf8 p → IsSettled utf8 (push_all utf8 p ys).1
  push_all-IsSettled p ys settled = rw (push_all-drain p ys settled) (drain-IsSettled (extend p ys))

  -- From a parser with nothing left to do, two pushes deliver the frames, and leave the state,
  -- that one push of all the bytes delivers and leaves, statistics and gate included.
  pub push_all-append :
      (p : Parser) (xs ys : List ℕ)
      → IsSettled utf8 p
      → push_all utf8 p (xs ++ ys)
        ≡ prepend (push_all utf8 p xs).0 (push_all utf8 (push_all utf8 p xs).1 ys)
  push_all-append p xs ys settled =
      push_all-drain p (xs ++ ys) settled
      ∙ ap (λ zs. drain utf8 (record p { fifo = zs })) (sym (append_assoc p.fifo xs ys))
      ∙ drain-extend (extend p xs) ys
      ∙ rw (push_all-drain p xs settled)
          (ap (prepend _) (sym (push_all-drain _ ys (drain-IsSettled (extend p xs)))))

  -- The state after pushes of byte arrays, one after another, and all the frames delivered.
  pub push_chunks : Parser → List (List ℕ) → List Frame × Parser
  push_chunks p [] = ([], p)
  push_chunks p (chunk ∷ chunks) =
      prepend (push_all utf8 p chunk).0 (push_chunks (push_all utf8 p chunk).1 chunks)

  -- From a parser with nothing left to do, any pushes deliver the frames, and leave the state, of
  -- one push of all their bytes: the cuts between pushes do not matter.
  pub push_chunks-joined :
      (p : Parser) (chunks : List (List ℕ))
      → IsSettled utf8 p
      → push_chunks p chunks ≡ push_all utf8 p (joined chunks)
  unfolding push_chunks
  push_chunks-joined p [] settled =
      sym (push_all-drain p [] settled ∙ rw (extend-nil p) (drain-stop p p settled))
  push_chunks-joined p (chunk ∷ chunks) settled =
      ap (prepend (push_all utf8 p chunk).0)
        (push_chunks-joined (push_all utf8 p chunk).1 chunks (push_all-IsSettled p chunk settled))
      ∙ sym (push_all-append p chunk (joined chunks) settled)

-- A parser that was just made or reset has nothing left to do.
pub new_parser-IsSettled : (utf8 : Utf8) → IsSettled utf8 new_parser
new_parser-IsSettled utf8 = turn_short utf8 new_parser (omega arith)

pub reset-IsSettled : (utf8 : Utf8) (p : Parser) → IsSettled utf8 (reset p)
unfolding reset skip_noise
reset-IsSettled utf8 p =
    turn_short utf8 (reset p) (ground (arith, length-drop (length p.fifo) p.fifo))
