-- ===== src/Rpc/Parser/Stable.antt =====
-- The answers of `parseAtHead` on a queue, and with more bytes behind it (web/app/rpc.ts).
use vinx.Prelude.{
  ℕ, ◌+◌, ◌-◌, ◌≤◌, ◌<◌, ◌≡◌, refl, Bool, true, false, not, List, ◌++◌, inl, inr, arith, ltb, ◌==◌,
  if◌then◌else◌, length, drop, all, length-append, get_or-append, take-append, drop-append,
  length-drop, Bool-cases, ltb→le, lt→ltb, le→ltb,
}
use vinx.Wire.{at, slice, Scan, read_int-append, read_int-end, Settled}
use vinx.Rpc.Frame.{
  Utf8, head_len, epoch_len, hard_frame_limit, byte_sp, max_len_digits, max_seq_digits,
}
use vinx.Rpc.Parser.{
  Outcome, frame, wait, bad, parse_payload, parse_length, parse_seq, parse_at_head, is_hex,
}

slice-append :
    (xs ys : List ℕ) (from to : ℕ)
    → from ≤ to
    → to ≤ length xs
    → slice (xs ++ ys) from to ≡ slice xs from to
slice-append xs ys from to f h =
    rw (drop-append from xs ys (omega arith))
      (take-append _ (drop from xs) ys (omega (arith, length-drop from xs)))

-- What is left of an answer when `n` bytes are there instead.
abbrev pub Kept : ℕ → Outcome → Outcome → Type 0
Kept n (wait need) later = n < need → later ≡ wait need
Kept n (frame f used) later = later ≡ frame f used
Kept n bad later = later ≡ bad

pub Kept-refl : (n : ℕ) (o : Outcome) → Kept n o o
Kept-refl n (wait need) = λ _. refl
Kept-refl n (frame f used) = refl
Kept-refl n bad = refl

Kept-if :
    (n : ℕ) (b : Bool) (x x' y y' : Outcome)
    → Kept n x x'
    → Kept n y y'
    → Kept n (if b then x else y) (if b then x' else y')
Kept-if n true x x' y y' h k = h
Kept-if n false x x' y y' h k = k

module _ (utf8 : Utf8) (fifo ys : List ℕ) (more : 0 < length ys) where
  long : length fifo < length (fifo ++ ys)
  long = omega (arith, length-append fifo ys)

  parse_payload-append :
      (epoch : List ℕ) (seq payload_at len : ℕ)
      → Kept
          (length (fifo ++ ys))
          (parse_payload utf8 fifo epoch seq payload_at len)
          (parse_payload utf8 (fifo ++ ys) epoch seq payload_at len)
  unfolding parse_payload
  parse_payload-append epoch seq payload_at len =
      elim (Bool-cases (ltb (length fifo) (payload_at + len + 1))) [
        | inl short ↦ rw short (λ few. rw (lt→ltb (length (fifo ++ ys)) _ few))
        | inr enough ↦
            let fits : payload_at + len + 1 ≤ length fifo = ltb→le _ _ enough in
            rw
              (
                enough,
                le→ltb (length (fifo ++ ys)) (payload_at + len + 1) (omega (arith, long)),
                get_or-append fifo ys (payload_at + len + 1 - 1) 0 (omega arith),
                slice-append fifo ys payload_at (payload_at + len) (omega arith) (omega arith),
              )
              (Kept-refl (length (fifo ++ ys)) _)
      ]

  parse_length-append :
      (epoch : List ℕ) (seq : ℕ) (r s : Scan)
      → Settled r s
      → Kept
          (length (fifo ++ ys))
          (parse_length utf8 fifo epoch seq r)
          (parse_length utf8 (fifo ++ ys) epoch seq s)
  unfolding parse_length
  parse_length-append epoch seq Scan.wait s h = λ few. absurd (omega (arith, long))
  parse_length-append epoch seq Scan.bad s h = rw h
  parse_length-append epoch seq (Scan.done len end) s h =
      rw h (elim (Bool-cases (ltb hard_frame_limit len)) [
        | inl over ↦ rw over
        | inr fits ↦ rw fits (parse_payload-append epoch seq (end + 1) len)
      ])

  parse_seq-append :
      (epoch : List ℕ) (is_data : Bool) (r s : Scan)
      → Settled r s
      → ((v end : ℕ) → r ≡ Scan.done v end → end + 1 ≤ length fifo)
      → Kept
          (length (fifo ++ ys))
          (parse_seq utf8 fifo epoch is_data r)
          (parse_seq utf8 (fifo ++ ys) epoch is_data s)
  unfolding parse_seq
  parse_seq-append epoch is_data Scan.wait s h inside = λ few. absurd (omega (arith, long))
  parse_seq-append epoch is_data Scan.bad s h inside = rw h
  parse_seq-append epoch false (Scan.done seq end) s h inside = rw h
  parse_seq-append epoch true (Scan.done seq end) s h inside = rw h (
      parse_length-append epoch seq _ _
        (read_int-append fifo ys (end + 1) max_len_digits byte_sp (inside seq end refl)))

  -- An answer other than a wait stands, and a wait stands until the bytes that it asks for are there.
  pub parse_at_head-append :
      Kept (length (fifo ++ ys)) (parse_at_head utf8 fifo) (parse_at_head utf8 (fifo ++ ys))
  unfolding parse_at_head
  parse_at_head-append = elim (Bool-cases (ltb (length fifo) (head_len + epoch_len + 1))) [
    | inl short ↦ rw short (λ few. rw (lt→ltb (length (fifo ++ ys)) _ few))
    | inr enough ↦
        let fits : head_len + epoch_len + 1 ≤ length fifo = ltb→le _ _ enough in
        rw
          (
            enough,
            le→ltb (length (fifo ++ ys)) (head_len + epoch_len + 1) (omega (arith, long)),
            get_or-append fifo ys 2 0 (omega arith),
            get_or-append fifo ys 20 0 (omega arith),
            slice-append fifo ys head_len (head_len + epoch_len) (omega arith) (omega arith),
          )
          (Kept-if _ (not (all is_hex (slice fifo head_len 20))) _ _ _ _ refl (
            Kept-if _ (not (at fifo 20 == byte_sp)) _ _ _ _ refl (
              parse_seq-append (slice fifo head_len 20) (at fifo 2 == 0x31) _ _
                (read_int-append fifo ys 21 max_seq_digits _ (omega arith))
                (λ v end e. omega (arith, read_int-end fifo 21 max_seq_digits _ e)))))
  ]
