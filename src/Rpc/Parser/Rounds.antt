-- ===== src/Rpc/Parser/Rounds.antt =====
-- One round of the parser's loop, on a queue and on the same queue with bytes behind it.
use vinx.Prelude.{
  ℕ, ◌+◌, ◌≤◌, ◌<◌, ◌≡◌, refl, sym, ap, Bool, true, false, List, [], ◌∷◌, ◌++◌, none, some, ◌⊎◌,
  inl, inr, arith, ltb, ◌==◌, if◌then◌else◌, length, drop, drop-append, Bool-cases, lt→ltb, le→ltb,
  append-nil,
}
use native.Mathlib.Nat.{add-zero}
use vinx.Wire.{at, slice, Scan, read_int, read_int-end}
use vinx.Rpc.Frame.{Utf8, Frame, head_len, max_seq_digits, byte_sp, byte_lf}
use vinx.Rpc.Parser.{
  Parser, Outcome, frame, wait, bad, Turn, stop, again, parse_at_head, parse_seq, parse_length,
  parse_payload, on_outcome, at_header, turn, skip_noise, with_need, find_header,
}
use vinx.Rpc.Parser.Stable.{Kept, Kept-refl, parse_at_head-append}
use vinx.Rpc.Parser.Search.{find_header-some, tail_start}

abbrev pub extend : Parser → List ℕ → Parser
extend p ys = record p { fifo = p.fifo ++ ys }

pub Turn-cases :
    (t : Turn)
    → ((q : Parser) × (t ≡ stop q)) ⊎ ((fs : List Frame) × (q : Parser) × (t ≡ again fs q))
Turn-cases (stop q) = inl (q, refl)
Turn-cases (again fs q) = inr (fs, q, refl)

module _ (utf8 : Utf8) where
  used_payload :
      (fifo epoch : List ℕ) (seq payload_at len : ℕ) {f : Frame} {n : ℕ}
      → parse_payload utf8 fifo epoch seq payload_at len ≡ frame f n
      → (payload_at < n) × (n ≤ length fifo)
  unfolding parse_payload
  used_payload fifo epoch seq payload_at len h = ground arith

  used_length :
      (fifo epoch : List ℕ) (seq : ℕ) (r : Scan) {f : Frame} {n : ℕ}
      → parse_length utf8 fifo epoch seq r ≡ frame f n
      → (0 < n) × (n ≤ length fifo)
  unfolding parse_length
  used_length fifo epoch seq Scan.wait h = cc
  used_length fifo epoch seq Scan.bad h = cc
  used_length fifo epoch seq (Scan.done len end) {f} {n} h =
      ground (arith, used_payload fifo epoch seq (end + 1) len {f = f} {n = n})

  used_seq :
      (fifo epoch : List ℕ) (is_data : Bool) (from m last : ℕ) (r : Scan) {f : Frame} {n : ℕ}
      → read_int fifo from m last ≡ r
      → parse_seq utf8 fifo epoch is_data r ≡ frame f n
      → (0 < n) × (n ≤ length fifo)
  unfolding parse_seq
  used_seq fifo epoch is_data from m last Scan.wait e h = cc
  used_seq fifo epoch is_data from m last Scan.bad e h = cc
  used_seq fifo epoch false from m last (Scan.done seq end) e h =
      ground (arith, read_int-end fifo from m last {v = seq} {e = end} e)
  used_seq fifo epoch true from m last (Scan.done seq end) e h = used_length fifo epoch seq _ h

  -- A frame takes bytes that are in the queue, one at least.
  pub parse_at_head-used :
      (fifo : List ℕ) {f : Frame} {n : ℕ}
      → parse_at_head utf8 fifo ≡ frame f n
      → (0 < n) × (n ≤ length fifo)
  unfolding parse_at_head
  parse_at_head-used fifo {f} {n} h = ground (
    arith,
    used_seq fifo (slice fifo head_len 20) (at fifo 2 == 0x31) 21 max_seq_digits
        (if at fifo 2 == 0x31 then byte_sp else byte_lf) _ {f = f} {n = n} refl,
  )

  -- With more bytes, an answer at the head is given again, and the rest follows.
  pub on_outcome-append :
      (p : Parser) (ys : List ℕ) (o later : Outcome) (fs : List Frame) (q : Parser)
      → 4 ≤ length p.fifo
      → ((f : Frame) (n : ℕ) → o ≡ frame f n → n ≤ length p.fifo)
      → Kept (length (p.fifo ++ ys)) o later
      → on_outcome o p ≡ again fs q
      → on_outcome later (extend p ys) ≡ again fs (extend q ys)
  unfolding on_outcome skip_noise
  on_outcome-append p ys (wait n) later fs q four used kept h = cc
  on_outcome-append p ys bad later fs q four used kept h =
      rw kept (ground (arith, drop-append 4 p.fifo ys four))
  on_outcome-append p ys (frame f n) later fs q four used kept h =
      rw kept (ground (arith, drop-append n p.fifo ys (used f n refl)))

  pub parse-Kept :
      (fifo ys : List ℕ)
      → Kept (length (fifo ++ ys)) (parse_at_head utf8 fifo) (parse_at_head utf8 (fifo ++ ys))
  parse-Kept fifo [] = rw append-nil (Kept-refl _ _)
  parse-Kept fifo (y ∷ ys) = parse_at_head-append utf8 fifo (y ∷ ys) (omega arith)

pub skip_noise-zero : (p : Parser) → skip_noise 0 p ≡ p
unfolding skip_noise
skip_noise-zero p = rw add-zero

pub skip_noise-extend :
    (i : ℕ) (p : Parser) (ys : List ℕ)
    → i ≤ length p.fifo
    → skip_noise i (extend p ys) ≡ extend (skip_noise i p) ys
unfolding skip_noise
skip_noise-extend i p ys h = rw (drop-append i p.fifo ys h)

-- A round overwrites the number of bytes to wait for.
pub on_outcome-with_need :
    (o : Outcome) (n : ℕ) (p : Parser) → on_outcome o (with_need n p) ≡ on_outcome o p
unfolding on_outcome skip_noise
on_outcome-with_need (wait k) n p = refl
on_outcome-with_need bad n p = refl
on_outcome-with_need (frame f k) n p = refl

module _ (utf8 : Utf8) (p : Parser) where
  pub turn_short : length p.fifo < 4 → turn utf8 p ≡ stop (with_need 4 p)
  unfolding turn
  turn_short h = rw (lt→ltb _ 4 h)

  -- A queue without a header keeps its last three bytes.
  pub turn-none :
      find_header p.fifo ≡ none
      → turn utf8 p ≡ stop (with_need 4 (skip_noise (tail_start p.fifo) p))
  unfolding turn at_header
  turn-none h = elim (Bool-cases (ltb (length p.fifo) 4)) [
    | inl short ↦
        let e : tail_start p.fifo ≡ 0 = ground arith in
        rw (short, e) (ap (λ r. stop (with_need 4 r)) (sym (skip_noise-zero p)))
    | inr enough ↦ rw (enough, h)
  ]

  -- At a header, the answer of `parse_at_head` decides.
  pub turn-some :
      (i : ℕ)
      → find_header p.fifo ≡ some i
      → turn utf8 p ≡ on_outcome (parse_at_head utf8 (drop i p.fifo)) (skip_noise i p)
  unfolding turn at_header skip_noise
  turn-some i h = rw (le→ltb (length p.fifo) 4 (omega (arith, (find_header-some p.fifo i h).0)), h)
