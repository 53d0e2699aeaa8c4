-- ===== src/Rpc/Parser/Bound.antt =====
-- How many bytes the parser holds between two pushes.
use vinx.Prelude.{
  ℕ, ◌+◌, ◌-◌, ◌≤◌, ◌<◌, ◌≡◌, refl, sym, ap, ◌∙◌, List, true, false, Bool, arith, length, drop,
  ◌==◌, if◌then◌else◌, Option-cases, inl, inr, length-drop, min,
}
use vinx.Wire.{at, slice, Scan, read_int, read_int_waits, read_int_digits}
use vinx.Rpc.Frame.{Utf8, hard_frame_limit, max_seq_digits, max_len_digits, byte_sp, byte_lf}
use vinx.Rpc.Parser.{
  Parser, Outcome, frame, wait, bad, stop, parse_at_head, parse_seq, parse_length, parse_payload,
  find_header, on_outcome, skip_noise, with_need, push_all,
}
use vinx.Rpc.Parser.Rounds.{turn-some, turn-none}
use vinx.Rpc.Parser.Chunks.{IsSettled, push_all-IsSettled}

-- The longest header, the longest payload and an LF.
abbrev pub longest_frame : ℕ
longest_frame = 21 + 11 + 9 + hard_frame_limit + 1

module _ (utf8 : Utf8) (fifo : List ℕ) where
  payload_waits :
      (epoch : List ℕ) (seq payload_at len : ℕ) {n : ℕ}
      → payload_at ≤ 41
      → len ≤ hard_frame_limit
      → parse_payload utf8 fifo epoch seq payload_at len ≡ wait n
      → (length fifo < n) × (n ≤ longest_frame)
  unfolding parse_payload
  payload_waits epoch seq payload_at len b c h = ground arith

  length_waits :
      (epoch : List ℕ) (seq from : ℕ) (r : Scan) {n : ℕ}
      → from ≤ 32
      → read_int fifo from max_len_digits byte_sp ≡ r
      → parse_length utf8 fifo epoch seq r ≡ wait n
      → (length fifo < n) × (n ≤ longest_frame)
  unfolding parse_length
  length_waits epoch seq from Scan.wait b e h =
      ground (arith, read_int_waits fifo from max_len_digits byte_sp e)
  length_waits epoch seq from Scan.bad b e h = cc
  length_waits epoch seq from (Scan.done len end) {n} b e h = ground (
    arith,
    read_int_digits fifo from max_len_digits byte_sp {v = len} {e = end} e,
    payload_waits epoch seq (end + 1) len {n = n},
  )

  seq_waits :
      (epoch : List ℕ) (is_data : Bool) (last : ℕ) (r : Scan) {n : ℕ}
      → read_int fifo 21 max_seq_digits last ≡ r
      → parse_seq utf8 fifo epoch is_data r ≡ wait n
      → (length fifo < n) × (n ≤ longest_frame)
  unfolding parse_seq
  seq_waits epoch is_data last Scan.wait e h =
      ground (arith, read_int_waits fifo 21 max_seq_digits last e)
  seq_waits epoch is_data last Scan.bad e h = cc
  seq_waits epoch false last (Scan.done seq end) e h = cc
  seq_waits epoch true last (Scan.done seq end) {n} e h =
      length_waits epoch seq (end + 1) _
        (omega (arith, read_int_digits fifo 21 max_seq_digits last {v = seq} {e = end} e)) refl h

  -- A wait is for more bytes than there are, and for no more than the longest frame has.
  parse_at_head_waits :
      {n : ℕ} → parse_at_head utf8 fifo ≡ wait n → (length fifo < n) × (n ≤ longest_frame)
  unfolding parse_at_head
  parse_at_head_waits {n} h = ground (
    arith,
    seq_waits (slice fifo 4 20) (at fifo 2 == 0x31) (if at fifo 2 == 0x31 then byte_sp else byte_lf)
        _ {n = n} refl,
  )

module _ (utf8 : Utf8) where
  stop_bound :
      (o : Outcome) (p q : Parser)
      → ((n : ℕ) → o ≡ wait n → (length p.fifo < n) × (n ≤ longest_frame))
      → on_outcome o p ≡ stop q
      → (length q.fifo < q.need) × (q.need ≤ longest_frame)
  unfolding on_outcome
  stop_bound (wait n) p q w h = ground (arith, w n refl)
  stop_bound bad p q w h = cc
  stop_bound (frame f n) p q w h = cc

  none_bound :
      (p : Parser) (t : ℕ)
      → t ≡ length p.fifo - min (length p.fifo) 3
      → with_need 4 (skip_noise t p) ≡ p
      → (length p.fifo < p.need) × (p.need ≤ longest_frame)
  unfolding skip_noise
  none_bound p t e same = omega (
    arith,
    ap (λ (r : Parser). r.need) same,
    ap (λ (r : Parser). length r.fifo) same,
    length-drop t p.fifo,
  )

  skipped_waits :
      (p : Parser) (i n : ℕ)
      → parse_at_head utf8 (drop i p.fifo) ≡ wait n
      → (length (skip_noise i p).fifo < n) × (n ≤ longest_frame)
  unfolding skip_noise
  skipped_waits p i n w = parse_at_head_waits utf8 (drop i p.fifo) w

  settled_bound :
      (p : Parser) → IsSettled utf8 p → (length p.fifo < p.need) × (p.need ≤ longest_frame)
  settled_bound p settled = elim (Option-cases (find_header p.fifo)) [
    | inl e ↦ none_bound p _ refl (cc (settled, turn-none utf8 p e))
    | inr (i, e) ↦
        stop_bound (parse_at_head utf8 (drop i p.fifo)) (skip_noise i p) p (skipped_waits p i)
          (sym (turn-some utf8 p i e) ∙ settled)
  ]

  -- After a push to a parser with nothing left to do, fewer bytes are held than it waits for, and
  -- it never waits for more than the longest frame has: a length field cannot make it hold more.
  pub push_all_bound :
      (p : Parser) (bytes : List ℕ)
      → IsSettled utf8 p
      → let q = (push_all utf8 p bytes).1 in (length q.fifo < q.need) × (q.need ≤ longest_frame)
  push_all_bound p bytes settled =
      settled_bound (push_all utf8 p bytes).1 (push_all-IsSettled utf8 p bytes settled)
