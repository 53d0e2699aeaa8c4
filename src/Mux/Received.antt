-- ===== src/Mux/Received.antt =====
-- What the receive path of StreamMux holds and delivers (web/app/stream-mux.ts).
use vinx.Prelude.{
  ℕ, zero, suc, ◌+◌, ◌-◌, ◌≤◌, ◌<◌, ◌≡◌, refl, ap, subst, ◌⊎◌, min, false, Option, none, some, List,
  [], ◌∷◌, ◌++◌, inl, inr, arith, ltb, leb, length, drop, length-drop, Bool-cases,
}
use vinx.Prelude.Assoc.{nat_eq, lookup}
use vinx.Wire.{Scan, read_int, read_int_waits, read_int_digits}
use vinx.Mux.{Channel, Mux, Event, mux_frame_max, buffer_size, byte_lf, byte_sp}
use vinx.Mux.Receive.{
  Found, found, partial, unusable, find_mux_header, read_payload, read_channel, read_frame, discard,
  hand_over, MuxTurn, rest, next, on_found, at_found, mux_turn, mux_drain_loop, mux_drain, feed1,
  on_byte,
}

-- The bytes of the longest frame: its header, two fields of five digits, and the payload.
abbrev pub longest_mux_frame : ℕ
longest_mux_frame = 4 + 6 + 6 + mux_frame_max

module _ (buf : List ℕ) where
  payload_partial :
      (id from : ℕ) (r : Scan)
      → from ≤ 10
      → read_int buf from 5 byte_lf ≡ r
      → read_payload buf id r ≡ partial
      → length buf < longest_mux_frame
  unfolding read_payload
  payload_partial id from Scan.wait b e h = omega (arith, read_int_waits buf from 5 byte_lf e)
  payload_partial id from Scan.bad b e h = cc
  payload_partial id from (Scan.done len end) b e h =
      ground (arith, read_int_digits buf from 5 byte_lf {v = len} {e = end} e)

  channel_partial :
      (r : Scan)
      → read_int buf 4 5 byte_sp ≡ r
      → read_channel buf r ≡ partial
      → length buf < longest_mux_frame
  unfolding read_channel
  channel_partial Scan.wait e h = omega (arith, read_int_waits buf 4 5 byte_sp e)
  channel_partial Scan.bad e h = cc
  channel_partial (Scan.done id end) e h =
      payload_partial id (end + 1) _
        (omega (arith, read_int_digits buf 4 5 byte_sp {v = id} {e = end} e)) refl h

  -- A frame is waited for only while fewer bytes are there than the longest has.
  read_frame_partial : read_frame buf ≡ partial → length buf < longest_mux_frame
  unfolding read_frame
  read_frame_partial h = channel_partial _ refl h

  payload_used :
      (id : ℕ) (r : Scan) (j : ℕ) (payload : List ℕ) (n : ℕ)
      → read_payload buf id r ≡ found j payload n
      → 0 < n
  unfolding read_payload
  payload_used id Scan.wait j payload n h = cc
  payload_used id Scan.bad j payload n h = cc
  payload_used id (Scan.done len end) j payload n h = ground arith

  frame_used : (j : ℕ) (payload : List ℕ) (n : ℕ) → read_frame buf ≡ found j payload n → 0 < n
  unfolding read_frame read_channel
  frame_used j payload n h = go _ h
    where
      go : (r : Scan) → read_channel buf r ≡ found j payload n → 0 < n
      go Scan.wait e = cc
      go Scan.bad e = cc
      go (Scan.done id end) e = payload_used id _ j payload n e

find_mux_header-some : (xs : List ℕ) (i : ℕ) → find_mux_header xs ≡ some i → i + 4 ≤ length xs
unfolding find_mux_header
find_mux_header-some [] i h = cc
find_mux_header-some (x ∷ xs) zero h = ground arith
find_mux_header-some (x ∷ xs) (suc i) h = ground (arith, find_mux_header-some xs i)

buf-hand_over :
    (ch : Option Channel) (payload : List ℕ) (m : Mux) → (hand_over ch payload m).1.buf ≡ m.buf
unfolding hand_over
buf-hand_over none payload m = refl
buf-hand_over (some ch) payload m = refl

-- Either a round ends with less than a frame in the buffer, or it drops a byte at least.
abbrev Shrinks : Mux → MuxTurn → Type 0
Shrinks m (rest r) = length r.buf < longest_mux_frame
Shrinks m (next (es, r)) = length r.buf < length m.buf

on_found-Shrinks :
    (o : Found) (m : Mux) → 4 ≤ length m.buf → read_frame m.buf ≡ o → Shrinks m (on_found o m)
unfolding on_found discard
on_found-Shrinks partial m four e = read_frame_partial m.buf e
on_found-Shrinks unusable m four e = omega (arith, length-drop 4 m.buf)
on_found-Shrinks (found id payload n) m four e = omega (
  arith,
  frame_used m.buf id payload n e,
  length-drop n m.buf,
  ap length (
      buf-hand_over (lookup id m.channels) payload (record m {
        buf = drop n m.buf;
        stats = record (m.stats) { frames_in = m.stats.frames_in + 1 };
      })),
)

Shrinks-discard : (i : ℕ) (m : Mux) (t : MuxTurn) → Shrinks (discard i m) t → Shrinks m t
unfolding discard
Shrinks-discard i m (rest r) h = h
Shrinks-discard i m (next (es, r)) h = omega (arith, h, length-drop i m.buf)

at_found-Shrinks : (i : Option ℕ) (m : Mux) → find_mux_header m.buf ≡ i → Shrinks m (at_found i m)
unfolding at_found
at_found-Shrinks none m e =
    unfold discard in omega (arith, length-drop (length m.buf - min (length m.buf) 3) m.buf)
at_found-Shrinks (some i) m e =
    let four : 4 ≤ length (discard i m).buf =
      unfold discard in omega (arith, find_mux_header-some m.buf i e, length-drop i m.buf) in
    Shrinks-discard i m _ (on_found-Shrinks _ (discard i m) four refl)

mux_turn-Shrinks : (m : Mux) → Shrinks m (mux_turn m)
unfolding mux_turn
mux_turn-Shrinks m = elim (Bool-cases (ltb (length m.buf) 4)) [
  | inl short ↦ rw short (ground arith)
  | inr enough ↦ rw enough (at_found-Shrinks _ m refl)
]

MuxTurn-cases :
    (t : MuxTurn)
    → ((r : Mux) × (t ≡ rest r)) ⊎ ((es : List Event) × (r : Mux) × (t ≡ next (es, r)))
MuxTurn-cases (rest r) = inl (r, refl)
MuxTurn-cases (next (es, r)) = inr (es, r, refl)

drain_bound :
    (fuel : ℕ) (m : Mux)
    → length m.buf < fuel
    → length (mux_drain_loop fuel m).1.buf < longest_mux_frame
unfolding mux_drain_loop
drain_bound zero m h = absurd (omega arith)
drain_bound (suc fuel) m h = elim (MuxTurn-cases (mux_turn m)) [
  | inl (r, e) ↦ rw (e, mux_drain_loop) (subst (Shrinks m) e (mux_turn-Shrinks m))
  | inr (es, r, e) ↦
      let shorter : length r.buf < length m.buf = subst (Shrinks m) e (mux_turn-Shrinks m) in
      rw (e, mux_drain_loop) (drain_bound fuel r (omega (arith, shorter)))
]

-- A byte that comes to a buffer with less than the longest frame in it is added to it, so the
-- branch of `feed1` that discards bytes is never taken, and less than the longest frame is left.
pub on_byte_bound :
    (b : ℕ) (m : Mux)
    → length m.buf < longest_mux_frame
    → (on_byte b m ≡ mux_drain (record m { buf = m.buf ++ b ∷ [] }))
      × (length (on_byte b m).1.buf < longest_mux_frame)
unfolding on_byte feed1 mux_drain
on_byte_bound b m h =
    rw (lt→leb (length m.buf) buffer_size (omega (arith, h)))
      (refl, drain_bound _ (record m { buf = m.buf ++ b ∷ [] }) (omega arith))
  where
    lt→leb : (x y : ℕ) → x < y → leb y x ≡ false
    lt→leb x y k = ground arith
