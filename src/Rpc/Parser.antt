-- ===== src/Rpc/Parser.antt =====
-- class FrameParser of web/app/rpc.ts: the incremental frame reader. The byte queue is the list of
-- its contents (Rpc/Fifo.antt has the buffer behind it); `this.onFrame` is called with the
-- frames in the order of the list that an operation returns.
pub mod Stable
pub mod Rounds
pub mod Bound
pub mod Delivery
pub mod RoundTrip
pub mod AckTrip
pub mod Chunks
pub mod Extend
pub mod Search
use vinx.Prelude.{
  ℕ, zero, suc, ◌+◌, ◌-◌, ◌≤◌, ◌<◌, min, Bool, true, false, not, ◌&&◌, ◌||◌, Option, none, some,
  List, [], ◌∷◌, ◌++◌, ltb, leb, ◌==◌, if◌then◌else◌, length, get_or, take, drop, all,
}
use vinx.Wire.{at, slice, Scan, read_int}
use vinx.Rpc.Frame.{
  Utf8, Frame, data_frame, ack, head_len, epoch_len, max_seq_digits, max_len_digits,
  hard_frame_limit, byte_v, byte_lf, byte_sp,
}

pub record Stats : Type 0 where
  pub frames : ℕ
  pub acks : ℕ
  pub noise_bytes : ℕ
  pub bad_frames : ℕ

pub record Parser : Type 0 where
  pub fifo : List ℕ
  -- no parse attempt until this many bytes are there
  pub need : ℕ
  pub stats : Stats

abbrev pub new_parser : Parser
new_parser = record {
  fifo = [];
  need = head_len;
  stats = record { frames = 0; acks = 0; noise_bytes = 0; bad_frames = 0 };
}

-- What `parseAtHead` answers: a frame and the bytes that it takes, the number of bytes to wait for
-- (the new `this.need`), or a header that carries nothing usable.
pub data Outcome : Type 0 where
  frame : Frame → ℕ → Outcome
  wait : ℕ → Outcome
  bad : Outcome

-- "VX1 " or "VXA " at the start of the bytes.
unfoldable pub is_header : List ℕ → Bool
is_header xs =
    at xs 0 == byte_v
    && (at xs 1 == 0x58 && ((at xs 2 == 0x31 || at xs 2 == 0x41) && at xs 3 == byte_sp))

-- An index into the tail of a list, as one into the list.
abbrev pub next_index : Option ℕ → Option ℕ
next_index none = none
next_index (some i) = some (suc i)

-- Index of the first header, or none (-1 in the source).
unfoldable pub find_header : List ℕ → Option ℕ
find_header [] = none
find_header (x ∷ xs) =
    if ltb (length (x ∷ xs)) head_len
    then none
    else if is_header (x ∷ xs)
    then some 0
    else next_index (find_header xs)

unfoldable pub is_hex : ℕ → Bool
is_hex c = (leb 0x30 c && leb c 0x39) || (leb 0x61 c && leb c 0x66)

module _ (utf8 : Utf8) where
  -- The payload of a data frame: `len` bytes at `payload_at`, an LF, and valid UTF-8.
  unfoldable pub parse_payload : List ℕ → List ℕ → ℕ → ℕ → ℕ → Outcome
  parse_payload fifo epoch seq payload_at len =
      let frame_end = payload_at + len + 1 in
      if ltb (length fifo) frame_end
      then wait frame_end
      else if not (at fifo (frame_end - 1) == byte_lf)
      then bad
      else elim (utf8.decode (slice fifo payload_at (payload_at + len))) [
        | none ↦ bad
        | some json ↦ frame (data_frame epoch seq json) frame_end
      ]

  unfoldable pub parse_length : List ℕ → List ℕ → ℕ → Scan → Outcome
  parse_length fifo epoch seq Scan.wait = wait (length fifo + 1)
  parse_length fifo epoch seq Scan.bad = bad
  parse_length fifo epoch seq (Scan.done len end) =
      if ltb hard_frame_limit len then bad else parse_payload fifo epoch seq (end + 1) len

  unfoldable pub parse_seq : List ℕ → List ℕ → Bool → Scan → Outcome
  parse_seq fifo epoch is_data Scan.wait = wait (length fifo + 1)
  parse_seq fifo epoch is_data Scan.bad = bad
  parse_seq fifo epoch is_data (Scan.done seq end) =
      if not is_data
      then frame (ack epoch seq) (end + 1)
      else parse_length fifo epoch seq (read_int fifo (end + 1) max_len_digits byte_sp)

  unfoldable pub parse_at_head : List ℕ → Outcome
  parse_at_head fifo =
      let is_data = at fifo 2 == 0x31 in
      let epoch_end = head_len + epoch_len in
      if ltb (length fifo) (epoch_end + 1)
      then wait (epoch_end + 1)
      else if not (all is_hex (slice fifo head_len epoch_end))
      then bad
      else if not (at fifo epoch_end == byte_sp)
      then bad
      else parse_seq fifo (slice fifo head_len epoch_end) is_data
          (read_int fifo (epoch_end + 1) max_seq_digits (if is_data then byte_sp else byte_lf))

-- What one round of the loop of `drain` does: it returns, or delivers frames and goes on.
pub data Turn : Type 0 where
  stop : Parser → Turn
  again : List Frame → Parser → Turn

-- `stats.noiseBytes += n; fifo.drop(n)`.
unfoldable pub skip_noise : ℕ → Parser → Parser
skip_noise n p = record p {
  fifo = drop n p.fifo;
  stats = record (p.stats) { noise_bytes = p.stats.noise_bytes + n };
}

abbrev pub with_need : ℕ → Parser → Parser
with_need n p = record p { need = n }

-- `stats.frames++` or `stats.acks++`.
abbrev pub count_frame : Frame → Stats → Stats
count_frame (data_frame e s j) st = record st { frames = st.frames + 1 }
count_frame (ack e s) st = record st { acks = st.acks + 1 }

-- A header whose body is unusable is skipped whole.
unfoldable pub on_outcome : Outcome → Parser → Turn
on_outcome (wait n) p = stop (with_need n p)
on_outcome bad p =
    let q = skip_noise head_len p in
    again [] (record q {
      need = head_len;
      stats = record (q.stats) { bad_frames = q.stats.bad_frames + 1 };
    })
on_outcome (frame f n) p =
    again (f ∷ [])
      (record p { fifo = drop n p.fifo; need = head_len; stats = count_frame f p.stats })

module _ (utf8 : Utf8) where
  unfoldable pub at_header : Option ℕ → Parser → Turn
  at_header none p =
      stop (with_need head_len (skip_noise (length p.fifo - min (length p.fifo) (head_len - 1)) p))
  at_header (some i) p = let q = skip_noise i p in on_outcome (parse_at_head utf8 q.fifo) q

  unfoldable pub turn : Parser → Turn
  turn p =
      if ltb (length p.fifo) head_len
      then stop (with_need head_len p)
      else at_header (find_header p.fifo) p

  -- Each round that goes on drops a byte at least, so `length fifo` rounds and one are enough.
  unfoldable pub drain_loop : ℕ → Parser → List Frame × Parser
  drain_loop zero p = ([], p)
  drain_loop (suc fuel) p = elim (turn p) [
    | stop q ↦ ([], q)
    | again fs q ↦ let (gs, r) = drain_loop fuel q in (fs ++ gs, r)
  ]

  unfoldable pub drain : Parser → List Frame × Parser
  drain p = drain_loop (suc (length p.fifo)) p

  unfoldable pub push_all : Parser → List ℕ → List Frame × Parser
  push_all p bytes =
      let q = record p { fifo = p.fifo ++ bytes } in
      if leb q.need (length q.fifo) then drain q else ([], q)

  unfoldable pub push : Parser → ℕ → List Frame × Parser
  push p byte =
      let q = record p { fifo = p.fifo ++ byte ∷ [] } in
      if leb q.need (length q.fifo) then drain q else ([], q)

-- A new session drops the partial frame of the old one.
unfoldable pub reset : Parser → Parser
reset p = with_need head_len (if ltb 0 (length p.fifo) then skip_noise (length p.fifo) p else p)
