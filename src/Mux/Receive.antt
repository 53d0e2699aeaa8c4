-- ===== src/Mux/Receive.antt =====
-- The receive path of StreamMux (web/app/stream-mux.ts): bytes from the wire, and the payloads that
-- the consumers of its channels are handed. `readInt` is that of Wire.antt.
use vinx.Prelude.{
  ℕ, zero, suc, ◌+◌, ◌-◌, min, Bool, ◌&&◌, Option, none, some, List, [], ◌∷◌, ◌++◌, ltb, leb, ◌==◌,
  if◌then◌else◌, length, drop,
}
use vinx.Prelude.Assoc.{nat_eq, lookup}
use vinx.Wire.{at, slice, Scan, read_int}
use vinx.Mux.{Channel, Mux, Event, delivered, mux_frame_max, buffer_size, byte_lf, byte_sp}

-- What stands at the header at the front of the buffer: a frame of a channel, its payload and the
-- bytes that it takes; or a frame that is not there whole; or nothing usable.
pub data Found : Type 0 where
  found : ℕ → List ℕ → ℕ → Found
  partial : Found
  unusable : Found

-- "SB1 " at the front.
unfoldable pub is_mux_header : List ℕ → Bool
is_mux_header xs = at xs 0 == 0x53 && (at xs 1 == 0x42 && (at xs 2 == 0x31 && at xs 3 == byte_sp))

abbrev pub next_at : Option ℕ → Option ℕ
next_at none = none
next_at (some i) = some (suc i)

-- Index of the first header, or none (-1 in the source).
unfoldable pub find_mux_header : List ℕ → Option ℕ
find_mux_header [] = none
find_mux_header (x ∷ xs) =
    let later = find_mux_header xs in
    if ltb (length (x ∷ xs)) 4
    then none
    else if is_mux_header (x ∷ xs)
    then some 0
    else next_at later

unfoldable pub read_payload : List ℕ → ℕ → Scan → Found
read_payload buf id Scan.wait = partial
read_payload buf id Scan.bad = unusable
read_payload buf id (Scan.done len end) =
    if ltb mux_frame_max len
    then unusable
    else if ltb (length buf) (end + 1 + len)
    then partial
    else found id (slice buf (end + 1) (end + 1 + len)) (end + 1 + len)

unfoldable pub read_channel : List ℕ → Scan → Found
read_channel buf Scan.wait = partial
read_channel buf Scan.bad = unusable
read_channel buf (Scan.done id end) = read_payload buf id (read_int buf (end + 1) 5 byte_lf)

unfoldable pub read_frame : List ℕ → Found
read_frame buf = read_channel buf (read_int buf 4 5 byte_sp)

-- `stats.noiseBytes += n; drop(n)`.
unfoldable pub discard : ℕ → Mux → Mux
discard n m = record m {
  buf = drop n m.buf;
  stats = record (m.stats) { noise_bytes = m.stats.noise_bytes + n };
}

-- The payload goes to the channel's consumer; without one its bytes are counted.
unfoldable pub hand_over : Option Channel → List ℕ → Mux → List Event × Mux
hand_over none payload m = (
  [],
  record m { stats = record (m.stats) { orphan_bytes = m.stats.orphan_bytes + length payload } },
)
hand_over (some ch) payload m = (delivered ch.handler payload ∷ [], m)

-- One round of the loop: it returns, or goes on.
pub data MuxTurn : Type 0 where
  rest : Mux → MuxTurn
  next : List Event × Mux → MuxTurn

unfoldable pub on_found : Found → Mux → MuxTurn
on_found partial m = rest m
on_found unusable m =
    let r = discard 4 m in
    next ([], record r { stats = record (r.stats) { bad_frames = r.stats.bad_frames + 1 } })
on_found (found id payload n) m = next (
    hand_over (lookup id m.channels) payload (record m {
      buf = drop n m.buf;
      stats = record (m.stats) { frames_in = m.stats.frames_in + 1 };
    }))

unfoldable pub at_found : Option ℕ → Mux → MuxTurn
at_found none m = rest (discard (length m.buf - min (length m.buf) 3) m)
at_found (some i) m = let r = discard i m in on_found (read_frame r.buf) r

unfoldable pub mux_turn : Mux → MuxTurn
mux_turn m = if ltb (length m.buf) 4 then rest m else at_found (find_mux_header m.buf) m

-- Each round that goes on drops four bytes at least.
unfoldable pub mux_drain_loop : ℕ → Mux → List Event × Mux
mux_drain_loop zero m = ([], m)
mux_drain_loop (suc fuel) m = elim (mux_turn m) [
  | rest r ↦ ([], r)
  | next (es, r) ↦ let (fs, last) = mux_drain_loop fuel r in (es ++ fs, last)
]

unfoldable pub mux_drain : Mux → List Event × Mux
mux_drain m = mux_drain_loop (suc (length m.buf)) m

-- A full buffer gives up its first 1024 bytes.
unfoldable pub feed1 : ℕ → Mux → Mux
feed1 b m =
    let r = if leb buffer_size (length m.buf) then discard 1024 m else m in
    record r { buf = r.buf ++ b ∷ [] }

unfoldable pub feed_all : List ℕ → Mux → Mux
feed_all [] m = m
feed_all (b ∷ bytes) m = feed_all bytes (feed1 b m)

unfoldable pub on_byte : ℕ → Mux → List Event × Mux
on_byte b m = mux_drain (feed1 b m)

unfoldable pub mux_on_bytes : List ℕ → Mux → List Event × Mux
mux_on_bytes bytes m = mux_drain (feed_all bytes m)
