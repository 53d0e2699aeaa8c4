-- ===== src/Mux.antt =====
-- class StreamMux of web/app/stream-mux.ts: byte streams multiplexed on the second serial line.
-- Numbers of bytes are natural numbers, also in a window and a credit, for which the source takes
-- fractions. A handler is a number that names the consumer, and
-- `handler.data(payload)` is the event `delivered`; `sendBytes(frame)` is `sent`, with the channel
-- and the payload that the frame carries.
pub mod Pumping
pub mod Order
pub mod Queue
pub mod Receive
pub mod Received
pub mod Delivery
pub mod Flow
pub mod Reach
use vinx.Prelude.{
  ℕ, zero, suc, ◌+◌, ◌-◌, ◌*◌, ◌≤◌, ◌<◌, min, max, Bool, true, false, not, ◌&&◌, ◌||◌, Option, none,
  some, List, [], ◌∷◌, ◌++◌, ltb, leb, ◌==◌, if◌then◌else◌, length, take, drop,
}
use vinx.Prelude.Assoc.{nat_eq, lookup, insert, erase}
use vinx.Prelude.Decimal.{decimal}
use vinx.Wire.{at, slice, Scan, read_int}

abbrev pub mux_frame_max : ℕ
mux_frame_max = 2048

abbrev pub mux_link_window : ℕ
mux_link_window = 32 * 1024

abbrev pub channel_queue_max : ℕ
channel_queue_max = 64 * 1024

abbrev pub buffer_size : ℕ
buffer_size = mux_frame_max * 4 + 512

abbrev pub byte_lf : ℕ
byte_lf = 0x0a

abbrev pub byte_sp : ℕ
byte_sp = 0x20

pub record Channel : Type 0 where
  pub handler : ℕ
  pub window : ℕ
  pub in_flight : ℕ
  pub queue : List (List ℕ)
  pub queued_bytes : ℕ

pub record Stats : Type 0 where
  pub frames_in : ℕ
  pub frames_out : ℕ
  pub noise_bytes : ℕ
  pub bad_frames : ℕ
  pub orphan_bytes : ℕ
  pub dropped_bytes : ℕ

pub record Mux : Type 0 where
  pub channels : List (ℕ × Channel)
  pub link_in_flight : ℕ
  pub stats : Stats
  -- the first `len` bytes of the buffer
  pub buf : List ℕ

abbrev pub new_mux : Mux
new_mux = record {
  channels = [];
  link_in_flight = 0;
  stats = record {
    frames_in = 0;
    frames_out = 0;
    noise_bytes = 0;
    bad_frames = 0;
    orphan_bytes = 0;
    dropped_bytes = 0;
  };
  buf = [];
}

pub data Event : Type 0 where
  sent : ℕ → List ℕ → Event
  delivered : ℕ → List ℕ → Event

-- The bytes of a frame: "SB1 <channel> <byteLen>\n" and the payload.
unfoldable pub build_frame : ℕ → List ℕ → List ℕ
build_frame id payload =
    (b'S' ∷ b'B' ∷ b'1' ∷ byte_sp ∷ [])
    ++ (decimal id ++ (byte_sp ∷ (decimal (length payload) ++ (byte_lf ∷ payload))))

abbrev pub with_channel : ℕ → Channel → Mux → Mux
with_channel id ch m = record m { channels = insert id ch m.channels }

-- `window` is none where the number granted is not finite or is negative.
unfoldable pub open_channel : ℕ → Option ℕ → ℕ → Mux → Mux
open_channel id window handler m =
    with_channel id
      (record {
        handler = handler;
        window = elim window [ none ↦ 8 * 1024 | some w ↦ w ];
        in_flight = 0;
        queue = [];
        queued_bytes = 0;
      })
      m

-- `Math.max(0, a - b)` is `a - b` on the natural numbers.
abbrev pub close_found : ℕ → Option Channel → Mux → Mux
close_found id none m = m
close_found id (some ch) m = record m {
  link_in_flight = m.link_in_flight - ch.in_flight;
  channels = erase id m.channels;
}

unfoldable pub close : ℕ → Mux → Mux
close id m = close_found id (lookup id m.channels) m

-- Drop any partial frame.
unfoldable pub reset : Mux → Mux
reset m = record m {
  stats = record (m.stats) { noise_bytes = m.stats.noise_bytes + length m.buf };
  buf = [];
}

unfoldable pub close_all : Mux → Mux
unfolding reset
close_all m = reset (record m { channels = []; link_in_flight = 0 })

-- The state of the loop of `pump`: the channel, the bytes in flight on the link, the frames sent.
pub record Pump : Type 0 where
  pub channel : Channel
  pub link : ℕ
  pub frames : List (List ℕ)

-- The bytes that may go into the next frame.
abbrev pub budget_of : Pump → ℕ
budget_of p = min p.channel.window (min (mux_link_window - p.link) mux_frame_max)

-- A frame of `chunk`, after which `rest` is queued.
abbrev pub emit_chunk : List ℕ → List (List ℕ) → Pump → Pump
emit_chunk chunk rest p = record {
  channel = record (p.channel) {
    queue = rest;
    queued_bytes = p.channel.queued_bytes - length chunk;
    window = p.channel.window - length chunk;
    in_flight = p.channel.in_flight + length chunk;
  };
  link = p.link + length chunk;
  frames = p.frames ++ chunk ∷ [];
}

-- One round: the first chunk whole, or as much of it as the budget allows.
abbrev pub pump_chunk : ℕ → List ℕ → List (List ℕ) → Pump → Pump
pump_chunk budget chunk rest p =
    if ltb budget (length chunk)
    then emit_chunk (take budget chunk) (drop budget chunk ∷ rest) p
    else emit_chunk chunk rest p

-- `none` where the loop returns: nothing is queued, or nothing may be sent.
unfoldable pub pump_head : List (List ℕ) → Pump → Option Pump
pump_head [] p = none
pump_head (chunk ∷ rest) p =
    if leb (budget_of p) 0 then none else some (pump_chunk (budget_of p) chunk rest p)

abbrev pub pump_step : Pump → Option Pump
pump_step p = pump_head p.channel.queue p

unfoldable pub pump_loop : ℕ → Pump → Pump
pump_loop zero p = p
pump_loop (suc fuel) p = elim (pump_step p) [ none ↦ p | some q ↦ pump_loop fuel q ]

abbrev pub total_bytes : List (List ℕ) → ℕ
total_bytes [] = 0
total_bytes (chunk ∷ rest) = length chunk + total_bytes rest

-- Each round takes a chunk off the queue, or a byte at least off its first chunk.
abbrev pub pump_fuel : List (List ℕ) → ℕ
pump_fuel queue = suc (length queue + total_bytes queue)

abbrev pub start_pump : Channel → Mux → Pump
start_pump ch m = record { channel = ch; link = m.link_in_flight; frames = [] }

abbrev pub run_pump : Channel → Mux → Pump
run_pump ch m = pump_loop (pump_fuel ch.queue) (start_pump ch m)

abbrev pub sent_all : ℕ → List (List ℕ) → List Event
sent_all id [] = []
sent_all id (chunk ∷ rest) = sent id chunk ∷ sent_all id rest

-- The loop's state written back; `transmit` counts each frame and hands it to the wire.
unfoldable pub pump : ℕ → Channel → Mux → List Event × Mux
pump id ch m =
    let p = run_pump ch m in
    (
      sent_all id p.frames,
      record m {
        channels = insert id p.channel m.channels;
        link_in_flight = p.link;
        stats = record (m.stats) { frames_out = m.stats.frames_out + length p.frames };
      },
    )

-- The guest consumed `bytes` of the channel: its window opens, and what was in flight is settled.
abbrev pub settle : ℕ → Channel → Channel
settle bytes ch = record ch {
  window = ch.window + bytes;
  in_flight = ch.in_flight - min bytes ch.in_flight;
}

abbrev pub credit_found : ℕ → ℕ → Option Channel → Mux → List Event × Mux
credit_found id bytes none m = ([], m)
credit_found id bytes (some ch) m =
    if leb bytes 0
    then ([], m)
    else pump id (settle bytes ch)
        (record m { link_in_flight = m.link_in_flight - min bytes ch.in_flight })

unfoldable pub credit : ℕ → ℕ → Mux → List Event × Mux
credit id bytes m = credit_found id bytes (lookup id m.channels) m

-- What the bound on a queue leaves of it, and the bytes that it drops.
pub record Shed : Type 0 where
  pub queue : List (List ℕ)
  pub queued : ℕ
  pub dropped : ℕ

unfoldable pub shed : List (List ℕ) → ℕ → ℕ → Shed
shed [] queued dropped = record { queue = []; queued = queued; dropped = dropped }
shed (oldest ∷ rest) queued dropped =
    let less = shed rest (queued - length oldest) (dropped + length oldest) in
    if ltb channel_queue_max queued
    then less
    else record { queue = oldest ∷ rest; queued = queued; dropped = dropped }

-- `ch.queue.push(bytes)`, and the oldest chunks dropped past the bound.
abbrev pub enqueue : List ℕ → Channel → Shed
enqueue bytes ch = shed (ch.queue ++ bytes ∷ []) (ch.queued_bytes + length bytes) 0

abbrev pub with_queue : Shed → Channel → Channel
with_queue r ch = record ch { queue = r.queue; queued_bytes = r.queued }

abbrev pub send_found : ℕ → List ℕ → Option Channel → Mux → List Event × Mux
send_found id bytes none m = ([], m)
send_found id bytes (some ch) m =
    if leb (length bytes) 0
    then ([], m)
    else let r = enqueue bytes ch in
      pump id (with_queue r ch) (record m {
        stats = record (m.stats) { dropped_bytes = m.stats.dropped_bytes + r.dropped };
      })

unfoldable pub send : ℕ → List ℕ → Mux → List Event × Mux
send id bytes m = send_found id bytes (lookup id m.channels) m
