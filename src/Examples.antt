-- ===== src/Examples.antt =====
-- Concrete runs of the frame parser, the link and the stream lane (web/app/rpc.ts and
-- web/app/stream-mux.ts): a page whose codec is that of ASCII, its sessions and its channels.
pub mod Bridge
pub mod Windows
pub mod Share
pub mod Broker
pub mod Mount
pub mod Hostcall
use vinx.Prelude.{
  ℕ, ◌+◌, ◌≤◌, ◌<◌, ◌≡◌, refl, true, false, none, some, List, [], ◌∷◌, ◌++◌, ◌⊎◌, arith, length,
  joined,
}
use vinx.Prelude.Assoc.{nat_eq, lookup, insert, total}
use vinx.Rpc.Frame.{Utf8, Frame, data_frame, ack, build_data_frame, build_ack_frame, byte_lf}
use vinx.Rpc.Json.{codes, obj, end, str}
use vinx.Rpc.Parser.{frame, parse_at_head, push_all, drain, new_parser, is_hex}
use vinx.Rpc.Parser.Chunks.{
  IsSettled, push_chunks, push_chunks-joined, new_parser-IsSettled, drain-IsSettled,
}
use vinx.Rpc.Parser.RoundTrip.{IsSendable, parse_at_head-build_data_frame}
use vinx.Rpc.Parser.AckTrip.{parse_at_head-build_ack_frame}
use vinx.Rpc.Parser.Delivery.{Delivered, wire, push_all-wire}
use vinx.Rpc.Parser.Bound.{longest_frame, push_all_bound}
use vinx.Rpc.Link.State.{Platform, Link, LinkState, Flight, new_link}
use vinx.Rpc.Link.Loss.{IsTrying, IsGivenUp, timeouts, timeouts-IsGivenUp}
use vinx.Rpc.Link.Events.{
  LinkEvent, attaches, calls, notifies, bytes_come, ack_timer_fires, hello_timer_fires, run,
}
use vinx.Rpc.Link.Sound.{IsSound}
use vinx.Rpc.Link.Steps.{run-IsSound}
use vinx.Mux.{
  Channel, Mux, Pump, new_mux, open_channel, send, credit, settle, enqueue, pump_loop, pump_fuel,
  budget_of,
}
use vinx.Mux.Flow.{IsValid, in_flight_of}
use vinx.Mux.Queue.{IsShed, enqueue-IsShed}
use vinx.Mux.Reach.{opened, written, credited, start, Reach-IsValid}
use vinx.Mux.Order.{Sends, send-Sends, credit-Sends}
use vinx.Rpc.Fifo.{new_fifo}
use vinx.Rpc.Fifo.Refines.{
  FifoOp, pushes, pushes_all, drops, Holds, Shows, fifo_run, queue_run, fifo_run-Shows,
}
use vinx.Mux.{build_frame}
use vinx.Mux.Receive.{on_byte, mux_on_bytes, mux_drain}
use vinx.Mux.Received.{longest_mux_frame, on_byte_bound}
use vinx.Mux.Delivery.{HandsOver, mux_on_bytes-build_frame}

abbrev ascii : Utf8
ascii = record {
  encode = λ text. text;
  decode = λ bytes. some bytes;
  decode-encode = λ text h. refl;
}

abbrev epoch : List ℕ
epoch = codes "0123456789abcdef"

abbrev call_text : List ℕ
call_text = codes "{\"id\":1}"

call_IsSendable : IsSendable ascii epoch 1 call_text
call_IsSendable = record {
  epoch_length = refl;
  epoch_hex = unfold is_hex in refl;
  seq_fits = omega arith;
  is_text = refl;
  payload_fits = omega arith;
}

-- A frame cut inside its header and inside its payload, behind two bytes of noise.
abbrev cut_frame : List (List ℕ)
cut_frame =
    (0xff ∷ 0xff ∷ codes "VX1 0123")
    ∷ codes "456789abcdef 1 8 {\"id"
    ∷ (codes "\":1}" ++ byte_lf ∷ [])
    ∷ []

push_chunks-joined_example :
    push_chunks ascii new_parser cut_frame ≡ push_all ascii new_parser (joined cut_frame)
push_chunks-joined_example =
    push_chunks-joined ascii new_parser cut_frame (new_parser-IsSettled ascii)

abbrev two_frames : List (List ℕ × Frame)
two_frames = (0xff ∷ 0xff ∷ [], data_frame epoch 1 call_text) ∷ (codes "noise", ack epoch 12) ∷ []

push_all-wire_example :
    Delivered two_frames new_parser.stats (push_all ascii new_parser (wire ascii two_frames))
push_all-wire_example =
    push_all-wire ascii two_frames new_parser (new_parser-IsSettled ascii) refl (
      (refl, (refl, tt)),
      call_IsSendable,
      ((refl, (refl, (refl, (refl, (refl, tt))))), (refl, unfold is_hex in refl, omega arith), tt),
    )

push_all_bound_example :
    let q = (push_all ascii new_parser (codes "VX1 0123456789abcdef 1 65536 {")).1 in
    (length q.fifo < q.need) × (q.need ≤ longest_frame)
push_all_bound_example =
    push_all_bound ascii new_parser (codes "VX1 0123456789abcdef 1 65536 {")
      (new_parser-IsSettled ascii)

drain-IsSettled_example :
    IsSettled ascii (drain ascii (record new_parser { fifo = joined cut_frame })).1
drain-IsSettled_example = drain-IsSettled ascii (record new_parser { fifo = joined cut_frame })

abbrev page : Platform
page = record {
  utf8 = ascii;
  stringify = λ value. call_text;
  parse = λ text. some (obj end);
  method_names = codes "open" ∷ [];
  serves_method = λ name. true;
  implementation = codes "page";
  error_object = λ err. str [];
}

abbrev token : List ℕ
token = codes "0123456789abcdef0123456789abcdef"

-- A session starts, a call waits behind hello, hello is sent twice and acknowledged.
abbrev busy_day : List LinkEvent
busy_day =
    attaches 0 token
    ∷ calls 10 (codes "open") none none
    ∷ ack_timer_fires 2000
    ∷ notifies 2100 (codes "resize") none
    ∷ bytes_come 2200 (codes "VXA 0123456789abcdef 0" ++ byte_lf ∷ [])
    ∷ hello_timer_fires 8000
    ∷ []

run-IsSound_example : IsSound (run page new_link busy_day)
run-IsSound_example = run-IsSound page busy_day

abbrev channel_one : Channel
channel_one = record { handler = 9; window = 5; in_flight = 0; queue = []; queued_bytes = 0 }

abbrev lane : Mux
lane = open_channel 1 (some 5) 9 new_mux

one_there : lookup 1 lane.channels ≡ some channel_one
unfolding open_channel insert lookup
one_there = refl

none_there : lookup 1 new_mux.channels ≡ none
unfolding lookup
none_there = refl

lane-IsValid : IsValid lane
lane-IsValid = Reach-IsValid (opened 1 9 (some 5) start none_there)

Reach-IsValid_example : IsValid (credit 1 3 (send 1 (codes "eight by") lane).1).1
Reach-IsValid_example =
    Reach-IsValid
      (credited 1 3 (written 1 (codes "eight by") (opened 1 9 (some 5) start none_there)))

send-Sends_example :
    Sends 1
      (record channel_one { queue = codes "eight by" ∷ []; queued_bytes = 8 })
      lane.channels
      (send 1 (codes "eight by") lane)
send-Sends_example =
    send-Sends 1 lane channel_one lane-IsValid one_there (codes "eight by") (omega arith)
      (omega arith)

credit-Sends_example : Sends 1 (settle 3 channel_one) lane.channels (credit 1 3 lane)
credit-Sends_example = credit-Sends 1 lane channel_one lane-IsValid one_there 3 (omega arith)

abbrev waiting : Pump
waiting = record {
  channel = record channel_one { queue = codes "eight by" ∷ []; queued_bytes = 8 };
  link = 0;
  frames = [];
}

enqueue-IsShed_example :
    IsShed (channel_one.queue ++ codes "eight by" ∷ []) 0 (enqueue (codes "eight by") channel_one)
enqueue-IsShed_example =
    enqueue-IsShed (codes "eight by") channel_one (record { counted = refl; filled = tt })
      (omega arith)

abbrev some_ops : List FifoOp
some_ops = pushes_all (codes "abcdef") ∷ drops 2 ∷ pushes 10 ∷ drops 9 ∷ pushes 11 ∷ []

fifo_run-Shows_example :
    Holds (fifo_run new_fifo some_ops) (queue_run [] some_ops)
    × Shows (fifo_run new_fifo some_ops) (queue_run [] some_ops)
fifo_run-Shows_example = fifo_run-Shows some_ops

lane_empty : lane.buf ≡ []
unfolding open_channel
lane_empty = refl

mux_on_bytes-build_frame_example :
    HandsOver 9 (codes "hello") lane (mux_on_bytes (build_frame 1 (codes "hello")) lane)
mux_on_bytes-build_frame_example =
    mux_on_bytes-build_frame 1 (codes "hello") channel_one lane (omega arith) (omega arith)
      one_there lane_empty

abbrev half_read : Mux
half_read = record new_mux { buf = codes "SB1 1 5" }

on_byte_bound_example :
    (on_byte byte_lf half_read
      ≡ mux_drain (record half_read { buf = half_read.buf ++ byte_lf ∷ [] }))
    × (length (on_byte byte_lf half_read).1.buf < longest_mux_frame)
on_byte_bound_example = on_byte_bound byte_lf half_read (omega arith)

abbrev call_flight : Flight
call_flight = record { frame = call_text; seq = 1; is_hello = false; sent_at = 0; attempts = 0 }

abbrev waiting_link : Link
waiting_link = record new_link {
  state = LinkState.up;
  inflight = some call_flight;
  ack_timer = true;
}

timeouts-IsGivenUp_example :
    IsTrying call_text 2 waiting_link (timeouts (2000 ∷ 4001 ∷ []) waiting_link)
    × IsGivenUp (timeouts (2000 ∷ 4001 ∷ 6003 ∷ []) waiting_link)
timeouts-IsGivenUp_example =
    timeouts-IsGivenUp (2000 ∷ 4001 ∷ []) 6003 waiting_link call_flight refl
      (omega arith, (omega arith, (omega arith, tt))) refl
