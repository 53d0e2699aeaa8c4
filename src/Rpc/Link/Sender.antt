-- ===== src/Rpc/Link/Sender.antt =====
-- The stop-and-wait sender of RpcLink, and the end of a session (web/app/rpc.ts).
use vinx.Prelude.{
  ℕ, ◌+◌, ◌-◌, ◌*◌, Bool, true, false, not, ◌&&◌, ◌||◌, Option, none, some, List, [], ◌∷◌, ◌++◌,
  ltb, leb, if◌then◌else◌, length,
}
use vinx.Prelude.Assoc.{nat_eq, text_key, lookup, insert}
use vinx.Rpc.Frame.{build_data_frame}
use vinx.Rpc.Link.State.{
  Platform, Link, LinkState, idle, hello, up, unavailable, Flight, QueuedFrame, PendingCall,
  ServeJob, transmitted, rejected, aborted, state_changed, of_name, unavailable_err, output,
  ack_timeout_ms, max_retransmits, hello_retransmits, max_send_queue,
}

abbrev pub is_hello_state : LinkState → Bool
is_hello_state hello = true
is_hello_state idle = false
is_hello_state up = false
is_hello_state unavailable = false

abbrev pub same_state : LinkState → LinkState → Bool
same_state idle idle = true
same_state hello hello = true
same_state up up = true
same_state unavailable unavailable = true
same_state _ _ = false

unfoldable pub set_state : LinkState → Link → Link
set_state next l =
    if same_state l.state next then l else output (state_changed next) (record l { state = next })

unfoldable pub transmit : List ℕ → Link → Link
transmit bytes l =
    output (transmitted bytes)
      (record l { counters = record (l.counters) { frames_out = l.counters.frames_out + 1 } })

-- `next.seq ??= this.nextSeq++`.
abbrev pub seq_of : QueuedFrame → Link → ℕ
seq_of q l = elim q.seq [ none ↦ l.next_seq | some s ↦ s ]

abbrev pub next_seq_after : QueuedFrame → Link → ℕ
next_seq_after q l = elim q.seq [ none ↦ l.next_seq + 1 | some s ↦ l.next_seq ]

module _ (platform : Platform) where
  -- The frame `next` leaves the queue and is in flight.
  unfoldable pub fly : ℕ → QueuedFrame → List QueuedFrame → Link → Link
  fly now next rest l =
      let bytes = build_data_frame platform.utf8 l.epoch (seq_of next l) next.json in
      let l' = transmit bytes (record l {
        queue = rest;
        next_seq = next_seq_after next l;
        inflight = some (record {
          frame = bytes;
          seq = seq_of next l;
          is_hello = next.is_hello;
          sent_at = now;
          attempts = 0;
        });
      }) in
      record l' { ack_timer = true }

  -- During hello, only the hello frame itself may fly.
  unfoldable pub pump_queue : ℕ → List QueuedFrame → Link → Link
  pump_queue now [] l = l
  pump_queue now (next ∷ rest) l =
      if is_hello_state l.state && not next.is_hello then l else fly now next rest l

  unfoldable pub pump : ℕ → Link → Link
  pump now l = elim l.inflight [ none ↦ pump_queue now l.queue l | some f ↦ l ]

  -- The new state, and whether the frame was taken.
  unfoldable pub enqueue : ℕ → QueuedFrame → Link → Link × Bool
  enqueue now frame l =
      if leb max_send_queue (length l.queue)
      then (l, false)
      else (pump now (record l { queue = l.queue ++ frame ∷ [] }), true)

abbrev pub plain_frame : List ℕ → QueuedFrame
plain_frame json = record { json = json; seq = none; is_hello = false }

-- Every pending call is rejected.
unfoldable pub reject_all : List (List ℕ × PendingCall) → Link → Link
reject_all [] l = l
reject_all ((id, call) ∷ rest) l =
    reject_all rest (output (rejected id (of_name unavailable_err)) l)

abbrev pub latch_job : ℕ → Option ServeJob → Link → Link
latch_job k none l = l
latch_job k (some job) l = record l { jobs = insert k (record job { answered = true }) l.jobs }

-- Every job in flight is latched and aborted: the session died, no response later.
unfoldable pub abort_all : List (List ℕ × ℕ) → Link → Link
abort_all [] l = l
abort_all ((id, k) ∷ rest) l = abort_all rest (output (aborted k) (latch_job k (lookup k l.jobs) l))

abbrev pub clear_session : Link → Link
clear_session l = record l {
  pending = [];
  serves = [];
  queue = [];
  inflight = none;
  peer = none;
  ack_timer = false;
  hello_timer = false;
  retry_timer = false;
}

unfoldable pub fail_session : Link → Link
fail_session l = clear_session (abort_all l.serves (reject_all l.pending l))

unfoldable pub link_lost : Link → Link
link_lost l = record (set_state unavailable (fail_session l)) { retry_timer = true }

abbrev pub retransmit_budget : Flight → ℕ
retransmit_budget f = if f.is_hello then hello_retransmits else max_retransmits

-- A fire that comes grossly late is a probe, not a strike.
abbrev pub is_frozen : ℕ → Flight → Bool
is_frozen now f = leb (ack_timeout_ms * 2) (now - f.sent_at)

abbrev pub strike : ℕ → Flight → Flight
strike now f = if is_frozen now f then f else record f { attempts = f.attempts + 1 }

abbrev pub count_retransmit : Bool → Link → Link
count_retransmit again l =
    if again
    then record l { counters = record (l.counters) { retransmits = l.counters.retransmits + 1 } }
    else l

unfoldable pub retry_flight : ℕ → Bool → Flight → Link → Link
retry_flight now frozen f l =
    if ltb (retransmit_budget f) f.attempts
    then link_lost (record l { inflight = some f })
    else let l' =
        count_retransmit (ltb 0 f.attempts || frozen)
          (record l { inflight = some (record f { sent_at = now }) }) in
      record (transmit f.frame l') { ack_timer = true }

-- The ack timer fires: it is armed no more, and armed again if the frame is sent again.
unfoldable pub on_ack_timeout : ℕ → Link → Link
on_ack_timeout now l = elim l.inflight [
  | none ↦ record l { ack_timer = false }
  | some f ↦ retry_flight now (is_frozen now f) (strike now f) (record l { ack_timer = false })
]
