-- ===== src/Rpc/Link/State.antt =====
-- The state of RpcLink, its limits, and what it hands to its owner (web/app/rpc.ts, L2).
-- `setTimeout` and `clearTimeout` are flags: a timer that is armed may fire. What the link does
-- outside itself (bytes sent, promises settled, handlers and callbacks called) is written to `log`,
-- the newest first. The prose of errors is not modelled: `code` and `name` are the contract.
use vinx.Prelude.{
  ℕ, min, max, Bool, false, Option, none, some, List, [], ◌∷◌, ltb, leb, if◌then◌else◌,
}
use vinx.Rpc.Frame.{Utf8}
use vinx.Rpc.Json.{Json, Number, whole, minus, fraction, other, property, as_number, codes}
use vinx.Rpc.Parser.{Parser, new_parser}

abbrev pub rpc_protocol : ℕ
rpc_protocol = 1

abbrev pub max_frame_size : ℕ
max_frame_size = 4096

abbrev pub inline_max_size : ℕ
inline_max_size = 1024

abbrev pub ack_timeout_ms : ℕ
ack_timeout_ms = 2000

abbrev pub max_retransmits : ℕ
max_retransmits = 2

abbrev pub hello_retransmits : ℕ
hello_retransmits = 6

abbrev pub default_deadline_ms : ℕ
default_deadline_ms = 30_000

abbrev pub max_pending_calls : ℕ
max_pending_calls = 32

abbrev pub max_serve_pending : ℕ
max_serve_pending = 32

abbrev pub max_send_queue : ℕ
max_send_queue = 64

pub data LinkState : Type 0 where
  idle hello up unavailable : LinkState

-- The names of ERR that this module uses.
pub data ErrName : Type 0 where
  invalid_request method_not_found invalid_params internal_error unavailable_err : ErrName
  cancelled deadline_exceeded overloaded : ErrName

-- An error made here, one that a handler threw as a ServeError, or the code and name of one that
-- the guest sent.
pub data RpcError : Type 0 where
  of_name : ErrName → RpcError
  of_guest : Number → List ℕ → RpcError

-- What the environment gives: the text codec, JSON, the methods served, and the error objects.
pub record Platform : Type 0 where
  pub utf8 : Utf8
  pub stringify : Json → List ℕ
  pub parse : List ℕ → Option Json
  pub method_names : List (List ℕ)
  -- whether a lookup of the name among the methods finds a handler
  pub serves_method : List ℕ → Bool
  pub implementation : List ℕ
  -- `rpcError(...)` with its prose, as an object
  pub error_object : RpcError → Json

pub record PendingCall : Type 0 where
  pub method : List ℕ
  pub deadline_ms : ℕ

-- A request being served: `answered` is the single-response latch.
pub record ServeJob : Type 0 where
  pub id : List ℕ
  pub method : List ℕ
  pub deadline_ms : ℕ
  pub answered : Bool

pub record QueuedFrame : Type 0 where
  pub json : List ℕ
  pub seq : Option ℕ
  pub is_hello : Bool

pub record Flight : Type 0 where
  pub frame : List ℕ
  pub seq : ℕ
  pub is_hello : Bool
  pub sent_at : ℕ
  pub attempts : ℕ

-- What the link does outside itself.
pub data Output : Type 0 where
  transmitted : List ℕ → Output
  accepted : List ℕ → Output
  resolved : List ℕ → Option Json → Output
  rejected : List ℕ → RpcError → Output
  invoked : ℕ → List ℕ → List ℕ → Output
  aborted : ℕ → Output
  answered_job : ℕ → Output
  state_changed : LinkState → Output
  session_up : Json → Output
  notified : List ℕ → Json → Output

pub record Counters : Type 0 where
  pub frames_out : ℕ
  pub retransmits : ℕ
  pub stale_frames : ℕ
  pub dup_frames : ℕ
  pub stale_responses : ℕ
  pub protocol_errors : ℕ
  pub hello_sends : ℕ
  pub sessions : ℕ

pub record Link : Type 0 where
  pub parser : Parser
  pub state : LinkState
  pub token : Option (List ℕ)
  pub epoch : List ℕ
  pub peer : Option Json
  pub next_id : ℕ
  pub next_seq : ℕ
  pub pending : List (List ℕ × PendingCall)
  -- the number of the job of each request in flight
  pub serves : List (List ℕ × ℕ)
  -- the jobs that were started, numbered from 0
  pub jobs : List (ℕ × ServeJob)
  pub next_job : ℕ
  pub queue : List QueuedFrame
  pub inflight : Option Flight
  pub ack_timer : Bool
  pub hello_timer : Bool
  pub retry_timer : Bool
  pub guest_seq_seen : ℕ
  pub counters : Counters
  pub log : List Output

abbrev pub new_link : Link
new_link = record {
  parser = new_parser;
  state = idle;
  token = none;
  epoch = [];
  peer = none;
  next_id = 1;
  next_seq = 1;
  pending = [];
  serves = [];
  jobs = [];
  next_job = 0;
  queue = [];
  inflight = none;
  ack_timer = false;
  hello_timer = false;
  retry_timer = false;
  guest_seq_seen = 0;
  counters = record {
    frames_out = 0;
    retransmits = 0;
    stale_frames = 0;
    dup_frames = 0;
    stale_responses = 0;
    protocol_errors = 0;
    hello_sends = 0;
    sessions = 0;
  };
  log = [];
}

abbrev pub output : Output → Link → Link
output o l = record l { log = o ∷ l.log }

-- `Math.min(limit, theirs)` if the guest named a positive number; its whole part decides the same
-- comparisons with whole numbers.
abbrev pub capped : ℕ → Option Number → ℕ
capped limit (some (whole n)) = if ltb 0 n then min limit n else limit
capped limit (some (fraction n)) = min limit n
capped limit (some (minus n)) = limit
capped limit (some other) = limit
capped limit none = limit

abbrev pub peer_property : List ℕ → Option Json → Option Number
peer_property k none = none
peer_property k (some peer) = as_number (property k peer)

unfoldable pub max_frame : Link → ℕ
max_frame l = capped max_frame_size (peer_property (codes "maxFrame") l.peer)

abbrev pub clamp_ms : ℕ → ℕ
clamp_ms n = min 600_000 (max 1_000 n)

-- A deadline that is missing, not finite or not positive is the default one.
unfoldable pub clamp_deadline : Option Number → ℕ
clamp_deadline (some (whole n)) = if leb n 0 then default_deadline_ms else clamp_ms n
clamp_deadline (some (fraction n)) = clamp_ms n
clamp_deadline (some (minus n)) = default_deadline_ms
clamp_deadline (some other) = default_deadline_ms
clamp_deadline none = default_deadline_ms
