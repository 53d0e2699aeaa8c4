-- ===== src/Rpc/Link/Events.antt =====
-- What happens to a link: the calls of its owner, bytes from the wire, timers and handlers.
-- A timer that is not armed does not fire; those of calls and jobs are looked up by their handlers.
use vinx.Prelude.{ℕ, Option, List, [], ◌∷◌, if◌then◌else◌}
use vinx.Rpc.Json.{Json, Fields, Number}
use vinx.Rpc.Link.State.{Platform, Link, RpcError}
use vinx.Rpc.Link.Sender.{on_ack_timeout}
use vinx.Rpc.Link.Session.{
  attach, detach, call, notify, on_hello_timeout, on_retry, on_call_deadline, on_call_abort,
}
use vinx.Rpc.Link.Receive.{on_bytes, on_serve_deadline, on_handler_result, on_handler_error}

pub data LinkEvent : Type 0 where
  attaches : ℕ → List ℕ → LinkEvent
  detaches : LinkEvent
  calls : ℕ → List ℕ → Option Fields → Option Number → LinkEvent
  notifies : ℕ → List ℕ → Option Fields → LinkEvent
  bytes_come : ℕ → List ℕ → LinkEvent
  ack_timer_fires : ℕ → LinkEvent
  hello_timer_fires : ℕ → LinkEvent
  retry_timer_fires : ℕ → List ℕ → LinkEvent
  call_deadline_fires : ℕ → List ℕ → LinkEvent
  caller_aborts : ℕ → List ℕ → LinkEvent
  serve_deadline_fires : ℕ → ℕ → LinkEvent
  handler_returns : ℕ → ℕ → Option Json → LinkEvent
  handler_throws : ℕ → ℕ → RpcError → LinkEvent

module _ (platform : Platform) where
  unfoldable pub step : Link → LinkEvent → Link
  step l (attaches now token) = attach platform now token l
  step l detaches = detach platform l
  step l (calls now method params deadline) = (call platform now method params deadline l).0
  step l (notifies now method params) = notify platform now method params l
  step l (bytes_come now bytes) = on_bytes platform now bytes l
  step l (ack_timer_fires now) = if l.ack_timer then on_ack_timeout now l else l
  step l (hello_timer_fires now) = if l.hello_timer then on_hello_timeout platform now l else l
  step l (retry_timer_fires now token) = if l.retry_timer then on_retry platform now token l else l
  step l (call_deadline_fires now id) = on_call_deadline platform now id l
  step l (caller_aborts now id) = on_call_abort platform now id l
  step l (serve_deadline_fires now k) = on_serve_deadline platform now k l
  step l (handler_returns now k result) = on_handler_result platform now k result l
  step l (handler_throws now k err) = on_handler_error platform now k err l

  unfoldable pub run : Link → List LinkEvent → Link
  run l [] = l
  run l (e ∷ es) = run (step l e) es
