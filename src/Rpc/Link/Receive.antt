-- ===== src/Rpc/Link/Receive.antt =====
-- Frames, responses and served requests of RpcLink (web/app/rpc.ts).
-- A handler is asynchronous: it is started by `invoked`, and what it comes to is an event.
use vinx.Prelude.{
  ℕ, ◌+◌, Bool, true, false, not, ◌&&◌, ◌||◌, Option, none, some, List, [], ◌∷◌, ltb, leb, ◌==◌,
  if◌then◌else◌, length, text_eq,
}
use vinx.Prelude.Assoc.{nat_eq, text_key, lookup, insert, erase, has}
use vinx.Rpc.Frame.{Frame, data_frame, ack}
use vinx.Rpc.Json.{
  Json, Fields, null, bool, obj, str, num, arr, end, field, Number, minus, get_field, property,
  as_string, as_number, is_there, codes,
}
use vinx.Rpc.Parser.{push_all}
use vinx.Rpc.Link.State.{
  Platform, Link, idle, PendingCall, ServeJob, resolved, rejected, invoked, aborted, answered_job,
  notified, RpcError, of_name, of_guest, invalid_request, method_not_found, invalid_params,
  internal_error, cancelled, deadline_exceeded, overloaded, Flight, output, max_serve_pending,
  max_frame, clamp_deadline,
}
use vinx.Rpc.Link.Sender.{pump, enqueue, plain_frame, link_lost, is_hello_state}
use vinx.Rpc.Link.Session.{jsonrpc_body, in_session, on_session_up}

-- `body.result ?? {}`: null and a missing property are the empty object.
abbrev pub or_empty : Option Json → Json
or_empty none = obj end
or_empty (some null) = obj end
or_empty (some v) = v

-- The error that a call is rejected with: what the guest sent, with what it left out filled in.
abbrev pub or_internal : Option Number → Option (List ℕ) → RpcError
or_internal code name =
    of_guest (elim code [ none ↦ minus 32603 | some n ↦ n ])
      (elim name [ none ↦ codes "INTERNAL_ERROR" | some s ↦ s ])

unfoldable pub guest_error : Json → RpcError
guest_error raw =
    or_internal (as_number (property (codes "code") raw)) (as_string (property (codes "name") raw))

abbrev pub response : List ℕ → Fields → Json
response id fs = jsonrpc_body (field (codes "id") (str id) fs)

abbrev pub count_stale : Link → Link
count_stale l = record l {
  counters = record (l.counters) { stale_responses = l.counters.stale_responses + 1 };
}

abbrev pub count_protocol_error : Link → Link
count_protocol_error l = record l {
  counters = record (l.counters) { protocol_errors = l.counters.protocol_errors + 1 };
}

-- The call is settled by the guest's response.
abbrev pub settle_call : List ℕ → Fields → Option PendingCall → Link → Link
settle_call id body none l = count_stale l
settle_call id body (some entry) l =
    let l' = record l { pending = erase id l.pending } in
    if is_there (get_field (codes "error") body)
    then output (rejected id (guest_error (or_empty (get_field (codes "error") body)))) l'
    else output (resolved id (get_field (codes "result") body)) l'

module _ (platform : Platform) where
  unfoldable pub on_response : ℕ → List ℕ → Fields → Link → Link
  on_response now id body l =
      if text_eq id (codes "p.0") && is_hello_state l.state
      then if is_there (get_field (codes "error") body)
        then link_lost l
        else on_session_up platform now (or_empty (get_field (codes "result") body)) l
      else settle_call id body (lookup id l.pending) l

  -- A response leaves only while there is a session; a full queue drops it.
  unfoldable pub respond : ℕ → Json → Link → Link
  respond now body l =
      if in_session l.state
      then (enqueue platform now (plain_frame (platform.stringify body)) l).0
      else l

  abbrev pub error_response : List ℕ → RpcError → Json
  error_response id err = response id (field (codes "error") (platform.error_object err) end)

  abbrev pub answer_found : ℕ → ℕ → Json → Option ServeJob → Link → Link
  answer_found now k body none l = l
  answer_found now k body (some job) l =
      if job.answered
      then l
      else respond now body (
          output (answered_job k) (record l {
            jobs = insert k (record job { answered = true }) l.jobs;
            serves = erase job.id l.serves;
          }))

  -- The single-response latch: a job that was answered answers no more.
  unfoldable pub answer : ℕ → ℕ → Json → Link → Link
  answer now k body l = answer_found now k body (lookup k l.jobs) l

  abbrev pub job_id : Option ServeJob → List ℕ
  job_id none = []
  job_id (some job) = job.id

  -- `job.ctl.abort()`, whose listener answers for a cancel.
  unfoldable pub abort_job : ℕ → ℕ → Link → Link
  abort_job now k l =
      answer now k (error_response (job_id (lookup k l.jobs)) (of_name cancelled))
        (output (aborted k) l)

  -- The deadline timer of a job fires.
  unfoldable pub on_serve_deadline : ℕ → ℕ → Link → Link
  on_serve_deadline now k l =
      abort_job now k
        (answer now k (error_response (job_id (lookup k l.jobs)) (of_name deadline_exceeded)) l)

  -- The handler returned a value; one that outgrows the frame becomes an error.
  unfoldable pub on_handler_result : ℕ → ℕ → Option Json → Link → Link
  on_handler_result now k result l =
      let id = job_id (lookup k l.jobs) in
      let frame = response id (field (codes "result") (or_empty result) end) in
      answer now k
        (if ltb (max_frame l) (length (platform.utf8.encode (platform.stringify frame)) + 64)
          then error_response id (of_name internal_error)
          else frame)
        l

  -- The handler threw.
  unfoldable pub on_handler_error : ℕ → ℕ → RpcError → Link → Link
  on_handler_error now k err l = answer now k (error_response (job_id (lookup k l.jobs)) err) l

  abbrev pub cancel_found : ℕ → Option ℕ → Link → Link
  cancel_found now none l = l
  cancel_found now (some k) l = abort_job now k l

  unfoldable pub cancel_serve : ℕ → List ℕ → Link → Link
  cancel_serve now id l = cancel_found now (lookup id l.serves) l

  unfoldable pub run_serve : List ℕ → List ℕ → ℕ → Link → Link
  run_serve id method deadline_ms l =
      let k = l.next_job in
      output (invoked k id method) (record l {
        serves = insert id k l.serves;
        jobs =
            insert k
              (record { id = id; method = method; deadline_ms = deadline_ms; answered = false })
              l.jobs;
        next_job = k + 1;
      })

  abbrev pub is_object : Json → Bool
  is_object (obj fs) = true
  is_object null = false
  is_object (bool b) = false
  is_object (num n) = false
  is_object (str s) = false
  is_object (arr xs) = false

  -- `params` is absent or an object.
  abbrev pub params_usable : Option Json → Bool
  params_usable none = true
  params_usable (some v) = is_object v

  abbrev pub object_or_empty : Option Json → Json
  object_or_empty none = obj end
  object_or_empty (some v) = if is_object v then v else obj end

  -- `meta.deadlineMs`, of a `meta` that may be missing.
  abbrev pub deadline_of : Fields → Option Number
  deadline_of body =
      as_number (property (codes "deadlineMs") (or_empty (get_field (codes "meta") body)))

  abbrev pub cancel_target : ℕ → Option (List ℕ) → Link → Link
  cancel_target now none l = l
  cancel_target now (some id) l = cancel_serve now id l

  -- `(body.params as ...)?.id`: null and a missing `params` have none.
  abbrev pub target_of : Option Json → Option (List ℕ)
  target_of none = none
  target_of (some v) = as_string (property (codes "id") v)

  unfoldable pub on_notification : ℕ → List ℕ → Fields → Link → Link
  on_notification now method body l =
      if text_eq method (codes "rpc.cancel")
      then cancel_target now (target_of (get_field (codes "params") body)) l
      else output (notified method (object_or_empty (get_field (codes "params") body))) l

  unfoldable pub on_identified : ℕ → List ℕ → List ℕ → Fields → Link → Link
  on_identified now id method body l =
      if not (params_usable (get_field (codes "params") body))
      then respond now (error_response id (of_name invalid_params)) l
      else if not (platform.serves_method method)
      then respond now (error_response id (of_name method_not_found)) l
      else if has id l.serves
      then respond now (error_response id (of_name invalid_request)) l
      else if leb max_serve_pending (length l.serves)
      then respond now (error_response id (of_name overloaded)) l
      else run_serve id method (clamp_deadline (deadline_of body)) l

  abbrev pub on_request : ℕ → Option (List ℕ) → List ℕ → Fields → Link → Link
  on_request now none method body l = on_notification now method body l
  on_request now (some id) method body l = on_identified now id method body l

  abbrev pub no_method : ℕ → Option (List ℕ) → Fields → Link → Link
  no_method now none body l = count_protocol_error l
  no_method now (some id) body l =
      if is_there (get_field (codes "result") body) || is_there (get_field (codes "error") body)
      then on_response now id body l
      else count_protocol_error l

  abbrev pub on_object : ℕ → Option (List ℕ) → Fields → Link → Link
  on_object now none body l = no_method now (as_string (get_field (codes "id") body)) body l
  on_object now (some method) body l =
      on_request now (as_string (get_field (codes "id") body)) method body l

  abbrev pub on_parsed : ℕ → Option Json → Link → Link
  on_parsed now (some (obj body)) l =
      on_object now (as_string (get_field (codes "method") body)) body l
  on_parsed now _ l = count_protocol_error l

  unfoldable pub on_body : ℕ → List ℕ → Link → Link
  on_body now json l = on_parsed now (platform.parse json) l

  abbrev pub on_ack : ℕ → ℕ → Option Flight → Link → Link
  on_ack now seq none l = l
  on_ack now seq (some f) l =
      if seq == f.seq
      then pump platform now (record l { ack_timer = false; inflight = none })
      else l

  abbrev pub on_current : ℕ → Frame → Link → Link
  on_current now (ack epoch seq) l = on_ack now seq l.inflight l
  on_current now (data_frame epoch seq json) l =
      if leb seq l.guest_seq_seen
      then record l { counters = record (l.counters) { dup_frames = l.counters.dup_frames + 1 } }
      else on_body now json (record l { guest_seq_seen = seq })

  abbrev pub epoch_of : Frame → List ℕ
  epoch_of (ack epoch seq) = epoch
  epoch_of (data_frame epoch seq json) = epoch

  unfoldable pub on_frame : ℕ → Frame → Link → Link
  on_frame now frame l = elim l.state [
    | idle ↦ l
    | _ ↦ if text_eq (epoch_of frame) l.epoch then on_current now frame l else record l {
      counters = record (l.counters) { stale_frames = l.counters.stale_frames + 1 };
    }
  ]

  unfoldable pub on_frames : ℕ → List Frame → Link → Link
  on_frames now [] l = l
  on_frames now (f ∷ fs) l = on_frames now fs (on_frame now f l)

  -- Bytes from the serial line; the parser calls `on_frame` for each frame in them.
  unfoldable pub on_bytes : ℕ → List ℕ → Link → Link
  on_bytes now bytes l =
      let (fs, p) = push_all platform.utf8 l.parser bytes in
      on_frames now fs (record l { parser = p })
