-- ===== src/Rpc/Link/Session.antt =====
-- Sessions, calls and notifications of RpcLink, and its timers (web/app/rpc.ts).
-- A token is the 32 hexadecimal digits that `randomToken` gave; `now` is the monotonic clock.
use vinx.Prelude.{
  ℕ, ◌+◌, Bool, true, false, not, Option, none, some, List, [], ◌∷◌, ltb, leb, if◌then◌else◌,
  length, take,
}
use vinx.Prelude.Assoc.{text_key, lookup, insert, erase}
use vinx.Prelude.Decimal.{decimal}
use vinx.Rpc.Frame.{epoch_len}
use vinx.Rpc.Json.{Json, Fields, end, field, obj, str, num, arr, Number, whole, strings, codes}
use vinx.Rpc.Parser.{reset}
use vinx.Rpc.Link.State.{
  Platform, Link, LinkState, idle, hello, up, unavailable, QueuedFrame, PendingCall, accepted,
  rejected, session_up, RpcError, of_name, unavailable_err, overloaded, invalid_params,
  deadline_exceeded, cancelled, output, rpc_protocol, max_frame_size, inline_max_size,
  max_pending_calls, max_frame, clamp_deadline,
}
use vinx.Rpc.Link.Sender.{set_state, pump, enqueue, plain_frame, fail_session}

-- `this.queue.filter((q) => !q.hello)`.
unfoldable pub without_hello : List QueuedFrame → List QueuedFrame
without_hello [] = []
without_hello (q ∷ rest) = let kept = without_hello rest in if q.is_hello then kept else q ∷ kept

abbrev pub jsonrpc_body : Fields → Json
jsonrpc_body fs = obj (field (codes "jsonrpc") (str (codes "2.0")) fs)

abbrev pub flow_object : Json
flow_object = obj (
    field (codes "pageToGuest") (str (codes "stop-wait"))
      (field (codes "guestToPage") (str (codes "unacked")) end))

abbrev pub feature_names : List (List ℕ)
feature_names = codes "duplex" ∷ codes "cancel" ∷ codes "data-ref" ∷ codes "streams" ∷ []

abbrev pub call_id : ℕ → List ℕ
call_id n = b'p' ∷ b'.' ∷ decimal n

abbrev pub in_session : LinkState → Bool
in_session idle = false
in_session hello = true
in_session up = true
in_session unavailable = false

-- The state of a new session under a token: its epoch, its sequence numbers, an empty parser.
abbrev pub fresh_session : List ℕ → Link → Link
fresh_session token l = record l {
  parser = reset l.parser;
  token = some token;
  epoch = take epoch_len token;
  next_seq = 1;
  guest_seq_seen = 0;
  counters = record (l.counters) { sessions = l.counters.sessions + 1 };
}

-- `params` is missing or an object.
abbrev pub params_field : Option Fields → Fields → Fields
params_field none fs = fs
params_field (some ps) fs = field (codes "params") (obj ps) fs

abbrev pub call_body : List ℕ → List ℕ → Option Fields → ℕ → Json
call_body id method params deadline_ms = jsonrpc_body (
    field (codes "id") (str id) (
      field (codes "method") (str method) (
        params_field params (
          field (codes "meta") (obj (field (codes "deadlineMs") (num (whole deadline_ms)) end))
            end))))

module _ (platform : Platform) where
  abbrev pub hello_body : List ℕ → Json
  hello_body token = jsonrpc_body (
      field (codes "id") (str (codes "p.0")) (
        field (codes "method") (str (codes "rpc.hello")) (
          field (codes "params")
            (obj (
              field (codes "protocol") (num (whole rpc_protocol)) (
                field (codes "sessionToken") (str token) (
                  field (codes "implementation") (str platform.implementation) (
                    field (codes "maxFrame") (num (whole max_frame_size)) (
                      field (codes "inlineMax") (num (whole inline_max_size)) (
                        field (codes "flow") flow_object (
                          field (codes "features") (arr (strings feature_names)) (
                            field (codes "methods") (arr (strings platform.method_names))
                              end)))))))))
            end)))

  -- Hello owns sequence 0 and jumps the queue.
  unfoldable pub send_hello_for : ℕ → List ℕ → Link → Link
  send_hello_for now token l =
      let l' = pump platform now (record l {
        counters = record (l.counters) { hello_sends = l.counters.hello_sends + 1 };
        inflight = none;
        ack_timer = false;
        queue =
            record { json = platform.stringify (hello_body token); seq = some 0; is_hello = true }
            ∷ without_hello l.queue;
      }) in
      record l' { hello_timer = true }

  unfoldable pub send_hello : ℕ → Link → Link
  send_hello now l = elim l.token [ none ↦ l | some token ↦ send_hello_for now token l ]

  unfoldable pub start_session : ℕ → List ℕ → Link → Link
  start_session now token l =
      send_hello now (set_state hello (fresh_session token (fail_session l)))

  unfoldable pub attach : ℕ → List ℕ → Link → Link
  attach now token l = start_session now token l

  unfoldable pub detach : Link → Link
  detach l = record (set_state idle (fail_session l)) { token = none }

  -- The hello watchdog fires.
  unfoldable pub on_hello_timeout : ℕ → Link → Link
  on_hello_timeout now l =
      let l' = record l { hello_timer = false } in
      elim l.state [ hello ↦ send_hello now l' | _ ↦ l' ]

  -- The retry timer of an unavailable link fires.
  unfoldable pub on_retry : ℕ → List ℕ → Link → Link
  on_retry now token l = start_session now token (record l { retry_timer = false })

  unfoldable pub on_session_up : ℕ → Json → Link → Link
  on_session_up now result l = pump platform now (
      output (session_up result)
        (set_state up (record l { hello_timer = false; peer = some result })))

  -- Fire-and-forget notification to the guest.
  unfoldable pub notify : ℕ → List ℕ → Option Fields → Link → Link
  notify now method params l =
      if in_session l.state
      then (enqueue platform now
          (plain_frame (
            platform.stringify
              (jsonrpc_body (field (codes "method") (str method) (params_field params end)))))
          l).0
      else l

-- What `call` answers at once: the promise is rejected, or the call is pending under an id.
pub data CallResult : Type 0 where
  refused : RpcError → CallResult
  pending_as : List ℕ → CallResult

abbrev pub track_call : List ℕ → PendingCall → Link × Bool → Link × CallResult
track_call id entry (l, false) = (l, refused (of_name overloaded))
track_call id entry (l, true) =
    (output (accepted id) (record l { pending = insert id entry l.pending }), pending_as id)

module _ (platform : Platform) where
  unfoldable pub call : ℕ → List ℕ → Option Fields → Option Number → Link → Link × CallResult
  call now method params deadline l =
      if not (in_session l.state)
      then (l, refused (of_name unavailable_err))
      else if leb max_pending_calls (length l.pending)
      then (l, refused (of_name overloaded))
      else let deadline_ms = clamp_deadline deadline in
        let id = call_id l.next_id in
        let l' = record l { next_id = l.next_id + 1 } in
        let json = platform.stringify (call_body id method params deadline_ms) in
        if ltb (max_frame l') (length (platform.utf8.encode json) + 64)
        then (l', refused (of_name invalid_params))
        else track_call id (record { method = method; deadline_ms = deadline_ms })
            (enqueue platform now (plain_frame json) l')

  abbrev pub cancel_params : List ℕ → Option Fields
  cancel_params id = some (field (codes "id") (str id) end)

  abbrev pub give_up_found : ℕ → List ℕ → RpcError → Option PendingCall → Link → Link
  give_up_found now id err none l = l
  give_up_found now id err (some entry) l =
      let l' = notify platform now (codes "rpc.cancel") (cancel_params id) l in
      output (rejected id err) (record l' { pending = erase id l'.pending })

  -- The deadline timer of a call fires. It is cleared when the call is settled.
  unfoldable pub on_call_deadline : ℕ → List ℕ → Link → Link
  on_call_deadline now id l =
      give_up_found now id (of_name deadline_exceeded) (lookup id l.pending) l

  -- The caller's abort signal fires.
  unfoldable pub on_call_abort : ℕ → List ℕ → Link → Link
  on_call_abort now id l = give_up_found now id (of_name cancelled) (lookup id l.pending) l
