-- ===== src/Rpc/Link/Steps.antt =====
-- The sender at every event (web/app/rpc.ts).
use vinx.Prelude.{
  ℕ, ◌+◌, refl, Bool, true, false, Option, List, [], ◌∷◌, inl, inr, arith, ltb, leb, if◌then◌else◌,
  length, Bool-cases,
}
use vinx.Prelude.Assoc.{nat_eq, text_key, lookup}
use vinx.Rpc.Json.{Fields, Number}
use vinx.Rpc.Link.State.{
  Platform, Link, PendingCall, max_pending_calls, max_frame, clamp_deadline, new_link,
}
use vinx.Rpc.Link.Sender.{on_ack_timeout}
use vinx.Rpc.Link.Session.{
  attach, on_hello_timeout, on_retry, in_session, call, track_call, on_call_deadline, on_call_abort,
  call_id, call_body,
}
use vinx.Rpc.Link.Receive.{on_handler_result, on_handler_error}
use vinx.Rpc.Link.Events.{
  LinkEvent, attaches, detaches, calls, notifies, bytes_come, ack_timer_fires, hello_timer_fires,
  retry_timer_fires, call_deadline_fires, caller_aborts, serve_deadline_fires, handler_returns,
  handler_throws, step, run,
}
use vinx.Rpc.Link.Sound.{IsSound, enqueue-IsSound}
use vinx.Rpc.Link.Starts.{detach-IsSound, start_session-IsSound, hello_timeout-IsSound}
use vinx.Rpc.Link.Acks.{ack_timeout-IsSound}
use vinx.Rpc.Link.Answers.{notify-IsSound, answer-IsSound, serve_deadline-IsSound, give_up-IsSound}
use vinx.Rpc.Link.Received.{bytes-IsSound}

module _ (platform : Platform) (now : ℕ) where
  track_call-IsSound :
      (id : List ℕ) (entry : PendingCall) (r : Link × Bool)
      → IsSound r.0
      → IsSound (track_call id entry r).0
  track_call-IsSound id entry (l, false) h = h
  track_call-IsSound id entry (l, true) h = record {
    flows = h.flows;
    armed = h.armed;
    plain = h.plain;
    bounded = h.bounded;
  }

  call-IsSound :
      (method : List ℕ) (params : Option Fields) (deadline : Option Number) (l : Link)
      → IsSound l
      → IsSound (call platform now method params deadline l).0
  unfolding call
  call-IsSound method params deadline l h = elim (Bool-cases (in_session l.state)) [
    | inr dead ↦ rw dead h
    | inl live ↦ elim (Bool-cases (leb max_pending_calls (length l.pending))) [
      | inl full ↦ rw (live, full) h
      | inr room ↦
          elim (Bool-cases (ltb (max_frame numbered) (length (platform.utf8.encode json) + 64))) [
            | inl long ↦ rw (live, room, long) taken
            | inr fits ↦
                rw (live, room, fits)
                  (track_call-IsSound _ _ _ (enqueue-IsSound platform now json numbered live taken))
          ]
    ]
  ]
    where
      numbered : Link
      numbered = record l { next_id = l.next_id + 1 }

      json : List ℕ
      json =
          platform.stringify (call_body (call_id l.next_id) method params (clamp_deadline deadline))

      taken : IsSound numbered
      taken = record { flows = h.flows; armed = h.armed; plain = h.plain; bounded = h.bounded }

module _ (platform : Platform) where
  fired-IsSound :
      (armed : Bool) (l l' : Link) → IsSound l → IsSound l' → IsSound (if armed then l' else l)
  fired-IsSound true l l' h k = k
  fired-IsSound false l l' h k = h

  step-IsSound : (l : Link) (e : LinkEvent) → IsSound l → IsSound (step platform l e)
  unfolding step attach on_retry on_call_deadline on_call_abort on_handler_result on_handler_error
  step-IsSound l (attaches now token) h = start_session-IsSound platform now token l
  step-IsSound l detaches h = detach-IsSound platform l
  step-IsSound l (calls now method params deadline) h =
      call-IsSound platform now method params deadline l h
  step-IsSound l (notifies now method params) h = notify-IsSound platform now method params l h
  step-IsSound l (bytes_come now bytes) h = bytes-IsSound platform now bytes l h
  step-IsSound l (ack_timer_fires now) h =
      fired-IsSound l.ack_timer l (on_ack_timeout now l) h (ack_timeout-IsSound now l h)
  step-IsSound l (hello_timer_fires now) h =
      fired-IsSound l.hello_timer l (on_hello_timeout platform now l) h
        (hello_timeout-IsSound platform now l l.state refl h)
  step-IsSound l (retry_timer_fires now token) h =
      fired-IsSound l.retry_timer l (on_retry platform now token l) h
        (start_session-IsSound platform now token _)
  step-IsSound l (call_deadline_fires now id) h =
      give_up-IsSound platform now id _ (lookup id l.pending) l h
  step-IsSound l (caller_aborts now id) h =
      give_up-IsSound platform now id _ (lookup id l.pending) l h
  step-IsSound l (serve_deadline_fires now k) h = serve_deadline-IsSound platform now k l h
  step-IsSound l (handler_returns now k result) h = answer-IsSound platform now k _ l h
  step-IsSound l (handler_throws now k err) h = answer-IsSound platform now k _ l h

  run_kept : (es : List LinkEvent) (l : Link) → IsSound l → IsSound (run platform l es)
  unfolding run
  run_kept [] l h = h
  run_kept (e ∷ es) l h = run_kept es _ (step-IsSound l e h)

  -- Whatever a new link is told and whatever happens to it, in any order, its sender is sound:
  -- the ack timer is armed exactly while a frame is in flight, at most 64 frames wait and none of
  -- them is a hello; an idle link has nothing to send; in state hello only a hello flies, and the
  -- watchdog is armed; in state up no frame waits unless one is in flight; an unavailable link has
  -- its retry timer armed.
  pub run-IsSound : (es : List LinkEvent) → IsSound (run platform new_link es)
  run-IsSound es =
      run_kept es new_link
        (record { flows = (refl, refl); armed = refl; plain = tt; bounded = omega arith })
