-- ===== src/Rpc/Link/Starts.antt =====
-- The sender at the start, the loss and the end of a session (web/app/rpc.ts).
use vinx.Prelude.{
  ℕ, ◌≤◌, ◌≡◌, refl, sym, subst, false, Option, none, some, List, [], ◌∷◌, arith, length, All,
}
use vinx.Rpc.Json.{Json}
use vinx.Rpc.Link.State.{
  Platform, Link, LinkState, idle, hello, up, unavailable, QueuedFrame, max_send_queue,
}
use vinx.Rpc.Link.Session.{
  detach, without_hello, send_hello, send_hello_for, fresh_session, start_session, on_hello_timeout,
  on_session_up,
}
use vinx.Rpc.Link.Effects.{set_state-writes, fail_session-writes}
use vinx.Rpc.Link.Sender.{transmit, fly, pump_queue, pump, fail_session, clear_session, link_lost}
use vinx.Rpc.Link.Sound.{IsSound, pump-IsSound, IsSound-at, Flows-at}

pub link_lost-IsSound : (l : Link) → IsSound (link_lost l)
unfolding link_lost
link_lost-IsSound l =
    let (jobs, log, e) = fail_session-writes l in
    let (log', e') = set_state-writes unavailable (fail_session l) in
    rw (e', e)
      (record { flows = (refl, refl, refl); armed = refl; plain = tt; bounded = omega arith })

module _ (platform : Platform) where
  pub detach-IsSound : (l : Link) → IsSound (detach platform l)
  unfolding detach
  detach-IsSound l =
      let (jobs, log, e) = fail_session-writes l in
      let (log', e') = set_state-writes idle (fail_session l) in
      rw (e', e) (record { flows = (refl, refl); armed = refl; plain = tt; bounded = omega arith })

  without_hello-plain :
      (q : List QueuedFrame) → All (λ (f : QueuedFrame). f.is_hello ≡ false) (without_hello q)
  unfolding without_hello
  without_hello-plain [] = tt
  without_hello-plain (f ∷ q) = ground (arith, without_hello-plain q)

  length-without_hello : (q : List QueuedFrame) → length (without_hello q) ≤ length q
  unfolding without_hello
  length-without_hello [] = omega arith
  length-without_hello (f ∷ q) = ground (arith, length-without_hello q)

  -- Sending hello in state hello puts it in flight at once, with both timers armed.
  send_hello-IsSound :
      (now : ℕ) (token : List ℕ) (l : Link)
      → length l.queue ≤ max_send_queue
      → IsSound (send_hello platform now (record l { state = hello; token = some token }))
  unfolding send_hello send_hello_for pump pump_queue fly transmit
  send_hello-IsSound now token l fits = record {
    flows = (refl, refl, refl);
    armed = refl;
    plain = without_hello-plain l.queue;
    bounded = omega (arith, length-without_hello l.queue);
  }

  pub start_session-IsSound :
      (now : ℕ) (token : List ℕ) (l : Link) → IsSound (start_session platform now token l)
  unfolding start_session
  start_session-IsSound now token l =
      let (jobs, log, e) = fail_session-writes l in
      let cleared : Link = clear_session (record l { jobs = jobs; log = log }) in
      let (log', e') = set_state-writes hello (fresh_session token cleared) in
      rw e (
        rw e' (
          send_hello-IsSound now token (record (fresh_session token cleared) { log = log' })
            (omega arith)))

  pub hello_timeout-IsSound :
      (now : ℕ) (l : Link) (s : LinkState)
      → l.state ≡ s
      → IsSound l
      → IsSound (on_hello_timeout platform now l)
  unfolding on_hello_timeout
  hello_timeout-IsSound now l idle e h =
      rw (e, on_hello_timeout) (IsSound-at _ idle e (Flows-at l idle e h) h.armed h.plain h.bounded)
  hello_timeout-IsSound now l up e h =
      rw (e, on_hello_timeout) (IsSound-at _ up e (Flows-at l up e h) h.armed h.plain h.bounded)
  hello_timeout-IsSound now l unavailable e h =
      rw (e, on_hello_timeout)
        (IsSound-at _ unavailable e (Flows-at l unavailable e h) h.armed h.plain h.bounded)
  hello_timeout-IsSound now l hello e h = rw (e, on_hello_timeout) (repeated l.token refl)
    where
      same :
          (token : List ℕ)
          → l.token ≡ some token
          → record l { hello_timer = false; state = hello; token = some token }
            ≡ record l { hello_timer = false }
      same token t = λ i. record l { hello_timer = false; state = sym e i; token = sym t i }

      repeated :
          (token : Option (List ℕ))
          → l.token ≡ token
          → IsSound (send_hello platform now (record l { hello_timer = false }))
      repeated none t = ground (arith, (Flows-at l hello e h).2)
      repeated (some token) t =
          subst (λ r. IsSound (send_hello platform now r)) (same token t)
            (send_hello-IsSound now token (record l { hello_timer = false }) h.bounded)

  pub session_up-IsSound :
      (now : ℕ) (result : Json) (l : Link)
      → IsSound l
      → IsSound (on_session_up platform now result l)
  unfolding on_session_up
  session_up-IsSound now result l h =
      let (log, e) = set_state-writes up (record l { hello_timer = false; peer = some result }) in
      rw e (
        pump-IsSound platform now _
          (record { may_pump = tt; armed = h.armed; plain = h.plain; bounded = h.bounded }))
