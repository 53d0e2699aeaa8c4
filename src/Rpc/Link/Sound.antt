-- ===== src/Rpc/Link/Sound.antt =====
-- Queue, flight and timers of the sender in each state of the link, and the pump (web/app/rpc.ts).
use vinx.Prelude.{
  ℕ, ◌≤◌, ◌≡◌, refl, sym, subst, Bool, true, false, Option, none, some, List, [], ◌∷◌, ◌++◌, inl,
  inr, arith, leb, length, All, All-append, length-append, Bool-cases, Option-cases,
}
use vinx.Rpc.Link.State.{
  Platform, Link, LinkState, idle, hello, up, unavailable, Flight, QueuedFrame, max_send_queue,
}
use vinx.Rpc.Link.Session.{in_session}
use vinx.Rpc.Link.Sender.{transmit, fly, pump_queue, pump, enqueue, plain_frame}

abbrev pub in_flight : Option Flight → Bool
in_flight none = false
in_flight (some f) = true

abbrev pub OnlyHello : Option Flight → Type 0
OnlyHello none = Unit {0}
OnlyHello (some f) = f.is_hello ≡ true

abbrev pub is_set : Option (List ℕ) → Bool
is_set none = false
is_set (some t) = true

-- What holds in each state. Idle: nothing waits. Hello: only the hello frame flies, and the watchdog
-- is armed over a token to repeat it with. Up: what is queued waits for a frame in flight.
-- Unavailable: nothing waits, and the retry timer is armed.
abbrev pub Flows : Link → LinkState → Type 0
Flows l idle = (l.queue ≡ []) × (l.inflight ≡ none)
Flows l hello = OnlyHello l.inflight × (l.hello_timer ≡ true) × (is_set l.token ≡ true)
Flows l up = l.inflight ≡ none → l.queue ≡ []
Flows l unavailable = (l.queue ≡ []) × (l.inflight ≡ none) × (l.retry_timer ≡ true)

pub record IsSound (l : Link) : Type 0 where
  pub flows : Flows l l.state
  -- the ack timer is armed exactly while a frame is in flight
  pub armed : l.ack_timer ≡ in_flight l.inflight
  pub plain : All (λ (q : QueuedFrame). q.is_hello ≡ false) l.queue
  pub bounded : length l.queue ≤ max_send_queue

-- What `pump` needs: a session, and all of the above but that the queue may be waiting.
abbrev pub MayPump : Link → LinkState → Type 0
MayPump l idle = ⊥
MayPump l hello = Flows l hello
MayPump l up = Unit {0}
MayPump l unavailable = ⊥

pub record IsPumpable (l : Link) : Type 0 where
  pub may_pump : MayPump l l.state
  pub armed : l.ack_timer ≡ in_flight l.inflight
  pub plain : All (λ (q : QueuedFrame). q.is_hello ≡ false) l.queue
  pub bounded : length l.queue ≤ max_send_queue

MayPump-Flows :
    (l : Link) (s : LinkState) (f : Flight) → l.inflight ≡ some f → MayPump l s → Flows l s
MayPump-Flows l idle f e m = absurd m
MayPump-Flows l hello f e m = m
MayPump-Flows l up f e m = λ n. cc
MayPump-Flows l unavailable f e m = absurd m

live-MayPump :
    (l : Link) (json : List ℕ) (s : LinkState)
    → in_session s ≡ true
    → Flows l s
    → MayPump (record l { queue = l.queue ++ plain_frame json ∷ [] }) s
live-MayPump l json idle live h = cc
live-MayPump l json hello live h = h
live-MayPump l json up live h = tt
live-MayPump l json unavailable live h = cc

module _ (platform : Platform) (now : ℕ) where
  pump_queue-IsSound :
      (queue : List QueuedFrame) (state : LinkState) (l : Link)
      → l.queue ≡ queue
      → l.state ≡ state
      → l.inflight ≡ none
      → IsPumpable l
      → IsSound (pump_queue platform now queue l)
  unfolding pump_queue fly transmit
  pump_queue-IsSound [] hello l e s f h = ground arith
  pump_queue-IsSound [] up l e s f h = ground arith
  pump_queue-IsSound [] idle l e s f h = ground arith
  pump_queue-IsSound [] unavailable l e s f h = ground arith
  pump_queue-IsSound (q ∷ rest) hello l e s f h =
      let plain : All (λ (q : QueuedFrame). q.is_hello ≡ false) (q ∷ rest) =
        subst (All (λ (q : QueuedFrame). q.is_hello ≡ false)) e h.plain in
      ground arith
  pump_queue-IsSound (q ∷ rest) up l e s f h =
      let plain : All (λ (q : QueuedFrame). q.is_hello ≡ false) (q ∷ rest) =
        subst (All (λ (q : QueuedFrame). q.is_hello ≡ false)) e h.plain in
      let short : length (q ∷ rest) ≤ max_send_queue =
        subst (λ zs. length zs ≤ max_send_queue) e h.bounded in
      ground arith
  pump_queue-IsSound (q ∷ rest) idle l e s f h = ground arith
  pump_queue-IsSound (q ∷ rest) unavailable l e s f h = ground arith

  pub pump-IsSound : (l : Link) → IsPumpable l → IsSound (pump platform now l)
  unfolding pump
  pump-IsSound l h = elim (Option-cases l.inflight) [
    | inl none_flies ↦
        rw (none_flies, pump) (pump_queue-IsSound l.queue l.state l refl refl none_flies h)
    | inr (f, flies) ↦
        rw (flies, pump)
          (record {
            flows = MayPump-Flows l l.state f flies h.may_pump;
            armed = h.armed;
            plain = h.plain;
            bounded = h.bounded;
          })
  ]

  pub enqueue-IsSound :
      (json : List ℕ) (l : Link)
      → in_session l.state ≡ true
      → IsSound l
      → IsSound (enqueue platform now (plain_frame json) l).0
  unfolding enqueue
  enqueue-IsSound json l live h = elim (Bool-cases (leb max_send_queue (length l.queue))) [
    | inl full ↦ rw full h
    | inr room ↦ rw room (
        pump-IsSound (record l { queue = l.queue ++ plain_frame json ∷ [] })
          (record {
            may_pump = live-MayPump l json l.state live h.flows;
            armed = h.armed;
            plain = All-append _ l.queue (plain_frame json ∷ []) h.plain (refl, tt);
            bounded = ground (arith, length-append l.queue (plain_frame json ∷ []));
          }))
  ]

pub IsSound-at :
    (l : Link) (s : LinkState)
    → l.state ≡ s
    → Flows l s
    → l.ack_timer ≡ in_flight l.inflight
    → All (λ (q : QueuedFrame). q.is_hello ≡ false) l.queue
    → length l.queue ≤ max_send_queue
    → IsSound l
IsSound-at l s e f a p b = record {
  flows = subst (Flows l) (sym e) f;
  armed = a;
  plain = p;
  bounded = b;
}

pub Flows-at : (l : Link) (s : LinkState) → l.state ≡ s → IsSound l → Flows l s
Flows-at l s e h = subst (Flows l) e h.flows
