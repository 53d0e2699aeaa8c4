-- ===== src/Rpc/Link/Loss.antt =====
-- When the sender gives up a frame that is never acknowledged (web/app/rpc.ts, onAckTimeout).
use vinx.Prelude.{
  ℕ, zero, suc, ◌+◌, ◌-◌, ◌<◌, ◌≤◌, ◌≡◌, refl, ap, ◌∙◌, true, false, some, none, List, [], ◌∷◌,
  ◌++◌, arith, length, lt→ltb, le→ltb, replicate,
}
use vinx.Rpc.Link.State.{Link, unavailable, Flight, Output, transmitted}
use vinx.Rpc.Link.Sender.{
  on_ack_timeout, retry_flight, is_frozen, retransmit_budget, transmit, link_lost, fail_session,
}
use vinx.Rpc.Link.Effects.{set_state-writes, fail_session-writes}

-- The ack timer fires at these times, one after another.
abbrev pub timeouts : List ℕ → Link → Link
timeouts [] l = l
timeouts (now ∷ later) l = timeouts later (on_ack_timeout now l)

-- None of them comes so late after the one before that the page must have been frozen.
abbrev pub Prompt : ℕ → List ℕ → Type 0
Prompt sent_at [] = Unit {0}
Prompt sent_at (now ∷ later) = (now - sent_at < 4000) × Prompt now later

pub record IsTrying (frame : List ℕ) (n : ℕ) (l r : Link) : Type 0 where
  pub flight : Flight
  pub flies : r.inflight ≡ some flight
  pub same_frame : flight.frame ≡ frame
  pub state_kept : r.state ≡ l.state
  -- the frame was sent `n` times more, and nothing else happened
  pub sent_again : r.log ≡ replicate n (transmitted frame) ++ l.log

pub record IsGivenUp (l : Link) : Type 0 where
  pub unavailable_now : l.state ≡ unavailable
  pub will_retry : l.retry_timer ≡ true
  pub nothing_flies : l.inflight ≡ none
  pub nothing_waits : l.queue ≡ []
  pub nothing_pends : l.pending ≡ []

link_lost-IsGivenUp : (l : Link) → IsGivenUp (link_lost l)
unfolding link_lost
link_lost-IsGivenUp l =
    let (jobs, log, e) = fail_session-writes l in
    let (log', e') = set_state-writes unavailable (fail_session l) in
    rw (e', e)
      (record {
        unavailable_now = refl;
        will_retry = refl;
        nothing_flies = refl;
        nothing_waits = refl;
        nothing_pends = refl;
      })

module _ (now : ℕ) (l : Link) (f : Flight) (e : l.inflight ≡ some f)
    (prompt : now - f.sent_at < 4000) where
  awake : is_frozen now f ≡ false
  awake = ground arith

  gives_up : retransmit_budget f < f.attempts + 1 → IsGivenUp (on_ack_timeout now l)
  unfolding on_ack_timeout retry_flight
  gives_up over =
      rw (e, on_ack_timeout, awake, lt→ltb (retransmit_budget f) (f.attempts + 1) over)
        (link_lost-IsGivenUp _)

  abbrev struck : Flight
  struck = record f { attempts = f.attempts + 1; sent_at = now }

  tries_again :
      f.attempts + 1 ≤ retransmit_budget f
      → ((on_ack_timeout now l).inflight ≡ some struck)
        × ((on_ack_timeout now l).state ≡ l.state)
        × ((on_ack_timeout now l).log ≡ transmitted f.frame ∷ l.log)
  unfolding on_ack_timeout retry_flight transmit
  tries_again within =
      rw
        (
          e,
          on_ack_timeout,
          awake,
          le→ltb (retransmit_budget f) (f.attempts + 1) within,
          lt→ltb 0 (f.attempts + 1) (omega arith),
        )
        (refl, refl, refl)

-- The head of a replicated list may be taken from its end.
replicate-end :
    (n : ℕ) (o : Output) (log : List Output) → replicate n o ++ o ∷ log ≡ o ∷ (replicate n o ++ log)
replicate-end zero o log = refl
replicate-end (suc n) o log = ap (◌∷◌ o) (replicate-end n o log)

-- A frame that is never acknowledged, with the ack timer firing and none of its fires grossly late:
-- it is sent again, and the link keeps its state, until its retransmits are used up (2, or 6 for a
-- hello); one more fire and the link is unavailable, with its calls settled, nothing queued or in
-- flight, and the retry timer armed.
pub timeouts-IsGivenUp :
    (times : List ℕ) (last : ℕ) (l : Link) (f : Flight)
    → l.inflight ≡ some f
    → Prompt f.sent_at (times ++ last ∷ [])
    → f.attempts + length times ≡ retransmit_budget f
    → IsTrying f.frame (length times) l (timeouts times l)
      × IsGivenUp (timeouts (times ++ last ∷ []) l)
timeouts-IsGivenUp [] last l f e prompt budget = (
  record { flight = f; flies = e; same_frame = refl; state_kept = refl; sent_again = refl },
  gives_up last l f e prompt.0 (omega (arith, budget)),
)
timeouts-IsGivenUp (now ∷ times) last l f e prompt budget =
    let (flies, state, log) = tries_again now l f e prompt.0 (omega (arith, budget)) in
    let (tries, lost) =
      timeouts-IsGivenUp times last (on_ack_timeout now l) (struck now l f e prompt.0) flies
        prompt.1 (omega (arith, budget)) in
    (
      record {
        flight = tries.flight;
        flies = tries.flies;
        same_frame = tries.same_frame;
        state_kept = tries.state_kept ∙ state;
        sent_again =
            tries.sent_again
            ∙ ap (λ zs. replicate (length times) (transmitted f.frame) ++ zs) log
            ∙ replicate-end (length times) (transmitted f.frame) l.log;
      },
      lost,
    )
