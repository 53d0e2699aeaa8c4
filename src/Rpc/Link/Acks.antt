-- ===== src/Rpc/Link/Acks.antt =====
-- The sender at acknowledgements and their timeouts (web/app/rpc.ts).
use vinx.Prelude.{
  ℕ, ◌≡◌, refl, sym, ap, subst, ◌∙◌, Bool, true, false, ◌||◌, Option, none, some, inl, inr, arith,
  ltb, ◌==◌, Bool-cases, Option-cases,
}
use vinx.Rpc.Link.State.{Platform, Link, LinkState, idle, hello, up, unavailable, Flight}
use vinx.Rpc.Link.Receive.{on_ack}
use vinx.Rpc.Link.Sender.{
  transmit, retry_flight, on_ack_timeout, strike, is_frozen, retransmit_budget, count_retransmit,
}
use vinx.Rpc.Link.Sound.{
  IsSound, IsPumpable, Flows, MayPump, in_flight, OnlyHello, pump-IsSound, Flows-at,
}
use vinx.Rpc.Link.Starts.{link_lost-IsSound}

-- The same flight, struck or sent again, may stay in its place.
reflown :
    (l : Link) (s : LinkState) (f f' : Flight)
    → l.inflight ≡ some f
    → f'.is_hello ≡ f.is_hello
    → Flows l s
    → Flows (record l { inflight = some f' }) s
reflown l idle f f' e same h = cc (h.1)
reflown l hello f f' e same h = (same ∙ subst OnlyHello e h.0, h.1, h.2)
reflown l up f f' e same h = λ n. cc
reflown l unavailable f f' e same h = cc (h.1)

is_hello-strike : (now : ℕ) (f : Flight) → (strike now f).is_hello ≡ f.is_hello
is_hello-strike now f = ground arith

retry_flight-IsSound :
    (now : ℕ) (frozen : Bool) (l : Link) (f f' : Flight)
    → l.inflight ≡ some f
    → f'.is_hello ≡ f.is_hello
    → IsSound l
    → IsSound (retry_flight now frozen f' (record l { ack_timer = false }))
unfolding retry_flight transmit
retry_flight-IsSound now frozen l f f' e same h =
    elim (Bool-cases (ltb (retransmit_budget f') f'.attempts)) [
      | inl lost ↦ rw lost (link_lost-IsSound _)
      | inr again ↦ rw again (counted (ltb 0 f'.attempts || frozen))
    ]
  where
    again_l : Link
    again_l = record l { ack_timer = false; inflight = some (record f' { sent_at = now }) }

    counted :
        (b : Bool)
        → IsSound (record (transmit f'.frame (count_retransmit b again_l)) { ack_timer = true })
    counted true = record {
      flows = reflown l l.state f (record f' { sent_at = now }) e same h.flows;
      armed = refl;
      plain = h.plain;
      bounded = h.bounded;
    }
    counted false = record {
      flows = reflown l l.state f (record f' { sent_at = now }) e same h.flows;
      armed = refl;
      plain = h.plain;
      bounded = h.bounded;
    }

pub ack_timeout-IsSound : (now : ℕ) (l : Link) → IsSound l → IsSound (on_ack_timeout now l)
unfolding on_ack_timeout
ack_timeout-IsSound now l h = elim (Option-cases l.inflight) [
  | inl e ↦
      let idle_timer : l.ack_timer ≡ false = h.armed ∙ ap in_flight e in
      rw (e, on_ack_timeout) (subst (λ b. IsSound (record l { ack_timer = b })) idle_timer h)
  | inr (f, e) ↦
      rw (e, on_ack_timeout)
        (retry_flight-IsSound now (is_frozen now f) l f (strike now f) e (is_hello-strike now f) h)
]

module _ (platform : Platform) (now : ℕ) where
  acked_by :
      (seq : ℕ) (flight : Option Flight) (s : LinkState) (l : Link)
      → l.inflight ≡ flight
      → l.state ≡ s
      → IsSound l
      → IsSound (on_ack platform now seq flight l)
  acked_by seq none s l e t h = h
  acked_by seq (some f) s l e t h = elim (Bool-cases (seq == f.seq)) [
    | inl mine ↦ rw mine (pump-IsSound platform now _ (freed s t))
    | inr late ↦ rw late h
  ]
    where
      freed :
          (s : LinkState)
          → l.state ≡ s
          → IsPumpable (record l { ack_timer = false; inflight = none })
      freed s t = record {
        may_pump =
            subst (MayPump (record l { ack_timer = false; inflight = none })) (sym t)
              (may s (Flows-at l s t h));
        armed = refl;
        plain = h.plain;
        bounded = h.bounded;
      }
        where
          may :
              (s : LinkState)
              → Flows l s
              → MayPump (record l { ack_timer = false; inflight = none }) s
          may idle k = cc (k.1, e)
          may hello k = (tt, k.1, k.2)
          may up k = tt
          may unavailable k = cc (k.1, e)

  pub ack-IsSound :
      (seq : ℕ) (l : Link) → IsSound l → IsSound (on_ack platform now seq l.inflight l)
  ack-IsSound seq l h = acked_by seq l.inflight l.state l refl refl h
