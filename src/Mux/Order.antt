-- ===== src/Mux/Order.antt =====
-- What goes out on a channel, and what stays queued (web/app/stream-mux.ts).
use vinx.Prelude.{
  ℕ, ◌+◌, ◌≤◌, ◌<◌, ◌≡◌, ◌≢◌, refl, ap, ◌∙◌, some, List, [], ◌∷◌, ◌++◌, inl, inr, ◌⊎◌, arith, leb,
  ◌==◌, ==_refl, le→ltb, All-append, length, All, joined, Bool-cases, false,
}
use vinx.Prelude.Assoc.{nat_eq, lookup, lookup-insert}
use vinx.Mux.{
  Channel, Mux, Pump, Event, sent, delivered, sent_all, mux_link_window, channel_queue_max,
  budget_of, start_pump, run_pump, pump, settle, credit, credit_found, shed, send, send_found,
  pump_fuel,
}
use vinx.Mux.Pumping.{IsChannel, IsFramed, Pumped, pump_loop-Pumped, pump_loop-done}
use vinx.Mux.Flow.{IsValid}
use vinx.Mux.Queue.{total_bytes-append}

-- The payload bytes that go out on the wire, in order.
abbrev pub payloads : List Event → List ℕ
payloads [] = []
payloads (sent id chunk ∷ rest) = chunk ++ payloads rest
payloads (delivered h chunk ∷ rest) = payloads rest

-- Only frames of channel `id`, none empty and none past the largest payload.
abbrev pub OnlyFrames : ℕ → List Event → Type 0
OnlyFrames id [] = Unit {0}
OnlyFrames id (sent j chunk ∷ rest) = (j ≡ id) × IsFramed chunk × OnlyFrames id rest
OnlyFrames id (delivered h chunk ∷ rest) = ⊥

payloads-sent_all :
    (id : ℕ) (frames : List (List ℕ)) → payloads (sent_all id frames) ≡ joined frames
payloads-sent_all id [] = refl
payloads-sent_all id (f ∷ frames) = ap (◌++◌ f) (payloads-sent_all id frames)

OnlyFrames-sent_all :
    (id : ℕ) (frames : List (List ℕ)) → All IsFramed frames → OnlyFrames id (sent_all id frames)
OnlyFrames-sent_all id [] h = tt
OnlyFrames-sent_all id (f ∷ frames) h = (refl, h.0, OnlyFrames-sent_all id frames h.1)

-- What a call that pumps channel `id` does, where `ch` is the channel before the loop.
pub record Sends (id : ℕ) (ch : Channel) (chs : List (ℕ × Channel)) (r : List Event × Mux)
    : Type 0 where
  pub channel : Channel
  pub stored : lookup id r.1.channels ≡ some channel
  pub order : payloads r.0 ++ joined channel.queue ≡ joined ch.queue
  pub frames : OnlyFrames id r.0
  pub grant : channel.window + channel.in_flight ≡ ch.window + ch.in_flight
  -- nothing is held back that could go
  pub no_stall :
      (channel.queue ≡ []) ⊎ (channel.window ≡ 0) ⊎ (mux_link_window ≤ r.1.link_in_flight)
  pub others : (j : ℕ) → id ≢ j → lookup j r.1.channels ≡ lookup j chs

differ : (i j : ℕ) → i ≢ j → (i == j) ≡ false
differ i j ne = ground arith

budget_zero : (q : Pump) → budget_of q ≡ 0 → (q.channel.window ≡ 0) ⊎ (mux_link_window ≤ q.link)
budget_zero q h = elim (Bool-cases (leb q.channel.window 0)) [
  | inl shut ↦ inl (ground arith)
  | inr some_window ↦ inr (ground arith)
]

pump-Sends :
    (id : ℕ) (ch : Channel) (m : Mux) → IsChannel ch → Sends id ch m.channels (pump id ch m)
unfolding pump
pump-Sends id ch m ok = record {
  channel = p.channel;
  stored = lookup-insert id id p.channel m.channels ∙ rw (==_refl id);
  order = ap (λ zs. zs ++ joined p.channel.queue) (payloads-sent_all id p.frames) ∙ done.order;
  frames = OnlyFrames-sent_all id p.frames (done.framed tt ok);
  grant = done.grant;
  no_stall = drained (pump_loop-done (start_pump ch m));
  others = λ j ne. lookup-insert id j p.channel m.channels ∙ rw (differ id j ne);
}
  where
    p : Pump
    p = run_pump ch m

    done : Pumped (start_pump ch m) (run_pump ch m)
    done = pump_loop-Pumped (pump_fuel ch.queue) (start_pump ch m)

    drained :
        (p.channel.queue ≡ []) ⊎ (budget_of p ≡ 0)
        → (p.channel.queue ≡ []) ⊎ (p.channel.window ≡ 0) ⊎ (mux_link_window ≤ p.link)
    drained (inl e) = inl e
    drained (inr e) = inr (budget_zero p e)

le→leb_zero : (n : ℕ) → 0 < n → leb n 0 ≡ false
le→leb_zero n h = ground arith

shed_fits :
    (queue : List (List ℕ)) (queued dropped : ℕ)
    → queued ≤ channel_queue_max
    → shed queue queued dropped ≡ record { queue = queue; queued = queued; dropped = dropped }
unfolding shed
shed_fits [] queued dropped h = refl
shed_fits (oldest ∷ rest) queued dropped h = rw (le→ltb channel_queue_max queued h)

module _ (id : ℕ) (m : Mux) (ch : Channel) (v : IsValid m)
    (e : lookup id m.channels ≡ some ch) where
  -- A write of some bytes that fit the queue's bound sends nothing but frames of its channel, loses
  -- nothing and keeps the order: what goes out and what stays queued are what was queued and then
  -- the new bytes. The guest's grant is neither exceeded nor lost, other channels are untouched, and
  -- bytes stay queued only where the channel's window or the link's window is used up.
  pub send-Sends :
      (bytes : List ℕ)
      → 0 < length bytes
      → ch.queued_bytes + length bytes ≤ channel_queue_max
      → let grown : Channel = record ch {
        queue = ch.queue ++ bytes ∷ [];
        queued_bytes = ch.queued_bytes + length bytes;
      } in
        Sends id grown m.channels (send id bytes m)
  unfolding send
  send-Sends bytes some_bytes fits =
      let ok = (v.channels id ch e).is_channel in
      rw
        (
          e,
          send_found,
          le→leb_zero (length bytes) some_bytes,
          shed_fits (ch.queue ++ bytes ∷ []) (ch.queued_bytes + length bytes) 0 fits,
        )
        (pump-Sends id _ _ (record {
          counted = omega (arith, ok.counted, total_bytes-append ch.queue (bytes ∷ []));
          filled = All-append _ ch.queue (bytes ∷ []) ok.filled (some_bytes, tt);
        }))

  -- A credit opens the window by its bytes, and what was queued goes out, in order, as far as the
  -- windows allow.
  pub credit-Sends :
      (bytes : ℕ) → 0 < bytes → Sends id (settle bytes ch) m.channels (credit id bytes m)
  unfolding credit
  credit-Sends bytes some_bytes =
      let ok = (v.channels id ch e).is_channel in
      rw (e, credit_found, le→leb_zero bytes some_bytes)
        (pump-Sends id (settle bytes ch) _ (record { counted = ok.counted; filled = ok.filled }))
