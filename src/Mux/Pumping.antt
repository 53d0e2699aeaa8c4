-- ===== src/Mux/Pumping.antt =====
-- The loop that sends what is queued on a channel (web/app/stream-mux.ts).
use vinx.Prelude.{
  ℕ, zero, suc, ◌+◌, ◌≤◌, ◌<◌, ◌≡◌, refl, sym, ap, ◌∙◌, ◌⊎◌, subst, none, some, List, [], ◌∷◌, ◌++◌,
  inl, inr, arith, ltb, leb, length, take, drop, All, joined, joined-append, All-append,
  append_assoc, append-nil, length-take, length-drop, take-append-drop, Bool-cases, Option-cases,
  ltb→lt, ltb→le,
}
use vinx.Mux.{
  Channel, Pump, mux_frame_max, mux_link_window, budget_of, emit_chunk, pump_chunk, pump_head,
  pump_step, pump_loop, total_bytes, pump_fuel,
}

-- The count of queued bytes is right, and no chunk is empty.
pub record IsChannel (ch : Channel) : Type 0 where
  pub counted : ch.queued_bytes ≡ total_bytes ch.queue
  pub filled : All (λ (chunk : List ℕ). 0 < length chunk) ch.queue

-- A frame carries a byte at least, and at most the largest payload.
abbrev pub IsFramed : List ℕ → Type 0
IsFramed chunk = (0 < length chunk) × (length chunk ≤ mux_frame_max)

-- From `p` the loop came to `q`.
pub record Pumped (p q : Pump) : Type 0 where
  pub order : joined q.frames ++ joined q.channel.queue ≡ joined p.frames ++ joined p.channel.queue
  pub grant : q.channel.window + q.channel.in_flight ≡ p.channel.window + p.channel.in_flight
  pub share : q.link + p.channel.in_flight ≡ p.link + q.channel.in_flight
  pub within : p.link ≤ mux_link_window → q.link ≤ mux_link_window
  pub is_channel : IsChannel p.channel → IsChannel q.channel
  pub framed : All IsFramed p.frames → IsChannel p.channel → All IsFramed q.frames
  pub handler : q.channel.handler ≡ p.channel.handler
  pub shrinks : total_bytes q.channel.queue ≤ total_bytes p.channel.queue

Pumped-refl : (p : Pump) → Pumped p p
Pumped-refl p = record {
  order = refl;
  grant = refl;
  share = omega arith;
  within = λ h. h;
  is_channel = λ h. h;
  framed = λ h c. h;
  handler = refl;
  shrinks = omega arith;
}

Pumped-trans : (p q r : Pump) → Pumped p q → Pumped q r → Pumped p r
Pumped-trans p q r a b = record {
  order = b.order ∙ a.order;
  grant = b.grant ∙ a.grant;
  share = omega (arith, a.share, b.share);
  within = λ h. b.within (a.within h);
  is_channel = λ h. b.is_channel (a.is_channel h);
  framed = λ h c. b.framed (a.framed h c) (a.is_channel c);
  handler = b.handler ∙ a.handler;
  shrinks = omega (arith, a.shrinks, b.shrinks);
}

-- One frame of a chunk that fits the budget.
emit_chunk-Pumped :
    (p : Pump) (chunk : List ℕ) (rest : List (List ℕ))
    → joined p.channel.queue ≡ chunk ++ joined rest
    → length chunk ≤ budget_of p
    → total_bytes p.channel.queue ≡ length chunk + total_bytes rest
    → (IsChannel p.channel → (0 < length chunk) × All (λ (c : List ℕ). 0 < length c) rest)
    → Pumped p (emit_chunk chunk rest p)
emit_chunk-Pumped p chunk rest same fits sum full = record {
  order =
      ap (λ zs. zs ++ joined rest) (joined-append p.frames (chunk ∷ []))
      ∙ rw (append-nil chunk) (append_assoc (joined p.frames) chunk (joined rest))
      ∙ ap (◌++◌ (joined p.frames)) (sym same);
  grant = omega arith;
  share = omega arith;
  within = λ h. omega arith;
  is_channel = λ h. record { counted = omega (arith, h.counted); filled = (full h).1 };
  framed = λ h c. All-append IsFramed p.frames (chunk ∷ []) h (((full c).0, omega arith), tt);
  handler = refl;
  shrinks = omega (arith, sum);
}

-- The work that is left.
abbrev backlog : Pump → ℕ
backlog p = length p.channel.queue + total_bytes p.channel.queue

module _ (p : Pump) (chunk : List ℕ) (rest : List (List ℕ)) (e : p.channel.queue ≡ chunk ∷ rest)
    (open_budget : 0 < budget_of p) where
  full_chunk : IsChannel p.channel → (0 < length chunk) × All (λ (c : List ℕ). 0 < length c) rest
  full_chunk h = rw e at h.filled

  -- Part of the chunk is sent, and the rest of it stays at the head.
  split-Pumped :
      budget_of p < length chunk
      → Pumped p (emit_chunk (take (budget_of p) chunk) (drop (budget_of p) chunk ∷ rest) p)
  split-Pumped long =
      emit_chunk-Pumped p (take (budget_of p) chunk) (drop (budget_of p) chunk ∷ rest)
        (rw e (
          rw
            (
              ← append_assoc (take (budget_of p) chunk) (drop (budget_of p) chunk) (joined rest),
              take-append-drop (budget_of p) chunk,
            )
            refl))
        (omega (arith, length-take (budget_of p) chunk))
        (rw e (omega (arith, length-take (budget_of p) chunk, length-drop (budget_of p) chunk)))
        (λ h. (
          omega (arith, length-take (budget_of p) chunk),
          (omega (arith, length-drop (budget_of p) chunk), (full_chunk h).1),
        ))

  pump_chunk-Pumped : Pumped p (pump_chunk (budget_of p) chunk rest p)
  pump_chunk-Pumped = elim (Bool-cases (ltb (budget_of p) (length chunk))) [
    | inl long ↦ rw long (split-Pumped (ltb→lt _ _ long))
    | inr short ↦ rw short (
        emit_chunk-Pumped p chunk rest (rw e) (ltb→le (budget_of p) (length chunk) short) (rw e)
          full_chunk)
  ]

  pump_chunk-backlog : backlog (pump_chunk (budget_of p) chunk rest p) < backlog p
  pump_chunk-backlog = elim (Bool-cases (ltb (budget_of p) (length chunk))) [
    | inl long ↦
        rw (long, e)
          (omega (arith, length-drop (budget_of p) chunk, ltb→lt (budget_of p) (length chunk) long))
    | inr short ↦ rw (short, e) (omega arith)
  ]

pump_head-Pumped :
    (queue : List (List ℕ)) (p q : Pump)
    → p.channel.queue ≡ queue
    → pump_head queue p ≡ some q
    → Pumped p q × (backlog q < backlog p)
unfolding pump_head
pump_head-Pumped [] p q e h = cc
pump_head-Pumped (chunk ∷ rest) p q e h = elim (Bool-cases (leb (budget_of p) 0)) [
  | inl shut ↦ let none_some : none ≡ some q = rw shut at h in cc none_some
  | inr more ↦
      let open_budget : 0 < budget_of p = ground arith in
      let same : some (pump_chunk (budget_of p) chunk rest p) ≡ some q = rw more at h in
      subst (λ (r : Pump). Pumped p r × (backlog r < backlog p)) (cc same)
        (
          pump_chunk-Pumped p chunk rest e open_budget,
          pump_chunk-backlog p chunk rest e open_budget,
        )
]

-- Whatever the fuel, the loop keeps the bytes in order and the accounts balanced.
pub pump_loop-Pumped : (fuel : ℕ) (p : Pump) → Pumped p (pump_loop fuel p)
unfolding pump_loop
pump_loop-Pumped zero p = Pumped-refl p
pump_loop-Pumped (suc fuel) p = elim (Option-cases (pump_step p)) [
  | inl e ↦ rw (e, pump_loop) (Pumped-refl p)
  | inr (q, e) ↦
      rw (e, pump_loop)
        (Pumped-trans p q _ (pump_head-Pumped p.channel.queue p q refl e).0
          (pump_loop-Pumped fuel q))
]

-- With fuel above the backlog the loop ends because nothing more may be sent.
pump_loop-stops : (fuel : ℕ) (p : Pump) → backlog p < fuel → pump_step (pump_loop fuel p) ≡ none
unfolding pump_loop
pump_loop-stops zero p h = absurd (omega arith)
pump_loop-stops (suc fuel) p h = elim (Option-cases (pump_step p)) [
  | inl e ↦ rw (e, pump_loop) e
  | inr (q, e) ↦
      rw (e, pump_loop)
        (pump_loop-stops fuel q (omega (arith, (pump_head-Pumped p.channel.queue p q refl e).1)))
]

pump_head-none :
    (queue : List (List ℕ)) (p : Pump) → pump_head queue p ≡ none → (queue ≡ []) ⊎ (budget_of p ≡ 0)
unfolding pump_head
pump_head-none [] p h = inl refl
pump_head-none (chunk ∷ rest) p h = inr (ground arith)

-- The fuel of `pump` is enough: the loop ends with nothing queued, or with no byte that may be sent.
pub pump_loop-done :
    (p : Pump)
    → let q = pump_loop (pump_fuel p.channel.queue) p in (q.channel.queue ≡ []) ⊎ (budget_of q ≡ 0)
pump_loop-done p = pump_head-none _ _ (pump_loop-stops (pump_fuel p.channel.queue) p (omega arith))
