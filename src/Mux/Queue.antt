-- ===== src/Mux/Queue.antt =====
-- The bound on what is queued for a channel (web/app/stream-mux.ts).
use vinx.Prelude.{
  ℕ, ◌+◌, ◌-◌, ◌≤◌, ◌<◌, ◌≡◌, refl, sym, ap, ◌∙◌, List, [], ◌∷◌, ◌++◌, inl, inr, arith, ltb, length,
  All, All-append, joined, length-append, append_assoc, Bool-cases,
}
use vinx.Prelude.Assoc.{nat_eq}
use vinx.Mux.{Channel, Shed, channel_queue_max, total_bytes, shed, enqueue}
use vinx.Mux.Pumping.{IsChannel}

-- What the bound leaves of a queue: the end of it, within the bound, and the bytes dropped counted.
pub record IsShed (queue : List (List ℕ)) (dropped : ℕ) (r : Shed) : Type 0 where
  pub counted : r.queued ≡ total_bytes r.queue
  pub bounded : r.queued ≤ channel_queue_max
  pub filled : All (λ (c : List ℕ). 0 < length c) r.queue
  pub lost : List ℕ
  pub split : joined queue ≡ lost ++ joined r.queue
  pub lost_bytes : dropped + length lost ≡ r.dropped

shed-IsShed :
    (queue : List (List ℕ)) (queued dropped : ℕ)
    → queued ≡ total_bytes queue
    → All (λ (c : List ℕ). 0 < length c) queue
    → IsShed queue dropped (shed queue queued dropped)
unfolding shed
shed-IsShed [] queued dropped e h = record {
  counted = e;
  bounded = omega arith;
  filled = tt;
  lost = [];
  split = refl;
  lost_bytes = omega arith;
}
shed-IsShed (oldest ∷ rest) queued dropped e h = elim (Bool-cases (ltb channel_queue_max queued)) [
  | inl over ↦
      let less =
        shed-IsShed rest (queued - length oldest) (dropped + length oldest) (omega arith) h.1 in
      rw over (record {
        counted = less.counted;
        bounded = less.bounded;
        filled = less.filled;
        lost = oldest ++ less.lost;
        split = ap (◌++◌ oldest) less.split ∙ sym (append_assoc oldest less.lost _);
        lost_bytes = omega (arith, length-append oldest less.lost, less.lost_bytes);
      })
  | inr fits ↦ rw fits (record {
    counted = e;
    bounded = ground arith;
    filled = h;
    lost = [];
    split = refl;
    lost_bytes = omega arith;
  })
]

pub total_bytes-append :
    (xs ys : List (List ℕ)) → total_bytes (xs ++ ys) ≡ total_bytes xs + total_bytes ys
total_bytes-append [] ys = omega arith
total_bytes-append (x ∷ xs) ys = omega (arith, total_bytes-append xs ys)

-- What is queued after some bytes are pushed on a well-formed queue is counted, within the bound and
-- without empty chunks; it is the end of what was queued and the new bytes, and the bytes dropped in
-- front of it are counted exactly.
pub enqueue-IsShed :
    (bytes : List ℕ) (ch : Channel)
    → IsChannel ch
    → 0 < length bytes
    → IsShed (ch.queue ++ bytes ∷ []) 0 (enqueue bytes ch)
enqueue-IsShed bytes ch ok some_bytes =
    shed-IsShed (ch.queue ++ bytes ∷ []) (ch.queued_bytes + length bytes) 0
      (omega (arith, ok.counted, total_bytes-append ch.queue (bytes ∷ [])))
      (All-append _ ch.queue (bytes ∷ []) ok.filled (some_bytes, tt))
