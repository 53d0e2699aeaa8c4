-- ===== src/Windows/Raising.antt =====
-- A window that is raised (web/app/window-manager.ts).
use vinx.Prelude.{
  ℕ, ◌+◌, ◌≤◌, ◌<◌, ◌≡◌, ◌≢◌, ◌⊎◌, sym, ap, ◌∙◌, none, some, List, arith, ltb, ltb→le,
  if◌then◌else◌, length, Bool-cases, Option-cases, inl, inr,
}
use vinx.Prelude.Assoc.{text_key, lookup}
use vinx.Windows.{Manager, z_base, z_ceil}
use vinx.Windows.Stacking.{Slot, set_z, entries, renumber, lift, entry_of, raise}
use vinx.Windows.Numbered.{slot_eq, slot_eq_iff, slot_key}
use vinx.Windows.Numbers.{written, lookup-set_z, Kept, set_z-Kept, Kept-trans}
use vinx.Windows.Band.{
  IsTable, Raised, renumber-IsTable, renumber-order, renumber-z_next, renumber-Kept,
}

abbrev topped : Slot → Manager → Manager
topped s m = record (set_z s m.z_next m) { z_next = m.z_next + 1 }

lookup-topped :
    (s a : Slot) (m : Manager)
    → lookup a (entries (topped s m)) ≡ written (slot_eq s a) m.z_next (lookup a (entries m))
unfolding entries
lookup-topped s a m = lookup-set_z s m.z_next a m

topped-Kept : (s : Slot) (m : Manager) → Kept m (topped s m)
topped-Kept s m =
    let k : Kept m (set_z s m.z_next m) = set_z-Kept s m.z_next m in
    record {
      webs_length = k.webs_length;
      natives_length = k.natives_length;
      natives_names = k.natives_names;
      webs_distinct = k.webs_distinct;
      natives_distinct = k.natives_distinct;
    }

module _ (s : Slot) (m : Manager) (t : IsTable m) where
  topped-banded :
      (a : Slot) (z : ℕ)
      → lookup a (entries (topped s m)) ≡ some z
      → (z_base ≤ z) × (z < (topped s m).z_next)
  topped-banded a z e = elim (Option-cases (lookup a (entries m))) [
    | inl nowhere ↦
        absurd (gone (lookup-topped s a m ∙ ap (written (slot_eq s a) m.z_next) nowhere) e)
    | inr (i, there) ↦
        within i (t.banded a i there) t.low
          (sym (lookup-topped s a m ∙ ap (written (slot_eq s a) m.z_next) there) ∙ e)
  ]
    where
      gone : lookup a (entries (topped s m)) ≡ none → lookup a (entries (topped s m)) ≡ some z → ⊥
      gone p q = cc

      within :
          (i : ℕ)
          → (z_base ≤ i) × (i < m.z_next)
          → z_base ≤ m.z_next
          → some (if slot_eq s a then m.z_next else i) ≡ some z
          → (z_base ≤ z) × (z < m.z_next + 1)
      within i b low p = ground arith

  topped-IsTable : IsTable (topped s m)
  topped-IsTable = record {
    webs_distinct = (topped-Kept s m).webs_distinct t.webs_distinct;
    natives_distinct = (topped-Kept s m).natives_distinct t.natives_distinct;
    fits = omega (arith, (topped-Kept s m).webs_length, (topped-Kept s m).natives_length, t.fits);
    low = omega (arith, t.low);
    banded = topped-banded;
  }

  topped-lt :
      (a b : Slot) (i j : ℕ)
      → a ≢ s
      → lookup a (entries m) ≡ some i
      → lookup b (entries m) ≡ some j
      → (b ≡ s) ⊎ (i < j)
      → (if slot_eq s a then m.z_next else i) < (if slot_eq s b then m.z_next else j)
  topped-lt a b i j ne p q o =
      ground (arith, slot_eq_iff s a, slot_eq_iff s b, t.banded a i p, t.banded b j q)

  topped-at :
      (a : Slot) (i : ℕ)
      → lookup a (entries m) ≡ some i
      → lookup a (entries (topped s m)) ≡ some (if slot_eq s a then m.z_next else i)
  topped-at a i e = lookup-topped s a m ∙ ap (written (slot_eq s a) m.z_next) e

  pub lift-IsTable : IsTable (lift s m)
  unfolding lift
  lift-IsTable = elim (Bool-cases (ltb z_ceil (m.z_next + 1))) [
    | inl over ↦ rw over (renumber-IsTable (topped s m) topped-IsTable)
    | inr under ↦ rw under topped-IsTable
  ]

  pub lift-z_next : (lift s m).z_next ≤ z_ceil
  unfolding lift
  lift-z_next = elim (Bool-cases (ltb z_ceil (m.z_next + 1))) [
    | inl over ↦
        rw over (omega (arith, renumber-z_next (topped s m) topped-IsTable, topped-IsTable.fits))
    | inr under ↦ rw under (ltb→le z_ceil (m.z_next + 1) under)
  ]

  pub lift_low : 0 < length m.webs + length m.natives → z_base < (lift s m).z_next
  unfolding lift
  lift_low some_window = elim (Bool-cases (ltb z_ceil (m.z_next + 1))) [
    | inl over ↦ rw over (
        omega (
          arith,
          renumber-z_next (topped s m) topped-IsTable,
          (topped-Kept s m).webs_length,
          (topped-Kept s m).natives_length,
        ))
    | inr under ↦ rw under (omega (arith, t.low))
  ]

  pub lift-Kept : Kept m (lift s m)
  unfolding lift
  lift-Kept = elim (Bool-cases (ltb z_ceil (m.z_next + 1))) [
    | inl over ↦ rw over (
        Kept-trans m (topped s m) (renumber (topped s m)) (topped-Kept s m)
          (renumber-Kept (topped s m) topped-IsTable))
    | inr under ↦ rw under (topped-Kept s m)
  ]

  pub lift-Raised : Raised s m (lift s m) × IsTable (lift s m) × ((lift s m).z_next ≤ z_ceil)
  unfolding lift
  lift-Raised = (
    λ a b i j ne p q o. elim (Bool-cases (ltb z_ceil (m.z_next + 1))) [
      | inl over ↦ rw over (
          renumber-order (topped s m) topped-IsTable a b _ _ (topped-at a i p) (topped-at b j q)
            (topped-lt a b i j ne p q o))
      | inr under ↦ rw (under, topped-at a i p, topped-at b j q) (topped-lt a b i j ne p q o)
    ],
    lift-IsTable,
    lift-z_next,
  )

-- Where at most nine windows are open, none twice, numbered from 20 and below the next number, a
-- window of the table that is raised is above every other, the others keep their order, and every
-- number is again in the band from 20 to 28, below the next.
pub raise-Raised :
    (id : List ℕ) (s : Slot) (z : ℕ) (m : Manager)
    → IsTable m
    → entry_of id m ≡ some (s, z)
    → Raised s m (raise id m).1 × IsTable (raise id m).1 × ((raise id m).1.z_next ≤ z_ceil)
unfolding raise
raise-Raised id s z m t e = rw e (lift-Raised s m t)
