-- ===== src/Windows/Band.antt =====
-- The band of the stack: raising keeps it, and keeps the order (web/app/window-manager.ts).
use vinx.Prelude.{
  ℕ, suc, ◌+◌, ◌≤◌, ◌<◌, ◌≡◌, ◌≢◌, ◌⊎◌, refl, sym, ap, ◌∙◌, none, some, List, [], ◌∷◌, ◌++◌, arith,
  length, Option-cases, inl, inr, length-append,
}
use vinx.Prelude.Assoc.{text_key, lookup, Distinct, weight}
use vinx.Windows.{WindowState, Manager, z_base}
use vinx.Windows.Stacking.{
  Slot, web_slot, native_slot, web_entries, native_entries, entries, sort_entries, renumber,
}
use vinx.Windows.Numbered.{
  slot_eq, slot_key, place_in, lookup-sort_entries, Distinct-sort_entries, sort_entries-IsSorted,
  length-sort_entries, place_in-lt, place_in-lt-length,
}
use vinx.Windows.Numbers.{
  Kept, number_from-Kept, number_from-z_next, number_from-place, number_from-none,
}

-- The number of a window of the table.
abbrev pub z_at : Slot → Manager → ℕ
z_at s m = weight (λ z. z) (lookup s (entries m))

-- At most nine windows, none twice, numbered from 20 and below the next number.
pub record IsTable (m : Manager) : Type 0 where
  pub webs_distinct : Distinct m.webs
  pub natives_distinct : Distinct m.natives
  pub fits : length m.webs + length m.natives ≤ 9
  pub low : z_base ≤ m.z_next
  pub banded : (s : Slot) (z : ℕ) → lookup s (entries m) ≡ some z → (z_base ≤ z) × (z < m.z_next)

absent-entries :
    (id : List ℕ) (ws : List (List ℕ × WindowState)) (es : List (Slot × ℕ))
    → lookup id ws ≡ none
    → lookup (web_slot id) es ≡ none
    → lookup (web_slot id) (web_entries ws ++ es) ≡ none
unfolding web_entries lookup slot_eq
absent-entries id [] es h k = k
absent-entries id ((j, w) ∷ ws) es h k = ground (arith, absent-entries id ws es)

web_slot-natives :
    (id : List ℕ) (ns : List (List ℕ × ℕ)) → lookup (web_slot id) (native_entries ns) ≡ none
unfolding native_entries lookup slot_eq
web_slot-natives id [] = refl
web_slot-natives id ((j, z) ∷ ns) = web_slot-natives id ns

absent-natives :
    (id : List ℕ) (ns : List (List ℕ × ℕ))
    → lookup id ns ≡ none
    → lookup (native_slot id) (native_entries ns) ≡ none
unfolding native_entries lookup slot_eq
absent-natives id [] h = refl
absent-natives id ((j, z) ∷ ns) h = ground (arith, absent-natives id ns)

Distinct-natives : (ns : List (List ℕ × ℕ)) → Distinct ns → Distinct (native_entries ns)
unfolding native_entries
Distinct-natives [] d = tt
Distinct-natives ((j, z) ∷ ns) d = (absent-natives j ns d.0, Distinct-natives ns d.1)

Distinct-webs :
    (ws : List (List ℕ × WindowState)) (ns : List (List ℕ × ℕ))
    → Distinct ws
    → Distinct ns
    → Distinct (web_entries ws ++ native_entries ns)
unfolding web_entries
Distinct-webs [] ns d e = Distinct-natives ns e
Distinct-webs ((j, w) ∷ ws) ns d e =
    (absent-entries j ws (native_entries ns) d.0 (web_slot-natives j ns), Distinct-webs ws ns d.1 e)

pub Distinct-entries : (m : Manager) → Distinct m.webs → Distinct m.natives → Distinct (entries m)
unfolding entries
Distinct-entries m d e = Distinct-webs m.webs m.natives d e

length-natives : (ns : List (List ℕ × ℕ)) → length (native_entries ns) ≡ length ns
unfolding native_entries
length-natives [] = refl
length-natives ((j, z) ∷ ns) = ap suc (length-natives ns)

length-webs : (ws : List (List ℕ × WindowState)) → length (web_entries ws) ≡ length ws
unfolding web_entries
length-webs [] = refl
length-webs ((j, w) ∷ ws) = ap suc (length-webs ws)

length-entries : (m : Manager) → length (entries m) ≡ length m.webs + length m.natives
unfolding entries
length-entries m = omega (
  arith,
  length-append (web_entries m.webs) (native_entries m.natives),
  length-webs m.webs,
  length-natives m.natives,
)

-- A raised window is above every other, and the others keep their order.
abbrev pub Raised : Slot → Manager → Manager → Type 0
Raised s m n =
    (a b : Slot) (i j : ℕ)
    → a ≢ s
    → lookup a (entries m) ≡ some i
    → lookup b (entries m) ≡ some j
    → (b ≡ s) ⊎ (i < j)
    → z_at a n < z_at b n

-- The table that `renumber` is given: one number is the highest, the next one is above it.
module _ (m : Manager) (t : IsTable m) where
  renumbered :
      (a : Slot) (i : ℕ)
      → lookup a (entries m) ≡ some i
      → lookup a (entries (renumber m)) ≡ some (z_base + place_in a (sort_entries (entries m)))
  unfolding renumber
  renumbered a i e =
      number_from-place a i i (sort_entries (entries m)) z_base m
        (Distinct-sort_entries (entries m) (Distinct-entries m t.webs_distinct t.natives_distinct))
        (lookup-sort_entries a (entries m) (Distinct-entries m t.webs_distinct t.natives_distinct)
          ∙ e)
        e

  sorted_length : length (sort_entries (entries m)) ≡ length m.webs + length m.natives
  sorted_length = length-sort_entries (entries m) ∙ length-entries m

  pub renumber-z_next : (renumber m).z_next ≡ z_base + (length m.webs + length m.natives)
  unfolding renumber
  renumber-z_next =
      number_from-z_next (sort_entries (entries m)) z_base m ∙ ap (λ n. z_base + n) sorted_length

  pub renumber-Kept : Kept m (renumber m)
  unfolding renumber
  renumber-Kept = number_from-Kept (sort_entries (entries m)) z_base m

  pub renumber-order :
      (a b : Slot) (i j : ℕ)
      → lookup a (entries m) ≡ some i
      → lookup b (entries m) ≡ some j
      → i < j
      → z_at a (renumber m) < z_at b (renumber m)
  renumber-order a b i j p q lt =
      let d : Distinct (entries m) = Distinct-entries m t.webs_distinct t.natives_distinct in
      let before : place_in a (sort_entries (entries m)) < place_in b (sort_entries (entries m)) =
        place_in-lt a b i j (sort_entries (entries m)) (sort_entries-IsSorted (entries m))
          (lookup-sort_entries a (entries m) d ∙ p) (lookup-sort_entries b (entries m) d ∙ q) lt in
      rw (renumbered a i p, renumbered b j q) (omega arith)

  renumber-banded :
      (s : Slot) (z : ℕ)
      → lookup s (entries (renumber m)) ≡ some z
      → (z_base ≤ z) × (z < (renumber m).z_next)
  renumber-banded s z e = elim (Option-cases (lookup s (entries m))) [
    | inl nowhere ↦
        absurd (
          gone (unfold renumber in number_from-none s (sort_entries (entries m)) z_base m nowhere)
            e)
    | inr (i, there) ↦
        let d : Distinct (entries m) = Distinct-entries m t.webs_distinct t.natives_distinct in
        let short : place_in s (sort_entries (entries m)) < length (sort_entries (entries m)) =
          place_in-lt-length s i (sort_entries (entries m))
            (lookup-sort_entries s (entries m) d ∙ there) in
        within (sym (renumbered s i there) ∙ e) short
  ]
    where
      gone : lookup s (entries (renumber m)) ≡ none → lookup s (entries (renumber m)) ≡ some z → ⊥
      gone p q = cc

      within :
          some (z_base + place_in s (sort_entries (entries m))) ≡ some z
          → place_in s (sort_entries (entries m)) < length (sort_entries (entries m))
          → (z_base ≤ z) × (z < (renumber m).z_next)
      within p short = ground (arith, sorted_length, renumber-z_next)

  pub renumber-IsTable : IsTable (renumber m)
  renumber-IsTable = record {
    webs_distinct = renumber-Kept.webs_distinct t.webs_distinct;
    natives_distinct = renumber-Kept.natives_distinct t.natives_distinct;
    fits = omega (arith, renumber-Kept.webs_length, renumber-Kept.natives_length, t.fits);
    low = omega (arith, renumber-z_next);
    banded = renumber-banded;
  }
