-- ===== src/Windows/Reachable.antt =====
-- The table of windows in every state of a desktop (web/app/window-manager.ts).
use vinx.Prelude.{
  ℕ, ◌+◌, ◌≤◌, ◌<◌, ◌≡◌, ◌⊎◌, none, some, List, [], ◌∷◌, ◌++◌, arith, text_eq_iff, length,
  Option-cases, inl, inr, All,
}
use vinx.Prelude.Assoc.{text_key, lookup, Distinct, lookup_pos}
use vinx.Windows.{WindowState, Manager, z_base, z_ceil, max_windows}
use vinx.Windows.Stacking.{
  Slot, web_entries, native_entries, entries, slot_found, entry_of, raise, lift,
}
use vinx.Prelude.Text.{codes}
use vinx.Windows.Numbered.{slot_eq_iff, slot_key}
use vinx.Windows.Numbers.{names, Kept}
use vinx.Windows.Band.{IsTable, Distinct-entries}
use vinx.Windows.Raising.{lift-IsTable, lift_low, lift-z_next, lift-Kept}

-- Numbers of a list of windows that lie from 20 up and below `top`.
abbrev pub WebsWithin : ℕ → List (List ℕ × WindowState) → Type 0
WebsWithin top ws = All (λ (e : List ℕ × WindowState). (z_base ≤ e.1.z) × (e.1.z < top)) ws

abbrev pub NativesWithin : ℕ → List (List ℕ × ℕ) → Type 0
NativesWithin top ns = All (λ (e : List ℕ × ℕ). (z_base ≤ e.1) × (e.1 < top)) ns

-- The native windows that the pages register.
abbrev pub IsPage : List ℕ → Type 0
IsPage id = (id ≡ codes "screen") ⊎ (id ≡ codes "console")

-- At most six app windows, none twice, no native ones but those of the pages, and every number
-- from 20 up and below the next one.
pub record IsStacked (m : Manager) : Type 0 where
  pub webs_distinct : Distinct m.webs
  pub natives_distinct : Distinct m.natives
  pub webs_fit : length m.webs ≤ max_windows
  pub pages : All IsPage (names m.natives)
  pub webs_within : WebsWithin m.z_next m.webs
  pub natives_within : NativesWithin m.z_next m.natives
  pub low : z_base < m.z_next

-- The band is kept too: every number is below 29.
pub record IsDesktop (m : Manager) : Type 0 where
  pub stacked : IsStacked m
  pub high : m.z_next ≤ z_ceil

-- The numbers by window, and by map.
within_lookup :
    (top : ℕ) (ws : List (List ℕ × WindowState)) (ns : List (List ℕ × ℕ)) (s : Slot) (z : ℕ)
    → WebsWithin top ws
    → NativesWithin top ns
    → lookup s (web_entries ws ++ native_entries ns) ≡ some z
    → (z_base ≤ z) × (z < top)
unfolding web_entries native_entries lookup
within_lookup top [] [] s z h k e = absurd (cc)
within_lookup top [] ((j, y) ∷ ns) s z h k e = ground (arith, within_lookup top [] ns s z h k.1)
within_lookup top ((j, w) ∷ ws) ns s z h k e = ground (arith, within_lookup top ws ns s z h.1 k)

-- What holds at every number that is looked up holds of all numbers.
module _ (top : ℕ) where
  All-within :
      (es : List (Slot × ℕ))
      → Distinct es
      → ((s : Slot) (z : ℕ) → lookup s es ≡ some z → (z_base ≤ z) × (z < top))
      → All (λ (e : Slot × ℕ). (z_base ≤ e.1) × (e.1 < top)) es
  unfolding lookup
  All-within [] d f = tt
  All-within ((s, z) ∷ es) d f = (
    f s z (ground (arith, slot_eq_iff s s)),
    All-within es d.1 (λ a y e. f a y (ground (arith, slot_eq_iff s a))),
  )

  natives-All :
      (ns : List (List ℕ × ℕ))
      → All (λ (e : Slot × ℕ). (z_base ≤ e.1) × (e.1 < top)) (native_entries ns)
      → NativesWithin top ns
  unfolding native_entries
  natives-All [] h = tt
  natives-All ((j, z) ∷ ns) h = (h.0, natives-All ns h.1)

  webs-All :
      (ws : List (List ℕ × WindowState)) (ns : List (List ℕ × ℕ))
      → All (λ (e : Slot × ℕ). (z_base ≤ e.1) × (e.1 < top)) (web_entries ws ++ native_entries ns)
      → WebsWithin top ws × NativesWithin top ns
  unfolding web_entries
  webs-All [] ns h = (tt, natives-All ns h)
  webs-All ((j, w) ∷ ws) ns h = let r = webs-All ws ns h.1 in ((h.0, r.0), r.1)

-- Two names have at most two windows.
two_pages : (ns : List (List ℕ × ℕ)) → Distinct ns → All IsPage (names ns) → length ns ≤ 2
unfolding lookup
two_pages [] d h = omega arith
two_pages ((j, y) ∷ []) d h = omega arith
two_pages ((j, y) ∷ (k, z) ∷ []) d h = omega arith
two_pages ((j, y) ∷ (k, z) ∷ (l, x) ∷ ns) d h = absurd (
    ground (
      arith,
      text_eq_iff k j,
      text_eq_iff l j,
      text_eq_iff l k,
      text_eq_iff j k,
      text_eq_iff k l,
      text_eq_iff j l,
    ))

pub IsStacked-IsTable : (m : Manager) → IsStacked m → IsTable m
unfolding entries
IsStacked-IsTable m h = record {
  webs_distinct = h.webs_distinct;
  natives_distinct = h.natives_distinct;
  fits = omega (arith, h.webs_fit, two_pages m.natives h.natives_distinct h.pages);
  low = omega (arith, h.low);
  banded = λ s z. within_lookup m.z_next m.webs m.natives s z h.webs_within h.natives_within;
}

pub lift-IsDesktop :
    (s : Slot) (m : Manager)
    → IsStacked m
    → 0 < length m.webs + length m.natives
    → IsDesktop (lift s m)
unfolding entries
lift-IsDesktop s m h some_window =
    let t : IsTable m = IsStacked-IsTable m h in
    let k : Kept m (lift s m) = lift-Kept s m t in
    let t' : IsTable (lift s m) = lift-IsTable s m t in
    let w : WebsWithin (lift s m).z_next (lift s m).webs
        × NativesWithin (lift s m).z_next (lift s m).natives =
      webs-All (lift s m).z_next (lift s m).webs (lift s m).natives (
        All-within (lift s m).z_next (entries (lift s m))
          (Distinct-entries (lift s m) t'.webs_distinct t'.natives_distinct) t'.banded) in
    record {
      stacked = record {
        webs_distinct = t'.webs_distinct;
        natives_distinct = t'.natives_distinct;
        webs_fit = rw k.webs_length h.webs_fit;
        pages = rw k.natives_names h.pages;
        webs_within = w.0;
        natives_within = w.1;
        low = lift_low s m t some_window;
      };
      high = lift-z_next s m t;
    }

some_window :
    (id : List ℕ) (s : Slot) (z : ℕ) (m : Manager)
    → entry_of id m ≡ some (s, z)
    → 0 < length m.webs + length m.natives
unfolding entry_of
some_window id s z m e = elim (Option-cases (lookup id m.webs)) [
  | inr (w, here) ↦ omega (arith, lookup_pos id w m.webs here)
  | inl none_here ↦ elim (Option-cases (lookup id m.natives)) [
    | inr (y, here) ↦ omega (arith, lookup_pos id y m.natives here)
    | inl neither ↦ absurd (nothing none_here neither e)
  ]
]
  where
    nothing :
        lookup id m.webs ≡ none
        → lookup id m.natives ≡ none
        → slot_found id (lookup id m.webs) (lookup id m.natives) ≡ some (s, z)
        → ⊥
    nothing p q e = ground arith

pub raise-IsDesktop : (id : List ℕ) (m : Manager) → IsDesktop m → IsDesktop (raise id m).1
unfolding raise
raise-IsDesktop id m h = elim (Option-cases (entry_of id m)) [
  | inl nothing ↦ rw nothing h
  | inr ((s, z), there) ↦ rw there (lift-IsDesktop s m h.stacked (some_window id s z m there))
]
