-- ===== src/Windows/Numbers.antt =====
-- What writing one window's number, or all of them, does to the others' (web/app/window-manager.ts).
use vinx.Prelude.{
  ℕ, suc, ◌+◌, ◌≡◌, refl, ap, ◌∙◌, Bool, true, false, Option, none, some, List, [], ◌∷◌, ◌++◌,
  arith, if◌then◌else◌, text_eq_iff, length, Bool-cases, inl, inr,
}
use vinx.Prelude.Assoc.{text_key, lookup, Distinct}
use vinx.Windows.{WindowState, Manager}
use vinx.Windows.Stacking.{
  Slot, web_slot, native_slot, set_web, set_native, set_z, web_entries, native_entries, entries,
  number_from,
}
use vinx.Windows.Numbered.{slot_eq, slot_eq_iff, slot_key, place_in}

-- A number that is written over, where there is one.
abbrev pub written : Bool → ℕ → Option ℕ → Option ℕ
written b z none = none
written b z (some i) = some (if b then z else i)

native_entries-web :
    (id : List ℕ) (ns : List (List ℕ × ℕ)) → lookup (web_slot id) (native_entries ns) ≡ none
unfolding native_entries lookup slot_eq
native_entries-web id [] = refl
native_entries-web id ((j, z) ∷ ns) = native_entries-web id ns

lookup-set_web :
    (id : List ℕ) (z : ℕ) (a : Slot) (ws : List (List ℕ × WindowState)) (es : List (Slot × ℕ))
    → lookup (web_slot id) es ≡ none
    → lookup a (web_entries (set_web id z ws) ++ es)
      ≡ written (slot_eq (web_slot id) a) z (lookup a (web_entries ws ++ es))
unfolding set_web web_entries lookup
lookup-set_web id z a [] es h = ground (arith, slot_eq_iff (web_slot id) a)
lookup-set_web id z a ((j, w) ∷ ws) es h = ground (
  arith,
  lookup-set_web id z a ws es h,
  slot_eq_iff (web_slot id) a,
  slot_eq_iff (web_slot j) a,
  text_eq_iff j id,
)

lookup-set_native :
    (id : List ℕ) (z : ℕ) (a : Slot) (ns : List (List ℕ × ℕ))
    → lookup a (native_entries (set_native id z ns))
      ≡ written (slot_eq (native_slot id) a) z (lookup a (native_entries ns))
unfolding set_native native_entries lookup
lookup-set_native id z a [] = refl
lookup-set_native id z a ((j, w) ∷ ns) = ground (
  arith,
  lookup-set_native id z a ns,
  slot_eq_iff (native_slot id) a,
  slot_eq_iff (native_slot j) a,
  text_eq_iff j id,
)

-- Behind the app windows, none of which is the native one.
lookup-set_native_behind :
    (id : List ℕ) (z : ℕ) (a : Slot) (ws : List (List ℕ × WindowState)) (ns : List (List ℕ × ℕ))
    → lookup a (web_entries ws ++ native_entries (set_native id z ns))
      ≡ written (slot_eq (native_slot id) a) z (lookup a (web_entries ws ++ native_entries ns))
unfolding web_entries lookup slot_eq
lookup-set_native_behind id z a [] ns = lookup-set_native id z a ns
lookup-set_native_behind id z (web_slot b) ((j, w) ∷ ws) ns =
    ground (arith, lookup-set_native_behind id z (web_slot b) ws ns)
lookup-set_native_behind id z (native_slot b) ((j, w) ∷ ws) ns =
    lookup-set_native_behind id z (native_slot b) ws ns

pub lookup-set_z :
    (s : Slot) (z : ℕ) (a : Slot) (m : Manager)
    → lookup a (entries (set_z s z m)) ≡ written (slot_eq s a) z (lookup a (entries m))
unfolding entries
lookup-set_z (web_slot id) z a m =
    lookup-set_web id z a m.webs (native_entries m.natives) (native_entries-web id m.natives)
lookup-set_z (native_slot id) z a m = lookup-set_native_behind id z a m.webs m.natives

length-set_web :
    (id : List ℕ) (z : ℕ) (ws : List (List ℕ × WindowState)) → length (set_web id z ws) ≡ length ws
unfolding set_web
length-set_web id z [] = refl
length-set_web id z ((j, w) ∷ ws) = ap suc (length-set_web id z ws)

length-set_native :
    (id : List ℕ) (z : ℕ) (ns : List (List ℕ × ℕ)) → length (set_native id z ns) ≡ length ns
unfolding set_native
length-set_native id z [] = refl
length-set_native id z ((j, w) ∷ ns) = ap suc (length-set_native id z ns)

absent-set_web :
    (id j : List ℕ) (z : ℕ) (ws : List (List ℕ × WindowState))
    → lookup j ws ≡ none
    → lookup j (set_web id z ws) ≡ none
unfolding set_web lookup
absent-set_web id j z [] h = refl
absent-set_web id j z ((k, w) ∷ ws) h = ground (arith, absent-set_web id j z ws)

absent-set_native :
    (id j : List ℕ) (z : ℕ) (ns : List (List ℕ × ℕ))
    → lookup j ns ≡ none
    → lookup j (set_native id z ns) ≡ none
unfolding set_native lookup
absent-set_native id j z [] h = refl
absent-set_native id j z ((k, w) ∷ ns) h = ground (arith, absent-set_native id j z ns)

Distinct-set_web :
    (id : List ℕ) (z : ℕ) (ws : List (List ℕ × WindowState))
    → Distinct ws
    → Distinct (set_web id z ws)
unfolding set_web
Distinct-set_web id z [] d = tt
Distinct-set_web id z ((j, w) ∷ ws) d = (absent-set_web id j z ws d.0, Distinct-set_web id z ws d.1)

Distinct-set_native :
    (id : List ℕ) (z : ℕ) (ns : List (List ℕ × ℕ)) → Distinct ns → Distinct (set_native id z ns)
unfolding set_native
Distinct-set_native id z [] d = tt
Distinct-set_native id z ((j, w) ∷ ns) d =
    (absent-set_native id j z ns d.0, Distinct-set_native id z ns d.1)

-- The names of a map.
abbrev pub names : List (List ℕ × ℕ) → List (List ℕ)
names [] = []
names ((j, z) ∷ ns) = j ∷ names ns

names-set_native :
    (id : List ℕ) (z : ℕ) (ns : List (List ℕ × ℕ)) → names (set_native id z ns) ≡ names ns
unfolding set_native
names-set_native id z [] = refl
names-set_native id z ((j, w) ∷ ns) = ap (◌∷◌ j) (names-set_native id z ns)

-- Two tables of the same shape: as many windows, none twice in one that has none twice in the other.
pub record Kept (m n : Manager) : Type 0 where
  pub webs_length : length n.webs ≡ length m.webs
  pub natives_length : length n.natives ≡ length m.natives
  pub natives_names : names n.natives ≡ names m.natives
  pub webs_distinct : Distinct m.webs → Distinct n.webs
  pub natives_distinct : Distinct m.natives → Distinct n.natives

pub set_z-Kept : (s : Slot) (z : ℕ) (m : Manager) → Kept m (set_z s z m)
set_z-Kept (web_slot id) z m = record {
  webs_length = length-set_web id z m.webs;
  natives_length = refl;
  natives_names = refl;
  webs_distinct = Distinct-set_web id z m.webs;
  natives_distinct = λ d. d;
}
set_z-Kept (native_slot id) z m = record {
  webs_length = refl;
  natives_length = length-set_native id z m.natives;
  natives_names = names-set_native id z m.natives;
  webs_distinct = λ d. d;
  natives_distinct = Distinct-set_native id z m.natives;
}

pub Kept-trans : (l m n : Manager) → Kept l m → Kept m n → Kept l n
Kept-trans l m n h k = record {
  webs_length = k.webs_length ∙ h.webs_length;
  natives_length = k.natives_length ∙ h.natives_length;
  natives_names = k.natives_names ∙ h.natives_names;
  webs_distinct = λ d. k.webs_distinct (h.webs_distinct d);
  natives_distinct = λ d. k.natives_distinct (h.natives_distinct d);
}

pub number_from-Kept : (es : List (Slot × ℕ)) (k : ℕ) (m : Manager) → Kept m (number_from es k m)
unfolding number_from
number_from-Kept [] k m = record {
  webs_length = refl;
  natives_length = refl;
  natives_names = refl;
  webs_distinct = λ d. d;
  natives_distinct = λ d. d;
}
number_from-Kept ((s, z) ∷ es) k m =
    Kept-trans m (set_z s k m) (number_from es (k + 1) (set_z s k m)) (set_z-Kept s k m)
      (number_from-Kept es (k + 1) (set_z s k m))

pub number_from-z_next :
    (es : List (Slot × ℕ)) (k : ℕ) (m : Manager) → (number_from es k m).z_next ≡ k + length es
unfolding number_from
number_from-z_next [] k m = omega arith
number_from-z_next ((s, z) ∷ es) k m = omega (arith, number_from-z_next es (k + 1) (set_z s k m))

-- Where a window is not among those that are numbered, its number stays.
pub number_from-other :
    (a : Slot) (es : List (Slot × ℕ)) (k : ℕ) (m : Manager)
    → lookup a es ≡ none
    → lookup a (entries (number_from es k m)) ≡ lookup a (entries m)
unfolding number_from lookup entries
number_from-other a [] k m h = refl
number_from-other a ((s, z) ∷ es) k m h = elim (Bool-cases (slot_eq s a)) [
  | inl same ↦ absurd (found same h)
  | inr other ↦
      number_from-other a es (k + 1) (set_z s k m) (rest other h)
      ∙ lookup-set_z s k a m
      ∙ unchanged other (lookup a (entries m))
]
  where
    found : slot_eq s a ≡ true → (if slot_eq s a then some z else lookup a es) ≡ none → ⊥
    found same h = ground arith

    rest :
        slot_eq s a ≡ false
        → (if slot_eq s a then some z else lookup a es) ≡ none
        → lookup a es ≡ none
    rest other h = ground arith

    unchanged : slot_eq s a ≡ false → (o : Option ℕ) → written (slot_eq s a) k o ≡ o
    unchanged other none = refl
    unchanged other (some i) = rw other refl

-- A window that is numbered has its place, counted from `k`.
pub number_from-place :
    (a : Slot) (i j : ℕ) (es : List (Slot × ℕ)) (k : ℕ) (m : Manager)
    → Distinct es
    → lookup a es ≡ some i
    → lookup a (entries m) ≡ some j
    → lookup a (entries (number_from es k m)) ≡ some (k + place_in a es)
unfolding number_from place_in lookup
number_from-place a i j [] k m d p q = absurd (cc)
number_from-place a i j ((s, z) ∷ es) k m d p q = elim (Bool-cases (slot_eq s a)) [
  | inl same ↦
      number_from-other a es (k + 1) (set_z s k m) (rw (← (slot_eq_iff s a).0 same) d.0)
      ∙ lookup-set_z s k a m
      ∙ rw (q, same) (ap some (omega arith))
  | inr other ↦
      number_from-place a i j es (k + 1) (set_z s k m) d.1 (later other p)
        (lookup-set_z s k a m ∙ rw (q, other) refl)
      ∙ rw other (ap some (omega arith))
]
  where
    later :
        slot_eq s a ≡ false
        → (if slot_eq s a then some z else lookup a es) ≡ some i
        → lookup a es ≡ some i
    later other p = ground arith

-- Numbering adds no window.
pub number_from-none :
    (a : Slot) (es : List (Slot × ℕ)) (k : ℕ) (m : Manager)
    → lookup a (entries m) ≡ none
    → lookup a (entries (number_from es k m)) ≡ none
unfolding number_from entries
number_from-none a [] k m h = h
number_from-none a ((s, z) ∷ es) k m h =
    number_from-none a es (k + 1) (set_z s k m)
      (lookup-set_z s k a m ∙ ap (written (slot_eq s a) k) h)
