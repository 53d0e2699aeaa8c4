-- ===== src/Windows/Numbered.antt =====
-- Numbering the windows anew gives each its place in their order (web/app/window-manager.ts).
use vinx.Prelude.{
  ℕ, suc, ◌≤◌, ◌<◌, ◌≡◌, ◌↔◌, refl, ap, ◌∙◌, Bool, true, false, none, some, List, [], ◌∷◌, arith,
  if◌then◌else◌, text_eq, text_eq_iff, length, All,
}
use vinx.Prelude.Assoc.{Eq, text_key, lookup, Distinct}
use vinx.Windows.Stacking.{Slot, web_slot, native_slot, place_entry, sort_entries}

unfoldable pub slot_eq : Slot → Slot → Bool
slot_eq (web_slot a) (web_slot b) = text_eq a b
slot_eq (web_slot a) (native_slot b) = false
slot_eq (native_slot a) (web_slot b) = false
slot_eq (native_slot a) (native_slot b) = text_eq a b

pub slot_eq_iff : (a b : Slot) → (slot_eq a b ≡ true) ↔ (a ≡ b)
unfolding slot_eq
slot_eq_iff (web_slot a) (web_slot b) = ground (arith, text_eq_iff a b)
slot_eq_iff (web_slot a) (native_slot b) = (λ h. cc, λ h. cc)
slot_eq_iff (native_slot a) (web_slot b) = (λ h. cc, λ h. cc)
slot_eq_iff (native_slot a) (native_slot b) = ground (arith, text_eq_iff a b)

instance abbrev pub slot_key : Eq Slot
slot_key = record { beq = slot_eq; beq_iff = slot_eq_iff }

-- The order of a list of windows: no window of it comes before one that is lower.
abbrev pub Above : ℕ → List (Slot × ℕ) → Type 0
Above z es = All (λ (e : Slot × ℕ). z ≤ e.1) es

abbrev pub IsSorted : List (Slot × ℕ) → Type 0
IsSorted [] = Unit {0}
IsSorted ((s, z) ∷ es) = Above z es × IsSorted es

-- The place of a window in a list.
unfoldable pub place_in : Slot → List (Slot × ℕ) → ℕ
place_in s [] = 0
place_in s ((t, z) ∷ es) = let further = place_in s es in if slot_eq t s then 0 else suc further

lookup-place_entry :
    (a s : Slot) (z : ℕ) (es : List (Slot × ℕ))
    → lookup s es ≡ none
    → lookup a (place_entry s z es) ≡ (if slot_eq s a then some z else lookup a es)
unfolding place_entry lookup
lookup-place_entry a s z [] h = refl
lookup-place_entry a s z ((t, y) ∷ es) h =
    ground (arith, lookup-place_entry a s z es, slot_eq_iff s a, slot_eq_iff t a, slot_eq_iff t s)

Distinct-place_entry :
    (s : Slot) (z : ℕ) (es : List (Slot × ℕ))
    → lookup s es ≡ none
    → Distinct es
    → Distinct (place_entry s z es)
unfolding place_entry lookup
Distinct-place_entry s z [] h d = (refl, tt)
Distinct-place_entry s z ((t, y) ∷ es) h d = ground (
  arith,
  Distinct-place_entry s z es,
  lookup-place_entry t s z es,
  slot_eq_iff s t,
  slot_eq_iff t s,
)

Above-place_entry :
    (y : ℕ) (s : Slot) (z : ℕ) (es : List (Slot × ℕ))
    → y ≤ z
    → Above y es
    → Above y (place_entry s z es)
unfolding place_entry
Above-place_entry y s z [] le h = (le, tt)
Above-place_entry y s z ((t, x) ∷ es) le h = ground (arith, Above-place_entry y s z es le h.1)

Above-mono : (y z : ℕ) (es : List (Slot × ℕ)) → y ≤ z → Above z es → Above y es
Above-mono y z [] le h = tt
Above-mono y z ((t, x) ∷ es) le h = (omega (arith, h.0), Above-mono y z es le h.1)

place_entry-IsSorted :
    (s : Slot) (z : ℕ) (es : List (Slot × ℕ)) → IsSorted es → IsSorted (place_entry s z es)
unfolding place_entry
place_entry-IsSorted s z [] h = (tt, tt)
place_entry-IsSorted s z ((t, y) ∷ es) h =
    ground (arith, place_entry-IsSorted s z es h.1, Above-place_entry y s z es, Above-mono z y es)

length-place_entry :
    (s : Slot) (z : ℕ) (es : List (Slot × ℕ)) → length (place_entry s z es) ≡ suc (length es)
unfolding place_entry
length-place_entry s z [] = refl
length-place_entry s z ((t, y) ∷ es) = ground (arith, length-place_entry s z es)

pub lookup-sort_entries :
    (a : Slot) (es : List (Slot × ℕ)) → Distinct es → lookup a (sort_entries es) ≡ lookup a es
unfolding sort_entries lookup
lookup-sort_entries a [] d = refl
lookup-sort_entries a ((s, z) ∷ es) d =
    lookup-place_entry a s z (sort_entries es) (lookup-sort_entries s es d.1 ∙ d.0)
    ∙ ap (λ o. if slot_eq s a then some z else o) (lookup-sort_entries a es d.1)

pub Distinct-sort_entries : (es : List (Slot × ℕ)) → Distinct es → Distinct (sort_entries es)
unfolding sort_entries
Distinct-sort_entries [] d = tt
Distinct-sort_entries ((s, z) ∷ es) d =
    Distinct-place_entry s z (sort_entries es) (lookup-sort_entries s es d.1 ∙ d.0)
      (Distinct-sort_entries es d.1)

pub sort_entries-IsSorted : (es : List (Slot × ℕ)) → IsSorted (sort_entries es)
unfolding sort_entries
sort_entries-IsSorted [] = tt
sort_entries-IsSorted ((s, z) ∷ es) =
    place_entry-IsSorted s z (sort_entries es) (sort_entries-IsSorted es)

pub length-sort_entries : (es : List (Slot × ℕ)) → length (sort_entries es) ≡ length es
unfolding sort_entries
length-sort_entries [] = refl
length-sort_entries ((s, z) ∷ es) =
    length-place_entry s z (sort_entries es) ∙ ap suc (length-sort_entries es)

Above-lookup :
    (z : ℕ) (a : Slot) (i : ℕ) (es : List (Slot × ℕ)) → Above z es → lookup a es ≡ some i → z ≤ i
unfolding lookup
Above-lookup z a i [] h e = absurd (cc)
Above-lookup z a i ((s, y) ∷ es) h e = ground (arith, Above-lookup z a i es h.1)

-- In a sorted list, a lower window has an earlier place.
pub place_in-lt :
    (a b : Slot) (i j : ℕ) (es : List (Slot × ℕ))
    → IsSorted es
    → lookup a es ≡ some i
    → lookup b es ≡ some j
    → i < j
    → place_in a es < place_in b es
unfolding lookup place_in
place_in-lt a b i j [] h p q lt = absurd (cc)
place_in-lt a b i j ((s, y) ∷ es) h p q lt =
    ground (
      arith,
      place_in-lt a b i j es h.1,
      Above-lookup y a i es h.0,
      slot_eq_iff s a,
      slot_eq_iff s b,
    )

pub place_in-lt-length :
    (a : Slot) (i : ℕ) (es : List (Slot × ℕ)) → lookup a es ≡ some i → place_in a es < length es
unfolding lookup place_in
place_in-lt-length a i [] e = absurd (cc)
place_in-lt-length a i ((s, y) ∷ es) e = ground (arith, place_in-lt-length a i es)
