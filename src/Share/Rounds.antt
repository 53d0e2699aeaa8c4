-- ===== src/Share/Rounds.antt =====
-- A round of the mirror brings it to the files of the machine (web/app/share-diff.ts).
use vinx.Prelude.{
  ℕ, ◌≡◌, ◌⊎◌, refl, subst, ◌∙◌, true, false, not, ◌&&◌, ◌||◌, none, some, List, [], ◌∷◌, ==_iff,
  arith, if◌then◌else◌, text_eq, text_eq_iff, text_eq_refl, Bool-cases, inl, inr,
}
use vinx.Prelude.Assoc.{text_key, lookup, has, Distinct}
use vinx.Share.{FileStat}
use vinx.Share.Diff.{differs, member_of, to_read, to_remove}

pub differs_eq : (before stat : FileStat) → differs (some before) stat ≡ false → before ≡ stat
differs_eq before stat h =
    ground (arith, ==_iff before.size stat.size, ==_iff before.mtime stat.mtime)

pub member_of-to_read_absent :
    (name : List ℕ) (prev next : List (List ℕ × FileStat)) (mirrored : List (List ℕ))
    → lookup name next ≡ none
    → member_of name (to_read prev next mirrored) ≡ false
unfolding to_read member_of lookup
member_of-to_read_absent name prev [] mirrored h = refl
member_of-to_read_absent name prev ((j, stat) ∷ next) mirrored h =
    elim (Bool-cases (differs (lookup j prev) stat || not (member_of j mirrored))) [
      | inl chosen ↦ rw chosen (ground (arith, member_of-to_read_absent name prev next mirrored))
      | inr left ↦ rw left (ground (arith, member_of-to_read_absent name prev next mirrored))
    ]

-- A file of the machine is read exactly if it is new, has changed, or is not mirrored.
pub member_of-to_read :
    (name : List ℕ) (stat : FileStat) (prev next : List (List ℕ × FileStat))
    (mirrored : List (List ℕ))
    → Distinct next
    → lookup name next ≡ some stat
    → member_of name (to_read prev next mirrored)
      ≡ (differs (lookup name prev) stat || not (member_of name mirrored))
unfolding to_read member_of lookup
member_of-to_read name stat prev [] mirrored d h = absurd (cc)
member_of-to_read name stat prev ((j, s) ∷ next) mirrored d h = elim (Bool-cases (text_eq j name)) [
  | inl same ↦
      let e : j ≡ name = (text_eq_iff j name).0 same in
      let es : s ≡ stat = ground (arith) in
      rw (e, es) (here (subst (λ n. lookup n next ≡ none) e d.0))
  | inr other ↦ elim (Bool-cases (differs (lookup j prev) s || not (member_of j mirrored))) [
    | inl chosen ↦
        rw (chosen, other) (member_of-to_read name stat prev next mirrored d.1 (ground (arith)))
    | inr left ↦ rw left (member_of-to_read name stat prev next mirrored d.1 (ground (arith)))
  ]
]
  where
    here :
        lookup name next ≡ none
        → member_of name (
            if differs (lookup name prev) stat || not (member_of name mirrored)
            then name ∷ to_read prev next mirrored
            else to_read prev next mirrored)
          ≡ (differs (lookup name prev) stat || not (member_of name mirrored))
    here absent =
        elim (Bool-cases (differs (lookup name prev) stat || not (member_of name mirrored))) [
          | inl chosen ↦ rw (chosen, text_eq_refl name) refl
          | inr left ↦ rw left (member_of-to_read_absent name prev next mirrored absent)
        ]

-- A mirrored name is removed exactly if the machine has no such file.
pub member_of-to_remove :
    (name : List ℕ) (next : List (List ℕ × FileStat)) (mirrored : List (List ℕ))
    → member_of name (to_remove next mirrored) ≡ (member_of name mirrored && not (has name next))
unfolding to_remove member_of
member_of-to_remove name next [] = refl
member_of-to_remove name next (j ∷ mirrored) = elim (Bool-cases (text_eq j name)) [
  | inl same ↦
      let e : j ≡ name = (text_eq_iff j name).0 same in
      rw (e, text_eq_refl name)
        (here (member_of-to_remove name next mirrored) (Bool-cases (has name next)))
  | inr other ↦ elim (Bool-cases (has j next)) [
    | inl kept ↦ rw (kept, other) (member_of-to_remove name next mirrored)
    | inr gone ↦ rw (gone, other) (member_of-to_remove name next mirrored)
  ]
]
  where
    here :
        member_of name (to_remove next mirrored) ≡ (member_of name mirrored && not (has name next))
        → (has name next ≡ true) ⊎ (has name next ≡ false)
        → member_of name
            (if has name next then to_remove next mirrored else name ∷ to_remove next mirrored)
          ≡ not (has name next)
    here ih (inl kept) = rw kept (ih ∙ rw kept (ground (arith)))
    here ih (inr gone) = rw (gone, text_eq_refl name) refl
