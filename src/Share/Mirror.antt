-- ===== src/Share/Mirror.antt =====
-- The mirror after a round (web/app/share-diff.ts).
use vinx.Prelude.{
  ℕ, ◌≡◌, ◌⊎◌, refl, ap, ◌∙◌, true, false, not, ◌&&◌, ◌||◌, none, some, List, [], ◌∷◌, arith,
  if◌then◌else◌, text_eq, text_eq_iff, Bool-cases, Option-cases, inl, inr,
}
use vinx.Prelude.Assoc.{text_key, lookup, insert, erase, has, Distinct, lookup-insert, lookup-erase}
use vinx.Share.{FileStat}
use vinx.Share.Diff.{differs, member_of, to_read, to_remove, Round, diff_snapshot}
use vinx.Share.Rounds.{differs_eq, member_of-to_read, member_of-to_read_absent, member_of-to_remove}

module _ {ℓ} {V : Type ℓ} where
  -- The names that a mirror holds.
  abbrev pub held : List (List ℕ × V) → List (List ℕ)
  held [] = []
  held ((name, v) ∷ m) = name ∷ held m

  abbrev pub without : List (List ℕ) → List (List ℕ × V) → List (List ℕ × V)
  without [] m = m
  without (name ∷ names) m = erase name (without names m)

  -- The files that are named, written with what the machine holds now.
  abbrev pub fetched : (List ℕ → V) → List (List ℕ) → List (List ℕ × V) → List (List ℕ × V)
  fetched now [] m = m
  fetched now (name ∷ names) m = insert name (now name) (fetched now names m)

  -- A round carried out.
  abbrev pub after_round : (List ℕ → V) → Round → List (List ℕ × V) → List (List ℕ × V)
  after_round now round m = fetched now round.read (without round.remove m)

  lookup-without :
      (name : List ℕ) (names : List (List ℕ)) (m : List (List ℕ × V))
      → lookup name (without names m) ≡ (if member_of name names then none else lookup name m)
  unfolding member_of
  lookup-without name [] m = refl
  lookup-without name (j ∷ names) m = elim (Bool-cases (text_eq j name)) [
    | inl same ↦ lookup-erase j name (without names m) ∙ rw (same) refl
    | inr other ↦ lookup-erase j name (without names m) ∙ rw (other) (lookup-without name names m)
  ]

  lookup-fetched :
      (now : List ℕ → V) (name : List ℕ) (names : List (List ℕ)) (m : List (List ℕ × V))
      → lookup name (fetched now names m)
        ≡ (if member_of name names then some (now name) else lookup name m)
  unfolding member_of
  lookup-fetched now name [] m = refl
  lookup-fetched now name (j ∷ names) m = elim (Bool-cases (text_eq j name)) [
    | inl same ↦
        lookup-insert j name (now j) (fetched now names m)
        ∙ rw same (ap (λ n. some (now n)) ((text_eq_iff j name).0 same))
    | inr other ↦
        lookup-insert j name (now j) (fetched now names m)
        ∙ rw other (lookup-fetched now name names m)
  ]

  member_of-held : (name : List ℕ) (m : List (List ℕ × V)) → member_of name (held m) ≡ has name m
  unfolding member_of lookup
  member_of-held name [] = refl
  member_of-held name ((j, v) ∷ m) = ground (arith, member_of-held name m)

  -- Once a round is carried out the mirror holds exactly the files of the machine, each with the
  -- bytes it has now, where the listing names no file twice and a mirrored file whose size, time and
  -- executable bit have not moved since the last round has the bytes it had.
  pub diff_snapshot-mirrors :
      (now : List ℕ → V) (prev next : List (List ℕ × FileStat)) (m : List (List ℕ × V))
      → Distinct next
      → ((name : List ℕ) (stat : FileStat) (v : V)
          → lookup name prev ≡ some stat
          → lookup name next ≡ some stat
          → lookup name m ≡ some v
          → v ≡ now name)
      → (name : List ℕ)
      → lookup name (after_round now (diff_snapshot prev next (held m)) m)
        ≡ (if has name next then some (now name) else none)
  unfolding diff_snapshot
  diff_snapshot-mirrors now prev next m d unmoved name =
      lookup-fetched now name (to_read prev next (held m)) (without (to_remove next (held m)) m)
      ∙ cases (Option-cases (lookup name next))
    where
      removed :
          lookup name (without (to_remove next (held m)) m)
          ≡ (if has name m && not (has name next) then none else lookup name m)
      removed =
          lookup-without name (to_remove next (held m)) m
          ∙ rw (member_of-to_remove name next (held m), member_of-held name m) refl

      old :
          (before : FileStat) (v : V)
          → lookup name prev ≡ some before
          → lookup name m ≡ some v
          → {stat : FileStat} → lookup name next ≡ some stat
          → (differs (lookup name prev) stat || not (has name m)) ≡ false
          → (if has name m && not (has name next) then none else lookup name m) ≡ some (now name)
      old before v was holds {stat} there same =
          let moved : differs (some before) stat ≡ false = ground (arith) in
          let e : v ≡ now name =
            unmoved name stat v (was ∙ ap some (differs_eq before stat moved)) there holds in
          ground (arith)

      kept :
          (stat : FileStat)
          → lookup name next ≡ some stat
          → (differs (lookup name prev) stat || not (has name m)) ≡ false
          → (if has name m && not (has name next) then none else lookup name m) ≡ some (now name)
      kept stat there same = elim (Option-cases (lookup name prev)) [
        | inl new ↦ absurd (ground (arith))
        | inr (before, was) ↦ elim (Option-cases (lookup name m)) [
          | inl unheld ↦ absurd (ground (arith))
          | inr (v, holds) ↦ old before v was holds there same
        ]
      ]

      cases :
          (lookup name next ≡ none) ⊎ ((stat : FileStat) × (lookup name next ≡ some stat))
          → (if member_of name (to_read prev next (held m))
              then some (now name)
              else lookup name (without (to_remove next (held m)) m))
            ≡ (if has name next then some (now name) else none)
      cases (inl absent) =
          rw (member_of-to_read_absent name prev next (held m) absent, removed) (ground (arith))
      cases (inr (stat, there)) =
          let found : has name next ≡ true = ground (arith) in
          rw (member_of-to_read name stat prev next (held m) d there, member_of-held name m)
            (elim (Bool-cases (differs (lookup name prev) stat || not (has name m))) [
              | inl chosen ↦ rw (chosen, found) refl
              | inr left ↦ rw left (removed ∙ kept stat there left ∙ rw found refl)
            ])
