-- ===== src/Share/Quiet.antt =====
-- A tree that has not changed costs a round nothing (web/app/share-diff.ts).
use vinx.Prelude.{
  ℕ, ◌≡◌, refl, ap₂, ◌∙◌, false, some, List, [], ◌∷◌, ==_refl, arith, text_eq_refl, Option-cases,
  inl, inr,
}
use vinx.Prelude.Assoc.{text_key, lookup, has, Distinct}
use vinx.Share.{FileStat}
use vinx.Share.Diff.{differs, member_of, to_read, to_remove, diff_snapshot}
use vinx.Share.Rounds.{member_of-to_read, member_of-to_read_absent, member_of-to_remove}

nothing_in : (names : List (List ℕ)) → ((name : List ℕ) → member_of name names ≡ false) → names ≡ []
unfolding member_of
nothing_in [] f = refl
nothing_in (x ∷ xs) f = absurd (ground (arith, f x, text_eq_refl x))

differs_self : (stat : FileStat) → differs (some stat) stat ≡ false
differs_self stat = ground (arith, ==_refl stat.size, ==_refl stat.mtime)

-- Where the listing is that of the last round, names no file twice, and the mirror holds exactly its
-- files, the round reads nothing and removes nothing.
pub diff_snapshot_quiet :
    (next : List (List ℕ × FileStat)) (mirrored : List (List ℕ))
    → Distinct next
    → ((name : List ℕ) → member_of name mirrored ≡ has name next)
    → diff_snapshot next next mirrored ≡ record { read = []; remove = [] }
unfolding diff_snapshot
diff_snapshot_quiet next mirrored d same =
    ap₂ (λ read remove. record { read = read; remove = remove })
      (nothing_in (to_read next next mirrored) unread) (nothing_in (to_remove next mirrored) kept)
  where
    unread : (name : List ℕ) → member_of name (to_read next next mirrored) ≡ false
    unread name = elim (Option-cases (lookup name next)) [
      | inl absent ↦ member_of-to_read_absent name next next mirrored absent
      | inr (stat, there) ↦
          member_of-to_read name stat next next mirrored d there
          ∙ rw (there, differs_self stat, same name) (ground (arith))
    ]

    kept : (name : List ℕ) → member_of name (to_remove next mirrored) ≡ false
    kept name = member_of-to_remove name next mirrored ∙ rw (same name) (ground (arith))
