-- ===== src/Examples/Share.antt =====
-- Concrete rounds of the mirror of a machine's files (web/app/share-diff.ts).
use vinx.Prelude.{
  ℕ, ◌≡◌, refl, ap, true, false, none, some, List, [], ◌∷◌, arith, text_eq, text_eq_iff,
  if◌then◌else◌,
}
use vinx.Prelude.Assoc.{text_key, lookup, insert, has}
use vinx.Prelude.Text.{codes}
use vinx.Share.{
  FileStat, DataEntry, mirrorable, mirrorable_path, includes_char, ends_with_slash, holds_banned,
  segments,
}
use vinx.Share.Walk.{walk_listing, walk, walk_entries, add_file}
use vinx.Share.Diff.{diff_snapshot, member_of}
use vinx.Share.Mirror.{held, after_round, diff_snapshot-mirrors}
use vinx.Share.Carried.{IsCarried, walk_listing-IsCarried}

abbrev old_stat : FileStat
old_stat = record { size = 3; mtime = 7; exec = false }

abbrev new_stat : FileStat
new_stat = record { size = 4; mtime = 9; exec = false }

abbrev last_round : List (List ℕ × FileStat)
last_round = (codes "a", old_stat) ∷ (codes "b", old_stat) ∷ []

-- The file `a` has grown and `b` is gone.
abbrev this_round : List (List ℕ × FileStat)
this_round = (codes "a", new_stat) ∷ []

abbrev mirror : List (List ℕ × ℕ)
mirror = (codes "a", 3) ∷ (codes "b", 3) ∷ []

stats_differ : old_stat ≡ new_stat → ⊥
stats_differ e = absurd (omega (arith, ap (λ (s : FileStat). s.size) e))

unmoved :
    (name : List ℕ) (stat : FileStat) (v : ℕ)
    → lookup name last_round ≡ some stat
    → lookup name this_round ≡ some stat
    → lookup name mirror ≡ some v
    → v ≡ 4
unfolding lookup
unmoved name stat v p q r = absurd (stats_differ (ground (arith, text_eq_iff (codes "a") name)))

diff_snapshot-mirrors_example :
    lookup
      (codes "a")
      (after_round (λ name. 4) (diff_snapshot last_round this_round (held mirror)) mirror)
    ≡ (if has (codes "a") this_round then some 4 else none)
diff_snapshot-mirrors_example =
    diff_snapshot-mirrors (λ name. 4) last_round this_round mirror (unfold lookup in (refl, tt))
      unmoved (codes "a")

held_once : (name : List ℕ) → member_of name (codes "a" ∷ []) ≡ has name this_round
unfolding member_of lookup
held_once name = ground arith

-- A directory `d` with a file in it, a dot file, and the shared tier.
abbrev listed : List ℕ → List DataEntry
listed rel =
    if text_eq rel []
    then record { name = codes "d"; dir = true; mode = 16877; size = 0; mtime = 1 }
      ∷ record { name = codes ".x"; dir = false; mode = 33188; size = 1; mtime = 1 }
      ∷ record { name = codes "share"; dir = true; mode = 16877; size = 0; mtime = 1 }
      ∷ []
    else if text_eq rel (codes "d")
    then record { name = codes "f"; dir = false; mode = 33261; size = 5; mtime = 2 } ∷ []
    else []

walk_listing-IsCarried_example : IsCarried (walk_listing listed)
walk_listing-IsCarried_example = walk_listing-IsCarried listed

walk_finds :
    (walk_listing listed).listing ≡ (codes "d/f", record { size = 5; mtime = 2; exec = true }) ∷ []
unfolding walk_listing walk walk_entries text_eq mirrorable ends_with_slash includes_char add_file
    mirrorable_path holds_banned segments insert
walk_finds = refl
