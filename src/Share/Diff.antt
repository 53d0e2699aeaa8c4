-- ===== src/Share/Diff.antt =====
-- diffSnapshot of web/app/share-diff.ts: what one round of the mirror has to do.
use vinx.Prelude.{
  ℕ, Bool, true, false, not, ◌||◌, Option, none, some, List, [], ◌∷◌, ◌==◌, if◌then◌else◌, text_eq,
}
use vinx.Prelude.Assoc.{text_key, lookup, has}
use vinx.Share.{FileStat}

abbrev pub bool_eq : Bool → Bool → Bool
bool_eq true b = b
bool_eq false b = not b

abbrev pub differs : Option FileStat → FileStat → Bool
differs none stat = true
differs (some before) stat =
    not (before.size == stat.size)
    || (not (before.mtime == stat.mtime) || not (bool_eq before.exec stat.exec))

-- `mirrored.has(name)`.
unfoldable pub member_of : List ℕ → List (List ℕ) → Bool
member_of name [] = false
member_of name (x ∷ xs) = text_eq x name || member_of name xs

unfoldable pub to_read :
    List (List ℕ × FileStat) → List (List ℕ × FileStat) → List (List ℕ) → List (List ℕ)
to_read prev [] mirrored = []
to_read prev ((name, stat) ∷ next) mirrored =
    let more = to_read prev next mirrored in
    if differs (lookup name prev) stat || not (member_of name mirrored) then name ∷ more else more

unfoldable pub to_remove : List (List ℕ × FileStat) → List (List ℕ) → List (List ℕ)
to_remove next [] = []
to_remove next (name ∷ mirrored) =
    let more = to_remove next mirrored in if has name next then more else name ∷ more

pub record Round : Type 0 where
  pub read : List (List ℕ)
  pub remove : List (List ℕ)

unfoldable pub diff_snapshot :
    List (List ℕ × FileStat) → List (List ℕ × FileStat) → List (List ℕ) → Round
diff_snapshot prev next mirrored = record {
  read = to_read prev next mirrored;
  remove = to_remove next mirrored;
}
