-- ===== src/Share/Walk.antt =====
-- walkListing of web/app/share-diff.ts: the machine's own tree, directory by directory. `listData` is
-- the machine's, a parameter.
use vinx.Prelude.{
  ℕ, zero, suc, Bool, true, false, not, ◌&&◌, ◌||◌, List, [], ◌∷◌, ◌++◌, leb, ◌==◌, if◌then◌else◌,
  length, text_eq,
}
use vinx.Prelude.Text.{codes, is_empty}
use vinx.Prelude.Assoc.{text_key, insert}
use vinx.Share.{
  FileStat, DataEntry, max_mirror_depth, max_mirror_files, is_regular_mode, starts_with_dot,
  mirrorable, mirrorable_path, stat_of,
}

pub record Walked : Type 0 where
  pub listing : List (List ℕ × FileStat)
  pub overflow : Bool

-- `PRIVATE_SKIP_ROOTS.has(name)`.
abbrev pub is_skipped_root : List ℕ → Bool
is_skipped_root name = text_eq name (codes "share") || text_eq name (codes "host")

-- Whether the walk passes over an entry. `rooms` is how many levels may still be entered: all of
-- them at the root.
abbrev pub is_passed : ℕ → DataEntry → Bool
is_passed rooms e =
    (starts_with_dot e.name || not (mirrorable e.name))
    || (rooms == max_mirror_depth && is_skipped_root e.name)

abbrev pub below : List ℕ → List ℕ → List ℕ
below rel name = if is_empty rel then name else rel ++ (b'/' ∷ name)

unfoldable pub add_file : List ℕ → DataEntry → Walked → Walked
add_file path e w =
    if not (is_regular_mode e.mode && mirrorable_path path)
    then w
    else if leb max_mirror_files (length w.listing)
    then record w { overflow = true }
    else record w { listing = insert path (stat_of e) w.listing }

-- The entries of a directory, with `enter` for those that are directories themselves.
unfoldable pub walk_entries :
    (List ℕ → List ℕ → Walked → Walked) → ℕ → List ℕ → List ℕ → List DataEntry → Walked → Walked
walk_entries enter rooms rel prefix [] w = w
walk_entries enter rooms rel prefix (e ∷ es) w =
    let taken =
      if is_passed rooms e
      then w
      else if e.dir
      then enter (below rel e.name) (prefix ++ (e.name ++ (b'/' ∷ []))) w
      else add_file (prefix ++ e.name) e w in
    let rest = walk_entries enter rooms rel prefix es taken in if w.overflow then w else rest

module _ (list_data : List ℕ → List DataEntry) where
  -- `walk`, at the depth where `rooms` levels are left.
  unfoldable pub walk : ℕ → List ℕ → List ℕ → Walked → Walked
  walk zero rel prefix w = w
  walk (suc rooms) rel prefix w =
      if w.overflow then w else walk_entries (walk rooms) (suc rooms) rel prefix (list_data rel) w

  unfoldable pub walk_listing : Walked
  walk_listing = walk max_mirror_depth [] [] (record { listing = []; overflow = false })
