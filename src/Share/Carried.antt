-- ===== src/Share/Carried.antt =====
-- What the walk of the machine's tree brings into the mirror (web/app/share-diff.ts).
use vinx.Prelude.{
  ℕ, zero, suc, ◌≤◌, ◌≡◌, refl, Bool, true, false, ◌&&◌, List, [], ◌∷◌, ◌++◌, leb, ◌==◌,
  append_assoc, arith, if◌then◌else◌, length, text_eq, All, Bool-cases, inl, inr,
}
use vinx.Prelude.Assoc.{text_key, insert, Distinct, insert-Distinct, length-insert}
use vinx.Share.{
  includes_char, mirrorable, FileStat, DataEntry, max_mirror_depth, max_mirror_files,
  is_regular_mode, mirrorable_path, stat_of,
}
use vinx.Share.Walk.{
  is_skipped_root, Walked, is_passed, below, add_file, walk_entries, walk, walk_listing,
}

abbrev pub AllMirrorable : List (List ℕ × FileStat) → Type 0
AllMirrorable m = All (λ (e : List ℕ × FileStat). mirrorable_path e.0 ≡ true) m

-- The first segment of a path.
unfoldable pub root_of : List ℕ → List ℕ
root_of [] = []
root_of (c ∷ cs) = let rest = root_of cs in if c == b'/' then [] else c ∷ rest

-- A path outside the two directories that the machine's own mirror leaves out.
abbrev pub IsOwn : List ℕ → Type 0
IsOwn path = is_skipped_root (root_of path) ≡ false

abbrev pub AllOwn : List (List ℕ × FileStat) → Type 0
AllOwn m = All (λ (e : List ℕ × FileStat). IsOwn e.0) m

-- No path twice, none that the mirror may not carry, none of `share` or `host`, and at most as many as it carries.
pub record IsCarried (w : Walked) : Type 0 where
  pub distinct : Distinct w.listing
  pub mirrorables : AllMirrorable w.listing
  pub owned : AllOwn w.listing
  pub fits : length w.listing ≤ max_mirror_files

insert-AllMirrorable :
    (path : List ℕ) (stat : FileStat) (m : List (List ℕ × FileStat))
    → mirrorable_path path ≡ true
    → AllMirrorable m
    → AllMirrorable (insert path stat m)
unfolding insert
insert-AllMirrorable path stat [] p h = (p, tt)
insert-AllMirrorable path stat ((j, s) ∷ m) p h = elim (Bool-cases (text_eq j path)) [
  | inl here ↦ rw here (h.0, h.1)
  | inr there ↦ rw there (h.0, insert-AllMirrorable path stat m p h.1)
]

insert-AllOwn :
    (path : List ℕ) (stat : FileStat) (m : List (List ℕ × FileStat))
    → IsOwn path
    → AllOwn m
    → AllOwn (insert path stat m)
unfolding insert
insert-AllOwn path stat [] p h = (p, tt)
insert-AllOwn path stat ((j, s) ∷ m) p h = elim (Bool-cases (text_eq j path)) [
  | inl here ↦ rw here (h.0, h.1)
  | inr there ↦ rw there (h.0, insert-AllOwn path stat m p h.1)
]

add_file-IsCarried :
    (path : List ℕ) (e : DataEntry) (w : Walked)
    → IsOwn path
    → IsCarried w
    → IsCarried (add_file path e w)
unfolding add_file
add_file-IsCarried path e w own h =
    elim (Bool-cases (is_regular_mode e.mode && mirrorable_path path)) [
      | inr left_out ↦ rw left_out h
      | inl taken ↦ elim (Bool-cases (leb max_mirror_files (length w.listing))) [
        | inl full ↦
            rw (taken, full)
              (record {
                distinct = h.distinct;
                mirrorables = h.mirrorables;
                owned = h.owned;
                fits = h.fits;
              })
        | inr room ↦
            rw (taken, room)
              (record {
                distinct = insert-Distinct path (stat_of e) w.listing h.distinct;
                mirrorables =
                    insert-AllMirrorable path (stat_of e) w.listing (ground (arith)) h.mirrorables;
                owned = insert-AllOwn path (stat_of e) w.listing own h.owned;
                fits = ground (arith, length-insert path (stat_of e) w.listing);
              })
      ]
    ]

if-IsCarried :
    (b : Bool) (v w : Walked)
    → IsCarried v
    → (b ≡ false → IsCarried w)
    → IsCarried (if b then v else w)
if-IsCarried true v w h k = h
if-IsCarried false v w h k = k refl

-- The directories that the walk enters keep what it has, where their prefixes are the machine's own.
module _ (enter : List ℕ → List ℕ → Walked → Walked)
    (entered : (rel prefix : List ℕ) (w : Walked)
      → ((x : List ℕ) → IsOwn (prefix ++ x))
      → IsCarried w
      → IsCarried (enter rel prefix w))
    (rooms : ℕ) (rel prefix : List ℕ)
    (own : (e : DataEntry)
      → is_passed rooms e ≡ false
      → IsOwn (prefix ++ e.name)
        × ((x : List ℕ) → IsOwn ((prefix ++ (e.name ++ (b'/' ∷ []))) ++ x))) where
  walk_entries-IsCarried :
      (es : List DataEntry) (w : Walked)
      → IsCarried w
      → IsCarried (walk_entries enter rooms rel prefix es w)
  unfolding walk_entries
  walk_entries-IsCarried [] w h = h
  walk_entries-IsCarried (e ∷ es) w h = if-IsCarried w.overflow w _ h (λ going.
      walk_entries-IsCarried es _ (
        if-IsCarried (is_passed rooms e) w _ h (λ taken.
          if-IsCarried e.dir _ _
            (entered (below rel e.name) (prefix ++ (e.name ++ (b'/' ∷ []))) w (own e taken).1 h)
            (λ file. add_file-IsCarried (prefix ++ e.name) e w (own e taken).0 h))))

root_of-name : (name : List ℕ) → includes_char b'/' name ≡ false → root_of name ≡ name
unfolding root_of includes_char
root_of-name [] h = refl
root_of-name (c ∷ cs) h = ground (arith, root_of-name cs)

root_of-slash :
    (name x : List ℕ)
    → includes_char b'/' name ≡ false
    → root_of ((name ++ (b'/' ∷ [])) ++ x) ≡ name
unfolding root_of includes_char
root_of-slash [] x h = refl
root_of-slash (c ∷ cs) x h = ground (arith, root_of-slash cs x)

-- What is taken at the root has a name without a slash that is neither of the two.
is_passed-IsOwn :
    (e : DataEntry)
    → is_passed max_mirror_depth e ≡ false
    → IsOwn e.name × ((x : List ℕ) → IsOwn ((e.name ++ (b'/' ∷ [])) ++ x))
unfolding mirrorable
is_passed-IsOwn e taken =
    let plain : includes_char b'/' e.name ≡ false = ground (arith) in
    let named : is_skipped_root e.name ≡ false = ground (arith) in
    (rw (root_of-name e.name plain) named, λ x. rw (root_of-slash e.name x plain) named)

module _ (list_data : List ℕ → List DataEntry) where
  walk-IsCarried :
      (rooms : ℕ) (rel prefix : List ℕ) (w : Walked)
      → ((x : List ℕ) → IsOwn (prefix ++ x))
      → IsCarried w
      → IsCarried (walk list_data rooms rel prefix w)
  unfolding walk
  walk-IsCarried zero rel prefix w own h = h
  walk-IsCarried (suc rooms) rel prefix w own h = if-IsCarried w.overflow w _ h (λ going.
      walk_entries-IsCarried (walk list_data rooms) (walk-IsCarried rooms) (suc rooms) rel prefix
        (λ e taken. (
          own e.name,
          λ x.
              rw (append_assoc prefix (e.name ++ (b'/' ∷ [])) x)
                (own ((e.name ++ (b'/' ∷ [])) ++ x)),
        ))
        (list_data rel) w h)

  -- Whatever tree the machine shows, its listing has each path once, only paths that the mirror may
  -- carry, none in the directories `share` and `host`, and at most 2000 of them.
  pub walk_listing-IsCarried : IsCarried (walk_listing list_data)
  unfolding walk_listing walk
  walk_listing-IsCarried =
      walk_entries-IsCarried (walk list_data 7) (walk-IsCarried 7) max_mirror_depth [] []
        is_passed-IsOwn (list_data []) (record { listing = []; overflow = false })
        (record { distinct = tt; mirrorables = tt; owned = tt; fits = omega arith })
