-- ===== src/Share.antt =====
-- web/app/share-diff.ts: which files of the machine's /data are mirrored, and what one round of the
-- mirror reads and removes. A text is its UTF-16 units, a mode a natural number.
pub mod Walk
pub mod Diff
pub mod Rounds
pub mod Mirror
pub mod Quiet
pub mod Carried
use vinx.Prelude.{
  ℕ, ◌/◌, ◌%◌, ◌*◌, ◌+◌, Bool, true, false, not, ◌&&◌, ◌||◌, List, [], ◌∷◌, ◌++◌, ltb, leb, ◌==◌,
  if◌then◌else◌, length, text_eq, all,
}
use vinx.Prelude.Text.{codes, is_empty}
use vinx.Prelude.Assoc.{text_key, insert}

pub record FileStat : Type 0 where
  pub size : ℕ
  pub mtime : ℕ
  pub exec : Bool

abbrev pub max_share_total_bytes : ℕ
max_share_total_bytes = 64 * 1024 * 1024

abbrev pub max_mirror_depth : ℕ
max_mirror_depth = 8

abbrev pub max_mirror_files : ℕ
max_mirror_files = 2000

abbrev pub local_prefix : List ℕ
local_prefix = codes "share/local/"

-- What `listData` says of an entry of a directory.
pub record DataEntry : Type 0 where
  pub name : List ℕ
  pub dir : Bool
  pub mode : ℕ
  pub size : ℕ
  pub mtime : ℕ

-- `(mode & 0o170000) === 0o100000`: the four bits of the file's type are 8.
abbrev pub is_regular_mode : ℕ → Bool
is_regular_mode mode = (mode / 4096) % 16 == 8

-- `(mode & 0o111) !== 0`: one of the bits 0, 3 and 6.
abbrev pub is_exec : ℕ → Bool
is_exec mode = mode % 2 == 1 || ((mode / 8) % 2 == 1 || (mode / 64) % 2 == 1)

-- `name.startsWith('.')`, `name.endsWith('/')` and `name.includes('/')`.
abbrev pub starts_with_dot : List ℕ → Bool
starts_with_dot [] = false
starts_with_dot (c ∷ cs) = c == b'.'

unfoldable pub includes_char : ℕ → List ℕ → Bool
includes_char c [] = false
includes_char c (d ∷ ds) = d == c || includes_char c ds

unfoldable pub ends_with_slash : List ℕ → Bool
ends_with_slash [] = false
ends_with_slash (c ∷ []) = c == b'/'
ends_with_slash (c ∷ d ∷ cs) = ends_with_slash (d ∷ cs)

unfoldable pub mirrorable : List ℕ → Bool
mirrorable name =
    if is_empty name || ends_with_slash name
    then false
    else if text_eq name (codes ".") || (text_eq name (codes "..") || includes_char b'/' name)
    then false
    else leb (length name) 128

-- The characters that a path may not hold: `|`, `\`, line feed, carriage return and NUL.
abbrev pub is_banned : ℕ → Bool
is_banned c = c == 0x7c || (c == 0x5c || (c == 10 || (c == 13 || c == 0)))

unfoldable pub holds_banned : List ℕ → Bool
holds_banned [] = false
holds_banned (c ∷ cs) = is_banned c || holds_banned cs

abbrev pub with_char : ℕ → List (List ℕ) → List (List ℕ)
with_char c [] = (c ∷ []) ∷ []
with_char c (seg ∷ segs) = (c ∷ seg) ∷ segs

-- `path.split('/')`.
unfoldable pub segments : List ℕ → List (List ℕ)
segments [] = [] ∷ []
segments (c ∷ cs) = let rest = segments cs in if c == b'/' then [] ∷ rest else with_char c rest

abbrev pub is_sane : List ℕ → Bool
is_sane seg = mirrorable seg && not (starts_with_dot seg)

unfoldable pub mirrorable_path : List ℕ → Bool
mirrorable_path path =
    if is_empty path || ltb 512 (length path)
    then false
    else if holds_banned path
    then false
    else if ltb max_mirror_depth (length (segments path))
    then false
    else all is_sane (segments path)

abbrev pub stat_of : DataEntry → FileStat
stat_of e = record { size = e.size; mtime = e.mtime; exec = is_exec e.mode }

-- Whether the flat listing takes an entry.
abbrev pub is_listed : DataEntry → Bool
is_listed e =
    not (e.dir || not (is_regular_mode e.mode))
    && (not (starts_with_dot e.name) && mirrorable e.name)

unfoldable pub list_onto :
    List ℕ → List (List ℕ × FileStat) → List DataEntry → List (List ℕ × FileStat)
list_onto prefix out [] = out
list_onto prefix out (e ∷ es) =
    list_onto prefix (if is_listed e then insert (prefix ++ e.name) (stat_of e) out else out) es

unfoldable pub listing_from_entries : List DataEntry → List ℕ → List (List ℕ × FileStat)
listing_from_entries entries prefix = list_onto prefix [] entries

unfoldable pub total_bytes : List (List ℕ × FileStat) → ℕ
total_bytes [] = 0
total_bytes ((name, stat) ∷ rest) = stat.size + total_bytes rest
