-- ===== src/Hostcall/Refs.antt =====
-- Refs to session resources of web/app/hostcall.ts: refPath, readRef, writeRef, safeId.
use vinx.Prelude.{
  ℕ, Bool, true, false, not, ◌&&◌, ◌||◌, Option, none, some, List, [], ◌++◌, map, leb, ◌==◌,
  if◌then◌else◌, length, take, drop, text_eq, all,
}
use vinx.Prelude.Text.{codes, is_empty}
use vinx.Rpc.Json.{Json, Number, whole, minus, fraction, other, property, as_string, as_number}
use vinx.Hostcall.{
  tmp_prefix, resource_invalid, data_plane_unavailable, RefIo, Serve, pure, raise, or_raise, ◌>>=◌,
}

-- `[\w.-]`
abbrev pub is_word : ℕ → Bool
is_word c =
    (leb b'0' c && leb c b'9')
    || ((leb b'A' c && leb c b'Z') || ((leb b'a' c && leb c b'z') || c == b'_'))

abbrev pub is_bare : ℕ → Bool
is_bare c = is_word c || (c == b'.' || c == b'-')

abbrev pub is_base : List ℕ → Bool
is_base base = not (is_empty base) && all is_bare base

abbrev pub starts_with : List ℕ → List ℕ → Bool
starts_with prefix path = text_eq (take (length prefix) path) prefix

abbrev pub base_of : List ℕ → List ℕ
base_of path = if starts_with tmp_prefix path then drop (length tmp_prefix) path else []

pub record Ref : Type 0 where
  pub path : List ℕ
  pub size : Option Number

abbrev pub part : List ℕ → Option Json → Option Json
part k none = none
part k (some v) = property k v

abbrev pub or_nothing : Option (List ℕ) → List ℕ
or_nothing none = []
or_nothing (some s) = s

-- `none`: it throws RESOURCE_INVALID.
unfoldable pub ref_path : Option Json → Option Ref
ref_path ref =
    let path = or_nothing (as_string (part (codes "path") ref)) in
    if is_base (base_of path)
    then some (record { path = path; size = as_number (part (codes "size") ref) })
    else none

-- `n !== size`, where a size is declared.
abbrev pub disagrees : ℕ → Option Number → Bool
disagrees n none = false
disagrees n (some (whole m)) = not (n == m)
disagrees n (some (minus m)) = not (n == 0 && m == 0)
disagrees n (some (fraction m)) = true
disagrees n (some other) = true

abbrev pub safe_char : ℕ → ℕ
safe_char c = if is_bare c then c else b'_'

unfoldable pub safe_id : List ℕ → List ℕ
safe_id id = map safe_char id

module _ {S : Type 0} (io : RefIo S) where
  -- What was read, if it is of the size that was declared.
  abbrev pub agreeing : Option Number → Option (List ℕ) → Serve S (List ℕ)
  agreeing size none = raise resource_invalid
  agreeing size (some bytes) =
      if disagrees (length bytes) size then raise resource_invalid else pure bytes

  unfoldable pub read_ref : Option Json → Serve S (List ℕ)
  read_ref ref = do
    r ← or_raise (ref_path ref) resource_invalid
    λ s. agreeing r.size (io.read s r.path) s

  abbrev pub written : List ℕ → Option S → Serve S (List ℕ)
  written path none s = raise data_plane_unavailable s
  written path (some s') s = pure path s'

  unfoldable pub write_ref : List ℕ → List ℕ → Serve S (List ℕ)
  write_ref name bytes s = written (tmp_prefix ++ name) (io.write s (tmp_prefix ++ name) bytes) s
