-- ===== src/Windows/Stacking.antt =====
-- The stacking of the windows of a desktop: one integer for each, raised to the top, and numbered
-- anew where the band would be left (web/app/window-manager.ts).
use vinx.Prelude.{
  ℕ, ◌+◌, ◌-◌, Option, none, some, List, [], ◌∷◌, ◌++◌, ltb, leb, ◌==◌, if◌then◌else◌, text_eq,
}
use vinx.Prelude.Assoc.{text_key, lookup}
use vinx.Windows.{WindowState, Out, ping, focused, Manager, z_base, z_ceil}

-- A window of the table, in either of its maps.
pub data Slot : Type 0 where
  web_slot : List ℕ → Slot
  native_slot : List ℕ → Slot

-- `entry.z = z`, in place.
unfoldable pub set_web : List ℕ → ℕ → List (List ℕ × WindowState) → List (List ℕ × WindowState)
set_web id z [] = []
set_web id z ((j, w) ∷ rest) =
    (j, if text_eq j id then record w { z = z } else w) ∷ set_web id z rest

unfoldable pub set_native : List ℕ → ℕ → List (List ℕ × ℕ) → List (List ℕ × ℕ)
set_native id z [] = []
set_native id z ((j, w) ∷ rest) = (j, if text_eq j id then z else w) ∷ set_native id z rest

abbrev pub set_z : Slot → ℕ → Manager → Manager
set_z (web_slot id) z m = record m { webs = set_web id z m.webs }
set_z (native_slot id) z m = record m { natives = set_native id z m.natives }

unfoldable pub web_entries : List (List ℕ × WindowState) → List (Slot × ℕ)
web_entries [] = []
web_entries ((id, w) ∷ rest) = (web_slot id, w.z) ∷ web_entries rest

unfoldable pub native_entries : List (List ℕ × ℕ) → List (Slot × ℕ)
native_entries [] = []
native_entries ((id, z) ∷ rest) = (native_slot id, z) ∷ native_entries rest

-- All windows, as the renumbering takes them.
unfoldable pub entries : Manager → List (Slot × ℕ)
entries m = web_entries m.webs ++ native_entries m.natives

-- The language's stable sort, by `a.z - b.z`.
unfoldable pub place_entry : Slot → ℕ → List (Slot × ℕ) → List (Slot × ℕ)
place_entry s z [] = (s, z) ∷ []
place_entry s z ((t, y) ∷ rest) =
    let more = place_entry s z rest in if leb z y then (s, z) ∷ ((t, y) ∷ rest) else (t, y) ∷ more

unfoldable pub sort_entries : List (Slot × ℕ) → List (Slot × ℕ)
sort_entries [] = []
sort_entries ((s, z) ∷ rest) = place_entry s z (sort_entries rest)

-- Consecutive numbers from `z`, and the number after the last.
unfoldable pub number_from : List (Slot × ℕ) → ℕ → Manager → Manager
number_from [] z m = record m { z_next = z }
number_from ((s, old) ∷ rest) z m = number_from rest (z + 1) (set_z s z m)

unfoldable pub renumber : Manager → Manager
renumber m = number_from (sort_entries (entries m)) z_base m

-- The window that an id names: an app window before a native one.
abbrev pub slot_found : List ℕ → Option WindowState → Option ℕ → Option (Slot × ℕ)
slot_found id (some w) n = some (web_slot id, w.z)
slot_found id none (some z) = some (native_slot id, z)
slot_found id none none = none

unfoldable pub entry_of : List ℕ → Manager → Option (Slot × ℕ)
entry_of id m = slot_found id (lookup id m.webs) (lookup id m.natives)

abbrev pub entry_z : Option (Slot × ℕ) → ℕ
entry_z none = z_base
entry_z (some (s, z)) = z

unfoldable pub z_of : List ℕ → Manager → ℕ
z_of id m = entry_z (entry_of id m)

-- A window put on top.
unfoldable pub lift : Slot → Manager → Manager
lift s m =
    let m' = record (set_z s m.z_next m) { z_next = m.z_next + 1 } in
    if ltb z_ceil m'.z_next then renumber m' else m'

abbrev pub raise_found : List ℕ → Option (Slot × ℕ) → Manager → List Out × Manager
raise_found id none m = ([], m)
raise_found id (some (s, z)) m =
    ((if z == m.z_next - 1 then [] else focused id ∷ []) ++ ping ∷ [], lift s m)

unfoldable pub raise : List ℕ → Manager → List Out × Manager
raise id m = raise_found id (entry_of id m) m
