-- ===== src/Mount/Scan.antt =====
-- The walks of the disk's folder and of the machine's (web/app/host-mount.ts). The listings are
-- arguments; a listing or a file that cannot be had makes the walk throw, which is `none`.
use vinx.Prelude.{ℕ, zero, suc, Option, none, some, List, [], ◌∷◌, ◌++◌, ltb, if◌then◌else◌, length}
use vinx.Prelude.Assoc.{text_key, insert}
use vinx.Share.{DataEntry, is_regular_mode, starts_with_dot}
use vinx.Mount.{File, Fingerprint, max_mount_files, mountable_path}

pub data HostEntry : Type 0 where
  -- a name, and what `getFile` gives
  file : List ℕ → Option File → HostEntry
  folder : List ℕ → HostEntry

abbrev pub HostFiles : Type 0
HostFiles = List (List ℕ × File)

abbrev pub GuestFiles : Type 0
GuestFiles = List (List ℕ × Fingerprint)

abbrev pub add_opened : List ℕ → Option File → HostFiles → Option HostFiles
add_opened path none out = none
add_opened path (some f) out = some (insert path f out)

-- One entry of a folder of the disk.
abbrev pub scan_entry :
    (List ℕ → HostFiles → Option HostFiles) → List ℕ → HostEntry → HostFiles → Option HostFiles
scan_entry enter prefix (file name f) out =
    if mountable_path (prefix ++ name) then add_opened (prefix ++ name) f out else some out
scan_entry enter prefix (folder name) out =
    if starts_with_dot name then some out else enter (prefix ++ (name ++ (b'/' ∷ []))) out

unfoldable pub scan_entries :
    (List ℕ → HostFiles → Option HostFiles)
    → List ℕ
    → List HostEntry
    → Option HostFiles
    → Option HostFiles
scan_entries enter prefix es none = none
scan_entries enter prefix [] (some out) = some out
scan_entries enter prefix (e ∷ es) (some out) =
    let rest = scan_entries enter prefix es (scan_entry enter prefix e out) in
    if ltb max_mount_files (length out) then some out else rest

module _ (list_host : List ℕ → List HostEntry) where
  -- `scanHost`, with as many levels to enter as `rooms`.
  unfoldable pub scan_host : ℕ → List ℕ → HostFiles → Option HostFiles
  scan_host zero prefix out = some out
  scan_host (suc rooms) prefix out =
      scan_entries (scan_host rooms) prefix (list_host prefix) (some out)

-- One entry of a folder of the machine.
abbrev pub guest_entry :
    (List ℕ → List ℕ → GuestFiles → Option GuestFiles)
    → List ℕ
    → List ℕ
    → DataEntry
    → GuestFiles
    → Option GuestFiles
guest_entry enter rel prefix e out =
    if starts_with_dot e.name
    then some out
    else if e.dir
    then enter (rel ++ (b'/' ∷ e.name)) (prefix ++ (e.name ++ (b'/' ∷ []))) out
    else if is_regular_mode e.mode
    then some (insert (prefix ++ e.name) (record { size = e.size; time = e.mtime }) out)
    else some out

unfoldable pub guest_entries :
    (List ℕ → List ℕ → GuestFiles → Option GuestFiles)
    → List ℕ
    → List ℕ
    → List DataEntry
    → Option GuestFiles
    → Option GuestFiles
guest_entries enter rel prefix es none = none
guest_entries enter rel prefix [] (some out) = some out
guest_entries enter rel prefix (e ∷ es) (some out) =
    guest_entries enter rel prefix es (guest_entry enter rel prefix e out)

module _ (list_data : List ℕ → Option (List DataEntry)) where
  abbrev pub listed_then :
      (List DataEntry → Option GuestFiles) → Option (List DataEntry) → Option GuestFiles
  listed_then f none = none
  listed_then f (some es) = f es

  -- `scanGuest`, with as many levels to enter as `rooms`.
  unfoldable pub scan_guest : ℕ → List ℕ → List ℕ → GuestFiles → Option GuestFiles
  scan_guest zero rel prefix out = some out
  scan_guest (suc rooms) rel prefix out =
      listed_then (λ es. guest_entries (scan_guest rooms) rel prefix es (some out)) (list_data rel)
