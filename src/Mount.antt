-- ===== src/Mount.antt =====
-- web/app/host-mount.ts: a folder of the person's disk kept like /data/host of the machine. The disk,
-- the machine's tree and SHA-256 are outside: what a sweep asks of them is an `Out`, in order, and
-- what they answer is an argument. A path and a hash are texts.
pub mod Scan
pub mod Host
pub mod Guest
pub mod Carry
pub mod Looking
pub mod Sweep
pub mod Written
pub mod Lost
use vinx.Prelude.{
  ℕ, ◌*◌, Bool, true, false, not, ◌&&◌, ◌||◌, Option, none, some, List, [], ◌∷◌, ◌++◌, ltb, leb,
  ◌==◌, if◌then◌else◌, length, text_eq, all,
}
use vinx.Prelude.Text.{codes, is_empty}
use vinx.Prelude.Assoc.{text_key, lookup}
use vinx.Share.{starts_with_dot, holds_banned, segments}

abbrev pub max_mount_file_bytes : ℕ
max_mount_file_bytes = 8 * 1024 * 1024

abbrev pub max_mount_total_bytes : ℕ
max_mount_total_bytes = 64 * 1024 * 1024

abbrev pub max_mount_files : ℕ
max_mount_files = 400

abbrev pub max_mount_depth : ℕ
max_mount_depth = 5

abbrev pub guest_every : ℕ
guest_every = 3

abbrev pub is_carried : List ℕ → Bool
is_carried s = not (is_empty s) && (leb (length s) 128 && not (starts_with_dot s))

unfoldable pub mountable_path : List ℕ → Bool
mountable_path path =
    if is_empty path || ltb 512 (length path)
    then false
    else if holds_banned path
    then false
    else if ltb max_mount_depth (length (segments path))
    then false
    else all is_carried (segments path)

-- A file of the disk; its bytes, where reading them does not throw.
pub record File : Type 0 where
  pub size : ℕ
  pub last_modified : ℕ
  pub bytes : Option (List ℕ)

-- A size and a time, on either side.
pub record Fingerprint : Type 0 where
  pub size : ℕ
  pub time : ℕ

abbrev pub fingerprint_eq : Fingerprint → Fingerprint → Bool
fingerprint_eq a b = a.size == b.size && a.time == b.time

abbrev pub unmoved : Option Fingerprint → Fingerprint → Bool
unmoved none fp = false
unmoved (some before) fp = fingerprint_eq before fp

abbrev pub file_fp : File → Fingerprint
file_fp f = record { size = f.size; time = f.last_modified }

-- What is noted once: too many files, too many bytes, one file too big.
pub data NoteKey : Type 0 where
  files total : NoteKey
  big : List ℕ → NoteKey

abbrev pub note_eq : NoteKey → NoteKey → Bool
note_eq files files = true
note_eq files total = false
note_eq files (big q) = false
note_eq total files = false
note_eq total total = true
note_eq total (big q) = false
note_eq (big p) files = false
note_eq (big p) total = false
note_eq (big p) (big q) = text_eq p q

unfoldable pub was_noted : NoteKey → List NoteKey → Bool
was_noted key [] = false
was_noted key (k ∷ ks) = note_eq k key || was_noted key ks

unfoldable pub forget_note : NoteKey → List NoteKey → List NoteKey
forget_note key [] = []
forget_note key (k ∷ ks) = let rest = forget_note key ks in if note_eq k key then rest else k ∷ rest

pub data Out : Type 0 where
  note : NoteKey → Out
  -- `vm.ensureDir`, `vm.putFile` and `vm.deleteData`, under `host`
  ensure_dir : List ℕ → Out
  put_file : List ℕ → List ℕ → Out
  delete_data : List ℕ → Out
  -- `writeHost`: a folder of the disk is had or made, a file is, and its bytes are written
  host_folder : List ℕ → Out
  host_file : List ℕ → Out
  write_host : List ℕ → List ℕ → Out

pub record Mount : Type 0 where
  pub host_fp : List (List ℕ × Fingerprint)
  pub guest_fp : List (List ℕ × Fingerprint)
  pub synced : List (List ℕ × List ℕ)
  pub noted : List NoteKey
  pub round : ℕ

abbrev pub new_mount : Mount
new_mount = record { host_fp = []; guest_fp = []; synced = []; noted = []; round = 0 }

unfoldable pub note_once : NoteKey → Mount → List Out × Mount
note_once key m =
    if was_noted key m.noted then ([], m) else (note key ∷ [], record m { noted = key ∷ m.noted })

abbrev pub same_hash : Option (List ℕ) → List ℕ → Bool
same_hash none h = false
same_hash (some before) h = text_eq before h
