-- ===== src/Mount/Host.antt =====
-- hostSweep of web/app/host-mount.ts: from the disk to the machine. `hash` is SHA-256 in hexadecimal,
-- and `works` tells the calls that succeed, which are the `Out`s; a sweep that throws is told by its
-- flag.
use vinx.Prelude.{
  ℕ, ◌+◌, Bool, true, false, not, ◌&&◌, Option, none, some, List, [], ◌∷◌, ◌++◌, ltb, if◌then◌else◌,
  length, ◌==◌,
}
use vinx.Prelude.Text.{codes}
use vinx.Prelude.Assoc.{text_key, lookup, insert, erase, has}
use vinx.Mount.{
  File, Fingerprint, Mount, Out, ensure_dir, put_file, delete_data, NoteKey, files, total, big,
  file_fp, unmoved, same_hash, note_once, forget_note, max_mount_file_bytes, max_mount_files,
  max_mount_total_bytes,
}
use vinx.Share.Diff.{member_of}
use vinx.Mount.Scan.{HostFiles}

unfoldable pub total_size : HostFiles → ℕ
total_size [] = 0
total_size ((path, f) ∷ rest) = f.size + total_size rest

-- The loop over the files: what is noted, what is to be pushed, and whether it went through.
pub record Looked : Type 0 where
  pub outs : List Out
  pub push : List (List ℕ × List ℕ)
  pub mount : Mount
  pub done : Bool

-- What stands before the last slash.
unfoldable pub before_slash : List ℕ → Option (List ℕ)
before_slash [] = none
before_slash (c ∷ cs) = elim (before_slash cs) [
  | some front ↦ some (c ∷ front)
  | none ↦ if c == b'/' then some [] else none
]

-- The folders that are made for a push: `host`, and those with files in it.
abbrev pub add_folder : Option (List ℕ) → List (List ℕ) → List (List ℕ)
add_folder none dirs = dirs
add_folder (some []) dirs = dirs
add_folder (some (c ∷ cs)) dirs =
    let dir = codes "host/" ++ (c ∷ cs) in if member_of dir dirs then dirs else dirs ++ dir ∷ []

unfoldable pub folders_over : List (List ℕ) → List (List ℕ × List ℕ) → List (List ℕ)
folders_over dirs [] = dirs
folders_over dirs ((path, bytes) ∷ push) = folders_over (add_folder (before_slash path) dirs) push

unfoldable pub make_folders : List (List ℕ) → List Out
make_folders [] = []
make_folders (dir ∷ dirs) = ensure_dir dir ∷ make_folders dirs

unfoldable pub put_files : List (List ℕ × List ℕ) → List Out
put_files [] = []
put_files ((path, bytes) ∷ push) = put_file path bytes ∷ put_files push

abbrev pub push_calls : List (List ℕ × List ℕ) → List Out
push_calls [] = []
push_calls ((path, bytes) ∷ push) =
    make_folders (folders_over (codes "host" ∷ []) ((path, bytes) ∷ push))
    ++ put_files ((path, bytes) ∷ push)

-- Files that left the disk.
abbrev pub gone_one : HostFiles → List ℕ → List Out × Mount → List Out × Mount
gone_one disk path (outs, m) = if has path disk then (outs, m) else (
  outs ++ delete_data path ∷ [],
  record m {
    host_fp = erase path m.host_fp;
    synced = erase path m.synced;
    guest_fp = erase path m.guest_fp;
  },
)

unfoldable pub gone_over :
    HostFiles → List (List ℕ × Fingerprint) → List Out × Mount → List Out × Mount
gone_over disk [] r = r
gone_over disk ((path, fp) ∷ known) r = gone_over disk known (gone_one disk path r)

-- Calls one after another, up to the first that throws.
module _ (works : Out → Bool) where
  unfoldable pub in_turn : List Out → List Out × Bool
  in_turn [] = ([], true)
  in_turn (c ∷ cs) = let rest = in_turn cs in if works c then (c ∷ rest.0, rest.1) else ([], false)

module _ (hash : List ℕ → List ℕ) where
  -- A file whose bytes were read.
  abbrev pub look_read : List ℕ → File → List ℕ → Looked → Looked
  look_read path f bytes l =
      let m = record l.mount { host_fp = insert path (file_fp f) l.mount.host_fp } in
      if same_hash (lookup path m.synced) (hash bytes) then record l { mount = m } else record l {
        push = l.push ++ (path, bytes) ∷ [];
        mount = record m { synced = insert path (hash bytes) m.synced };
      }

  abbrev pub look_moved : List ℕ → File → Option (List ℕ) → Looked → Looked
  look_moved path f none l = record l { done = false }
  look_moved path f (some bytes) l = look_read path f bytes l

  abbrev pub look_big : List ℕ → File → Looked → Looked
  look_big path f l =
      let (outs, m) =
        note_once (big path)
          (record l.mount { host_fp = insert path (file_fp f) l.mount.host_fp }) in
      record l { outs = l.outs ++ outs; mount = m }

  unfoldable pub look_at : List ℕ → File → Looked → Looked
  look_at path f l =
      if unmoved (lookup path l.mount.host_fp) (file_fp f)
      then l
      else if ltb max_mount_file_bytes f.size
      then look_big path f l
      else look_moved path f f.bytes l

  unfoldable pub look_over : HostFiles → Looked → Looked
  look_over [] l = l
  look_over ((path, f) ∷ rest) l =
      let further = look_over rest (look_at path f l) in if l.done then further else l

  module _ (works : Out → Bool) where
    -- After the loop: the push, and then what left the disk.
    abbrev pub finish_sweep : HostFiles → Looked → List Out × Mount × Bool
    finish_sweep disk l =
        let pushed = in_turn works (push_calls l.push) in
        if not (l.done && pushed.1)
        then (l.outs ++ (if l.done then pushed.0 else []), l.mount, false)
        else let gone = gone_over disk l.mount.host_fp ([], l.mount) in
          (l.outs ++ (pushed.0 ++ gone.0), gone.1, true)

    abbrev pub paused : NoteKey → Mount → List Out × Mount × Bool
    paused key m = let (outs, m') = note_once key m in (outs, m', true)

    -- The sweep, once the disk was walked.
    unfoldable pub sweep_disk : HostFiles → Mount → List Out × Mount × Bool
    sweep_disk disk m =
        if ltb max_mount_files (length disk)
        then paused files m
        else if ltb max_mount_total_bytes (total_size disk)
        then paused total m
        else finish_sweep disk (
            look_over disk (record {
              outs = [];
              push = [];
              mount = record m { noted = forget_note total (forget_note files m.noted) };
              done = true;
            }))

    unfoldable pub host_sweep : Option HostFiles → Mount → List Out × Mount × Bool
    host_sweep none m = ([], m, false)
    host_sweep (some disk) m = sweep_disk disk m
