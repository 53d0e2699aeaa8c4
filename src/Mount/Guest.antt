-- ===== src/Mount/Guest.antt =====
-- guestSweep of web/app/host-mount.ts: from the machine to the disk, and the loop of both sweeps.
-- `read_file` is the machine's, and `disk_works` tells the calls on the disk that succeed.
use vinx.Prelude.{
  ℕ, ◌+◌, ◌-◌, ◌%◌, Bool, not, ◌&&◌, ◌||◌, Option, none, some, List, [], ◌∷◌, ◌++◌, ltb, ◌==◌,
  if◌then◌else◌,
}
use vinx.Prelude.Assoc.{text_key, lookup, insert, erase, has}
use vinx.Mount.{
  Fingerprint, Mount, Out, host_folder, host_file, write_host, big, unmoved, same_hash, note_once,
  max_mount_file_bytes, mountable_path, guest_every,
}
use vinx.Mount.Scan.{HostFiles, GuestFiles}
use vinx.Mount.Host.{in_turn, host_sweep}

-- The fingerprints of files that the machine still has.
unfoldable pub keep_seen : GuestFiles → List (List ℕ × Fingerprint) → List (List ℕ × Fingerprint)
keep_seen known [] = []
keep_seen known ((path, fp) ∷ rest) =
    let more = keep_seen known rest in
    if mountable_path path && has path known then (path, fp) ∷ more else more

-- `writeHost`: each folder on the way and then the file is got or made, and its bytes are written.
unfoldable pub folders_on : List ℕ → List ℕ → List (List ℕ)
folders_on front [] = []
folders_on front (c ∷ cs) =
    let further = folders_on (front ++ c ∷ []) cs in if c == b'/' then front ∷ further else further

unfoldable pub folder_calls : List (List ℕ) → List Out
folder_calls [] = []
folder_calls (dir ∷ dirs) = host_folder dir ∷ folder_calls dirs

abbrev pub write_calls : List ℕ → List ℕ → List Out
write_calls path bytes =
    folder_calls (folders_on [] path) ++ host_file path ∷ write_host path bytes ∷ []

module _ (hash : List ℕ → List ℕ) (read_file : List ℕ → Option (List ℕ))
    (disk_works : Out → Bool) where
  -- Bytes that were read: an echo of the page's own push, or to be written to the disk.
  abbrev pub write_back : List ℕ → List ℕ → Mount → List Out × Mount
  write_back path bytes m =
      if same_hash (lookup path m.synced) (hash bytes)
      then ([], m)
      else let m' = record m { synced = insert path (hash bytes) m.synced } in
        let (outs, done) = in_turn disk_works (write_calls path bytes) in
        (outs, if done then record m' { host_fp = erase path m'.host_fp } else m')

  -- A failure to read is caught, and so is one to write: the calls before it have been made.
  abbrev pub back_read : List ℕ → Option (List ℕ) → Mount → List Out × Mount
  back_read path none m = ([], m)
  back_read path (some bytes) m = write_back path bytes m

  unfoldable pub take_back : List ℕ → Fingerprint → Mount → List Out × Mount
  take_back path fp m =
      if not (mountable_path path) || unmoved (lookup path m.guest_fp) fp
      then ([], m)
      else let m' = record m { guest_fp = insert path fp m.guest_fp } in
        if ltb max_mount_file_bytes fp.size
        then note_once (big path) m'
        else back_read path (read_file path) m'

  unfoldable pub take_over : GuestFiles → Mount → List Out × Mount
  take_over [] m = ([], m)
  take_over ((path, fp) ∷ rest) m =
      let (outs, m') = take_back path fp m in
      let (more, m'') = take_over rest m' in (outs ++ more, m'')

  unfoldable pub guest_sweep : Option GuestFiles → Mount → List Out × Mount
  guest_sweep none m = ([], m)
  guest_sweep (some known) m =
      let (outs, m') = take_over known m in
      (outs, record m' { guest_fp = keep_seen known m'.guest_fp })

  -- One turn of the loop. A sweep of the disk that throws ends it before the machine's.
  abbrev pub maybe_guest : Bool → Option GuestFiles → Mount → List Out × Mount
  maybe_guest done known m =
      if done && (m.round % guest_every == guest_every - 1) then guest_sweep known m else ([], m)

  unfoldable pub mount_round :
      (Out → Bool) → Option HostFiles → Option GuestFiles → Mount → List Out × Mount
  mount_round works disk known m =
      let (outs, m', done) = host_sweep hash works disk m in
      let (more, m'') = maybe_guest done known m' in
      (outs ++ more, record m'' { round = m''.round + 1 })
