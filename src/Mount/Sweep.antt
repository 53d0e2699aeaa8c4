-- ===== src/Mount/Sweep.antt =====
-- A sweep of the disk that goes through brings the machine's folder to it (web/app/host-mount.ts).
use vinx.Prelude.{
  ℕ, ◌≤◌, ◌≡◌, ◌⊎◌, refl, sym, ap, ◌∙◌, Bool, true, false, not, ◌&&◌, Option, none, some, List, [],
  ◌∷◌, ◌++◌, arith, ltb, le→ltb, if_true, if_false, if◌then◌else◌, length, Bool-cases, inl, inr,
}
use vinx.Prelude.Assoc.{text_key, lookup, has, Distinct}
use vinx.Mount.{
  File, Fingerprint, Mount, Out, NoteKey, files, total, big, file_fp, unmoved, same_hash, was_noted,
  note_once, forget_note, max_mount_file_bytes, max_mount_files, max_mount_total_bytes,
}
use vinx.Mount.Scan.{HostFiles}
use vinx.Mount.Host.{
  Looked, total_size, look_moved, look_at, look_over, put_files, push_calls, gone_over, in_turn,
  finish_sweep, sweep_disk,
}
use vinx.Mount.Carry.{
  Folder, carried, carried-append, carried-push_calls, in_turn_all, lookup-gone_over,
}
use vinx.Mount.Looking.{pushed, Backed, AfterAll, look_over-AfterAll, Held, AllTold}

-- What is noted carries nothing.
carried-note_once : (key : NoteKey) (m : Mount) (g : Folder) → carried (note_once key m).0 g ≡ g
unfolding note_once
carried-note_once key m g = elim (Bool-cases (was_noted key m.noted)) [
  | inl old ↦ rw old refl
  | inr new ↦ rw new refl
]

-- The looks of a sweep begin here.
abbrev pub start_look : Mount → Looked
start_look m = record {
  outs = [];
  push = [];
  mount = record m { noted = forget_note total (forget_note files m.noted) };
  done = true;
}

module _ (hash : List ℕ → List ℕ) where
  carried-look_moved :
      (path : List ℕ) (f : File) (o : Option (List ℕ)) (l : Looked) (g : Folder)
      → carried (look_moved hash path f o l).outs g ≡ carried l.outs g
  carried-look_moved path f none l g = refl
  carried-look_moved path f (some bytes) l g =
      elim (Bool-cases (same_hash (lookup path l.mount.synced) (hash bytes))) [
        | inl same ↦ rw same refl
        | inr new ↦ rw new refl
      ]

  carried-look_at :
      (path : List ℕ) (f : File) (l : Looked) (g : Folder)
      → carried (look_at hash path f l).outs g ≡ carried l.outs g
  unfolding look_at
  carried-look_at path f l g =
      elim (Bool-cases (unmoved (lookup path l.mount.host_fp) (file_fp f))) [
        | inl still ↦ rw still refl
        | inr moved ↦ elim (Bool-cases (ltb max_mount_file_bytes f.size)) [
          | inl over ↦
              rw (moved, over)
                (carried-append l.outs _ g ∙ carried-note_once (big path) _ (carried l.outs g))
          | inr fits ↦ rw (moved, fits) (carried-look_moved path f f.bytes l g)
        ]
      ]

  carried-look_over :
      (rest : HostFiles) (l : Looked) (g : Folder)
      → carried (look_over hash rest l).outs g ≡ carried l.outs g
  unfolding look_over
  carried-look_over [] l g = refl
  carried-look_over ((path, f) ∷ rest) l g =
      case (carried-look_over rest (look_at hash path f l) g) (Bool-cases l.done)
    where
      case :
          carried (look_over hash rest (look_at hash path f l)).outs g
            ≡ carried (look_at hash path f l).outs g
          → (l.done ≡ true) ⊎ (l.done ≡ false)
          → carried (if l.done then look_over hash rest (look_at hash path f l) else l).outs g
            ≡ carried l.outs g
      case ih (inl going) =
          ap (λ (x : Looked). carried x.outs g) (if_true l.done _ l going)
          ∙ ih
          ∙ carried-look_at path f l g
      case ih (inr ended) = ap (λ (x : Looked). carried x.outs g) (if_false l.done _ l ended)

  module _ (works : Out → Bool) where
    -- A sweep that goes through has looked at all files, and all its calls were made.
    abbrev pub looked : HostFiles → Mount → Looked
    looked disk m = look_over hash disk (start_look m)

    through :
        (disk : HostFiles) (l : Looked)
        → (finish_sweep hash works disk l).2 ≡ true
        → (l.done ≡ true) × ((in_turn works (push_calls l.push)).1 ≡ true)
    through disk l e = elim (Bool-cases (l.done && (in_turn works (push_calls l.push)).1)) [
      | inl both ↦ ground (arith)
      | inr failed ↦ absurd (ground (arith))
    ]

    finished :
        (disk : HostFiles) (l : Looked) (g : Folder)
        → l.done ≡ true
        → (in_turn works (push_calls l.push)).1 ≡ true
        → carried l.outs g ≡ g
        → carried (finish_sweep hash works disk l).0 g
          ≡ carried (gone_over disk l.mount.host_fp ([], l.mount)).0 (pushed l g)
    finished disk l g done all notes =
        ap (λ (x : List Out × Mount × Bool). carried x.0 g)
          (if_false (not (l.done && (in_turn works (push_calls l.push)).1)) _ _ (ground (arith)))
        ∙ carried-append l.outs
            ((in_turn works (push_calls l.push)).0
              ++ (gone_over disk l.mount.host_fp ([], l.mount)).0)
            g
        ∙ ap
            (carried (
              (in_turn works (push_calls l.push)).0
              ++ (gone_over disk l.mount.host_fp ([], l.mount)).0))
            notes
        ∙ carried-append (in_turn works (push_calls l.push)).0
            (gone_over disk l.mount.host_fp ([], l.mount)).0 g
        ∙ ap (carried (gone_over disk l.mount.host_fp ([], l.mount)).0) (
            ap (λ cs. carried cs g) (in_turn_all works (push_calls l.push) all)
            ∙ carried-push_calls l.push g)

    pub within_budget :
        (disk : HostFiles) (m : Mount)
        → length disk ≤ max_mount_files
        → total_size disk ≤ max_mount_total_bytes
        → sweep_disk hash works disk m ≡ finish_sweep hash works disk (looked disk m)
    unfolding sweep_disk
    within_budget disk m few small =
        if_false (ltb max_mount_files (length disk)) _ _ (le→ltb _ _ few)
        ∙ if_false (ltb max_mount_total_bytes (total_size disk)) _ _ (le→ltb _ _ small)

    -- What the machine is due under a path: the bytes of the disk's file, unless it is too big, and
    -- nothing where a file that the page knew of has left the disk.
    abbrev pub IsDue : HostFiles → Mount → List ℕ → Option (List ℕ) → Type 0
    IsDue disk m p o =
        ((f : File) × (b : List ℕ) × (lookup p disk ≡ some f)
          × (f.size ≤ max_mount_file_bytes)
          × (f.bytes ≡ some b)
          × (o ≡ some b))
        ⊎ ((fp : Fingerprint) × (lookup p disk ≡ none)
            × (lookup p m.host_fp ≡ some fp)
            × (o ≡ none))

    module _ (g : Folder) (disk : HostFiles) (m : Mount) (d : Distinct disk)
        (few : length disk ≤ max_mount_files) (small : total_size disk ≤ max_mount_total_bytes)
        (backed : Backed hash m.synced g) (held : Held hash g disk (start_look m))
        (told : AllTold hash g disk (start_look m))
        (ok : (sweep_disk hash works disk m).2 ≡ true) where
      sweep_through :
          ((looked disk m).done ≡ true)
          × ((in_turn works (push_calls (looked disk m).push)).1 ≡ true)
      sweep_through =
          through disk (looked disk m)
            (ap (λ (x : List Out × Mount × Bool). x.2) (sym (within_budget disk m few small)) ∙ ok)

      swept :
          carried (sweep_disk hash works disk m).0 g
          ≡ carried
              (gone_over disk (looked disk m).mount.host_fp ([], (looked disk m).mount)).0
              (pushed (looked disk m) g)
      swept =
          ap (λ (x : List Out × Mount × Bool). carried x.0 g) (within_budget disk m few small)
          ∙ finished disk (looked disk m) g sweep_through.0 sweep_through.1
              (carried-look_over disk (start_look m) g)

      all_looked : AfterAll hash g disk (start_look m) (looked disk m)
      unfolding put_files
      all_looked =
          look_over-AfterAll hash g disk (start_look m) d refl backed held told sweep_through.0

      -- Where the disk's files are within the budgets and none is listed twice; where the machine has,
      -- under each synced path, bytes of that hash, under the path of a file that did not move since
      -- the last look that file's bytes, and under no path other bytes of the same hash as the file's;
      -- a sweep that goes through leaves the machine with the bytes of each file of the disk that is
      -- not too big, and with no file that the page knew of and that has left the disk.
      pub sweep_disk-carries :
          (p : List ℕ) (o : Option (List ℕ))
          → IsDue disk m p o
          → lookup p (carried (sweep_disk hash works disk m).0 g) ≡ o
      sweep_disk-carries p o (inl (f, b, e, le, read, is_o)) =
          ap (lookup p) swept
          ∙ lookup-gone_over disk (looked disk m).mount.host_fp ([], (looked disk m).mount) p
              (pushed (looked disk m) g)
          ∙ if_true (has p disk) _ _ (ground (arith))
          ∙ all_looked.brought p f b e le read
          ∙ sym is_o
      sweep_disk-carries p o (inr (fp, e, known, is_o)) =
          let still : lookup p (looked disk m).mount.host_fp ≡ some fp =
            (all_looked.others p e).1 ∙ known in
          ap (lookup p) swept
          ∙ lookup-gone_over disk (looked disk m).mount.host_fp ([], (looked disk m).mount) p
              (pushed (looked disk m) g)
          ∙ if_false (has p disk) _ _ (ground (arith))
          ∙ if_true (has p (looked disk m).mount.host_fp) _ _ (ground (arith))
          ∙ sym is_o
