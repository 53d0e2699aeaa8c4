-- ===== src/Mount/Written.antt =====
-- What the mount writes to the person's disk (web/app/host-mount.ts).
use vinx.Prelude.{
  ℕ, ◌≤◌, ◌≡◌, refl, sym, ap, subst, ◌∙◌, Bool, true, false, not, ◌||◌, Option, none, some, List,
  [], ◌∷◌, ◌++◌, ◌==◌, ==_iff, append_assoc, arith, ltb, ltb→le, if_true, if_false, text_eq,
  text_eq_iff, text_eq_refl, Bool-cases, inl, inr, All, All-append,
}
use vinx.Prelude.Assoc.{text_key, lookup, Distinct, lookup-insert}
use vinx.Mount.{
  Fingerprint, Mount, Out, note, ensure_dir, put_file, delete_data, host_folder, host_file,
  write_host, big, unmoved, same_hash, was_noted, note_once, max_mount_file_bytes, mountable_path,
}
use vinx.Mount.Scan.{GuestFiles}
use vinx.Mount.Host.{in_turn}
use vinx.Mount.Guest.{
  folders_on, folder_calls, write_calls, back_read, take_back, take_over, guest_sweep,
}

-- Up to the call that fails.
in_turn-All :
    (P : Out → Type 0) (works : Out → Bool) (cs : List Out) → All P cs → All P (in_turn works cs).0
unfolding in_turn
in_turn-All P works [] h = tt
in_turn-All P works (c ∷ cs) h = elim (Bool-cases (works c)) [
  | inl worked ↦ rw worked (h.0, in_turn-All P works cs h.1)
  | inr failed ↦ rw failed tt
]

module _ (hash : List ℕ → List ℕ) (read_file : List ℕ → Option (List ℕ)) where
  -- A file of the machine that is written to the disk: a path that may be carried, at most 8 MB, and
  -- bytes that are read there and are not those synced last.
  abbrev pub IsWritten : GuestFiles → List (List ℕ × List ℕ) → List ℕ → List ℕ → Type 0
  IsWritten known synced path bytes =
      (mountable_path path ≡ true)
      × ((fp : Fingerprint) × (lookup path known ≡ some fp) × (fp.size ≤ max_mount_file_bytes))
      × (read_file path ≡ some bytes)
      × (same_hash (lookup path synced) (hash bytes) ≡ false)

  -- A note, or a call for such a file: its bytes written, itself made, or a folder on the way to it.
  abbrev pub IsWriteBack : GuestFiles → List (List ℕ × List ℕ) → Out → Type 0
  IsWriteBack known synced (note key) = Unit {0}
  IsWriteBack known synced (write_host path bytes) = IsWritten known synced path bytes
  IsWriteBack known synced (host_file path) = (bytes : List ℕ) × IsWritten known synced path bytes
  IsWriteBack known synced (host_folder dir) =
      (rest bytes : List ℕ) × IsWritten known synced (dir ++ b'/' ∷ rest) bytes
  IsWriteBack known synced (ensure_dir dir) = ⊥
  IsWriteBack known synced (put_file path bytes) = ⊥
  IsWriteBack known synced (delete_data path) = ⊥

  folder_calls-IsWriteBack :
      (known : GuestFiles) (synced : List (List ℕ × List ℕ)) (bytes front cs : List ℕ)
      → IsWritten known synced (front ++ cs) bytes
      → All (IsWriteBack known synced) (folder_calls (folders_on front cs))
  unfolding folder_calls folders_on
  folder_calls-IsWriteBack known synced bytes front [] w = tt
  folder_calls-IsWriteBack known synced bytes front (c ∷ cs) w =
      let further : All (IsWriteBack known synced)
          (folder_calls (folders_on (front ++ c ∷ []) cs)) =
        folder_calls-IsWriteBack known synced bytes (front ++ c ∷ []) cs
          (subst (λ p. IsWritten known synced p bytes) (sym (append_assoc front (c ∷ []) cs)) w) in
      elim (Bool-cases (c == b'/')) [
        | inl slash ↦ rw slash (
          (
            cs,
            bytes,
            subst (λ x. IsWritten known synced (front ++ x ∷ cs) bytes) ((==_iff c b'/').0 slash) w,
          ),
          further,
        )
        | inr plain ↦ rw plain further
      ]

  write_calls-IsWriteBack :
      (known : GuestFiles) (synced : List (List ℕ × List ℕ)) (path bytes : List ℕ)
      → IsWritten known synced path bytes
      → All (IsWriteBack known synced) (write_calls path bytes)
  write_calls-IsWriteBack known synced path bytes w =
      All-append (IsWriteBack known synced) (folder_calls (folders_on [] path)) _
        (folder_calls-IsWriteBack known synced bytes [] path w) ((bytes, w), (w, tt))

  noted-IsWriteBack :
      (known : GuestFiles) (synced : List (List ℕ × List ℕ)) (p : List ℕ) (m : Mount)
      → All (IsWriteBack known synced) (note_once (big p) m).0
  unfolding note_once
  noted-IsWriteBack known synced p m = elim (Bool-cases (was_noted (big p) m.noted)) [
    | inl old ↦ rw old tt
    | inr new ↦ rw new (tt, tt)
  ]

  module _ (disk_works : Out → Bool) where
    back_read-IsWriteBack :
        (known : GuestFiles) (synced : List (List ℕ × List ℕ)) (p : List ℕ) (o : Option (List ℕ))
        (m : Mount)
        → lookup p m.synced ≡ lookup p synced
        → read_file p ≡ o
        → mountable_path p ≡ true
        → (fp : Fingerprint) × (lookup p known ≡ some fp) × (fp.size ≤ max_mount_file_bytes)
        → All (IsWriteBack known synced) (back_read hash read_file disk_works p o m).0
    back_read-IsWriteBack known synced p none m last e ok there = tt
    back_read-IsWriteBack known synced p (some bytes) m last e ok there =
        elim (Bool-cases (same_hash (lookup p m.synced) (hash bytes))) [
          | inl echo ↦ rw echo tt
          | inr new ↦ rw new (
              in_turn-All (IsWriteBack known synced) disk_works (write_calls p bytes) (
                write_calls-IsWriteBack known synced p bytes
                  (ok, there, e, ap (λ o. same_hash o (hash bytes)) (sym last) ∙ new)))
        ]

    take_back-IsWriteBack :
        (known : GuestFiles) (synced : List (List ℕ × List ℕ)) (p : List ℕ) (fp : Fingerprint)
        (m : Mount)
        → lookup p m.synced ≡ lookup p synced
        → lookup p known ≡ some fp
        → All (IsWriteBack known synced) (take_back hash read_file disk_works p fp m).0
    unfolding take_back
    take_back-IsWriteBack known synced p fp m last there =
        elim (Bool-cases (not (mountable_path p) || unmoved (lookup p m.guest_fp) fp)) [
          | inl passed ↦ rw passed tt
          | inr taken ↦ elim (Bool-cases (ltb max_mount_file_bytes fp.size)) [
            | inl over ↦ rw (taken, over) (noted-IsWriteBack known synced p _)
            | inr fits ↦
                rw (taken, fits)
                  (back_read-IsWriteBack known synced p (read_file p) _ last refl (ground (arith))
                    (fp, there, ltb→le _ _ fits))
          ]
        ]

    back_read-synced :
        (p q : List ℕ) (o : Option (List ℕ)) (m : Mount)
        → text_eq p q ≡ false
        → lookup q (back_read hash read_file disk_works p o m).1.synced ≡ lookup q m.synced
    back_read-synced p q none m ne = refl
    back_read-synced p q (some bytes) m ne =
        elim (Bool-cases (same_hash (lookup p m.synced) (hash bytes))) [
          | inl echo ↦ rw echo refl
          | inr new ↦ elim (Bool-cases (in_turn disk_works (write_calls p bytes)).1) [
            | inl works ↦ rw (new, works) (lookup-insert p q (hash bytes) m.synced ∙ rw ne refl)
            | inr fails ↦ rw (new, fails) (lookup-insert p q (hash bytes) m.synced ∙ rw ne refl)
          ]
        ]

    -- Taking one file back leaves what is known of the others.
    take_back-synced :
        (p q : List ℕ) (fp : Fingerprint) (m : Mount)
        → text_eq p q ≡ false
        → lookup q (take_back hash read_file disk_works p fp m).1.synced ≡ lookup q m.synced
    unfolding take_back note_once
    take_back-synced p q fp m ne =
        elim (Bool-cases (not (mountable_path p) || unmoved (lookup p m.guest_fp) fp)) [
          | inl passed ↦ rw passed refl
          | inr taken ↦ elim (Bool-cases (ltb max_mount_file_bytes fp.size)) [
            | inl over ↦
                rw (taken, over)
                  (elim (Bool-cases (was_noted (big p) m.noted)) [
                    | inl old ↦ rw old refl
                    | inr new ↦ rw new refl
                  ])
            | inr fits ↦ rw (taken, fits) (back_read-synced p q (read_file p) _ ne)
          ]
        ]

    take_over-IsWriteBack :
        (known : GuestFiles) (synced : List (List ℕ × List ℕ)) (rest : GuestFiles) (m : Mount)
        → Distinct rest
        → ((q : List ℕ) (fp : Fingerprint)
            → lookup q rest ≡ some fp
            → (lookup q known ≡ some fp) × (lookup q m.synced ≡ lookup q synced))
        → All (IsWriteBack known synced) (take_over hash read_file disk_works rest m).0
    unfolding take_over lookup
    take_over-IsWriteBack known synced [] m d f = tt
    take_over-IsWriteBack known synced ((p, fp) ∷ rest) m d f =
        let here : (lookup p known ≡ some fp) × (lookup p m.synced ≡ lookup p synced) =
          f p fp (if_true (text_eq p p) (some fp) (lookup p rest) (text_eq_refl p)) in
        All-append (IsWriteBack known synced) (take_back hash read_file disk_works p fp m).0
          (take_over hash read_file disk_works rest
            (take_back hash read_file disk_works p fp m).1).0
          (take_back-IsWriteBack known synced p fp m here.1 here.0)
          (take_over-IsWriteBack known synced rest (take_back hash read_file disk_works p fp m).1
            d.1 (later d.0))
      where
        later :
            lookup p rest ≡ none
            → (q : List ℕ) (fq : Fingerprint) → lookup q rest ≡ some fq
            → (lookup q known ≡ some fq)
              × (lookup q (take_back hash read_file disk_works p fp m).1.synced ≡ lookup q synced)
        later absent q fq e = elim (Bool-cases (text_eq p q)) [
          | inl same ↦ absurd (ground (arith, ap (λ x. lookup x rest) ((text_eq_iff p q).0 same)))
          | inr other ↦
              let there : (lookup q known ≡ some fq) × (lookup q m.synced ≡ lookup q synced) =
                f q fq (if_false (text_eq p q) (some fp) (lookup q rest) other ∙ e) in
              (there.0, take_back-synced p q fp m other ∙ there.1)
        ]

    -- All that a sweep of the machine does on the disk, whichever of its calls fail, is to write files:
    -- each under a path that may be carried and that the machine has, of at most 8 MB there, the bytes
    -- that were read there, and only where they are not those synced last, so what the page itself
    -- pushed is not written back. For such a file it makes the folders on the way and the file itself,
    -- which may be all that is left where the write fails. Nothing is put into the machine or removed
    -- from it. The machine's listing names no file twice.
    pub guest_sweep-IsWriteBack :
        (known : GuestFiles) (m : Mount)
        → Distinct known
        → All (IsWriteBack known m.synced) (guest_sweep hash read_file disk_works (some known) m).0
    unfolding guest_sweep
    guest_sweep-IsWriteBack known m d =
        take_over-IsWriteBack known m.synced known m d (λ q fp e. (e, refl))
