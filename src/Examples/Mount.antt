-- ===== src/Examples/Mount.antt =====
-- Concrete sweeps of a mounted folder (web/app/host-mount.ts), the bytes for their own hash.
use vinx.Prelude.{
  inl, ℕ, ◌≡◌, refl, Bool, true, false, Option, some, List, [], ◌∷◌, arith, text_eq, All,
}
use vinx.Prelude.Assoc.{text_key, lookup, insert}
use vinx.Prelude.Text.{codes}
use vinx.Mount.{
  File, new_mount, Out, note, ensure_dir, put_file, delete_data, host_folder, host_file, write_host,
}
use vinx.Share.Diff.{member_of}
use vinx.Mount.Scan.{HostFiles, GuestFiles}
use vinx.Mount.Host.{
  total_size, look_at, look_over, sweep_disk, folders_over, before_slash, make_folders, put_files,
  in_turn, gone_over,
}
use vinx.Mount.Guest.{guest_sweep}
use vinx.Mount.Carry.{carried}
use vinx.Mount.Sweep.{sweep_disk-carries}
use vinx.Mount.Written.{IsWriteBack, guest_sweep-IsWriteBack}
use vinx.Mount.Lost.{IsRemoval, failed_push_lost}

abbrev bytes_of : List ℕ → List ℕ
bytes_of b = b

abbrev letter : File
letter = record { size = 2; last_modified = 7; bytes = some (codes "hi") }

abbrev disk : HostFiles
disk = (codes "d/a", letter) ∷ []

abbrev takes_all : Out → Bool
takes_all c = true

sweep_disk-carries_example :
    lookup (codes "d/a") (carried (sweep_disk bytes_of takes_all disk new_mount).0 [])
    ≡ some (codes "hi")
unfolding lookup total_size sweep_disk look_over look_at insert in_turn folders_over before_slash
    make_folders put_files gone_over member_of text_eq
sweep_disk-carries_example =
    sweep_disk-carries bytes_of takes_all [] disk new_mount (refl, tt) (omega arith) (omega arith)
      (λ p h e. absurd (cc)) (λ p f b e still. absurd (cc)) (λ p f e b c read there. absurd (cc))
      refl (codes "d/a") (some (codes "hi"))
      (inl (letter, codes "hi", refl, omega arith, refl, refl))

abbrev known : GuestFiles
known = (codes "n", record { size = 2; time = 9 }) ∷ []

abbrev reads : List ℕ → Option (List ℕ)
reads path = some (codes "yo")

guest_sweep-IsWriteBack_example :
    All
      (IsWriteBack bytes_of reads known new_mount.synced)
      (guest_sweep bytes_of reads takes_all (some known) new_mount).0
guest_sweep-IsWriteBack_example =
    guest_sweep-IsWriteBack bytes_of reads takes_all known new_mount (unfold lookup in (refl, tt))

-- Two files, of which the machine does not take the second.
abbrev two_files : HostFiles
two_files = (codes "d/a", letter) ∷ (codes "b", letter) ∷ []

abbrev takes_first : Out → Bool
takes_first (put_file path bytes) = text_eq path (codes "d/a")
takes_first (note key) = true
takes_first (ensure_dir dir) = true
takes_first (delete_data path) = true
takes_first (host_folder dir) = true
takes_first (host_file path) = true
takes_first (write_host path bytes) = true

failed_push_lost_example :
    ((sweep_disk bytes_of takes_first two_files new_mount).2 ≡ false)
    × ((sweep_disk bytes_of takes_all two_files
          (sweep_disk bytes_of takes_first two_files new_mount).1).2
        ≡ true)
    × All
        (IsRemoval two_files)
        (sweep_disk bytes_of takes_all two_files
          (sweep_disk bytes_of takes_first two_files new_mount).1).0
unfolding lookup total_size look_over look_at insert in_turn folders_over before_slash make_folders
    put_files member_of text_eq
failed_push_lost_example =
    failed_push_lost bytes_of takes_first takes_all two_files new_mount (refl, (refl, tt))
      (omega arith) (omega arith) refl refl
