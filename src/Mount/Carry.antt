-- ===== src/Mount/Carry.antt =====
-- What calls make of the machine's folder, and what the page knows of it (web/app/host-mount.ts).
use vinx.Prelude.{
  ℕ, ◌≡◌, refl, ap, ◌∙◌, Bool, true, none, List, [], ◌∷◌, ◌++◌, arith, if◌then◌else◌, text_eq,
  text_eq_iff, Bool-cases, inl, inr,
}
use vinx.Prelude.Assoc.{text_key, lookup, insert, erase, has, lookup-erase}
use vinx.Mount.{
  Fingerprint, Mount, Out, note, ensure_dir, put_file, delete_data, host_folder, host_file,
  write_host,
}
use vinx.Mount.Scan.{HostFiles}
use vinx.Mount.Host.{
  make_folders, put_files, push_calls, folders_over, gone_one, gone_over, in_turn,
}

-- The files under `host`, by path, with their bytes.
abbrev pub Folder : Type 0
Folder = List (List ℕ × List ℕ)

abbrev pub carry : Out → Folder → Folder
carry (note key) g = g
carry (ensure_dir dir) g = g
carry (put_file path bytes) g = insert path bytes g
carry (delete_data path) g = erase path g
carry (host_folder dir) g = g
carry (host_file path) g = g
carry (write_host path bytes) g = g

abbrev pub carried : List Out → Folder → Folder
carried [] g = g
carried (c ∷ cs) g = carried cs (carry c g)

pub carried-append :
    (xs ys : List Out) (g : Folder) → carried (xs ++ ys) g ≡ carried ys (carried xs g)
carried-append [] ys g = refl
carried-append (x ∷ xs) ys g = carried-append xs ys (carry x g)

pub carried-make_folders : (dirs : List (List ℕ)) (g : Folder) → carried (make_folders dirs) g ≡ g
unfolding make_folders
carried-make_folders [] g = refl
carried-make_folders (d ∷ dirs) g = carried-make_folders dirs g

pub put_files-append :
    (xs ys : List (List ℕ × List ℕ)) → put_files (xs ++ ys) ≡ put_files xs ++ put_files ys
unfolding put_files
put_files-append [] ys = refl
put_files-append ((p, b) ∷ xs) ys = ap (◌∷◌ (put_file p b)) (put_files-append xs ys)

-- One more file pushed.
pub carried-push :
    (push : List (List ℕ × List ℕ)) (path bytes : List ℕ) (g : Folder)
    → carried (put_files (push ++ (path, bytes) ∷ [])) g
      ≡ insert path bytes (carried (put_files push) g)
unfolding put_files
carried-push [] path bytes g = refl
carried-push ((p, b) ∷ push) path bytes g = carried-push push path bytes (insert p b g)

pub carried-push_calls :
    (push : List (List ℕ × List ℕ)) (g : Folder)
    → carried (push_calls push) g ≡ carried (put_files push) g
unfolding put_files
carried-push_calls [] g = refl
carried-push_calls ((p, b) ∷ push) g =
    carried-append (make_folders (folders_over _ ((p, b) ∷ push))) (put_files ((p, b) ∷ push)) g
    ∙ ap (carried (put_files ((p, b) ∷ push)))
        (carried-make_folders (folders_over _ ((p, b) ∷ push)) g)

pub in_turn_all :
    (works : Out → Bool) (cs : List Out) → (in_turn works cs).1 ≡ true → (in_turn works cs).0 ≡ cs
unfolding in_turn
in_turn_all works [] e = refl
in_turn_all works (c ∷ cs) e = elim (Bool-cases (works c)) [
  | inl worked ↦ rw worked (ap (◌∷◌ c) (in_turn_all works cs (ground (arith))))
  | inr failed ↦ absurd (ground (arith))
]

lookup-gone_one :
    (disk : HostFiles) (path p : List ℕ) (r : List Out × Mount) (g : Folder)
    → lookup p (carried (gone_one disk path r).0 g) ≡ (
        if has path disk
        then lookup p (carried r.0 g)
        else if text_eq path p
        then none
        else lookup p (carried r.0 g))
lookup-gone_one disk path p (outs, m) g = elim (Bool-cases (has path disk)) [
  | inl stays ↦ rw stays refl
  | inr left ↦ rw left (
      ap (lookup p) (carried-append outs (delete_data path ∷ []) g)
      ∙ lookup-erase path p (carried outs g))
]

-- What left the disk is gone from the folder, and nothing else.
pub lookup-gone_over :
    (disk : HostFiles) (known : List (List ℕ × Fingerprint)) (r : List Out × Mount) (p : List ℕ)
    (g : Folder)
    → lookup p (carried (gone_over disk known r).0 g) ≡ (
        if has p disk
        then lookup p (carried r.0 g)
        else if has p known
        then none
        else lookup p (carried r.0 g))
unfolding gone_over lookup
lookup-gone_over disk [] r p g = elim (Bool-cases (has p disk)) [
  | inl there ↦ rw there refl
  | inr gone ↦ rw gone refl
]
lookup-gone_over disk ((path, fp) ∷ known) r p g = elim (Bool-cases (text_eq path p)) [
  | inl same ↦
      let e : has path disk ≡ has p disk = ap (λ q. has q disk) ((text_eq_iff path p).0 same) in
      lookup-gone_over disk known (gone_one disk path r) p g
      ∙ (ground (arith, lookup-gone_one disk path p r g))
  | inr other ↦
      lookup-gone_over disk known (gone_one disk path r) p g
      ∙ (ground (arith, lookup-gone_one disk path p r g))
]
