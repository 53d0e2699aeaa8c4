-- ===== src/Mount/Lost.antt =====
-- A push that fails (web/app/host-mount.ts, hostSweep).
use vinx.Prelude.{
  ℕ, ◌≤◌, ◌≡◌, refl, sym, ap, subst, ◌∙◌, Bool, true, false, not, ◌&&◌, Option, none, some, List,
  [], ◌∷◌, arith, ltb, if_true, if_false, if◌then◌else◌, length, Bool-cases, inl, inr, All,
  All-append, text_eq, text_eq_refl, text_eq_iff, ==_refl,
}
use vinx.Prelude.Assoc.{text_key, lookup, insert, has, Distinct, lookup-insert}
use vinx.Mount.{
  File, Fingerprint, Mount, Out, note, ensure_dir, put_file, delete_data, host_folder, host_file,
  write_host, big, file_fp, unmoved, same_hash, was_noted, note_once, max_mount_file_bytes,
  max_mount_files, max_mount_total_bytes,
}
use vinx.Mount.Scan.{HostFiles}
use vinx.Mount.Host.{
  Looked, total_size, look_big, look_moved, look_at, look_over, push_calls, gone_one, gone_over,
  in_turn, finish_sweep, sweep_disk,
}
use vinx.Mount.Looking.{look_over_stopped, apart}
use vinx.Mount.Sweep.{start_look, within_budget}

-- The file is taken not to have moved.
abbrev pub IsBelieved : List ℕ → File → Looked → Type 0
IsBelieved p f l = unmoved (lookup p l.mount.host_fp) (file_fp f) ≡ true

believed :
    (p : List ℕ) (f : File) (known : List (List ℕ × Fingerprint))
    → unmoved (lookup p (insert p (file_fp f) known)) (file_fp f) ≡ true
believed p f known =
    ap (λ o. unmoved o (file_fp f))
      (lookup-insert p p (file_fp f) known ∙ if_true _ _ _ (text_eq_refl p))
    ∙ rw (==_refl f.size, ==_refl f.last_modified) refl

-- A call that removes a file which is not on the disk.
abbrev pub IsRemoval : HostFiles → Out → Type 0
IsRemoval disk (note key) = ⊥
IsRemoval disk (ensure_dir dir) = ⊥
IsRemoval disk (put_file path bytes) = ⊥
IsRemoval disk (delete_data path) = has path disk ≡ false
IsRemoval disk (host_folder dir) = ⊥
IsRemoval disk (host_file path) = ⊥
IsRemoval disk (write_host path bytes) = ⊥

gone_over-IsRemoval :
    (disk : HostFiles) (known : List (List ℕ × Fingerprint)) (r : List Out × Mount)
    → All (IsRemoval disk) r.0
    → All (IsRemoval disk) (gone_over disk known r).0
unfolding gone_over
gone_over-IsRemoval disk [] r h = h
gone_over-IsRemoval disk ((path, fp) ∷ known) (outs, m) h =
    gone_over-IsRemoval disk known (gone_one disk path (outs, m))
      (elim (Bool-cases (has path disk)) [
        | inl there ↦ rw there h
        | inr left ↦ rw left (All-append (IsRemoval disk) outs _ h (left, tt))
      ])

module _ (hash : List ℕ → List ℕ) where
  big_fp :
      (p q : List ℕ) (f : File) (l : Looked)
      → lookup q (look_big hash p f l).mount.host_fp
        ≡ lookup q (insert p (file_fp f) l.mount.host_fp)
  unfolding note_once
  big_fp p q f l = elim (Bool-cases (was_noted (big p) l.mount.noted)) [
    | inl old ↦ rw old refl
    | inr new ↦ rw new refl
  ]

  moved_fp :
      (p q : List ℕ) (f : File) (o : Option (List ℕ)) (l : Looked)
      → (look_moved hash p f o l).done ≡ true
      → l.done ≡ true
      → lookup q (look_moved hash p f o l).mount.host_fp
        ≡ lookup q (insert p (file_fp f) l.mount.host_fp)
  moved_fp p q f none l e going = absurd (cc)
  moved_fp p q f (some bytes) l e going =
      elim (Bool-cases (same_hash (lookup p l.mount.synced) (hash bytes))) [
        | inl same ↦ rw same refl
        | inr new ↦ rw new refl
      ]

  -- A look that goes through believes the file, and leaves what is known of the others.
  look_at-IsBelieved :
      (p : List ℕ) (f : File) (l : Looked)
      → (look_at hash p f l).done ≡ true
      → l.done ≡ true
      → IsBelieved p f (look_at hash p f l)
        × ((q : List ℕ)
            → text_eq p q ≡ false
            → lookup q (look_at hash p f l).mount.host_fp ≡ lookup q l.mount.host_fp)
  unfolding look_at
  look_at-IsBelieved p f l = elim (Bool-cases (unmoved (lookup p l.mount.host_fp) (file_fp f))) [
    | inl still ↦ rw still (λ e going. (still, λ q ne. refl))
    | inr moved ↦ elim (Bool-cases (ltb max_mount_file_bytes f.size)) [
      | inl over ↦
          rw (moved, over)
            (λ e going. (
              ap (λ o. unmoved o (file_fp f)) (big_fp p p f l) ∙ believed p f l.mount.host_fp,
              λ q ne. big_fp p q f l ∙ lookup-insert p q _ _ ∙ if_false _ _ _ ne,
            ))
      | inr fits ↦
          rw (moved, fits)
            (λ e going. (
              ap (λ o. unmoved o (file_fp f)) (moved_fp p p f f.bytes l e going)
                  ∙ believed p f l.mount.host_fp,
              λ q ne. moved_fp p q f f.bytes l e going ∙ lookup-insert p q _ _ ∙ if_false _ _ _ ne,
            ))
    ]
  ]

  -- After a look at all files each is believed, and what is known of others stays.
  abbrev pub Believes : HostFiles → Looked → Looked → Type 0
  Believes rest l l' =
      ((p : List ℕ) (f : File) → lookup p rest ≡ some f → IsBelieved p f l')
      × ((q : List ℕ) → lookup q rest ≡ none → lookup q l'.mount.host_fp ≡ lookup q l.mount.host_fp)

  one_more :
      (path : List ℕ) (f : File) (rest : HostFiles) (l l1 l' : Looked)
      → lookup path rest ≡ none
      → IsBelieved path f l1
        × ((q : List ℕ)
            → text_eq path q ≡ false
            → lookup q l1.mount.host_fp ≡ lookup q l.mount.host_fp)
      → Believes rest l1 l'
      → Believes ((path, f) ∷ rest) l l'
  unfolding lookup
  one_more path f rest l l1 l' absent one all = (
    λ p f' e. elim (Bool-cases (text_eq path p)) [
      | inl same ↦
          let q : path ≡ p = (text_eq_iff path p).0 same in
          let ef : f ≡ f' = ground (arith) in
          subst (λ x. IsBelieved x f' l') q
            (subst (λ x. IsBelieved path x l') ef
              (ap (λ o. unmoved o (file_fp f)) (all.1 path absent) ∙ one.0))
      | inr other ↦ all.0 p f' (ground (arith))
    ],
    λ q e. elim (Bool-cases (text_eq path q)) [
      | inl same ↦ absurd (ground (arith))
      | inr other ↦ all.1 q (ground (arith)) ∙ one.1 q other
    ],
  )

  look_over-Believes :
      (rest : HostFiles) (l : Looked)
      → Distinct rest
      → l.done ≡ true
      → (look_over hash rest l).done ≡ true
      → Believes rest l (look_over hash rest l)
  unfolding look_over lookup
  look_over-Believes [] l d go done = (λ p f e. absurd (cc), λ q e. refl)
  look_over-Believes ((path, f) ∷ rest) l d go done =
      subst (Believes ((path, f) ∷ rest) l) (sym shape) (
        one_more path f rest l (look_at hash path f l) (look_over hash rest (look_at hash path f l))
          d.0 (look_at-IsBelieved path f l going go)
          (look_over-Believes rest (look_at hash path f l) d.1 going ended))
    where
      shape : look_over hash ((path, f) ∷ rest) l ≡ look_over hash rest (look_at hash path f l)
      shape = if_true l.done (look_over hash rest (look_at hash path f l)) l go

      ended : (look_over hash rest (look_at hash path f l)).done ≡ true
      ended = ap (λ (x : Looked). x.done) (sym shape) ∙ done

      going : (look_at hash path f l).done ≡ true
      going = elim (Bool-cases (look_at hash path f l).done) [
        | inl yes_it ↦ yes_it
        | inr stopped ↦
            ap (λ (x : Looked). x.done)
              (sym (look_over_stopped hash [] rest (look_at hash path f l) stopped))
            ∙ ended
      ]

  -- Where all files are believed, a look does nothing.
  look_over_idle :
      (rest : HostFiles) (l : Looked)
      → Distinct rest
      → ((p : List ℕ) (f : File) → lookup p rest ≡ some f → IsBelieved p f l)
      → look_over hash rest l ≡ l
  unfolding look_over look_at lookup
  look_over_idle [] l d b = refl
  look_over_idle ((path, f) ∷ rest) l d b =
      rw
        (
          if_true (unmoved (lookup path l.mount.host_fp) (file_fp f)) l _ (
              b path f
                (if_true (text_eq path path) (some f) (lookup path rest) (text_eq_refl path))),
          look_over_idle rest l d.1 (λ p f' e. b p f' (
              if_false (text_eq path p) (some f) (lookup p rest)
                (apart hash [] path p f' rest d.0 e)
              ∙ e)),
        )
        (same l.done)
    where
      same : (c : Bool) → (if c then l else l) ≡ l
      same true = refl
      same false = refl

  module _ (works works' : Out → Bool) (disk : HostFiles) (m : Mount) (d : Distinct disk)
      (few : length disk ≤ max_mount_files) (small : total_size disk ≤ max_mount_total_bytes) where
    abbrev pub first : Looked
    first = look_over hash disk (start_look m)

    first_sweep :
        first.done ≡ true
        → (in_turn works (push_calls first.push)).1 ≡ false
        → ((sweep_disk hash works disk m).1 ≡ first.mount)
          × ((sweep_disk hash works disk m).2 ≡ false)
    first_sweep done failed =
        let shape : finish_sweep hash works disk first ≡ _ =
          if_true (not (first.done && (in_turn works (push_calls first.push)).1)) _ _
            (ground (arith)) in
        let whole : sweep_disk hash works disk m ≡ _ =
          within_budget hash works disk m few small ∙ shape in
        (
          ap (λ (x : List Out × Mount × Bool). x.1) whole,
          ap (λ (x : List Out × Mount × Bool). x.2) whole,
        )

    second_look :
        first.done ≡ true → look_over hash disk (start_look first.mount) ≡ start_look first.mount
    second_look done =
        look_over_idle disk (start_look first.mount) d
          (look_over-Believes disk (start_look m) d refl done).0

    second_sweep :
        first.done ≡ true
        → ((sweep_disk hash works' disk first.mount).2 ≡ true)
          × All (IsRemoval disk) (sweep_disk hash works' disk first.mount).0
    unfolding in_turn
    second_sweep done =
        subst (λ (x : List Out × Mount × Bool). (x.2 ≡ true) × All (IsRemoval disk) x.0)
          (sym (
            within_budget hash works' disk first.mount few small
            ∙ ap (finish_sweep hash works' disk) (second_look done)))
          (
            refl,
            gone_over-IsRemoval disk first.mount.host_fp ([], (start_look first.mount).mount) tt,
          )

    -- A sweep has looked at all files of the disk and read those to be pushed, and then one call of its
    -- push fails: the sweep throws. The next sweep over the same disk goes through, whatever the machine
    -- then takes, and all its calls remove files that are not on the disk: it pushes nothing, so the files
    -- of the failed push that the machine did not get are not brought to it. The disk is within the
    -- budgets and lists no file twice.
    pub failed_push_lost :
        first.done ≡ true
        → (in_turn works (push_calls first.push)).1 ≡ false
        → ((sweep_disk hash works disk m).2 ≡ false)
          × ((sweep_disk hash works' disk (sweep_disk hash works disk m).1).2 ≡ true)
          × All (IsRemoval disk) (sweep_disk hash works' disk (sweep_disk hash works disk m).1).0
    failed_push_lost done failed =
        let one : ((sweep_disk hash works disk m).1 ≡ first.mount)
            × ((sweep_disk hash works disk m).2 ≡ false) =
          first_sweep done failed in
        let two : ((sweep_disk hash works' disk (sweep_disk hash works disk m).1).2 ≡ true)
            × All (IsRemoval disk)
                (sweep_disk hash works' disk (sweep_disk hash works disk m).1).0 =
          subst
            (λ n.
              ((sweep_disk hash works' disk n).2 ≡ true)
              × All (IsRemoval disk) (sweep_disk hash works' disk n).0)
            (sym one.0) (second_sweep done) in
        (one.1, two.0, two.1)
