-- ===== src/Mount/Looking.antt =====
-- The look at the files of the disk (web/app/host-mount.ts): once its pushes are carried out, the
-- machine has the bytes of each file that was looked at.
use vinx.Prelude.{
  ℕ, ◌≤◌, ◌<◌, ◌≡◌, refl, sym, ap, subst, ◌∙◌, true, false, Option, none, some, List, [], ◌∷◌, ◌++◌,
  arith, ltb, ltb→lt, if_true, if_false, text_eq, text_eq_iff, text_eq_refl, Bool-cases,
  Option-cases, inl, inr,
}
use vinx.Prelude.Assoc.{text_key, lookup, insert, Distinct, lookup-insert}
use vinx.Mount.{File, big, file_fp, unmoved, same_hash, was_noted, note_once, max_mount_file_bytes}
use vinx.Mount.Scan.{HostFiles}
use vinx.Mount.Host.{Looked, look_moved, look_big, look_at, look_over, put_files}
use vinx.Mount.Carry.{Folder, carried, carried-push}

-- The folder, the pushes so far carried out.
abbrev pub pushed : Looked → Folder → Folder
pushed l g = carried (put_files l.push) g

module _ (hash : List ℕ → List ℕ) where
  -- The folder has, under each path that was synced, bytes of that hash.
  abbrev pub Backed : List (List ℕ × List ℕ) → Folder → Type 0
  Backed synced g =
      (p h : List ℕ)
      → lookup p synced ≡ some h
      → (b : List ℕ) × (lookup p g ≡ some b) × (hash b ≡ h)

  module _ (g : Folder) where
    -- The machine has under this path no other bytes of the same hash as this file's.
    abbrev pub IsTold : List ℕ → File → Looked → Type 0
    IsTold path f l =
        (b c : List ℕ)
        → f.bytes ≡ some b
        → lookup path (pushed l g) ≡ some c
        → hash c ≡ hash b
        → c ≡ b

    pub record AfterLook (path : List ℕ) (f : File) (l l' : Looked) : Type 0 where
      pub backed : Backed l'.mount.synced (pushed l' g)
      pub brought :
          (b : List ℕ)
          → f.size ≤ max_mount_file_bytes
          → f.bytes ≡ some b
          → lookup path (pushed l' g) ≡ some b
      pub others :
          (p : List ℕ)
          → text_eq path p ≡ false
          → (lookup p (pushed l' g) ≡ lookup p (pushed l g))
            × (lookup p l'.mount.host_fp ≡ lookup p l.mount.host_fp)

    big_looked :
        (path : List ℕ) (f : File) (l : Looked)
        → Backed l.mount.synced (pushed l g)
        → max_mount_file_bytes < f.size
        → AfterLook path f l (look_big hash path f l)
    unfolding note_once
    big_looked path f l h over = elim (Bool-cases (was_noted (big path) l.mount.noted)) [
      | inl before ↦ rw before (record {
        backed = h;
        brought = λ b le e. absurd (omega arith);
        others = λ p ne. (refl, lookup-insert path p (file_fp f) l.mount.host_fp ∙ rw ne refl);
      })
      | inr new ↦ rw new (record {
        backed = h;
        brought = λ b le e. absurd (omega arith);
        others = λ p ne. (refl, lookup-insert path p (file_fp f) l.mount.host_fp ∙ rw ne refl);
      })
    ]

    -- The bytes are those that were synced last: an echo.
    echo_looked :
        (path : List ℕ) (f : File) (bytes : List ℕ) (l : Looked)
        → Backed l.mount.synced (pushed l g)
        → f.bytes ≡ some bytes
        → same_hash (lookup path l.mount.synced) (hash bytes) ≡ true
        → IsTold path f l
        → AfterLook path f l (record l {
          mount = record l.mount { host_fp = insert path (file_fp f) l.mount.host_fp };
        })
    echo_looked path f bytes l h read same told = record {
      backed = h;
      brought = λ b le e. elim (Option-cases (lookup path l.mount.synced)) [
        | inl nothing ↦ absurd (ground (arith))
        | inr (k, synced) ↦
            let old : (c : List ℕ) × (lookup path (pushed l g) ≡ some c) × (hash c ≡ k) =
              h path k synced in
            let e1 : k ≡ hash bytes = ground (arith, text_eq_iff k (hash bytes)) in
            let e2 : old.0 ≡ bytes = told bytes old.0 read old.1 (old.2 ∙ e1) in
            let e3 : bytes ≡ b = ground (arith) in old.1 ∙ ap some (e2 ∙ e3)
      ];
      others = λ p ne. (refl, lookup-insert path p (file_fp f) l.mount.host_fp ∙ rw ne refl);
    }

    new_looked :
        (path : List ℕ) (f : File) (bytes : List ℕ) (l : Looked)
        → Backed l.mount.synced (pushed l g)
        → f.bytes ≡ some bytes
        → AfterLook path f l (record l {
          push = l.push ++ (path, bytes) ∷ [];
          mount = record l.mount {
            host_fp = insert path (file_fp f) l.mount.host_fp;
            synced = insert path (hash bytes) l.mount.synced;
          };
        })
    new_looked path f bytes l h read = record {
      backed = λ p k e. rw (carried-push l.push path bytes g) (elim (Bool-cases (text_eq path p)) [
        | inl here ↦ (
          bytes,
          lookup-insert path p bytes (pushed l g) ∙ rw here refl,
          ground (arith, lookup-insert path p (hash bytes) l.mount.synced),
        )
        | inr there ↦
            let old : (c : List ℕ) × (lookup p (pushed l g) ≡ some c) × (hash c ≡ k) =
              h p k (ground (arith, lookup-insert path p (hash bytes) l.mount.synced)) in
            (old.0, lookup-insert path p bytes (pushed l g) ∙ rw there old.1, old.2)
      ]);
      brought = λ b le e.
          rw (carried-push l.push path bytes g)
            (lookup-insert path path bytes (pushed l g) ∙ rw (text_eq_refl path) (ground (arith)));
      others = λ p ne. (
        ap (lookup p) (carried-push l.push path bytes g)
            ∙ lookup-insert path p bytes (pushed l g)
            ∙ rw ne refl,
        lookup-insert path p (file_fp f) l.mount.host_fp ∙ rw ne refl,
      );
    }

    moved_looked :
        (path : List ℕ) (f : File) (o : Option (List ℕ)) (l : Looked)
        → Backed l.mount.synced (pushed l g)
        → f.bytes ≡ o
        → IsTold path f l
        → (look_moved hash path f o l).done ≡ true
        → AfterLook path f l (look_moved hash path f o l)
    moved_looked path f none l h read told done = absurd (cc)
    moved_looked path f (some bytes) l h read told done =
        elim (Bool-cases (same_hash (lookup path l.mount.synced) (hash bytes))) [
          | inl same ↦ rw same (echo_looked path f bytes l h read same told)
          | inr new ↦ rw new (new_looked path f bytes l h read)
        ]

    look_at-AfterLook :
        (path : List ℕ) (f : File) (l : Looked)
        → Backed l.mount.synced (pushed l g)
        → (unmoved (lookup path l.mount.host_fp) (file_fp f) ≡ true
            → (b : List ℕ) → f.size ≤ max_mount_file_bytes
            → f.bytes ≡ some b
            → lookup path (pushed l g) ≡ some b)
        → IsTold path f l
        → (look_at hash path f l).done ≡ true
        → AfterLook path f l (look_at hash path f l)
    unfolding look_at
    look_at-AfterLook path f l h kept told done =
        elim (Bool-cases (unmoved (lookup path l.mount.host_fp) (file_fp f))) [
          | inl still ↦
              rw still (record { backed = h; brought = kept still; others = λ p ne. (refl, refl) })
          | inr moved ↦ elim (Bool-cases (ltb max_mount_file_bytes f.size)) [
            | inl over ↦ rw (moved, over) (big_looked path f l h (ltb→lt _ _ over))
            | inr fits ↦
                rw (moved, fits)
                  (moved_looked path f f.bytes l h refl told (rw (moved, fits) at done))
          ]
        ]

    -- All files looked at, one after another.
    pub record AfterAll (rest : HostFiles) (l l' : Looked) : Type 0 where
      pub backed : Backed l'.mount.synced (pushed l' g)
      pub brought :
          (p : List ℕ) (f : File) (b : List ℕ)
          → lookup p rest ≡ some f
          → f.size ≤ max_mount_file_bytes
          → f.bytes ≡ some b
          → lookup p (pushed l' g) ≡ some b
      pub others :
          (p : List ℕ)
          → lookup p rest ≡ none
          → (lookup p (pushed l' g) ≡ lookup p (pushed l g))
            × (lookup p l'.mount.host_fp ≡ lookup p l.mount.host_fp)

    -- What is not looked at again has its bytes.
    abbrev pub Held : HostFiles → Looked → Type 0
    Held rest l =
        (p : List ℕ) (f : File) (b : List ℕ)
        → lookup p rest ≡ some f
        → unmoved (lookup p l.mount.host_fp) (file_fp f) ≡ true
        → f.size ≤ max_mount_file_bytes
        → f.bytes ≡ some b
        → lookup p (pushed l g) ≡ some b

    -- What the machine has is told from what the disk has by its hash.
    abbrev pub AllTold : HostFiles → Looked → Type 0
    AllTold rest l = (p : List ℕ) (f : File) → lookup p rest ≡ some f → IsTold p f l

    pub look_over_stopped :
        (rest : HostFiles) (l : Looked) → l.done ≡ false → look_over hash rest l ≡ l
    unfolding look_over
    look_over_stopped [] l e = refl
    look_over_stopped ((path, f) ∷ rest) l e = if_false l.done _ l e

    pub apart :
        (path p : List ℕ) (f : File) (rest : HostFiles)
        → lookup path rest ≡ none
        → lookup p rest ≡ some f
        → text_eq path p ≡ false
    apart path p f rest absent there = elim (Bool-cases (text_eq path p)) [
      | inr ne ↦ ne
      | inl same ↦ absurd (
          clash
            (sym (subst (λ q. lookup q rest ≡ none) ((text_eq_iff path p).0 same) absent) ∙ there))
    ]
      where
        clash : none ≡ some f → ⊥
        clash e = cc

    after_one :
        (path : List ℕ) (f : File) (rest : HostFiles) (l : Looked)
        → lookup path rest ≡ none
        → AfterLook path f l (look_at hash path f l)
        → AfterAll rest (look_at hash path f l) (look_over hash rest (look_at hash path f l))
        → AfterAll ((path, f) ∷ rest) l (look_over hash rest (look_at hash path f l))
    unfolding lookup
    after_one path f rest l absent one all = record {
      backed = all.backed;
      brought = λ p f' b e le read. elim (Bool-cases (text_eq path p)) [
        | inl same ↦
            let q : path ≡ p = (text_eq_iff path p).0 same in
            let ef : f ≡ f' = ground (arith) in
            (all.others p (subst (λ x. lookup x rest ≡ none) q absent)).0
            ∙ subst (λ x. lookup x (pushed (look_at hash path f l) g) ≡ some b) q
                (one.brought b (rw ef le) (rw ef read))
        | inr other ↦ all.brought p f' b (ground (arith)) le read
      ];
      others = λ p e. elim (Bool-cases (text_eq path p)) [
        | inl same ↦ absurd (ground (arith))
        | inr other ↦
            let there : lookup p rest ≡ none = ground (arith) in
            (
              (all.others p there).0 ∙ (one.others p other).0,
              (all.others p there).1 ∙ (one.others p other).1,
            )
      ];
    }

    pub look_over-AfterAll :
        (rest : HostFiles) (l : Looked)
        → Distinct rest
        → l.done ≡ true
        → Backed l.mount.synced (pushed l g)
        → Held rest l
        → AllTold rest l
        → (look_over hash rest l).done ≡ true
        → AfterAll rest l (look_over hash rest l)
    unfolding look_over lookup
    look_over-AfterAll [] l d go h k told done = record {
      backed = h;
      brought = λ p f b e. absurd (cc);
      others = λ p e. (refl, refl);
    }
    look_over-AfterAll ((path, f) ∷ rest) l d go h k told done =
        subst (AfterAll ((path, f) ∷ rest) l) (sym shape) (
          after_one path f rest l d.0 one (
            look_over-AfterAll rest (look_at hash path f l) d.1 going one.backed later still_told
              ended))
      where
        shape : look_over hash ((path, f) ∷ rest) l ≡ look_over hash rest (look_at hash path f l)
        shape = if_true l.done (look_over hash rest (look_at hash path f l)) l go

        ended : (look_over hash rest (look_at hash path f l)).done ≡ true
        ended = ap (λ (x : Looked). x.done) (sym shape) ∙ done

        going : (look_at hash path f l).done ≡ true
        going = elim (Bool-cases (look_at hash path f l).done) [
          | inl yes_it ↦ yes_it
          | inr stopped ↦
              ap (λ (x : Looked). x.done)
                (sym (look_over_stopped rest (look_at hash path f l) stopped))
              ∙ ended
        ]

        one : AfterLook path f l (look_at hash path f l)
        one =
            look_at-AfterLook path f l h
              (λ still b le e. k path f b (rw (text_eq_refl path) refl) still le e)
              (told path f (rw (text_eq_refl path) refl)) going

        still_told : AllTold rest (look_at hash path f l)
        still_told p f' e b c read there =
            let ne : text_eq path p ≡ false = apart path p f' rest d.0 e in
            told p f' (if_false (text_eq path p) (some f) (lookup p rest) ne ∙ e) b c read
              (sym (one.others p ne).0 ∙ there)

        later : Held rest (look_at hash path f l)
        later p f' b e still le read =
            let ne : text_eq path p ≡ false = apart path p f' rest d.0 e in
            (one.others p ne).0
            ∙ k p f' b (if_false (text_eq path p) (some f) (lookup p rest) ne ∙ e)
                (ap (λ o. unmoved o (file_fp f')) (sym (one.others p ne).1) ∙ still) le read
