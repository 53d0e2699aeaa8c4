-- ===== src/Broker/Exclusion.antt =====
-- One document at a time has a resource (web/app/origin-broker.ts).
use vinx.Prelude.{
  ℕ, ◌<◌, ◌≡◌, ◌⊎◌, refl, ◌∙◌, false, none, some, List, ◌==◌, ==_iff, arith, if◌then◌else◌, text_eq,
  text_eq_iff, Bool-cases, inl, inr,
}
use vinx.Prelude.Assoc.{text_key, nat_eq, lookup, insert, erase, lookup-insert, lookup-erase}
use vinx.Broker.{with_holds, long, call, Origin}

-- Every document that has references to a resource has its lock, and every lock that is held for a
-- document's references has one.
pub record IsExclusive (o : Origin) : Type 0 where
  pub backed :
      (document refs : ℕ) (resource : List ℕ)
      → lookup resource (o.holds document) ≡ some refs
      → (0 < refs) × (lookup resource o.locks ≡ some (long document))
  pub used :
      (document : ℕ) (resource : List ℕ)
      → lookup resource o.locks ≡ some (long document)
      → (refs : ℕ) × (lookup resource (o.holds document) ≡ some refs)

pub lookup-with_holds :
    (document other : ℕ) (resource : List ℕ) (held old : List (List ℕ × ℕ))
    → lookup resource (if other == document then held else old)
      ≡ (if other == document then lookup resource held else lookup resource old)
lookup-with_holds document other resource held old = elim (Bool-cases (other == document)) [
  | inl same ↦ rw same refl
  | inr apart ↦ rw apart refl
]

-- The references of one document to one resource are written anew.
module _ (document : ℕ) (resource : List ℕ) (o : Origin) (h : IsExclusive o)
    (held : List (List ℕ × ℕ))
    (off : (r : List ℕ)
      → text_eq resource r ≡ false
      → lookup r held ≡ lookup r (o.holds document)) where
  after : ℕ → List (List ℕ × ℕ)
  after other = if other == document then held else o.holds other

  -- What stands elsewhere stays.
  kept_refs :
      (other : ℕ) (r : List ℕ)
      → (text_eq resource r ≡ false) ⊎ ((other == document) ≡ false)
      → lookup r (after other) ≡ lookup r (o.holds other)
  unfolding after
  kept_refs other r o' =
      ground (
        arith,
        ==_iff other document,
        lookup-with_holds document other r held (o.holds other),
        off r,
      )

  kept_used :
      (other : ℕ) (r : List ℕ)
      → (text_eq resource r ≡ false) ⊎ ((other == document) ≡ false)
      → lookup r o.locks ≡ some (long other)
      → (refs : ℕ) × (lookup r (after other) ≡ some refs)
  kept_used other r apart p = ((h.used other r p).0, kept_refs other r apart ∙ (h.used other r p).1)

  here_refs : lookup resource (after document) ≡ lookup resource held
  unfolding after
  here_refs = ground (
    arith,
    ==_iff document document,
    lookup-with_holds document document resource held (o.holds document),
  )

-- One more reference, or one less that is not the last.
pub shared-IsExclusive :
    (document refs more : ℕ) (resource : List ℕ) (o : Origin)
    → IsExclusive o
    → lookup resource (o.holds document) ≡ some refs
    → 0 < more
    → IsExclusive (with_holds document (insert resource more (o.holds document)) o)
unfolding after
shared-IsExclusive document refs more resource o h there pos = record {
  backed = λ other n r p. ground (
    arith,
    ==_iff other document,
    text_eq_iff resource r,
    lookup-with_holds document other r (insert resource more (o.holds document)) (o.holds other),
    lookup-insert resource r more (o.holds document),
    h.backed other n r,
    h.backed document refs resource there,
  );
  used = λ other r p. elim (Bool-cases (other == document)) [
    | inr apart ↦
        kept_used document resource o h (insert resource more (o.holds document)) off other r
          (inr apart) p
    | inl same ↦ elim (Bool-cases (text_eq resource r)) [
      | inr there' ↦
          kept_used document resource o h (insert resource more (o.holds document)) off other r
            (inl there') p
      | inl here ↦ (
        more,
        ground (
          arith,
          ==_iff other document,
          text_eq_iff resource r,
          lookup-with_holds document other r (insert resource more (o.holds document))
              (o.holds other),
          lookup-insert resource r more (o.holds document),
        ),
      )
    ]
  ];
}
  where
    off :
        (r : List ℕ)
        → text_eq resource r ≡ false
        → lookup r (insert resource more (o.holds document)) ≡ lookup r (o.holds document)
    off r ne = lookup-insert resource r more (o.holds document) ∙ rw ne refl

-- The first reference, with the lock.
pub granted-IsExclusive :
    (document : ℕ) (resource : List ℕ) (o : Origin)
    → IsExclusive o
    → lookup resource o.locks ≡ none
    → IsExclusive (
        with_holds document
          (insert resource 1 (o.holds document))
          (record o { locks = insert resource (long document) o.locks }))
unfolding after
granted-IsExclusive document resource o h free = record {
  backed = λ other n r p. ground (
    arith,
    ==_iff other document,
    text_eq_iff resource r,
    lookup-with_holds document other r (insert resource 1 (o.holds document)) (o.holds other),
    lookup-insert resource r 1 (o.holds document),
    lookup-insert resource r (long document) o.locks,
    h.backed other n r,
  );
  used = λ other r p. elim (Bool-cases (text_eq resource r)) [
    | inr apart ↦
        kept_used document resource o h (insert resource 1 (o.holds document)) off other r
          (inl apart) (ground (arith, lookup-insert resource r (long document) o.locks))
    | inl here ↦ (
      1,
      ground (
        arith,
        ==_iff other document,
        text_eq_iff resource r,
        lookup-with_holds document other r (insert resource 1 (o.holds document)) (o.holds other),
        lookup-insert resource r 1 (o.holds document),
        lookup-insert resource r (long document) o.locks,
      ),
    )
  ];
}
  where
    off :
        (r : List ℕ)
        → text_eq resource r ≡ false
        → lookup r (insert resource 1 (o.holds document)) ≡ lookup r (o.holds document)
    off r ne = lookup-insert resource r 1 (o.holds document) ∙ rw ne refl

-- The last reference gone, and the lock with it.
pub given_back-IsExclusive :
    (document refs : ℕ) (resource : List ℕ) (o : Origin)
    → IsExclusive o
    → lookup resource (o.holds document) ≡ some refs
    → IsExclusive (
        with_holds document
          (erase resource (o.holds document))
          (record o { locks = erase resource o.locks }))
unfolding after
given_back-IsExclusive document refs resource o h there = record {
  backed = λ other n r p. ground (
    arith,
    ==_iff other document,
    text_eq_iff resource r,
    lookup-with_holds document other r (erase resource (o.holds document)) (o.holds other),
    lookup-erase resource r (o.holds document),
    lookup-erase resource r o.locks,
    h.backed other n r,
    h.backed document refs resource there,
  );
  used = λ other r p. elim (Bool-cases (text_eq resource r)) [
    | inr apart ↦
        kept_used document resource o h (erase resource (o.holds document)) off other r (inl apart)
          (ground (arith, lookup-erase resource r o.locks))
    | inl here ↦ absurd (ground (arith, lookup-erase resource r o.locks))
  ];
}
  where
    off :
        (r : List ℕ)
        → text_eq resource r ≡ false
        → lookup r (erase resource (o.holds document)) ≡ lookup r (o.holds document)
    off r ne = lookup-erase resource r (o.holds document) ∙ rw ne refl

-- A call takes a lock that is free, and ends with its own.
pub called-IsExclusive :
    (document : ℕ) (resource : List ℕ) (o : Origin)
    → IsExclusive o
    → lookup resource o.locks ≡ none
    → IsExclusive (record o { locks = insert resource (call document) o.locks })
called-IsExclusive document resource o h free = record {
  backed = λ other n r p. ground (
    arith,
    text_eq_iff resource r,
    lookup-insert resource r (call document) o.locks,
    h.backed other n r p,
  );
  used = λ other r p.
      h.used other r (ground (arith, lookup-insert resource r (call document) o.locks));
}

pub ended-IsExclusive :
    (document : ℕ) (resource : List ℕ) (o : Origin)
    → IsExclusive o
    → lookup resource o.locks ≡ some (call document)
    → IsExclusive (record o { locks = erase resource o.locks })
ended-IsExclusive document resource o h its = record {
  backed = λ other n r p.
      ground (arith, text_eq_iff resource r, lookup-erase resource r o.locks, h.backed other n r p);
  used = λ other r p. h.used other r (ground (arith, lookup-erase resource r o.locks));
}
