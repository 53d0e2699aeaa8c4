-- ===== src/Broker/Runs.antt =====
-- Whatever the documents of an origin do, one at a time has a resource (web/app/origin-broker.ts).
use vinx.Prelude.{
  ℕ, ◌+◌, ◌-◌, ◌<◌, ◌≡◌, ap, Bool, true, false, Option, none, some, List, [], ◌∷◌, ==_iff, leb,
  arith, Bool-cases, Option-cases, inl, inr,
}
use vinx.Prelude.Assoc.{text_key, nat_eq, lookup, insert, erase}
use vinx.Broker.{
  Grip, long, call, Handle, Origin, new_origin, make_release, acquire_hold, hold_answered, drop_ref,
  release, start_call, end_call,
}
use vinx.Broker.Events.{
  Act, acquires, answers, releases, calls, ends, in_call, origin_step, origin_run,
}
use vinx.Broker.Exclusion.{
  IsExclusive, shared-IsExclusive, granted-IsExclusive, given_back-IsExclusive, called-IsExclusive,
  ended-IsExclusive,
}

in_call-call :
    (document : ℕ) (g : Option Grip) → in_call document g ≡ true → g ≡ some (call document)
in_call-call document none e = absurd (cc)
in_call-call document (some (long other)) e = absurd (cc)
in_call-call document (some (call other)) e = ap (λ d. some (call d)) ((==_iff other document).0 e)

-- Handles and announcements do not matter to who has what.
same-IsExclusive :
    (o : Origin) (hs : List (ℕ × Handle)) (ls : List (List ℕ × List ℕ))
    → IsExclusive o
    → IsExclusive (record o { handles = hs; holders = ls })
same-IsExclusive o hs ls h = record { backed = h.backed; used = h.used }

acquire_hold-IsExclusive :
    (hidden : Bool) (document : ℕ) (resource : List ℕ) (o : Origin)
    → IsExclusive o
    → IsExclusive (acquire_hold hidden document resource o).1
unfolding acquire_hold make_release
acquire_hold-IsExclusive true document resource o h = h
acquire_hold-IsExclusive false document resource o h =
    elim (Option-cases (lookup resource (o.holds document))) [
      | inl nothing ↦ rw nothing h
      | inr (refs, there) ↦ rw there (
          same-IsExclusive _ _ o.holders
            (shared-IsExclusive document refs (refs + 1) resource o h there (omega arith)))
    ]

hold_answered-IsExclusive :
    (label : List ℕ) (document : ℕ) (resource : List ℕ) (o : Origin)
    → IsExclusive o
    → IsExclusive (hold_answered label document resource o).1
unfolding hold_answered make_release
hold_answered-IsExclusive label document resource o h =
    elim (Option-cases (lookup resource o.locks)) [
      | inr (grip, taken) ↦ rw taken h
      | inl free ↦ rw free (
          same-IsExclusive _ _ (insert resource label o.holders)
            (granted-IsExclusive document resource o h free))
    ]

drop_ref-IsExclusive :
    (document : ℕ) (resource : List ℕ) (o : Origin)
    → IsExclusive o
    → IsExclusive (drop_ref (lookup resource (o.holds document)) document resource o)
drop_ref-IsExclusive document resource o h =
    elim (Option-cases (lookup resource (o.holds document))) [
      | inl nothing ↦ rw nothing h
      | inr (refs, there) ↦ rw there (elim (Bool-cases (leb refs 1)) [
        | inl last ↦ rw last (
            same-IsExclusive _ o.handles (erase resource o.holders)
              (given_back-IsExclusive document refs resource o h there))
        | inr more ↦
            rw more
              (shared-IsExclusive document refs (refs - 1) resource o h there (ground (arith)))
      ])
    ]

release-IsExclusive : (handle : ℕ) (o : Origin) → IsExclusive o → IsExclusive (release handle o)
unfolding release
release-IsExclusive handle o h = elim (Option-cases (lookup handle o.handles)) [
  | inl unknown ↦ rw unknown h
  | inr (record_of, there) ↦ rw there (elim (Bool-cases record_of.done) [
    | inl again ↦ rw again h
    | inr first ↦ rw first (
        drop_ref-IsExclusive record_of.owner record_of.resource _ (
          same-IsExclusive o (insert handle (record record_of { done = true }) o.handles) o.holders
            h))
  ])
]

start_call-IsExclusive :
    (hidden : Bool) (label : List ℕ) (document : ℕ) (resource : List ℕ) (o : Origin)
    → IsExclusive o
    → IsExclusive (start_call hidden label document resource o).1
unfolding start_call
start_call-IsExclusive true label document resource o h = h
start_call-IsExclusive false label document resource o h =
    elim (Option-cases (lookup resource o.locks)) [
      | inr (grip, taken) ↦ rw taken h
      | inl free ↦ rw free (
          same-IsExclusive _ o.handles (insert resource label o.holders)
            (called-IsExclusive document resource o h free))
    ]

pub origin_step-IsExclusive : (o : Origin) (a : Act) → IsExclusive o → IsExclusive (origin_step o a)
unfolding origin_step end_call
origin_step-IsExclusive o (acquires hidden document resource) h =
    acquire_hold-IsExclusive hidden document resource o h
origin_step-IsExclusive o (answers label document resource) h =
    hold_answered-IsExclusive label document resource o h
origin_step-IsExclusive o (releases handle) h = release-IsExclusive handle o h
origin_step-IsExclusive o (calls hidden label document resource) h =
    start_call-IsExclusive hidden label document resource o h
origin_step-IsExclusive o (ends document resource) h =
    elim (Bool-cases (in_call document (lookup resource o.locks))) [
      | inr other ↦ rw other h
      | inl its ↦ rw its (
          same-IsExclusive _ o.handles (erase resource o.holders) (
            ended-IsExclusive document resource o h
              (in_call-call document (lookup resource o.locks) its)))
    ]

pub origin_run-IsExclusive :
    (o : Origin) (acts : List Act) → IsExclusive o → IsExclusive (origin_run o acts)
unfolding origin_run
origin_run-IsExclusive o [] h = h
origin_run-IsExclusive o (a ∷ acts) h =
    origin_run-IsExclusive (origin_step o a) acts (origin_step-IsExclusive o a h)

pub empty-IsExclusive : IsExclusive new_origin
unfolding lookup
empty-IsExclusive = record {
  backed = λ document refs resource p. absurd (cc);
  used = λ document resource p. absurd (cc);
}

-- Whatever the documents of an origin do, in any order: two documents that both have references to a
-- resource are one, it has a reference at least and the lock, so no document's call runs on the
-- resource meanwhile.
pub origin_run_exclusive :
    (acts : List Act) (resource : List ℕ) (one other refs more : ℕ)
    → lookup resource ((origin_run new_origin acts).holds one) ≡ some refs
    → lookup resource ((origin_run new_origin acts).holds other) ≡ some more
    → (one ≡ other)
      × (0 < refs)
      × (lookup resource (origin_run new_origin acts).locks ≡ some (long one))
origin_run_exclusive acts resource one other refs more p q =
    let h : IsExclusive (origin_run new_origin acts) =
      origin_run-IsExclusive new_origin acts empty-IsExclusive in
    (
      same (h.backed one refs resource p).1 (h.backed other more resource q).1,
      (h.backed one refs resource p).0,
      (h.backed one refs resource p).1,
    )
  where
    same :
        lookup resource (origin_run new_origin acts).locks ≡ some (long one)
        → lookup resource (origin_run new_origin acts).locks ≡ some (long other)
        → one ≡ other
    same a b = ground (arith)
