-- ===== src/Broker/Counted.antt =====
-- References are handles that were not called yet (web/app/origin-broker.ts).
use vinx.Prelude.{
  ℕ, ◌+◌, ◌-◌, ◌≡◌, refl, ap, Bool, true, false, not, ◌&&◌, some, List, [], ◌∷◌, ◌==◌, ==_iff, leb,
  arith, if◌then◌else◌, text_eq, text_eq_iff, Bool-cases, Option-cases, inl, inr,
}
use vinx.Prelude.Assoc.{
  text_key, nat_eq, lookup, insert, erase, weight, total, total-insert, lookup-insert, lookup-erase,
}
use vinx.Broker.{
  Handle, Origin, new_origin, make_release, acquire_hold, hold_answered, drop_ref, release,
  start_call, end_call,
}
use vinx.Broker.Events.{
  Act, acquires, answers, releases, calls, ends, in_call, origin_step, origin_run,
}
use vinx.Broker.Exclusion.{IsExclusive, lookup-with_holds}
use vinx.Broker.Runs.{origin_step-IsExclusive, empty-IsExclusive}

-- A handle of a document for a resource that was not called.
abbrev pub tally : ℕ → List ℕ → Handle → ℕ
tally document resource h =
    if (h.owner == document) && (text_eq h.resource resource && not h.done) then 1 else 0

abbrev pub refs_of : ℕ → List ℕ → Origin → ℕ
refs_of document resource o = weight (λ n. n) (lookup resource (o.holds document))

abbrev pub Counted : Origin → Type 0
Counted o =
    (document : ℕ) (resource : List ℕ)
    → refs_of document resource o ≡ total (tally document resource) o.handles

acquire_hold-Counted :
    (hidden : Bool) (document : ℕ) (resource : List ℕ) (o : Origin)
    → Counted o
    → Counted (acquire_hold hidden document resource o).1
unfolding acquire_hold make_release
acquire_hold-Counted true document resource o h d r = h d r
acquire_hold-Counted false document resource o h d r =
    elim (Option-cases (lookup resource (o.holds document))) [
      | inl nothing ↦ rw nothing (h d r)
      | inr (refs, there) ↦
          rw
            (
              there,
              lookup-with_holds document d r (insert resource (refs + 1) (o.holds document))
                  (o.holds d),
              lookup-insert resource r (refs + 1) (o.holds document),
            )
            (ground (arith, h d r, ==_iff d document, ==_iff document d, text_eq_iff resource r))
    ]

hold_answered-Counted :
    (label : List ℕ) (document : ℕ) (resource : List ℕ) (o : Origin)
    → IsExclusive o
    → Counted o
    → Counted (hold_answered label document resource o).1
unfolding hold_answered make_release
hold_answered-Counted label document resource o x h d r =
    elim (Option-cases (lookup resource o.locks)) [
      | inr (grip, taken) ↦ rw taken (h d r)
      | inl free ↦ elim (Option-cases (lookup resource (o.holds document))) [
        | inr (refs, there) ↦ absurd (ground (arith, x.backed document refs resource there))
        | inl first ↦
            rw
              (
                free,
                lookup-with_holds document d r (insert resource 1 (o.holds document)) (o.holds d),
                lookup-insert resource r 1 (o.holds document),
              )
              (ground (arith, h d r, ==_iff d document, ==_iff document d, text_eq_iff resource r))
      ]
    ]

-- A handle that is called the first time gives back the reference that it stood for.
module _ (handle : ℕ) (o : Origin) (h : Counted o) (k : Handle)
    (there : lookup handle o.handles ≡ some k) (first : k.done ≡ false) where
  abbrev spent : Origin
  spent = record o { handles = insert handle (record k { done = true }) o.handles }

  spent_one :
      (d : ℕ) (r : List ℕ)
      → total (tally d r) spent.handles + tally d r k ≡ total (tally d r) o.handles
  spent_one d r =
      let t : total (tally d r) spent.handles + weight (tally d r) (lookup handle o.handles)
          ≡ total (tally d r) o.handles + tally d r (record k { done = true }) =
        total-insert (tally d r) handle (record k { done = true }) o.handles in
      let none_left : tally d r (record k { done = true }) ≡ 0 = ground (arith) in
      let w : weight (tally d r) (lookup handle o.handles) ≡ tally d r k =
        ap (weight (tally d r)) there in
      omega (arith, t, none_left, w)

  stood : tally k.owner k.resource k ≡ 1
  stood = ground (arith, ==_iff k.owner k.owner, text_eq_iff k.resource k.resource)

  first_call :
      (d : ℕ) (r : List ℕ)
      → refs_of d r (drop_ref (lookup k.resource (o.holds k.owner)) k.owner k.resource spent)
        ≡ total
            (tally d r)
            (drop_ref (lookup k.resource (o.holds k.owner)) k.owner k.resource spent).handles
  first_call d r = elim (Option-cases (lookup k.resource (o.holds k.owner))) [
    | inl nothing ↦ absurd (
        let zero_refs : refs_of k.owner k.resource o ≡ 0 = ap (weight (λ n. n)) nothing in
        omega (arith, h k.owner k.resource, zero_refs, spent_one k.owner k.resource, stood))
    | inr (refs, held) ↦
        let all_refs : refs_of k.owner k.resource o ≡ refs = ap (weight (λ n. n)) held in
        let left : total (tally k.owner k.resource) spent.handles + 1 ≡ refs =
          omega (arith, h k.owner k.resource, all_refs, spent_one k.owner k.resource, stood) in
        rw held (elim (Bool-cases (leb refs 1)) [
          | inl last ↦
              rw
                (
                  last,
                  lookup-with_holds k.owner d r (erase k.resource (o.holds k.owner)) (o.holds d),
                  lookup-erase k.resource r (o.holds k.owner),
                )
                (ground (
                  arith,
                  h d r,
                  spent_one d r,
                  left,
                  ==_iff d k.owner,
                  ==_iff k.owner d,
                  text_eq_iff k.resource r,
                ))
          | inr more ↦
              rw
                (
                  more,
                  lookup-with_holds k.owner d r (insert k.resource (refs - 1) (o.holds k.owner))
                      (o.holds d),
                  lookup-insert k.resource r (refs - 1) (o.holds k.owner),
                )
                (ground (
                  arith,
                  h d r,
                  spent_one d r,
                  left,
                  ==_iff d k.owner,
                  ==_iff k.owner d,
                  text_eq_iff k.resource r,
                ))
        ])
  ]

release-Counted : (handle : ℕ) (o : Origin) → Counted o → Counted (release handle o)
unfolding release
release-Counted handle o h d r = elim (Option-cases (lookup handle o.handles)) [
  | inl unknown ↦ rw unknown (h d r)
  | inr (k, there) ↦ rw there (elim (Bool-cases k.done) [
    | inl again ↦ rw again (h d r)
    | inr first ↦ rw first (first_call handle o h k there first d r)
  ])
]

start_call-Counted :
    (hidden : Bool) (label : List ℕ) (document : ℕ) (resource : List ℕ) (o : Origin)
    → Counted o
    → Counted (start_call hidden label document resource o).1
unfolding start_call
start_call-Counted true label document resource o h d r = h d r
start_call-Counted false label document resource o h d r =
    elim (Option-cases (lookup resource o.locks)) [
      | inr (grip, taken) ↦ rw taken (h d r)
      | inl free ↦ rw free (h d r)
    ]

origin_step-Counted : (o : Origin) (a : Act) → IsExclusive o → Counted o → Counted (origin_step o a)
unfolding origin_step end_call
origin_step-Counted o (acquires hidden document resource) x h d r =
    acquire_hold-Counted hidden document resource o h d r
origin_step-Counted o (answers label document resource) x h d r =
    hold_answered-Counted label document resource o x h d r
origin_step-Counted o (releases handle) x h d r = release-Counted handle o h d r
origin_step-Counted o (calls hidden label document resource) x h d r =
    start_call-Counted hidden label document resource o h d r
origin_step-Counted o (ends document resource) x h d r =
    elim (Bool-cases (in_call document (lookup resource o.locks))) [
      | inl its ↦ rw its (h d r)
      | inr other ↦ rw other (h d r)
    ]

run-Counted :
    (o : Origin) (acts : List Act) → IsExclusive o → Counted o → Counted (origin_run o acts)
unfolding origin_run
run-Counted o [] x h = h
run-Counted o (a ∷ acts) x h =
    run-Counted (origin_step o a) acts (origin_step-IsExclusive o a x) (origin_step-Counted o a x h)

-- Whatever the documents of an origin do, in any order, a document has as many references to a
-- resource as it was given handles for it that were not called: to call one twice takes no other's.
pub origin_run-Counted : (acts : List Act) → Counted (origin_run new_origin acts)
origin_run-Counted acts =
    run-Counted new_origin acts empty-IsExclusive (λ d r. unfold lookup in refl)
