-- ===== src/Broker/Race.antt =====
-- Two requests of one document at once (web/app/origin-broker.ts, acquireOriginHold).
use vinx.Prelude.{ℕ, ◌≡◌, refl, ap, ◌∙◌, false, none, some, List, length, text_eq_refl}
use vinx.Prelude.Assoc.{text_key, lookup, lookup-insert}
use vinx.Broker.{long, Origin, asking, busy, granted, acquire_hold, make_release, hold_answered}

-- A document asks twice, one request after the other, for a free resource that it has no reference
-- to: both requests go to the browser. When the browser has answered the first, which has the
-- resource, the second is answered that the resource is in use, by the document itself.
pub acquire_race :
    (label : List ℕ) (document : ℕ) (resource : List ℕ) (o : Origin)
    → lookup resource (o.holds document) ≡ none
    → lookup resource o.locks ≡ none
    → let first = acquire_hold false document resource o in
      let second = acquire_hold false document resource first.1 in
      let first_answer = hold_answered label document resource second.1 in
      let second_answer = hold_answered label document resource first_answer.1 in
      (first.0 ≡ asking)
      × (second.0 ≡ asking)
      × (first_answer.0 ≡ granted (some (length o.handles)))
      × (second_answer.0 ≡ busy (some label))
unfolding acquire_hold hold_answered make_release
acquire_race label document resource o unheld free =
    rw
      (
        unheld,
        unheld,
        free,
        lookup-insert resource resource (long document) o.locks,
        text_eq_refl resource,
      )
      (
        refl,
        refl,
        refl,
        ap busy (lookup-insert resource resource label o.holders ∙ rw (text_eq_refl resource) refl),
      )
