-- ===== src/Examples/Broker.antt =====
-- Concrete runs of the documents of an origin (web/app/origin-broker.ts).
use vinx.Prelude.{ℕ, ◌<◌, ◌≡◌, refl, false, some, List, [], ◌∷◌, text_eq}
use vinx.Prelude.Assoc.{text_key, lookup, insert}
use vinx.Prelude.Text.{codes}
use vinx.Broker.{
  long, new_origin, asking, busy, granted, acquire_hold, make_release, hold_answered, release,
}
use vinx.Broker.Events.{Act, acquires, answers, releases, origin_step, origin_run}
use vinx.Broker.Runs.{origin_run_exclusive}
use vinx.Broker.Counted.{Counted, origin_run-Counted}
use vinx.Broker.Race.{acquire_race}

abbrev ble : List ℕ
ble = codes "ble"

-- Document 1 connects and scans, lets the scan go twice, and document 2 asks in vain.
abbrev scan : List Act
scan =
    acquires false 1 ble
    ∷ answers (codes "machine 1") 1 ble
    ∷ acquires false 1 ble
    ∷ releases 1
    ∷ releases 1
    ∷ answers (codes "machine 2") 2 ble
    ∷ []

origin_run_exclusive_example :
    (◌≡◌ {A = ℕ} 1 1) × (◌<◌ 0 1) × (lookup ble (origin_run new_origin scan).locks ≡ some (long 1))
unfolding origin_run origin_step acquire_hold make_release hold_answered release lookup insert
    text_eq
origin_run_exclusive_example = origin_run_exclusive scan ble 1 1 1 1 refl refl

origin_run-Counted_example : Counted (origin_run new_origin scan)
origin_run-Counted_example = origin_run-Counted scan

acquire_race_example :
    let first = acquire_hold false 1 ble new_origin in
    let second = acquire_hold false 1 ble first.1 in
    let first_answer = hold_answered (codes "me") 1 ble second.1 in
    let second_answer = hold_answered (codes "me") 1 ble first_answer.1 in
    (first.0 ≡ asking)
    × (second.0 ≡ asking)
    × (first_answer.0 ≡ granted (some 0))
    × (second_answer.0 ≡ busy (some (codes "me")))
acquire_race_example =
    acquire_race (codes "me") 1 ble new_origin (unfold lookup in refl) (unfold lookup in refl)
