-- ===== src/Broker/Events.antt =====
-- What the documents of an origin do, in any order (web/app/origin-broker.ts).
use vinx.Prelude.{ℕ, Bool, false, Option, none, some, List, [], ◌∷◌, if◌then◌else◌, ◌==◌}
use vinx.Prelude.Assoc.{text_key, lookup}
use vinx.Broker.{
  Grip, long, call, Origin, acquire_hold, hold_answered, release, start_call, end_call,
}

pub data Act : Type 0 where
  acquires : Bool → ℕ → List ℕ → Act
  answers : List ℕ → ℕ → List ℕ → Act
  releases : ℕ → Act
  calls : Bool → List ℕ → ℕ → List ℕ → Act
  ends : ℕ → List ℕ → Act

-- Whether a document's call holds a lock: only such a call can end.
abbrev pub in_call : ℕ → Option Grip → Bool
in_call document none = false
in_call document (some (long other)) = false
in_call document (some (call other)) = other == document

unfoldable pub origin_step : Origin → Act → Origin
origin_step o (acquires hidden document resource) = (acquire_hold hidden document resource o).1
origin_step o (answers label document resource) = (hold_answered label document resource o).1
origin_step o (releases handle) = release handle o
origin_step o (calls hidden label document resource) =
    (start_call hidden label document resource o).1
origin_step o (ends document resource) =
    if in_call document (lookup resource o.locks) then end_call resource o else o

unfoldable pub origin_run : Origin → List Act → Origin
origin_run o [] = o
origin_run o (a ∷ as') = origin_run (origin_step o a) as'
