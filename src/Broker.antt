-- ===== src/Broker.antt =====
-- web/app/origin-broker.ts: the documents of one origin share a browser's camera, Bluetooth and the
-- like. A document is a number. The Web Locks of the browser, asked with `ifAvailable`, are a map
-- from a resource to what holds its lock; the storage of the origin is a map from a resource to the
-- label of the last document that took it. A call that waits for the browser is two operations.
pub mod Events
pub mod Exclusion
pub mod Runs
pub mod Counted
pub mod Race
use vinx.Prelude.{
  ℕ, ◌+◌, ◌-◌, Bool, true, false, Option, none, some, List, [], ◌∷◌, ◌==◌, leb, if◌then◌else◌,
  length,
}
use vinx.Prelude.Assoc.{text_key, nat_eq, lookup, insert, erase}

-- A lock is held for as long as a document has references to it, or for one call of a document.
pub data Grip : Type 0 where
  long : ℕ → Grip
  call : ℕ → Grip

-- A function that `makeRelease` returned, with its `done`.
pub record Handle : Type 0 where
  pub owner : ℕ
  pub resource : List ℕ
  pub done : Bool

pub record Origin : Type 0 where
  pub locks : List (List ℕ × Grip)
  pub holders : List (List ℕ × List ℕ)
  -- the `holds` of each document: the references to a resource
  pub holds : ℕ → List (List ℕ × ℕ)
  -- by the order in which they were made
  pub handles : List (ℕ × Handle)

abbrev pub new_origin : Origin
new_origin = record { locks = []; holders = []; holds = λ document. []; handles = [] }

pub data Answer : Type 0 where
  -- the handle, or nothing for one call
  granted : Option ℕ → Answer
  asking : Answer
  -- OriginBusyError with the label of the holder, OriginForegroundError
  busy : Option (List ℕ) → Answer
  wants_foreground : Answer

abbrev pub announce_holder : List ℕ → List ℕ → Origin → Origin
announce_holder resource label o = record o { holders = insert resource label o.holders }

abbrev pub clear_holder : List ℕ → Origin → Origin
clear_holder resource o = record o { holders = erase resource o.holders }

abbrev pub current_holder : List ℕ → Origin → Option (List ℕ)
current_holder resource o = lookup resource o.holders

-- The `holds` of one document written anew.
abbrev pub with_holds : ℕ → List (List ℕ × ℕ) → Origin → Origin
with_holds document held o = record o {
  holds = λ other. if other == document then held else o.holds other;
}

unfoldable pub make_release : ℕ → List ℕ → Origin → Answer × Origin
make_release document resource o = (
  granted (some (length o.handles)),
  record o {
    handles =
        (length o.handles, record { owner = document; resource = resource; done = false })
        ∷ o.handles;
  },
)

abbrev pub hold_found : Option ℕ → ℕ → List ℕ → Origin → Answer × Origin
hold_found none document resource o = (asking, o)
hold_found (some refs) document resource o =
    make_release document resource
      (with_holds document (insert resource (refs + 1) (o.holds document)) o)

-- acquireOriginHold, up to its request for the lock.
unfoldable pub acquire_hold : Bool → ℕ → List ℕ → Origin → Answer × Origin
acquire_hold hidden document resource o =
    if hidden
    then (wants_foreground, o)
    else hold_found (lookup resource (o.holds document)) document resource o

abbrev pub lock_found : Option Grip → List ℕ → ℕ → List ℕ → Origin → Answer × Origin
lock_found (some grip) label document resource o = (busy (current_holder resource o), o)
lock_found none label document resource o =
    let o' =
      announce_holder resource label
        (record o { locks = insert resource (long document) o.locks }) in
    make_release document resource (with_holds document (insert resource 1 (o'.holds document)) o')

-- The browser answers that request.
unfoldable pub hold_answered : List ℕ → ℕ → List ℕ → Origin → Answer × Origin
hold_answered label document resource o =
    lock_found (lookup resource o.locks) label document resource o

-- The last reference gives the lock back.
abbrev pub drop_ref : Option ℕ → ℕ → List ℕ → Origin → Origin
drop_ref none document resource o = o
drop_ref (some refs) document resource o =
    if leb refs 1
    then record (clear_holder resource
        (with_holds document (erase resource (o.holds document)) o)) {
          locks = erase resource o.locks;
        }
    else with_holds document (insert resource (refs - 1) (o.holds document)) o

abbrev pub release_found : Option Handle → ℕ → Origin → Origin
release_found none handle o = o
release_found (some h) handle o =
    if h.done
    then o
    else drop_ref (lookup h.resource (o.holds h.owner)) h.owner h.resource
        (record o { handles = insert handle (record h { done = true }) o.handles })

-- A handle is called, once or again.
unfoldable pub release : ℕ → Origin → Origin
release handle o = release_found (lookup handle o.handles) handle o

abbrev pub call_found : Option Grip → List ℕ → ℕ → List ℕ → Origin → Answer × Origin
call_found (some grip) label document resource o = (busy (current_holder resource o), o)
call_found none label document resource o = (
  granted none,
  announce_holder resource label (record o { locks = insert resource (call document) o.locks }),
)

-- withOriginLock: the foreground is asked first, then the browser answers.
unfoldable pub start_call : Bool → List ℕ → ℕ → List ℕ → Origin → Answer × Origin
start_call hidden label document resource o =
    if hidden
    then (wants_foreground, o)
    else call_found (lookup resource o.locks) label document resource o

-- Its work has ended, or thrown.
unfoldable pub end_call : List ℕ → Origin → Origin
end_call resource o = record (clear_holder resource o) { locks = erase resource o.locks }
