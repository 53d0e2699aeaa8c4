-- ===== src/Hostcall/Sharing.antt =====
-- What opening a run, closing one and logging a line make of the shared console
-- (web/app/hostcall.ts).
use vinx.Prelude.{
  ℕ, ◌+◌, ◌≤◌, ◌≡◌, refl, ap, ap₂, if_false, ◌∙◌, true, false, Option, none, some, List, [], ◌∷◌,
  ◌++◌, if◌then◌else◌, ◌==◌, arith, Bool-cases, inl, inr,
}
use vinx.Prelude.Text.{codes}
use vinx.Prelude.Assoc.{nat_eq, lookup, insert, erase, lookup-insert, lookup-erase}
use vinx.Hostcall.Console.{
  Level, log, warn, error, Console, Page, real_console, captured, open_sink, is_none_open,
  give_back, close_sink, spaced, push_line, print, printer_of, opens, closes, says, page_step,
}

abbrev pub tag_of : Level → List ℕ
tag_of log = []
tag_of warn = codes "[warn] "
tag_of error = codes "[error] "

-- The console is wrapped once while a run is open, and else the page's own.
pub record IsShared (p : Page) : Type 0 where
  pub console : p.console ≡ (if is_none_open p.sinks then real_console else captured real_console)
  pub hijacked : p.hijacked ≡ (if is_none_open p.sinks then none else some real_console)
  pub fresh : (k : ℕ) → p.next_sink ≤ k → lookup k p.sinks ≡ none

pub lookup-push_line :
    (k : ℕ) (line : List ℕ) (ss : List (ℕ × List (List ℕ)))
    → lookup k (push_line line ss)
      ≡ elim (lookup k ss) [ none ↦ none | some ls ↦ some (ls ++ line ∷ []) ]
unfolding lookup push_line
lookup-push_line k line [] = refl
lookup-push_line k line ((j, ls) ∷ ss) = elim (Bool-cases (j == k)) [
  | inl same ↦ rw same refl
  | inr other ↦ rw other (lookup-push_line k line ss)
]

is_none_open-push_line :
    (line : List ℕ) (ss : List (ℕ × List (List ℕ)))
    → is_none_open (push_line line ss) ≡ is_none_open ss
unfolding push_line
is_none_open-push_line line [] = refl
is_none_open-push_line line (s ∷ ss) = refl

is_none_open-insert :
    (k : ℕ) (ls : List (List ℕ)) (ss : List (ℕ × List (List ℕ)))
    → is_none_open (insert k ls ss) ≡ false
unfolding insert
is_none_open-insert k ls [] = refl
is_none_open-insert k ls ((j, ms) ∷ ss) = ground arith

-- What a line logged does to a page whose console is shared.
abbrev pub with_line : Level → List (List ℕ) → Page → Page
with_line level args p = record p {
  sinks = push_line (tag_of level ++ spaced args) p.sinks;
  printed = p.printed ++ (level, args) ∷ [];
}

abbrev pub shared : List (ℕ × List (List ℕ)) → Console
shared ss = if is_none_open ss then real_console else captured real_console

print-shared :
    (level : Level) (args : List (List ℕ)) (ss : List (ℕ × List (List ℕ))) (p : Page)
    → print (printer_of level (shared ss)) args (record p { sinks = ss })
      ≡ with_line level args (record p { sinks = ss })
unfolding print push_line
print-shared log args [] p = refl
print-shared warn args [] p = refl
print-shared error args [] p = refl
print-shared log args (s ∷ ss) p = refl
print-shared warn args (s ∷ ss) p = refl
print-shared error args (s ∷ ss) p = refl

pub step-says :
    (level : Level) (args : List (List ℕ)) (p : Page)
    → IsShared p
    → page_step p (says level args) ≡ with_line level args p
unfolding page_step
step-says level args p h =
    ap (λ c. print (printer_of level c) args p) h.console ∙ print-shared level args p.sinks p

pub with_line-IsShared :
    (level : Level) (args : List (List ℕ)) (p : Page)
    → IsShared p
    → IsShared (with_line level args p)
with_line-IsShared level args p h =
    let line = tag_of level ++ spaced args in
    record {
      console = rw (is_none_open-push_line line p.sinks) h.console;
      hijacked = rw (is_none_open-push_line line p.sinks) h.hijacked;
      fresh = λ k le. lookup-push_line k line p.sinks ∙ rw (h.fresh k le) refl;
    }

abbrev pub set_aside : List (ℕ × List (List ℕ)) → Option Console
set_aside ss = if is_none_open ss then none else some real_console

-- A page as `IsShared` says that it is.
abbrev pub as_shared : Page → Page
as_shared p = record p { console = shared p.sinks; hijacked = set_aside p.sinks }

as_shared-same : (p : Page) → IsShared p → p ≡ as_shared p
as_shared-same p h = ap₂ (λ c b. record p { console = c; hijacked = b }) h.console h.hijacked

open_shared :
    (ss : List (ℕ × List (List ℕ))) (p : Page)
    → open_sink (record p { sinks = ss; console = shared ss; hijacked = set_aside ss }) ≡ record p {
      sinks = insert p.next_sink [] ss;
      next_sink = p.next_sink + 1;
      console = captured real_console;
      hijacked = some real_console;
    }
unfolding open_sink
open_shared [] p = refl
open_shared (s ∷ ss) p = refl

-- A page with one run more.
abbrev pub with_run : Page → Page
with_run p = record p {
  sinks = insert p.next_sink [] p.sinks;
  next_sink = p.next_sink + 1;
  console = captured real_console;
  hijacked = some real_console;
}

pub step-opens : (p : Page) → IsShared p → page_step p opens ≡ with_run p
unfolding page_step
step-opens p h = ap open_sink (as_shared-same p h) ∙ open_shared p.sinks p

pub with_run-IsShared : (p : Page) → IsShared p → IsShared (with_run p)
with_run-IsShared p h = record {
  console = rw (is_none_open-insert p.next_sink [] p.sinks) refl;
  hijacked = rw (is_none_open-insert p.next_sink [] p.sinks) refl;
  fresh = λ k le.
      lookup-insert p.next_sink k [] p.sinks
      ∙ if_false (p.next_sink == k) (some []) (lookup k p.sinks) (ground arith)
      ∙ h.fresh k (omega arith);
}

-- A page with one run less.
abbrev pub without_run : ℕ → Page → Page
without_run k p = as_shared (record p { sinks = erase k p.sinks })

erase_open :
    (k : ℕ) (ss : List (ℕ × List (List ℕ)))
    → is_none_open (erase k ss) ≡ false
    → is_none_open ss ≡ false
unfolding erase
erase_open k [] h = h
erase_open k (s ∷ ss) h = refl

close_shared :
    (k : ℕ) (ss left : List (ℕ × List (List ℕ))) (p : Page)
    → (is_none_open left ≡ false → is_none_open ss ≡ false)
    → (let p' = record p { sinks = left; console = shared ss; hijacked = set_aside ss } in
        if is_none_open left then give_back p'.hijacked p' else p')
      ≡ as_shared (record p { sinks = left })
close_shared k [] [] p h = refl
close_shared k (s ∷ ss) [] p h = refl
close_shared k [] (t ∷ ts) p h = let impossible : true ≡ false = h refl in absurd (cc)
close_shared k (s ∷ ss) (t ∷ ts) p h = refl

pub step-closes : (k : ℕ) (p : Page) → IsShared p → page_step p (closes k) ≡ without_run k p
unfolding page_step close_sink
step-closes k p h =
    ap (close_sink k) (as_shared-same p h)
    ∙ close_shared k p.sinks (erase k p.sinks) p (erase_open k p.sinks)

pub without_run-IsShared : (k : ℕ) (p : Page) → IsShared p → IsShared (without_run k p)
without_run-IsShared k p h = record {
  console = refl;
  hijacked = refl;
  fresh = λ j le. lookup-erase k j p.sinks ∙ rw (h.fresh j le) (ground arith);
}
