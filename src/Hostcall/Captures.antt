-- ===== src/Hostcall/Captures.antt =====
-- Runs of scripts that overlap share the console (web/app/hostcall.ts).
use vinx.Prelude.{
  ℕ, ◌+◌, ◌<◌, ◌≡◌, refl, sym, ap, subst, if_false, ltb, ltb→lt, ltb→le, ◌∙◌, Bool, false, ◌||◌,
  Option, none, some, List, [], ◌∷◌, ◌++◌, append-nil, append_assoc, if◌then◌else◌, ◌==◌, arith,
  Bool-cases, inl, inr,
}
use vinx.Prelude.Assoc.{nat_eq, lookup, lookup-insert, lookup-erase}
use vinx.Hostcall.Console.{
  Level, Page, new_page, spaced, Act, opens, closes, says, page_step, page_run,
}
use vinx.Hostcall.Sharing.{
  tag_of, IsShared, lookup-push_line, with_line, shared, step-says, with_line-IsShared, with_run,
  step-opens, with_run-IsShared, without_run, step-closes, without_run-IsShared,
}

-- What was logged, as lines and as it is printed.
abbrev pub lines_of : List Act → List (List ℕ)
lines_of [] = []
lines_of (opens ∷ rest) = lines_of rest
lines_of (closes k ∷ rest) = lines_of rest
lines_of (says level args ∷ rest) = (tag_of level ++ spaced args) ∷ lines_of rest

abbrev pub said : List Act → List (Level × List (List ℕ))
said [] = []
said (opens ∷ rest) = said rest
said (closes k ∷ rest) = said rest
said (says level args ∷ rest) = (level, args) ∷ said rest

abbrev pub is_closed : ℕ → List Act → Bool
is_closed k [] = false
is_closed k (opens ∷ rest) = is_closed k rest
is_closed k (closes j ∷ rest) = j == k || is_closed k rest
is_closed k (says level args ∷ rest) = is_closed k rest

-- What the run numbered `k` has heard, where the next is numbered `n`: all lines since it opened,
-- while it is open.
abbrev pub heard : ℕ → ℕ → List Act → Option (List (List ℕ))
heard k n [] = none
heard k n (opens ∷ rest) =
    let later = heard k (n + 1) rest in
    if n == k then (if is_closed k rest then none else some (lines_of rest)) else later
heard k n (closes j ∷ rest) = heard k n rest
heard k n (says level args ∷ rest) = heard k n rest

heard-none : (k n : ℕ) (es : List Act) → k < n → heard k n es ≡ none
heard-none k n [] lt = refl
heard-none k n (opens ∷ es) lt =
    if_false (n == k) _ _ (ground arith) ∙ heard-none k (n + 1) es (omega arith)
heard-none k n (closes j ∷ es) lt = heard-none k n es lt
heard-none k n (says level args ∷ es) lt = heard-none k n es lt

-- What a run has heard in the end, from what it has heard so far.
abbrev pub heard_from : Option (List (List ℕ)) → ℕ → ℕ → List Act → Option (List (List ℕ))
heard_from none k n es = heard k n es
heard_from (some ls) k n es = if is_closed k es then none else some (ls ++ lines_of es)

known_below :
    (k : ℕ) (ls : List (List ℕ)) (p : Page)
    → IsShared p
    → lookup k p.sinks ≡ some ls
    → k < p.next_sink
known_below k ls p h e = elim (Bool-cases (ltb k p.next_sink)) [
  | inl lt ↦ ltb→lt k p.next_sink lt
  | inr ge ↦ let gone = h.fresh k (ltb→le k p.next_sink ge) in absurd (cc)
]

heard_opens :
    (k : ℕ) (es : List Act) (p : Page) (o : Option (List (List ℕ)))
    → IsShared p
    → lookup k p.sinks ≡ o
    → heard_from (lookup k (with_run p).sinks) k (p.next_sink + 1) es
      ≡ heard_from o k p.next_sink (opens ∷ es)
heard_opens k es p none h e =
    rw (lookup-insert p.next_sink k [] p.sinks) (elim (Bool-cases (p.next_sink == k)) [
      | inl same ↦ rw same refl
      | inr other ↦ rw (other, e) refl
    ])
heard_opens k es p (some ls) h e =
    let lt = known_below k ls p h e in
    rw
      (
        lookup-insert p.next_sink k [] p.sinks,
        if_false (p.next_sink == k) (some []) (lookup k p.sinks) (ground arith),
        e,
      )
      refl

heard_closes :
    (k j : ℕ) (es : List Act) (p : Page) (o : Option (List (List ℕ)))
    → IsShared p
    → lookup k p.sinks ≡ o
    → heard_from (lookup k (without_run j p).sinks) k p.next_sink es
      ≡ heard_from o k p.next_sink (closes j ∷ es)
heard_closes k j es p none h e =
    rw (lookup-erase j k p.sinks)
      (elim (Bool-cases (j == k)) [ inl same ↦ rw same refl | inr other ↦ rw (other, e) refl ])
heard_closes k j es p (some ls) h e = rw (lookup-erase j k p.sinks) (elim (Bool-cases (j == k)) [
  | inl same ↦ rw same (heard-none k p.next_sink es (known_below k ls p h e))
  | inr other ↦ rw (other, e) refl
])

heard_says :
    (k : ℕ) (level : Level) (args : List (List ℕ)) (es : List Act) (p : Page)
    (o : Option (List (List ℕ)))
    → lookup k p.sinks ≡ o
    → heard_from (lookup k (with_line level args p).sinks) k p.next_sink es
      ≡ heard_from o k p.next_sink (says level args ∷ es)
heard_says k level args es p none e =
    rw (lookup-push_line k (tag_of level ++ spaced args) p.sinks, e) refl
heard_says k level args es p (some ls) e =
    rw (lookup-push_line k (tag_of level ++ spaced args) p.sinks, e)
      (ap (λ all. if is_closed k es then none else some all) (append_assoc ls _ (lines_of es)))

heard_now : (o : Option (List (List ℕ))) (k n : ℕ) → o ≡ heard_from o k n []
heard_now none k n = refl
heard_now (some ls) k n = ap some (sym (append-nil ls))

step-IsShared : (a : Act) (p : Page) → IsShared p → IsShared (page_step p a)
step-IsShared opens p h = subst IsShared (sym (step-opens p h)) (with_run-IsShared p h)
step-IsShared (closes j) p h = subst IsShared (sym (step-closes j p h)) (without_run-IsShared j p h)
step-IsShared (says level args) p h =
    subst IsShared (sym (step-says level args p h)) (with_line-IsShared level args p h)

step_hears :
    (a : Act) (es : List Act) (p : Page) (k : ℕ)
    → IsShared p
    → heard_from (lookup k (page_step p a).sinks) k (page_step p a).next_sink es
      ≡ heard_from (lookup k p.sinks) k p.next_sink (a ∷ es)
step_hears opens es p k h =
    ap (λ q. heard_from (lookup k q.sinks) k q.next_sink es) (step-opens p h)
    ∙ heard_opens k es p _ h refl
step_hears (closes j) es p k h =
    ap (λ q. heard_from (lookup k q.sinks) k q.next_sink es) (step-closes j p h)
    ∙ heard_closes k j es p _ h refl
step_hears (says level args) es p k h =
    ap (λ q. heard_from (lookup k q.sinks) k q.next_sink es) (step-says level args p h)
    ∙ heard_says k level args es p _ refl

-- What a step prints.
abbrev pub said_by : Act → List (Level × List (List ℕ))
said_by a = said (a ∷ [])

step_prints : (a : Act) (p : Page) → IsShared p → (page_step p a).printed ≡ p.printed ++ said_by a
step_prints opens p h = ap (λ q. q.printed) (step-opens p h) ∙ sym (append-nil p.printed)
step_prints (closes j) p h = ap (λ q. q.printed) (step-closes j p h) ∙ sym (append-nil p.printed)
step_prints (says level args) p h = ap (λ q. q.printed) (step-says level args p h)

said-cons : (a : Act) (es : List Act) → said (a ∷ es) ≡ said_by a ++ said es
said-cons opens es = refl
said-cons (closes j) es = refl
said-cons (says level args) es = refl

run-IsShared :
    (es : List Act) (p : Page) (k : ℕ)
    → IsShared p
    → IsShared (page_run p es)
      × (lookup k (page_run p es).sinks ≡ heard_from (lookup k p.sinks) k p.next_sink es)
      × ((page_run p es).printed ≡ p.printed ++ said es)
unfolding page_run
run-IsShared [] p k h = (h, heard_now (lookup k p.sinks) k p.next_sink, sym (append-nil p.printed))
run-IsShared (a ∷ es) p k h =
    let (ends, hears, prints) = run-IsShared es (page_step p a) k (step-IsShared a p h) in
    (
      ends,
      hears ∙ step_hears a es p k h,
      prints
          ∙ ap (λ s. s ++ said es) (step_prints a p h)
          ∙ append_assoc p.printed (said_by a) (said es)
          ∙ ap (◌++◌ p.printed) (sym (said-cons a es)),
    )

-- Whatever happens on a page: while a run is open, its sink has just the lines that were logged
-- since it opened, by whichever script, with their tags; the page's own console is given each logged
-- line once, in order; and it is the console again when no run is open.
pub page_run_captures :
    (es : List Act) (k : ℕ)
    → (lookup k (page_run new_page es).sinks ≡ heard k 0 es)
      × ((page_run new_page es).printed ≡ said es)
      × ((page_run new_page es).console ≡ shared (page_run new_page es).sinks)
unfolding lookup
page_run_captures es k =
    let (ends, hears, prints) =
      run-IsShared es new_page k
        (record { console = refl; hijacked = refl; fresh = λ k le. refl }) in
    (hears, prints, ends.console)
