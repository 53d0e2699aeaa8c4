-- ===== src/Rpc/Link/Effects.antt =====
-- Which parts of the link its small operations write.
use vinx.Prelude.{
  ℕ, ◌≡◌, refl, ap, ◌∙◌, true, List, [], ◌∷◌, Option, none, some, inl, inr, Bool-cases,
}
use vinx.Prelude.Assoc.{nat_eq, lookup}
use vinx.Rpc.Link.State.{
  Link, LinkState, idle, hello, up, unavailable, ServeJob, PendingCall, Output, output,
}
use vinx.Rpc.Link.Sender.{
  set_state, same_state, reject_all, abort_all, latch_job, fail_session, clear_session,
}

pub same_state-eq : (s t : LinkState) → same_state s t ≡ true → s ≡ t
same_state-eq idle idle h = refl
same_state-eq idle hello h = cc
same_state-eq idle up h = cc
same_state-eq idle unavailable h = cc
same_state-eq hello idle h = cc
same_state-eq hello hello h = refl
same_state-eq hello up h = cc
same_state-eq hello unavailable h = cc
same_state-eq up idle h = cc
same_state-eq up hello h = cc
same_state-eq up up h = refl
same_state-eq up unavailable h = cc
same_state-eq unavailable idle h = cc
same_state-eq unavailable hello h = cc
same_state-eq unavailable up h = cc
same_state-eq unavailable unavailable h = refl

-- `set_state` writes the state and the log.
pub set_state-writes :
    (s : LinkState) (l : Link)
    → (log : List Output) × (set_state s l ≡ record l { state = s; log = log })
unfolding set_state
set_state-writes s l = elim (Bool-cases (same_state l.state s)) [
  | inl same ↦ (l.log, rw same (ap (λ t. record l { state = t }) (same_state-eq l.state s same)))
  | inr other ↦ (Output.state_changed s ∷ l.log, rw other)
]

pub reject_all-writes :
    (calls : List (List ℕ × PendingCall)) (l : Link)
    → (log : List Output) × (reject_all calls l ≡ record l { log = log })
unfolding reject_all
reject_all-writes [] l = (l.log, refl)
reject_all-writes ((id, call) ∷ rest) l = let (log, e) = reject_all-writes rest _ in (log, e)

latch_job-writes :
    (k : ℕ) (found : Option ServeJob) (l : Link)
    → (jobs : List (ℕ × ServeJob)) × (latch_job k found l ≡ record l { jobs = jobs })
latch_job-writes k none l = (l.jobs, refl)
latch_job-writes k (some job) l = (_, refl)

pub abort_all-writes :
    (serves : List (List ℕ × ℕ)) (l : Link)
    → (jobs : List (ℕ × ServeJob)) × (log : List Output) × (abort_all serves l
        ≡ record l { jobs = jobs; log = log })
unfolding abort_all
abort_all-writes [] l = (l.jobs, l.log, refl)
abort_all-writes ((id, k) ∷ rest) l =
    let (jobs', e') = latch_job-writes k (lookup k l.jobs) l in
    let (jobs, log, e) =
      abort_all-writes rest (output (Output.aborted k) (latch_job k (lookup k l.jobs) l)) in
    (jobs, log, e ∙ ap (λ (r : Link). record r { jobs = jobs; log = log }) e')

-- The end of a session clears the link, and writes jobs and log besides.
pub fail_session-writes :
    (l : Link)
    → (jobs : List (ℕ × ServeJob)) × (log : List Output) × (fail_session l
        ≡ clear_session (record l { jobs = jobs; log = log }))
unfolding fail_session
fail_session-writes l =
    let (log', e') = reject_all-writes l.pending l in
    let (jobs, log, e) = abort_all-writes l.serves (reject_all l.pending l) in
    (jobs, log, ap clear_session (e ∙ ap (λ (r : Link). record r { jobs = jobs; log = log }) e'))
