-- ===== src/Rpc/Link/Answers.antt =====
-- The sender at responses, calls that are given up and answered requests (web/app/rpc.ts).
use vinx.Prelude.{
  ℕ, Bool, true, false, ◌&&◌, Option, none, some, List, inl, inr, if◌then◌else◌, Bool-cases,
  text_eq,
}
use vinx.Prelude.Assoc.{nat_eq, text_key, lookup}
use vinx.Rpc.Json.{Json, Fields, codes, get_field, is_there}
use vinx.Rpc.Link.State.{Platform, Link, ServeJob, PendingCall, RpcError}
use vinx.Rpc.Link.Sender.{is_hello_state, link_lost}
use vinx.Rpc.Link.Session.{in_session, on_session_up, notify, give_up_found, cancel_params}
use vinx.Rpc.Link.Receive.{
  settle_call, on_response, respond, answer_found, answer, abort_job, on_serve_deadline,
  cancel_found, cancel_serve, or_empty,
}
use vinx.Rpc.Link.Sound.{IsSound, enqueue-IsSound}
use vinx.Rpc.Link.Starts.{link_lost-IsSound, session_up-IsSound}

module _ (platform : Platform) (now : ℕ) where
  pub respond-IsSound : (body : Json) (l : Link) → IsSound l → IsSound (respond platform now body l)
  unfolding respond
  respond-IsSound body l h = elim (Bool-cases (in_session l.state)) [
    | inl live ↦ rw live (enqueue-IsSound platform now _ l live h)
    | inr dead ↦ rw dead h
  ]

  pub notify-IsSound :
      (method : List ℕ) (params : Option Fields) (l : Link)
      → IsSound l
      → IsSound (notify platform now method params l)
  unfolding notify
  notify-IsSound method params l h = elim (Bool-cases (in_session l.state)) [
    | inl live ↦ rw live (enqueue-IsSound platform now _ l live h)
    | inr dead ↦ rw dead h
  ]

  -- What a sound link keeps when only what the sender does not read changes.
  pub answer-IsSound :
      (k : ℕ) (body : Json) (l : Link) → IsSound l → IsSound (answer platform now k body l)
  unfolding answer
  answer-IsSound k body l h = found (lookup k l.jobs)
    where
      found : (job : Option ServeJob) → IsSound (answer_found platform now k body job l)
      found none = h
      found (some job) = elim (Bool-cases job.answered) [
        | inl late ↦ rw late h
        | inr first ↦ rw first (
            respond-IsSound body _
              (record { flows = h.flows; armed = h.armed; plain = h.plain; bounded = h.bounded }))
      ]

  abort_job-IsSound : (k : ℕ) (l : Link) → IsSound l → IsSound (abort_job platform now k l)
  unfolding abort_job
  abort_job-IsSound k l h =
      answer-IsSound k _ _
        (record { flows = h.flows; armed = h.armed; plain = h.plain; bounded = h.bounded })

  pub serve_deadline-IsSound :
      (k : ℕ) (l : Link) → IsSound l → IsSound (on_serve_deadline platform now k l)
  unfolding on_serve_deadline
  serve_deadline-IsSound k l h = abort_job-IsSound k _ (answer-IsSound k _ l h)

  pub give_up-IsSound :
      (id : List ℕ) (err : RpcError) (entry : Option PendingCall) (l : Link)
      → IsSound l
      → IsSound (give_up_found platform now id err entry l)
  give_up-IsSound id err none l h = h
  give_up-IsSound id err (some entry) l h =
      let k = notify-IsSound (codes "rpc.cancel") (cancel_params platform id) l h in
      record { flows = k.flows; armed = k.armed; plain = k.plain; bounded = k.bounded }

  settle_call-IsSound :
      (id : List ℕ) (body : Fields) (entry : Option PendingCall) (l : Link)
      → IsSound l
      → IsSound (settle_call id body entry l)
  settle_call-IsSound id body none l h = record {
    flows = h.flows;
    armed = h.armed;
    plain = h.plain;
    bounded = h.bounded;
  }
  settle_call-IsSound id body (some entry) l h =
      elim (Bool-cases (is_there (get_field (codes "error") body))) [
        | inl e ↦
            rw e (record { flows = h.flows; armed = h.armed; plain = h.plain; bounded = h.bounded })
        | inr e ↦
            rw e (record { flows = h.flows; armed = h.armed; plain = h.plain; bounded = h.bounded })
      ]

  pub response-IsSound :
      (id : List ℕ) (body : Fields) (l : Link)
      → IsSound l
      → IsSound (on_response platform now id body l)
  unfolding on_response
  response-IsSound id body l h =
      elim (Bool-cases (text_eq id (codes "p.0") && is_hello_state l.state)) [
        | inl hello_reply ↦ rw hello_reply (replied (is_there (get_field (codes "error") body)))
        | inr other ↦ rw other (settle_call-IsSound id body (lookup id l.pending) l h)
      ]
    where
      replied :
          (b : Bool)
          → IsSound (
              if b
              then link_lost l
              else on_session_up platform now (or_empty (get_field (codes "result") body)) l)
      replied true = link_lost-IsSound l
      replied false = session_up-IsSound platform now _ l h

  pub cancel_serve-IsSound :
      (id : List ℕ) (l : Link) → IsSound l → IsSound (cancel_serve platform now id l)
  unfolding cancel_serve
  cancel_serve-IsSound id l h = found (lookup id l.serves)
    where
      found : (k : Option ℕ) → IsSound (cancel_found platform now k l)
      found none = h
      found (some k) = abort_job-IsSound k l h
