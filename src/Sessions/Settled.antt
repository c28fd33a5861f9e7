-- ===== src/Sessions/Settled.antt =====
-- core/sessions.rs: callers that make one call after another, and sessions that have ended.
use agent_workspace_hub.Prelude.{
  ◌≡◌, ◌⊎◌, ◌∙◌, sym, ap, inl, inr, refl, Bool, true, false, not, Option, some, List, [], ◌∷◌, Text,
  text_eq, text_eq_iff, arith, all, Bool-cases, Result, ok, err, Result-cases, >>-eq-ok, >>=-eq-ok,
}
use agent_workspace_hub.Host.{Host, write_failed}
use agent_workspace_hub.Sessions.{
  SessionStatus, is_usable, AgentSessionRecord, is_safe_session_id, SessionFault, host, Store,
  write_record, lock_record, create, transition, get,
}
use agent_workspace_hub.Sessions.Lifecycle.{
  lock_record-eq-ok, get-write_record, ok-injective, get-transition,
}

-- The operations that write, and one call with what the host answers.
pub data Call : Type 0 where
  open_session : AgentSessionRecord → Call
  move : Text → SessionStatus → Call

pub record Request : Type 0 where
  pub host : Host
  pub call : Call

abbrev after : Store → Result SessionFault Store → Store
after files (ok files') = files'
after files (err e) = files

abbrev moved : Store → Result SessionFault (Store × Option AgentSessionRecord) → Store
moved files (ok (files', out)) = files'
moved files (err e) = files

unfoldable pub perform : Host → Call → Store → Store
perform h (open_session session) files = after files (create h session files)
perform h (move id next) files = moved files (transition h id next files)

unfoldable pub run : List Request → Store → Store
run [] files = files
run (q ∷ qs) files = run qs (perform q.host q.call files)

-- A call that does not create a session under an id.
unfoldable pub spares : Text → Call → Bool
spares id (open_session session) = not (text_eq id session.session_id)
spares id (move id' next) = true

abbrev pub HasStatus : Text → SessionStatus → Store → Type 0
HasStatus id status files =
    (session : AgentSessionRecord) × (get id files ≡ ok (some session)) × (session.status ≡ status)

create-eq-ok :
    (h : Host) (session : AgentSessionRecord) (files files' : Store)
    → create h session files ≡ ok files'
    → (is_safe_session_id session.session_id ≡ true)
      × (files' ≡ write_record session.session_id session files)
unfolding create
create-eq-ok h session files files' p =
    let (tt, locked, p₁) = >>=-eq-ok (lock_record h session.session_id) _ p in
    let (saved, p₂) = >>-eq-ok h.save_ok (host write_failed) _ p₁ in
    (lock_record-eq-ok h session.session_id locked, sym (ok-injective p₂))

perform-HasStatus :
    (h : Host) (call : Call) (id : Text) (status : SessionStatus) (files : Store)
    → is_usable status ≡ false
    → spares id call ≡ true
    → HasStatus id status files
    → HasStatus id status (perform h call files)
unfolding perform spares
perform-HasStatus h (open_session new) id status files terminal spared (session, g, s) =
    elim (Result-cases (create h new files)) [
      | inr (x, e) ↦ rw e (session, g, s)
      | inl (files', e) ↦
          let (safe, written) = create-eq-ok h new files files' e in
          let kept = get-write_record new.session_id id new files safe in
          rw (e, written) (session, kept ∙ rw (not-true (text_eq id new.session_id) spared) g, s)
    ]
  where
    not-true : (b : Bool) → not b ≡ true → b ≡ false
    not-true false h = refl
    not-true true h = sym h
perform-HasStatus h (move id' next) id status files terminal spared (session, g, s) =
    elim (Result-cases (transition h id' next files)) [
      | inr (x, e) ↦ rw e (session, g, s)
      | inl ((files', out), e) ↦ elim (get-transition h id' next files files' out id e) [
        | inl (_, _, same) ↦ rw (e, same) (session, g, s)
        | inr (found, g', legal, answer, now) ↦ elim (Bool-cases (text_eq id id')) [
          | inr apart ↦ rw e (session, now ∙ rw apart g, s)
          | inl same ↦
              let here : found ≡ session = one found session same g' g in
              let from : found.status ≡ status = ap (λ r. r.status) here ∙ s in
              rw e (
                record found { status = next; last_activity_at = h.now },
                now ∙ rw same (ap ok answer),
                settled found.status legal from,
              )
        ]
      ]
    ]
  where
    one :
        (a b : AgentSessionRecord)
        → text_eq id id' ≡ true
        → get id' files ≡ ok (some a)
        → get id files ≡ ok (some b)
        → a ≡ b
    one a b e g' g = let equal = (text_eq_iff id id').0 e in let g'' = rw equal at g in ground arith

    settled :
        (from : SessionStatus)
        → (is_usable from ≡ true) ⊎ (from ≡ next)
        → from ≡ status
        → next ≡ status
    settled from (inl usable) f = absurd (ground arith)
    settled from (inr reached) f = sym reached ∙ f

-- A session that was stopped or failed stays so: whatever sessions are opened under other ids, and
-- whatever transitions are asked for of any session, `get` finds it with the state that it had.
pub settled_stays :
    (qs : List Request) (id : Text) (status : SessionStatus) (files : Store)
    → is_usable status ≡ false
    → all (λ q. spares id q.call) qs ≡ true
    → HasStatus id status files
    → HasStatus id status (run qs files)
unfolding run all
settled_stays [] id status files terminal spared found = found
settled_stays (q ∷ qs) id status files terminal spared found =
    settled_stays qs id status (perform q.host q.call files) terminal (ground arith)
      (perform-HasStatus q.host q.call id status files terminal (ground arith) found)
