-- ===== src/Sessions/Lifecycle.antt =====
-- core/sessions.rs: the life of one session, as `get` reads it.
use agent_workspace_hub.Prelude.{
  ◌≡◌, ◌⊎◌, ◌∙◌, sym, ap, inl, inr, refl, true, Option, none, some, Text, text_eq, text_eq_iff,
  arith, if◌then◌else◌, Bool-cases, Result, ok, >>-eq-ok, >>=-eq-ok,
}
use agent_workspace_hub.Host.{Host, write_failed}
use agent_workspace_hub.Sessions.{
  SessionStatus, active, paused, stopped, failed, is_usable, AgentSessionRecord,
  is_valid_transition, is_safe_session_id, SessionFault, host, invalid_session_id,
  invalid_transition, Store, write_record, read_record, lock_record, transition_found, transition,
  get,
}

pub lock_record-eq-ok :
    (h : Host) (id : Text) → lock_record h id ≡ ok tt → is_safe_session_id id ≡ true
unfolding lock_record
lock_record-eq-ok h id p = (>>-eq-ok (is_safe_session_id id) invalid_session_id _ p).0

pub get-write_record :
    (id other : Text) (session : AgentSessionRecord) (files : Store)
    → is_safe_session_id id ≡ true
    → get other (write_record id session files)
      ≡ (if text_eq other id then ok (some session) else get other files)
unfolding get
get-write_record id other session files safe = elim (Bool-cases (text_eq other id)) [
  | inl e ↦ let same = (text_eq_iff other id).0 e in rw e (rw (same, safe) refl)
  | inr e ↦ rw e refl
]

abbrev pub SameResult : {A : Type 0} → Result SessionFault A → Result SessionFault A → Type 0
SameResult a b = a ≡ b

pub ok-injective : {A : Type 0} {x y : A} → SameResult (ok x) (ok y) → x ≡ y
ok-injective e = cc

transition_found-eq-ok :
    (h : Host) (id : Text) (next : SessionStatus) (files files' : Store)
    (found out : Option AgentSessionRecord)
    → transition_found h id next files found ≡ ok (files', out)
    → ((found ≡ none) × (out ≡ none) × (files' ≡ files))
      ⊎ ((session : AgentSessionRecord) × (found ≡ some session)
          × (is_valid_transition session.status next ≡ true)
          × (out ≡ some (record session { status = next; last_activity_at = h.now }))
          × (files'
              ≡ write_record id (record session { status = next; last_activity_at = h.now }) files))
unfolding transition_found
transition_found-eq-ok h id next files files' none out p = inl (refl, ground arith, ground arith)
transition_found-eq-ok h id next files files' (some session) out p =
    let (valid, p₁) = >>-eq-ok (is_valid_transition session.status next) invalid_transition _ p in
    let (saved, p₂) = >>-eq-ok h.save_ok (host write_failed) _ p₁ in
    inr (
      session,
      refl,
      valid,
      sym (ap (λ r. r.1) (ok-injective p₂)),
      sym (ap (λ r. r.0) (ok-injective p₂)),
    )

get-safe :
    (id : Text) (files : Store)
    → is_safe_session_id id ≡ true
    → get id files ≡ read_record (files id)
unfolding get
get-safe id files safe = rw safe refl

allowed :
    (from to : SessionStatus)
    → is_valid_transition from to ≡ true
    → (is_usable from ≡ true) ⊎ (from ≡ to)
unfolding is_valid_transition
allowed active to v = inl refl
allowed paused to v = inl refl
allowed stopped to v = inr (ground arith)
allowed failed to v = inr (ground arith)

-- A transition that succeeds found no session under the id, answers so and changes nothing; or it
-- found one whose state is the requested one or a live one, and returns it with the requested
-- state and the time of the call: `get` then finds that under the id, and what it found before
-- under every other.
pub get-transition :
    (h : Host) (id : Text) (next : SessionStatus) (files files' : Store)
    (out : Option AgentSessionRecord) (other : Text)
    → transition h id next files ≡ ok (files', out)
    → ((get id files ≡ ok none) × (out ≡ none) × (files' ≡ files))
      ⊎ ((session : AgentSessionRecord) × (get id files ≡ ok (some session))
          × ((is_usable session.status ≡ true) ⊎ (session.status ≡ next))
          × (out ≡ some (record session { status = next; last_activity_at = h.now }))
          × (get other files' ≡ (if text_eq other id then ok out else get other files)))
unfolding transition
get-transition h id next files files' out other p =
    let (tt, locked, p₁) = >>=-eq-ok (lock_record h id) _ p in
    let (found, read, p₂) = >>=-eq-ok (read_record (files id)) _ p₁ in
    let safe = lock_record-eq-ok h id locked in
    let old = get-safe id files safe in
    elim (transition_found-eq-ok h id next files files' found out p₂) [
      | inl (absent, answer, same) ↦ inl (old ∙ read ∙ ap ok absent, answer, same)
      | inr (session, present, valid, answer, written) ↦ inr (
        session,
        old ∙ read ∙ ap ok present,
        allowed session.status next valid,
        answer,
        rw (written, answer) (get-write_record id other _ files safe),
      )
    ]
