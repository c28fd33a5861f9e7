-- ===== src/Edit/Commit/Expected.antt =====
-- What an expected state requires of the content of a file and of the span that an edit changes
-- (src/services/edit.rs: ExpectedState::check, preflight, check_context).
use agent_workspace_hub.Prelude.{
  ℕ, ◌+◌, ◌≤◌, ◌≡◌, refl, Bool, true, false, not, Option, none, some, List, [], ◌∷◌, arith, length,
  Text, text_eq, text_eq_iff, ok, if◌then◌else◌,
}
use agent_workspace_hub.Edit.Matching.{Bytes, LocatedMatch, find_matches}
use agent_workspace_hub.Edit.Lines.{line_count}
use agent_workspace_hub.Edit.Model.{
  ExpectedState, FileState, from_content, is_valid_hash, differs, check_rest, check, StateMatch,
  hash_component, invalid_hash_state, matched, conflicted, context_pending, malformed,
}
use agent_workspace_hub.Edit.Commit.{Preflight, check_expected, anchored, check_context}

-- What is asked of a value that may be left out.
unfoldable pub Required {ℓ} : {A : Type ℓ} → (A → Type 0) → Option A → Type 0
Required p none = Unit
Required p (some x) = p x

-- The search finds the text exactly once in the content, around the span.
unfoldable pub Surrounds : Bytes → ℕ → ℕ → Bytes → Type 0
Surrounds content span_start span_end text =
    (m : LocatedMatch) × (find_matches content text ≡ m ∷ [])
    × (m.byte_offset ≤ span_start)
    × (span_end ≤ m.byte_offset + m.length)

-- The content has the digest, the size and the number of lines of an expected state, and its
-- context surrounds the span: as far as the state names them.
unfoldable pub Satisfied : (Bytes → Text) → Option ExpectedState → Bytes → ℕ → ℕ → Type 0
unfolding Required Surrounds
Satisfied sha256_hex expected content span_start span_end =
    Required
      (λ x.
        Required (λ hash. hash ≡ sha256_hex content) x.hash
        × Required (λ size. size ≡ length content) x.size
        × Required (λ count. count ≡ line_count content) x.line_count
        × Required (Surrounds content span_start span_end) x.context)
      expected

differs-Required :
    (value : Option ℕ) (actual : ℕ)
    → differs value actual ≡ false
    → Required (λ v. v ≡ actual) value
unfolding differs Required
differs-Required none actual h = tt
differs-Required (some v) actual h = ground arith

-- The answers of `check` that a preflight accepts.
unfoldable passes : StateMatch → Bool
passes answer = elim answer [ matched ↦ true | context_pending ↦ true | _ ↦ false ]

check_expected-passes :
    (x : ExpectedState) (before : FileState)
    → check_expected (some x) before ≡ ok tt
    → passes (check before x) ≡ true
unfolding check_expected passes
check_expected-passes x before h = ground arith

check_rest-passes :
    (state : FileState) (x : ExpectedState)
    → passes (check_rest state x) ≡ true
    → Required (λ size. size ≡ state.size) x.size
      × Required (λ count. count ≡ state.line_count) x.line_count
unfolding check_rest passes
check_rest-passes state x h = (
  differs-Required x.size state.size (ground arith),
  differs-Required x.line_count state.line_count (ground arith),
)

check_hash-passes :
    (hash actual detail : Text) (rest : StateMatch)
    → passes (
        if not (is_valid_hash hash)
        then malformed invalid_hash_state detail
        else if not (text_eq hash actual)
        then conflicted hash_component
        else rest)
      ≡ true
    → (hash ≡ actual) × (passes rest ≡ true)
unfolding passes
check_hash-passes hash actual detail rest h =
    ((text_eq_iff hash actual).0 (ground arith), ground arith)

check-passes :
    (state : FileState) (x : ExpectedState) (named : Option Text)
    → x.hash ≡ named
    → passes (check state x) ≡ true
    → Required (λ hash. hash ≡ state.hash) named
      × Required (λ size. size ≡ state.size) x.size
      × Required (λ count. count ≡ state.line_count) x.line_count
unfolding check Required
check-passes state x none e h =
    let (size, count) = check_rest-passes state x (rw e at h) in (tt, size, count)
check-passes state x (some hash) e h =
    let (same, passed) = check_hash-passes hash state.hash _ (check_rest state x) (rw e at h) in
    let (size, count) = check_rest-passes state x passed in (same, size, count)

anchored-Surrounds :
    (path : Text) (content text : Bytes) (matches : List LocatedMatch) (span_start span_end : ℕ)
    → find_matches content text ≡ matches
    → anchored path matches span_start span_end ≡ ok tt
    → Surrounds content span_start span_end text
unfolding anchored Surrounds
anchored-Surrounds path content text [] span_start span_end f h = cc
anchored-Surrounds path content text (only ∷ []) span_start span_end f h =
    (only, f, ground arith, ground arith)
anchored-Surrounds path content text (m ∷ n ∷ others) span_start span_end f h = cc

check_context-Surrounds :
    (current : Preflight) (x : ExpectedState) (named : Option Bytes) (span_start span_end : ℕ)
    → x.context ≡ named
    → check_context current (some x) span_start span_end ≡ ok tt
    → Required (Surrounds current.content span_start span_end) named
unfolding check_context Required
check_context-Surrounds current x none span_start span_end e h = tt
check_context-Surrounds current x (some text) span_start span_end e h =
    anchored-Surrounds current.before.path current.content text _ span_start span_end refl
      (rw e at h)

-- What passes the preflight and the check of the context satisfies the expected state.
pub check-Satisfied :
    (sha256_hex : Bytes → Text) (path : Text) (expected : Option ExpectedState)
    (current : Preflight) (span_start span_end : ℕ)
    → current.before ≡ from_content sha256_hex path current.content
    → check_expected expected current.before ≡ ok tt
    → check_context current expected span_start span_end ≡ ok tt
    → Satisfied sha256_hex expected current.content span_start span_end
unfolding Satisfied from_content
check-Satisfied sha path none current span_start span_end b h c = tt
check-Satisfied sha path (some x) current span_start span_end b h c =
    let (hash, size, count) =
      check-passes (from_content sha path current.content) x x.hash refl
        (check_expected-passes x (from_content sha path current.content) (rw b at h)) in
    (hash, size, count, check_context-Surrounds current x x.context span_start span_end refl c)
