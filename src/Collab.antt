-- ===== src/Collab.antt =====
-- core/collaboration.rs: who owns a task or a worktree, and the handoff of that ownership.
--
-- The inner `CollabResult` and the outer `anyhow::Result` of the source are one error type here,
-- `Failure`: `refused` is the inner error, `fault` the outer one. A call takes the file as it
-- stands and returns the new file with the record; on an error nothing has been written.
pub mod Calls
pub mod Names
pub mod Mutate
pub mod Invariant
pub mod Preservation
pub mod Handoff
pub mod Protocol
pub mod Race
pub mod Frame
pub mod Progress
mod Tests
use agent_workspace_hub.Prelude.{
  ℕ, ◌+◌, Bool, true, false, not, ◌&&◌, ◌||◌, Option, none, some, List, [], ◌∷◌, ◌++◌, Text, codes,
  text_eq, option_text_eq, byte_len, is_empty, has_char, contains, leb, ltb, ◌==◌, if◌then◌else◌,
  length, find, retain, replace_first, Result, ok, err, ◌>>=◌, ◌>>◌, guard, or_err,
}
use agent_workspace_hub.Host.{
  Disk, missing, unreadable, corrupt, stored, Host, HostFault, dir_failed, lock_failed, read_failed,
  corrupt_file, write_failed, wrap_u64,
}

abbrev pub collab_schema_version : ℕ
collab_schema_version = 1

abbrev pub max_collab_records : ℕ
max_collab_records = 10_000

abbrev pub max_resource_id_len : ℕ
max_resource_id_len = 256

abbrev pub max_note_len : ℕ
max_note_len = 512

pub data ResourceKind : Type 0 where
  task worktree : ResourceKind

pub data OwnershipState : Type 0 where
  assigned active handoff_requested handed_off released : OwnershipState

abbrev pub is_held : OwnershipState → Bool
is_held released = false
is_held _ = true

abbrev pub kind_eq : ResourceKind → ResourceKind → Bool
kind_eq task task = true
kind_eq worktree worktree = true
kind_eq _ _ = false

abbrev pub is_handoff_requested : OwnershipState → Bool
is_handoff_requested handoff_requested = true
is_handoff_requested _ = false

abbrev pub is_valid_ownership_transition : OwnershipState → OwnershipState → Bool
is_valid_ownership_transition assigned active = true
is_valid_ownership_transition assigned handoff_requested = true
is_valid_ownership_transition assigned released = true
is_valid_ownership_transition active handoff_requested = true
is_valid_ownership_transition active released = true
is_valid_ownership_transition handoff_requested handed_off = true
is_valid_ownership_transition handoff_requested released = true
is_valid_ownership_transition handoff_requested assigned = true
is_valid_ownership_transition handed_off released = true
is_valid_ownership_transition handed_off active = true
is_valid_ownership_transition _ _ = false

pub record CollabRecord : Type 0 where
  pub resource_kind : ResourceKind
  pub resource_id : Text
  pub owner_agent : Text
  pub owner_session : Option Text
  pub state : OwnershipState
  pub pending_to_agent : Option Text
  pub revision : ℕ  -- u64
  pub note : Option Text
  pub created_at : Text
  pub updated_at : Text

pub record CollabStoreFile : Type 0 where
  pub version : ℕ
  pub records : List CollabRecord

pub data CollabError : Type 0 where
  already_owned not_owned not_owner no_pending_handoff stale_revision invalid_state : CollabError

pub data Fault : Type 0 where
  host : HostFault → Fault
  invalid_resource_id note_too_long note_control_characters : Fault
  unsupported_version record_bound_exceeded store_full : Fault

pub data Failure : Type 0 where
  refused : CollabError → Failure
  fault : Fault → Failure

abbrev pub Store : Type 0
Store = Disk CollabStoreFile

unfoldable pub load : Store → Result Failure CollabStoreFile
load missing = ok (record { version = collab_schema_version; records = [] })
load unreadable = err (fault (host read_failed))
load corrupt = err (fault (host corrupt_file))
load (stored file) = do
  guard (file.version == collab_schema_version) (fault unsupported_version)
  guard (leb (length file.records) max_collab_records) (fault record_bound_exceeded)
  ok file

-- The directory is made and the lock taken before the file is read.
unfoldable pub open_store : Host → Store → Result Failure CollabStoreFile
open_store h d = do
  guard h.dir_ok (fault (host dir_failed))
  guard h.lock_ok (fault (host lock_failed))
  load d

unfoldable pub validate_resource : Text → Result Failure (Unit {0})
validate_resource id = do
  guard (not (is_empty id || ltb max_resource_id_len (byte_len id))) (fault invalid_resource_id)
  guard (not (has_char b'/' id || has_char b'\\' id || contains id (codes "..") || has_char 0 id))
      (fault invalid_resource_id)

unfoldable pub validate_note : Option Text → Result Failure (Unit {0})
validate_note none = ok tt
validate_note (some note) = do
  guard (leb (byte_len note) max_note_len) (fault note_too_long)
  guard (not (has_char 0 note || has_char b'\r' note || has_char b'\n' note))
      (fault note_control_characters)

-- The closure that the iterators of the store search by.
unfoldable pub names : ResourceKind → Text → CollabRecord → Bool
names kind id r = kind_eq r.resource_kind kind && text_eq r.resource_id id

-- The revision that `assign` writes: 1, or one more than that of the released record, if the
-- caller has echoed it.
unfoldable pub next_revision : Option CollabRecord → Option ℕ → ℕ → Result Failure ℕ
next_revision (some existing) expected count = do
  guard (not (is_held existing.state)) (refused already_owned)
  elim expected [
    | none ↦ err (refused stale_revision)
    | some e ↦
        if e == existing.revision
        then ok (wrap_u64 (existing.revision + 1))
        else err (refused stale_revision)
  ]
next_revision none expected count = do
  guard (not (leb max_collab_records count)) (fault store_full)
  ok 1

unfoldable pub assign :
    Host
    → ResourceKind
    → Text
    → Text
    → Option Text
    → Option Text
    → Option ℕ
    → Store
    → Result Failure (Store × CollabRecord)
assign h kind id owner session note expected d = do
  validate_resource id
  validate_note note
  file ← open_store h d
  revision ← next_revision (find (names kind id) file.records) expected (length file.records)
  let r : CollabRecord = record {
    resource_kind = kind;
    resource_id = id;
    owner_agent = owner;
    owner_session = session;
    state = assigned;
    pending_to_agent = none;
    revision = revision;
    note = note;
    created_at = h.now;
    updated_at = h.now;
  }
  guard h.save_ok (fault (host write_failed))
  ok (
    stored (record file { records = retain (λ x. not (names kind id x)) file.records ++ r ∷ [] }),
    r,
  )

abbrev pub owned_by : Option Text → CollabRecord → Bool
owned_by none r = true
owned_by (some acting) r = text_eq r.owner_agent acting

-- The end of `mutate`: nothing is written when the revision has not moved.
commit :
    Host
    → ResourceKind
    → Text
    → CollabStoreFile
    → ℕ
    → Store
    → CollabRecord
    → CollabRecord
    → Result Failure (Store × CollabRecord)
commit h kind id file expected d r' outcome =
    if r'.revision == expected
    then ok (d, outcome)
    else (guard h.save_ok (fault (host write_failed))
        >> ok (
          stored (record file {
            records = replace_first (names kind id) (record r' { updated_at = h.now }) file.records;
          }),
          outcome,
        ))

-- `apply` works on the record in place: it returns the record as it leaves it, and its outcome.
unfoldable pub mutate :
    Host
    → ResourceKind
    → Text
    → Option Text
    → ℕ
    → (CollabRecord → Result Failure (CollabRecord × CollabRecord))
    → Store
    → Result Failure (Store × CollabRecord)
unfolding commit
mutate h kind id acting expected apply d = do
  validate_resource id
  file ← open_store h d
  r ← or_err (find (names kind id) file.records) (refused not_owned)
  guard (owned_by acting r) (refused not_owner)
  guard (r.revision == expected) (refused stale_revision)
  (r', outcome) ← apply r
  commit h kind id file expected d r' outcome

abbrev twice : CollabRecord → CollabRecord × CollabRecord
twice r = (r, r)

-- The closures that the five operations hand to `mutate`.
abbrev pub activate_record : CollabRecord → Result Failure (CollabRecord × CollabRecord)
activate_record r = do
  guard (is_valid_ownership_transition r.state active) (refused invalid_state)
  ok (twice (record r { state = active; revision = wrap_u64 (r.revision + 1) }))

abbrev or_note : Option Text → Option Text → Option Text
or_note none old = old
or_note (some note) old = some note

abbrev pub request_record :
    Text → Option Text → CollabRecord → Result Failure (CollabRecord × CollabRecord)
request_record to_agent note r =
    if is_handoff_requested r.state && option_text_eq r.pending_to_agent (some to_agent)
    then ok (twice r)
    else (guard (is_valid_ownership_transition r.state handoff_requested) (refused invalid_state)
        >> ok (
            twice (record r {
              state = handoff_requested;
              pending_to_agent = some to_agent;
              note = or_note note r.note;
              revision = wrap_u64 (r.revision + 1);
            })))

abbrev pub accept_record : Text → CollabRecord → Result Failure (CollabRecord × CollabRecord)
accept_record accepting r = do
  guard (is_handoff_requested r.state) (refused invalid_state)
  guard (option_text_eq r.pending_to_agent (some accepting)) (refused no_pending_handoff)
  ok (
      twice (record r {
        state = handed_off;
        owner_agent = accepting;
        owner_session = none;
        pending_to_agent = none;
        revision = wrap_u64 (r.revision + 1);
      }))

abbrev pub release_record : CollabRecord → Result Failure (CollabRecord × CollabRecord)
release_record r = do
  guard (is_valid_ownership_transition r.state released) (refused invalid_state)
  ok (
      twice (record r {
        state = released;
        pending_to_agent = none;
        revision = wrap_u64 (r.revision + 1);
      }))

unfoldable pub get : ResourceKind → Text → Store → Result Failure (Option CollabRecord)
get kind id d = do validate_resource id; file ← load d; ok (find (names kind id) file.records)

abbrev found_in : ResourceKind → Text → Result Failure CollabStoreFile → Option CollabRecord
found_in k i (ok file) = find (names k i) file.records
found_in k i (err e) = none

-- The record that the store holds for a resource: what `get` returns at a valid id.
unfoldable pub record_of : ResourceKind → Text → Store → Option CollabRecord
record_of k i d = found_in k i (load d)
