-- ===== src/Sessions.antt =====
-- core/sessions.rs and models/session.rs: one JSON file for each session, below `.agent/sessions`.
pub mod Lifecycle
pub mod Settled
mod Tests
use agent_workspace_hub.Prelude.{
  ℕ, Bool, true, false, not, ◌&&◌, Option, none, some, Text, codes, text_eq, is_empty, byte_len,
  leb, has_char, contains, any, is_control, option_text_eq, if◌then◌else◌, Result, ok, err, ◌>>=◌,
  ◌>>◌, guard,
}
use agent_workspace_hub.Host.{
  Disk, missing, unreadable, corrupt, stored, Host, HostFault, dir_failed, lock_failed, read_failed,
  corrupt_file, write_failed,
}
use agent_workspace_hub.Policy.{file_name}

pub data SessionStatus : Type 0 where
  active paused stopped failed : SessionStatus

abbrev pub is_usable : SessionStatus → Bool
is_usable active = true
is_usable paused = true
is_usable stopped = false
is_usable failed = false

pub record AgentSessionRecord : Type 0 where
  pub session_id : Text
  pub agent_id : Text
  pub workspace_id : Text
  pub status : SessionStatus
  pub created_at : Text
  pub last_activity_at : Text

abbrev pub max_id_len : ℕ
max_id_len = 128

unfoldable pub is_valid_transition : SessionStatus → SessionStatus → Bool
is_valid_transition active to = true
is_valid_transition paused to = true
is_valid_transition stopped active = false
is_valid_transition stopped paused = false
is_valid_transition stopped stopped = true
is_valid_transition stopped failed = false
is_valid_transition failed active = false
is_valid_transition failed paused = false
is_valid_transition failed stopped = false
is_valid_transition failed failed = true

unfoldable pub is_safe_session_id : Text → Bool
is_safe_session_id id =
    not (is_empty id)
    && leb (byte_len id) max_id_len
    && not (text_eq id (codes "."))
    && not (text_eq id (codes ".."))
    && not (has_char b'/' id)
    && not (has_char b'\\' id)
    && not (contains id (codes ".."))
    && not (any is_control id)
    && option_text_eq (file_name id) (some id)

pub data SessionFault : Type 0 where
  host : HostFault → SessionFault
  invalid_session_id invalid_transition : SessionFault

-- The directory: the file of each id.
abbrev pub Store : Type 0
Store = Text → Disk AgentSessionRecord

abbrev pub write_record : Text → AgentSessionRecord → Store → Store
write_record id session files other = if text_eq other id then stored session else files other

abbrev pub read_record : Disk AgentSessionRecord → Result SessionFault (Option AgentSessionRecord)
read_record missing = ok none
read_record unreadable = err (host read_failed)
read_record corrupt = err (host corrupt_file)
read_record (stored session) = ok (some session)

-- The checks of `record_path` and `transition` before the record is touched.
unfoldable pub lock_record : Host → Text → Result SessionFault (Unit {0})
lock_record h id = do
  guard (is_safe_session_id id) invalid_session_id
  guard h.dir_ok (host dir_failed)
  guard h.lock_ok (host lock_failed)

unfoldable pub create : Host → AgentSessionRecord → Store → Result SessionFault Store
create h session files = do
  lock_record h session.session_id
  guard h.save_ok (host write_failed)
  ok (write_record session.session_id session files)

-- The rest of `transition`, with what was read.
unfoldable pub transition_found :
    Host
    → Text
    → SessionStatus
    → Store
    → Option AgentSessionRecord
    → Result SessionFault (Store × Option AgentSessionRecord)
transition_found h id next files none = ok (files, none)
transition_found h id next files (some session) = do
  guard (is_valid_transition session.status next) invalid_transition
  let moved = record session { status = next; last_activity_at = h.now }
  guard h.save_ok (host write_failed)
  ok (write_record id moved files, some moved)

unfoldable pub transition :
    Host → Text → SessionStatus → Store → Result SessionFault (Store × Option AgentSessionRecord)
transition h id next files = do
  lock_record h id
  found ← read_record (files id)
  transition_found h id next files found

unfoldable pub get : Text → Store → Result SessionFault (Option AgentSessionRecord)
get id files = if is_safe_session_id id then read_record (files id) else ok none
