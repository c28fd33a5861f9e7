-- ===== src/Host.antt =====
-- What the stores take from the host: the file that holds a store as JSON (core/collaboration.rs,
-- core/tasks.rs and core/policy.rs each keep one), and what the directory, the lock, the write
-- and the clock answer within one call. JSON, the file system, the lock file and the clock are
-- not code of the stores: a file is read as one of four outcomes, and the rest are arguments.
use agent_workspace_hub.Prelude.{Bool, Text, ℕ, ◌%◌, ◌^◌}

-- A store's file, as a read finds it. A write is a temporary file that is renamed over the old
-- one, so a failed write leaves the old file.
pub data Disk {ℓ} (F : Type ℓ) : Type ℓ where
  missing : Disk F
  unreadable : Disk F
  corrupt : Disk F
  stored : F → Disk F

-- The answers of one call: `create_dir_all`, `StoreLock::acquire`, the atomic write, the clock.
pub record Host : Type 0 where
  pub dir_ok : Bool
  pub lock_ok : Bool
  pub save_ok : Bool
  pub now : Text

-- Why a host operation failed.
pub data HostFault : Type 0 where
  dir_failed lock_failed read_failed corrupt_file write_failed : HostFault

-- Addition on `u64` and `usize` wraps in a release build.
abbrev pub wrap_u64 : ℕ → ℕ
wrap_u64 n = n % 2 ^ 64
