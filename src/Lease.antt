-- ===== src/Lease.antt =====
-- gaottt/store/lease.py, `OwnerLease`: who owns a data directory, by the content of `owner.lock`.
-- The lock file is missing, unreadable (empty while its creator has not written it, or corrupt), or
-- a JSON object, of which any field may be missing. Each function below is one critical section:
-- `flock` on the guard file makes a read, a judgement and a write one step, and `O_EXCL` makes the
-- creation of the file one. Times are ticks of the clock, an argument of each call, and
-- `now - heartbeat_at > stale` is written `heartbeat_at + stale < now`. Owner ids are a parameter.
-- The operating system's other failures (no space, no permission) are left out.
pub mod World
pub mod Sections
pub mod Creators
pub mod Owners
use Prim.Native.String.{String}
use ga_ottt.Base.{
  ℕ, ◌+◌, Bool, true, false, ◌||◌, Option, none, some, ite, if◌then◌else◌, ltb, or_else,
}

pub record Payload (K : Type 0) : Type 0 where
  pub owner_id : Option K
  pub pid : ℕ
  pub hostname : String
  pub started_at : ℕ
  pub heartbeat_at : Option ℕ
  pub takeover_count : Option ℕ

pub data LockFile (K : Type 0) : Type 0 where
  missing unreadable : LockFile K
  readable : Payload K → LockFile K

pub record Config : Type 0 where
  pub stale_seconds : ℕ
  pub force_takeover : Bool

pub record Lease (K : Type 0) : Type 0 where
  pub owner_id : K
  pub pid : ℕ
  pub hostname : String
  pub is_active : Bool

pub data Outcome : Type 0 where
  acquired held_error os_error : Outcome

-- What a critical section leaves: the lock file, the lease object and the answer.
pub record After (K R : Type 0) : Type 0 where
  pub file : LockFile K
  pub lease : Lease K
  pub answer : R

module _ {K : Type 0} where
  unfoldable pub new_payload : Lease K → ℕ → ℕ → Payload K
  new_payload l now takeover_count = record {
    owner_id = some l.owner_id;
    pid = l.pid;
    hostname = l.hostname;
    started_at = now;
    heartbeat_at = some now;
    takeover_count = some takeover_count;
  }

  unfoldable pub read_lock_json : LockFile K → Option (Payload K)
  read_lock_json missing = none
  read_lock_json unreadable = none
  read_lock_json (readable p) = some p

  unfoldable pub acquire_existing : Config → Lease K → LockFile K → Bool → ℕ → After K Outcome
  unfolding read_lock_json new_payload
  acquire_existing cfg l file force now = elim (read_lock_json file) [
    | none ↦ record { file = file; lease = l; answer = held_error }
    | some p ↦
        let is_stale = ltb (or_else p.heartbeat_at 0 + cfg.stale_seconds) now in
        if force || (cfg.force_takeover || is_stale)
        then record {
          file = readable (new_payload l now (or_else p.takeover_count 0 + 1));
          lease = record l { is_active = true };
          answer = acquired;
        }
        else record { file = file; lease = l; answer = held_error }
  ]

  -- `os.open` with `O_CREAT | O_EXCL`: the empty file, or `FileExistsError`.
  unfoldable pub create_exclusive : LockFile K → Option (LockFile K)
  create_exclusive missing = some unreadable
  create_exclusive unreadable = none
  create_exclusive (readable p) = none

  -- The creator writes its payload; if that fails it removes the file and raises.
  unfoldable pub publish : Lease K → ℕ → Bool → After K Outcome
  unfolding new_payload
  publish l now writes =
      if writes
      then record {
        file = readable (new_payload l now 0);
        lease = record l { is_active = true };
        answer = acquired;
      }
      else record { file = missing; lease = l; answer = os_error }

  -- The whole of `acquire` with no other process between its steps; `now` is read anew on the
  -- existing path.
  unfoldable pub acquire : Config → Lease K → LockFile K → Bool → ℕ → ℕ → Bool → After K Outcome
  unfolding create_exclusive publish acquire_existing
  acquire cfg l file force now later writes = elim (create_exclusive file) [
    | none ↦ acquire_existing cfg l file force later
    | some f ↦ publish l now writes
  ]

module _ {K : Type 0} (dec : Discrete K) where
  -- `data.get("owner_id") == self.owner_id`
  unfoldable pub owns : Lease K → Payload K → Bool
  owns l p = elim p.owner_id [ none ↦ false | some k ↦ ite (dec k l.owner_id) true false ]

  -- The early return on an unreadable lock leaves `_is_active` as it was.
  unfoldable pub release : Lease K → LockFile K → After K (Unit {0})
  unfolding owns read_lock_json
  release l file = elim (read_lock_json file) [
    | none ↦ record { file = file; lease = l; answer = tt }
    | some p ↦ record {
      file = if owns l p then missing else file;
      lease = record l { is_active = false };
      answer = tt;
    }
  ]

  -- The property `is_active`, which reads the file again.
  unfoldable pub is_active : Lease K → LockFile K → Bool
  unfolding owns read_lock_json
  is_active l file = elim (read_lock_json file) [ none ↦ false | some p ↦ owns l p ]

  unfoldable pub refresh_heartbeat : Lease K → LockFile K → ℕ → After K Bool
  unfolding owns read_lock_json
  refresh_heartbeat l file now = elim (read_lock_json file) [
    | none ↦ record { file = file; lease = record l { is_active = false }; answer = false }
    | some p ↦
        if owns l p
        then record {
          file = readable (record p { heartbeat_at = some now });
          lease = l;
          answer = true;
        }
        else record { file = file; lease = record l { is_active = false }; answer = false }
  ]
