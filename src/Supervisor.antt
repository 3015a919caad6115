-- ===== src/Supervisor.antt =====
-- gaottt/multiverse/supervisor.py, `_Supervisor` and the routes of its application: which backend
-- process serves which universe. What the outside answers (processes, signals, probes of a port,
-- fresh random tokens) are arguments, one for each place that asks. Times are counts of polls: a loop
-- until a deadline is the list of the answers that it gets. The locks make each of these operations
-- one step for its universe; logging and the usage events of the control client are left out, and the
-- backup hook, which swallows its own errors, too.
pub mod Stop
pub mod Ensure
pub mod Recycle
pub mod Endpoints
pub mod Creation
pub mod Embedder
use ga_ottt.Base.{ℕ, Bool, true, false, Option, none, some, List, [], ◌∷◌, ◌||◌}
use ga_ottt.Dict.{Dict, lookup, insert, erase}

-- `_probe_backend_with_token`
pub data Probe : Type 0 where
  probe_ok probe_unauthorized probe_down : Probe

-- `os.kill`
pub data Kill : Type 0 where
  signalled process_lookup_error permission_error : Kill

-- `os.waitpid(pid, WNOHANG)`
pub data Wait : Type 0 where
  running exited child_process_error : Wait

-- The fields of `_Supervisor` on backends, the token files of the universes, and how many backend
-- processes it has started.
pub record Supervisor (U T : Type 0) : Type 0 where
  pub backend_pids : Dict U ℕ
  pub token_files : Dict U T
  pub spawned : ℕ

abbrev pub is_ok : Probe → Bool
is_ok probe_ok = true
is_ok probe_unauthorized = false
is_ok probe_down = false

-- Does a loop of polls meet a good one?
unfoldable pub any : {A : Type 0} → (A → Bool) → List A → Bool
any p [] = false
any p (a ∷ as') = p a || any p as'

-- `_process_alive`
abbrev pub process_alive : Wait → Bool
process_alive running = true
process_alive exited = false
process_alive child_process_error = false
