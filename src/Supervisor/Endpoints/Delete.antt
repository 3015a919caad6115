-- ===== src/Supervisor/Endpoints/Delete.antt =====
-- What `DELETE /admin/universes/{uid}` leaves behind, on every answer.
use ga_ottt.Base.{◌≡◌, false}
use ga_ottt.Dict.{lookup, has}
use ga_ottt.Registry.{get_universe, verify_api_key}
use ga_ottt.Registry.Tokens.{without}
use ga_ottt.Supervisor.Stop.{forget_pid}
use ga_ottt.Supervisor.Ensure.{is_active_row}
use ga_ottt.Supervisor.Endpoints.{Host, move_to_trash}

module _ {U T H I P : Type 0} (dec : Discrete U) (no_token : T) (same_hash : Discrete H)
    (hash_key : P → H) where
  -- The universe is gone: no directory, no active row, no process that is tracked, no key.
  abbrev pub Gone : Host U T H I → Host U T H I → U → P → Type 0
  Gone h h' uid key =
      (has dec uid h'.dirs ≡ false)
      × (is_active_row (get_universe dec h'.registry uid) ≡ false)
      × (verify_api_key dec same_hash hash_key h'.registry key
          ≡ without dec same_hash uid (verify_api_key dec same_hash hash_key h.registry key))

  -- Another universe is as it was.
  abbrev pub Kept : Host U T H I → Host U T H I → U → Type 0
  Kept h h' j =
      (has dec j h'.dirs ≡ has dec j h.dirs)
      × (has dec j h'.trash ≡ has dec j h.trash)
      × (get_universe dec h'.registry j ≡ get_universe dec h.registry j)
      × (lookup dec j h'.supervisor.backend_pids ≡ lookup dec j h.supervisor.backend_pids)
      × (lookup dec j h'.supervisor.token_files ≡ lookup dec j h.supervisor.token_files)

  -- The host with the directory of a stopped universe in the trash.
  abbrev pub trashed : Host U T H I → U → Host U T H I
  trashed h uid =
      move_to_trash dec no_token (record h { supervisor = forget_pid dec h.supervisor uid }) uid
