-- ===== src/Tests/LeaseTests.antt =====
-- gaottt/store/lease.py with three processes, a stale time of 30 ticks.
use ga_ottt.Base.{ℕ, ◌≡◌, refl, true, false, some, List, [], ◌∷◌, arith, ℕ_discrete}
use ga_ottt.Lease.{
  LockFile, missing, unreadable, readable, Config, Lease, acquire_existing, create_exclusive,
  release, refresh_heartbeat, owns,
}
use ga_ottt.Lease.Sections.{Owner}
use ga_ottt.Lease.World.{World, Action, update, act, run}
use ga_ottt.Lease.Creators.{IsOrderly, creator_unique}
use ga_ottt.Lease.Owners.{Undisturbed, run_keeps_Owner}

abbrev config : Config
config = record { stale_seconds = 30; force_takeover = false }

abbrev lease : ℕ → Lease ℕ
lease k = record { owner_id = k; pid = k; hostname = "host"; is_active = false }

abbrev held : LockFile ℕ
held = readable (record {
  owner_id = some 1;
  pid = 1;
  hostname = "host";
  started_at = 100;
  heartbeat_at = some 100;
  takeover_count = some 0;
})

abbrev start : World ℕ
start = record { file = missing; leases = lease; creating = λ k. false }

abbrev owned : World ℕ
owned = record start { file = held }

owned-IsOrderly : IsOrderly ℕ_discrete config owned
owned-IsOrderly = record { named = λ k. refl; empty = λ k c. cc; single = λ j k c d. cc }

abbrev race : List (Action ℕ)
race = Action.creates 1 ∷ Action.creates 2 ∷ Action.takes 2 true 5 ∷ Action.beats 3 6 ∷ []

creator_unique_example :
    ((run ℕ_discrete config start race).file ≡ unreadable)
    × ((run ℕ_discrete config start race).creating 2 ≡ false)
unfolding run act update create_exclusive acquire_existing refresh_heartbeat ℕ_discrete
creator_unique_example =
    creator_unique ℕ_discrete config start race 1 2 (λ i. refl) (λ i. refl) refl (omega arith)

abbrev quiet : List (Action ℕ)
quiet = Action.beats 1 120 ∷ Action.takes 2 false 140 ∷ Action.releases 3 ∷ []

quiet-Undisturbed : Undisturbed ℕ_discrete config owned 1 quiet
unfolding act update acquire_existing refresh_heartbeat owns release ℕ_discrete
quiet-Undisturbed = ((λ h. h), ((λ h. ground arith), ((λ e. absurd (omega arith)), tt)))

run_keeps_Owner_example : Owner (run ℕ_discrete config owned quiet).file 1
run_keeps_Owner_example =
    run_keeps_Owner ℕ_discrete config owned 1 quiet owned-IsOrderly refl quiet-Undisturbed
