-- ===== src/Tests/Engine/Witnesses.antt =====
-- The theorems of the backup engine and of the worker, applied.
use account_manager.Prelude.{
  ok, err, Error, none, some, true, false, codes, [], ◌∷◌, text_eq, lookup, insert, ◌≡◌, refl, ◌≤◌,
  ◌<◌, pos, has, any_value, values, arith, ap, sym, some-inj, ◌==◌, if◌then◌else◌, ◌+◌,
}
use account_manager.Domain.{Bytes, BackupTarget, BackupRun}
use account_manager.Memory.{new, setting_at}
use account_manager.Memory.BackupTargets.{create_backup_target}
use account_manager.Memory.BackupRuns.{
  create_backup_run, claim_pending_backup_run, claim_selected, select_pending, choose,
  update_backup_run, update_found,
}
use account_manager.Memory.Consistency.{IsConsistent, new-IsConsistent}
use account_manager.Memory.Consistency.Catalog.{create_backup_target-IsConsistent}
use account_manager.Memory.Consistency.Runs.{create_backup_run-IsConsistent}
use account_manager.Backup.Failure.{byte_len, bounded_run_error}
use account_manager.Backup.Failure.Bounded.{IsPlain, bounded_run_error-le}
use account_manager.Backup.Engine.{
  succeeded_run, started_run, recorded, mark_started, stored, upload, sealed_envelope,
  execute_marked, execute, restore, is_executable,
}
use account_manager.Backup.Platform.{World, Moments, completed, refused}
use account_manager.Backup.Engine.RoundTrip.{restore-execute}
use account_manager.Backup.Engine.Authentic.{IsSound, restore-IsSound}
use account_manager.Backup.Engine.Stranded.{execute_stranded}
use account_manager.Backup.Worker.{process_next, drain, start_restore}
use account_manager.Backup.Worker.Leased.{process_next-lease}
use account_manager.Backup.Worker.Restoring.{IsLeased, start_restore-IsLeased}
use account_manager.Backup.Worker.Draining.{pending_runs, drain-pending}
use account_manager.Backup.Worker.Ending.{IsEnded, process_next-IsEnded}
use account_manager.Tests.Data.{target, run}
use account_manager.Tests.Engine.{
  Objects, platform, platform-IsHonest, replace_database, moments, world,
}

bounded_run_error-le_example :
    (byte_len (bounded_run_error (λ e. codes "broken  pipe") (some Error.external)) ≤ 1000)
    × IsPlain (bounded_run_error (λ e. codes "broken  pipe") (some Error.external))
bounded_run_error-le_example =
    bounded_run_error-le (λ e. codes "broken  pipe") (some Error.external)

world-IsConsistent : IsConsistent world.repository
world-IsConsistent =
    create_backup_run-IsConsistent none run (create_backup_target none target (new 0)).1
      (create_backup_target-IsConsistent none target (new 0) (new-IsConsistent 0))

world_lock : world.repository.backup_operation_locked ≡ false
unfolding new create_backup_target create_backup_run any_value has insert text_eq
world_lock = refl

process_next-lease_example :
    ((process_next platform moments world).1.repository.backup_operation_locked
      ≡ world.repository.backup_operation_locked)
    × IsConsistent (process_next platform moments world).1.repository
process_next-lease_example = process_next-lease platform moments world world-IsConsistent

start_restore-IsLeased_example :
    IsLeased platform world (start_restore platform (λ n. none) (codes "r1") world)
start_restore-IsLeased_example = start_restore-IsLeased platform (λ n. none) (codes "r1") world

-- The run as the claim left it, and once its object is stored.
abbrev claimed : BackupRun
claimed = started_run 100 run

abbrev done : BackupRun
done =
    succeeded_run
      (record { object_key = codes "account-manager/2026/01/02/r1.snapshot"; size_bytes = pos 7 })
      (48 ∷ 1 ∷ 2 ∷ 3 ∷ []) 102 (started_run 101 run)

abbrev after : World Objects Bytes
after = (execute platform moments tt run target world).1

execute-done : execute platform moments tt run target world ≡ (completed done, after)
unfolding new setting_at create_backup_target create_backup_run any_value has insert text_eq execute
    execute_marked upload stored recorded mark_started sealed_envelope update_backup_run
    update_found lookup
execute-done = refl

restore-execute_example :
    (raw : Bytes) × (platform.snapshot none
        ((mark_started none 101 run world.repository).1, world.database)
      ≡ ok (ok raw))
    × (lookup done.id after.repository.backup_runs ≡ some done)
    × (restore platform (λ _. none) tt done (record after { database = 9 ∷ [] }) ≡ (
      (replace_database none raw (after.repository, 9 ∷ [])).0,
      record after {
        repository = (replace_database none raw (after.repository, 9 ∷ [])).1.0;
        database = (replace_database none raw (after.repository, 9 ∷ [])).1.1;
      },
    ))
restore-execute_example =
    restore-execute platform moments tt run target world after (record after { database = 9 ∷ [] })
      done replace_database platform-IsHonest refl execute-done refl

restore-IsSound_example :
    IsSound platform (λ _. none) tt done after (restore platform (λ _. none) tt done after)
restore-IsSound_example = restore-IsSound platform (λ _. none) tt done after

world_pending : pending_runs world.repository < 3
unfolding new create_backup_target create_backup_run any_value has insert text_eq values
world_pending = omega arith

drain-pending_example :
    (w' : World Objects Bytes) × (drain platform 3 (λ _. moments) 0 world ≡ some w')
    × (pending_runs w'.repository ≡ 0)
    × (w'.repository.backup_operation_locked ≡ false)
drain-pending_example =
    drain-pending platform 3 (λ _. moments) 0 world world-IsConsistent world_lock (λ k i. refl)
      world_pending

world_claim :
    (claim_pending_backup_run none 100
      (record world.repository { backup_operation_locked = true })).0
    ≡ ok claimed
unfolding new create_backup_target create_backup_run any_value has insert text_eq values
    claim_pending_backup_run claim_selected select_pending choose
world_claim = refl

world_target :
    (t : BackupTarget)
    → lookup claimed.target_id world.repository.backup_targets ≡ some t
    → t.id ≡ claimed.target_id
unfolding new create_backup_target create_backup_run any_value has insert text_eq lookup
world_target t e = ap (λ x. x.id) (sym (some-inj e))

process_next-IsEnded_example : IsEnded claimed.id (process_next platform moments world).1.repository
process_next-IsEnded_example =
    process_next-IsEnded platform moments (λ i. refl) refl world claimed world_lock world_claim
      (refl, refl, world_target)

-- The claimed run in the store, and a context that ends after the upload.
abbrev running_world : World Objects Bytes
running_world = record world { repository = (claim_pending_backup_run none 100 world.repository).1 }

abbrev ending : Moments
ending = record {
  ctx = λ n. if n == 4 then some Error.canceled else none;
  clock = λ n. 100 + n;
  persist = none;
}

running_there :
    (lookup claimed.id running_world.repository.backup_runs ≡ some claimed)
    × (has (codes "t1") running_world.repository.backup_targets ≡ true)
unfolding new create_backup_target create_backup_run any_value has insert text_eq values lookup
    claim_pending_backup_run claim_selected select_pending choose
running_there = (refl, refl)

abbrev uploaded : Objects
uploaded = (codes "account-manager/2026/01/02/r1.snapshot", 1 ∷ 2 ∷ 3 ∷ []) ∷ []

running_sealed :
    sealed_envelope platform ending (running_world.repository, running_world.database)
    ≡ ok (1 ∷ 2 ∷ 3 ∷ [])
unfolding sealed_envelope text_eq
running_sealed = refl

running_put :
    platform.put
      (ending.ctx 3)
      tt
      (codes "account-manager/2026/01/02/r1.snapshot")
      (1 ∷ 2 ∷ 3 ∷ [])
      []
    ≡ (
      ok (record {
        object_key = codes "account-manager/2026/01/02/r1.snapshot";
        size_bytes = pos 7;
      }),
      uploaded,
    )
unfolding insert
running_put = refl

claimed_executable : is_executable claimed target ≡ true
unfolding text_eq
claimed_executable = refl

execute_stranded_example :
    (execute platform ending tt claimed target running_world
      ≡ (refused Error.canceled, record running_world { objects = uploaded }))
    × ((create_backup_run none run
          (execute platform ending tt claimed target running_world).1.repository).0
        ≡ err Error.conflict)
execute_stranded_example =
    execute_stranded platform ending tt claimed run target running_world (1 ∷ 2 ∷ 3 ∷ [])
      (record { object_key = codes "account-manager/2026/01/02/r1.snapshot"; size_bytes = pos 7 })
      uploaded Error.canceled claimed_executable refl running_sealed running_put refl
      running_there.0 refl running_there.1
