-- ===== src/Tests/Backups.antt =====
-- Tests of the backup runs, the lease and the scheduler.
use account_manager.Prelude.{
  Ctx, ◌≤◌, ◌⊎◌, ◌≡◌, ◌+◌, ◌<◌, ◌*◌, refl, false, none, some, ok, Error, codes, List, [], ◌∷◌,
  length, values, lookup, has, insert, any_value, sort_by, place, arith, if◌then◌else◌,
}
use account_manager.Domain.{BackupRun}
use account_manager.Memory.{Store, new, setting_at}
use account_manager.Memory.BackupTargets.{create_backup_target, sorted_targets}
use account_manager.Memory.BackupRuns.{
  create_backup_run, create_scheduled_backup_run, claim_pending_backup_run, update_backup_run,
  try_acquire_backup_operation,
}
use account_manager.Memory.BackupRuns.Exclusive.{IsExclusive, Revives, runs-IsExclusive}
use account_manager.Memory.BackupRuns.Claim.{IsClaimed, claim_pending-oldest}
use account_manager.Memory.BackupRuns.Schedule.{create_each, IsExcused, create_scheduled-once}
use account_manager.Memory.BackupRuns.Leases.{
  Holders, IsReachable, started, stepped, granted, held, leases-exclusive,
}
use account_manager.Memory.Consistency.{IsConsistent, new-IsConsistent}
use account_manager.Memory.Consistency.Catalog.{create_backup_target-IsConsistent}
use account_manager.Memory.Consistency.Runs.{create_backup_run-IsConsistent}
use account_manager.Backup.Scheduler.{Library, page_size, list_targets_from, run_once}
use account_manager.Backup.Scheduler.Targets.{list_targets_from-enough}
use account_manager.Backup.Scheduler.Runs.{run_once-IsSound}
use account_manager.Tests.Data.{target, run}

-- A store with one target.
abbrev ready : Store
ready = (create_backup_target none target (new 0)).1

-- The same with a pending run of the target.
abbrev queued : Store
queued = (create_backup_run none run ready).1

ready-IsConsistent : IsConsistent ready
ready-IsConsistent = create_backup_target-IsConsistent none target (new 0) (new-IsConsistent 0)

queued-IsConsistent : IsConsistent queued
queued-IsConsistent = create_backup_run-IsConsistent none run ready ready-IsConsistent

ready-IsExclusive : IsExclusive ready
unfolding new lookup create_backup_target any_value has
ready-IsExclusive i j q r p = cc

runs-IsExclusive_example :
    IsExclusive (create_backup_run none run ready).1
    × IsExclusive (create_scheduled_backup_run none run 20 ready).1
    × IsExclusive (claim_pending_backup_run none 50 ready).1
    × (IsExclusive (update_backup_run none run ready).1 ⊎ Revives run ready)
runs-IsExclusive_example =
    runs-IsExclusive none run 20 50 ready ready-IsConsistent ready-IsExclusive

claim_pending-oldest_example : IsClaimed 50 queued (claim_pending_backup_run none 50 queued)
claim_pending-oldest_example = claim_pending-oldest 50 queued queued-IsConsistent

-- Two more attempts for the same due time, the first with a cancelled context.
abbrev attempts : List (Ctx × BackupRun)
attempts =
    (some Error.canceled, record run { id = codes "r2" })
    ∷ (none, record run { id = codes "r3" })
    ∷ []

create_scheduled-once_example :
    let (count, last) = create_each ((none, run) ∷ attempts) 20 ready in
    (count ≤ 1)
    × (length (values last.backup_runs) ≡ length (values ready.backup_runs) + count)
    × ((1 ≤ count) ⊎ IsExcused run 20 ready)
create_scheduled-once_example =
    create_scheduled-once run 20 attempts ready (omega arith)
      ((refl, omega arith), ((refl, omega arith), tt))

acquire_first :
    (try_acquire_backup_operation none (new 0)).0 ≡ ok (some (record { released = false }))
unfolding new try_acquire_backup_operation
acquire_first = refl

abbrev holding : Holders
holding = record {
  store = (try_acquire_backup_operation none (new 0)).1;
  leases = record { released = false } ∷ [];
}

holding-IsReachable : IsReachable holding
holding-IsReachable =
    stepped (record { store = new 0; leases = [] }) holding (started 0)
      (granted none (record { store = new 0; leases = [] }) (record { released = false })
        acquire_first)

leases-exclusive_example :
    held holding.leases ≡ (if holding.store.backup_operation_locked then 1 else 0)
leases-exclusive_example = leases-exclusive holding holding-IsReachable

abbrev hourly : Library
hourly = record {
  to_lower = λ t. t;
  parse = λ _. some (λ t. some (t + 3600));
  new_id = λ n. ok (codes "brun_1");
}

one_target : length (sorted_targets ready) < page_size * 1
unfolding new has any_value insert create_backup_target sorted_targets sort_by place values
    setting_at
one_target = omega arith

list_targets_from-enough_example :
    list_targets_from 1 (λ _. none) 0 0 [] ready ≡ some (ok (sorted_targets ready))
list_targets_from-enough_example =
    list_targets_from-enough 1 (λ _. none) ready (λ _. refl) one_target

run_once-IsSound_example :
    (errors : List Error) × (s' : Store) × (run_once 1 hourly 9000 (λ _. none) ready
      ≡ some (errors, s'))
    × IsConsistent s'
    × IsExclusive s'
run_once-IsSound_example =
    run_once-IsSound 1 hourly 9000 (λ _. none) ready ready-IsConsistent ready-IsExclusive one_target
