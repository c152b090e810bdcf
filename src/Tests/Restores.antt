-- ===== src/Tests/Restores.antt =====
-- Tests of the restore operations.
use account_manager.Prelude.{
  ◌≡◌, refl, ok, none, true, codes, [], lookup, insert, text_eq, trim_space, has, any_value,
  is_blank,
}
use account_manager.Domain.{BackupRun, BackupRunState, BackupRestoreOperation}
use account_manager.Memory.{Store, new, setting_at}
use account_manager.Memory.BackupTargets.{create_backup_target}
use account_manager.Memory.BackupRuns.{create_backup_run, get_backup_run}
use account_manager.Backup.Restores.{
  RestoreCoordinator, find_run, check_restorable, check_signal, admit, register, new_operation,
  prune_locked, start,
}
use account_manager.Backup.Restores.Bounded.{IsTracked, IsStarted, start-IsStarted}
use account_manager.Tests.Data.{target, run}

abbrev done_run : BackupRun
done_run = record run {
  state = BackupRunState.succeeded;
  object_key = codes "backup-1";
  checksum = codes "abc";
}

-- A store with a run that can be restored.
abbrev with_backup : Store
with_backup = (create_backup_run none done_run (create_backup_target none target (new 0)).1).1

abbrev empty : RestoreCoordinator
empty = record { operations = []; order = [] }

abbrev operation : BackupRestoreOperation
operation = new_operation (codes "brestore_1") done_run 70

abbrev started_one : RestoreCoordinator
started_one =
    (start (λ _. none) (codes " r1") (ok (codes "brestore_1")) (λ _. ok true) 70 with_backup
      empty).1

start_one :
    (start
      (λ _. none)
      (codes " r1")
      (ok (codes "brestore_1"))
      (λ _. ok true)
      70
      with_backup
      empty).0
    ≡ ok operation
unfolding new setting_at has lookup insert any_value text_eq create_backup_target create_backup_run
    get_backup_run find_run check_restorable check_signal admit register prune_locked start
    trim_space is_blank
start_one = refl

empty-IsTracked : IsTracked empty
unfolding lookup
empty-IsTracked k o p = cc

start-IsStarted_example : IsStarted empty operation started_one
start-IsStarted_example =
    start-IsStarted (λ _. none) (codes " r1") (ok (codes "brestore_1")) (λ _. ok true) 70
      with_backup empty operation empty-IsTracked start_one
