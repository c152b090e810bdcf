-- ===== src/Backup/Restores.antt =====
-- backend/internal/backup/restores.go: the restore operations that the coordinator remembers.
pub mod Pruning
pub mod Bounded
pub mod Life
use account_manager.Prelude.{
  ok, err, Result, ◌>>=◌, Ctx, live, found, invalid, ℕ, ltb, Bool, true, false, ◌||◌, ◌&&◌, not,
  Option, none, some, Text, trim_space, is_empty, is_blank, List, [], ◌∷◌, ◌++◌, Map, length,
  lookup, insert, delete, values, if◌then◌else◌,
}
use account_manager.Domain.{
  BackupRun, BackupRunState, BackupRestoreOperation, BackupRestoreState, Time,
}
use account_manager.Memory.{Store}
use account_manager.Memory.BackupRuns.{get_backup_run}

-- The state under the coordinator's lock.
pub record RestoreCoordinator : Type 0 where
  pub operations : Map BackupRestoreOperation
  pub order : List Text

abbrev pub max_remembered_restore_operations : ℕ
max_remembered_restore_operations = 100

abbrev pub is_running : BackupRestoreState → Bool
is_running BackupRestoreState.running = true
is_running BackupRestoreState.succeeded = false
is_running BackupRestoreState.failed = false

-- `len(c.operations) >= maxRememberedRestoreOperations`
abbrev pub is_full : Map BackupRestoreOperation → Bool
is_full operations = not (ltb (length (values operations)) max_remembered_restore_operations)

-- the operation is there and is deleted
abbrev pub drops : Option BackupRestoreOperation → Bool → Bool
drops none full = false
drops (some operation) full = full && not (is_running operation.state)

-- the operation is there and its id is kept
abbrev pub stays : Option BackupRestoreOperation → Bool → Bool
stays none full = false
stays (some operation) full = not (full && not (is_running operation.state))

-- the loop of pruneLocked: the ids kept and the operations left
unfoldable pub prune_ids :
    List Text → Map BackupRestoreOperation → List Text × Map BackupRestoreOperation
prune_ids [] operations = ([], operations)
prune_ids (id ∷ ids) operations =
    let o = lookup id operations in
    let full = is_full operations in
    let (kept, left) = prune_ids ids (if drops o full then delete id operations else operations) in
    (if stays o full then id ∷ kept else kept, left)

pruned : List Text × Map BackupRestoreOperation → RestoreCoordinator
pruned (kept, left) = record { operations = left; order = kept }

-- RestoreCoordinator.pruneLocked
unfoldable pub prune_locked : RestoreCoordinator → RestoreCoordinator
unfolding pruned
prune_locked c = if is_full c.operations then pruned (prune_ids c.order c.operations) else c

abbrev pub is_succeeded : BackupRunState → Bool
is_succeeded BackupRunState.succeeded = true
is_succeeded _ = false

-- the run that Start looks up; `ctx n` is what `ctx.Err()` returns at the n-th question
unfoldable pub find_run : (ℕ → Ctx) → Text → Store → Result BackupRun
find_run ctx given s =
    let run_id = trim_space given in
    live (ctx 0) (if is_empty run_id then err invalid else get_backup_run (ctx 1) run_id s)

unfoldable pub check_restorable : BackupRun → Result BackupRun
check_restorable run =
    if not (is_succeeded run.state) || is_blank run.object_key || is_blank run.checksum
    then err invalid
    else ok run

-- `result == nil` is an error
unfoldable pub check_signal : Bool → Result (Unit {0})
check_signal true = ok tt
check_signal false = err invalid

-- What Start asks for before it takes the lock: the id and the run. `new_id` is what the generator
-- returns; `start_restore` is the starter, which returns an error or a channel that may be nil.
unfoldable pub admit :
    (ℕ → Ctx) → Text → Result Text → (Text → Result Bool) → Store → Result (Text × BackupRun)
unfolding find_run check_restorable check_signal
admit ctx run_id new_id start_restore s = do
  found_run ← find_run ctx run_id s
  run ← check_restorable found_run
  id ← new_id
  signal ← start_restore run.id
  _ ← check_signal signal
  ok (id, run)

abbrev pub new_operation : Text → BackupRun → Time → BackupRestoreOperation
new_operation id run now = record {
  id = id;
  run_id = run.id;
  target_id = run.target_id;
  state = BackupRestoreState.running;
  failure = [];
  started_at = now;
  finished_at = none;
  updated_at = now;
}

-- the part of Start under the lock
unfoldable pub register :
    Result (Text × BackupRun)
    → Time
    → RestoreCoordinator
    → Result BackupRestoreOperation × RestoreCoordinator
register (err e) now c = (err e, c)
register (ok (id, run)) now c =
    let operation = new_operation id run now in
    let c' = prune_locked c in
    (
      ok operation,
      record { operations = insert id operation c'.operations; order = c'.order ++ id ∷ [] },
    )

-- RestoreCoordinator.Start
unfoldable pub start :
    (ℕ → Ctx)
    → Text
    → Result Text
    → (Text → Result Bool)
    → Time
    → Store
    → RestoreCoordinator
    → Result BackupRestoreOperation × RestoreCoordinator
unfolding admit register
start ctx run_id new_id start_restore now s c =
    register (admit ctx run_id new_id start_restore s) now c

-- RestoreCoordinator.Get
unfoldable pub get : Ctx → Text → RestoreCoordinator → Result BackupRestoreOperation
get ctx id c = live ctx (found (lookup (trim_space id) c.operations))

-- the operation after the end of its restore; `failure` is the bounded text of the error, if any
unfoldable pub finished : Option Text → Time → BackupRestoreOperation → BackupRestoreOperation
finished none at operation = record operation {
  state = BackupRestoreState.succeeded;
  finished_at = some at;
  updated_at = at;
}
finished (some message) at operation = record operation {
  state = BackupRestoreState.failed;
  failure = message;
  finished_at = some at;
  updated_at = at;
}

unfoldable pub finish_found :
    Option BackupRestoreOperation
    → Text
    → Option Text
    → Time
    → RestoreCoordinator
    → RestoreCoordinator
unfolding finished
finish_found none id failure at c = c
finish_found (some operation) id failure at c = record c {
  operations = insert id (finished failure at operation) c.operations;
}

-- RestoreCoordinator.observe, once the result is there
unfoldable pub observe : Text → Option Text → Time → RestoreCoordinator → RestoreCoordinator
unfolding finish_found
observe id failure at c = finish_found (lookup id c.operations) id failure at c
