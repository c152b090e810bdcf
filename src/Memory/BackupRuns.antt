-- ===== src/Memory/BackupRuns.antt =====
-- The backup runs of memory/store.go: creation, the claim of the oldest pending run, and the lease
-- that snapshots and restores share.
pub mod Exclusive
pub mod Claim
pub mod Schedule
pub mod Leases
use account_manager.Prelude.{
  ok, err, Result, Ctx, live, live_on, found, conflict, not_found, invalid, ltb, ◌==◌, Bool, true,
  false, ◌||◌, ◌&&◌, Option, none, some, [], ◌∷◌, not, Text, text_eq, text_ltb, is_empty, List, Map,
  keep_if, any_value, lookup, has, insert, values, sort_by, if◌then◌else◌,
}
use account_manager.Domain.{BackupRun, BackupRunState, Time}
use account_manager.Domain.BackupRunState.{pending, running, succeeded, failed}
use account_manager.Ports.{ListOptions, paginate}
use account_manager.Memory.{Store}

-- `existing.State == BackupRunPending || existing.State == BackupRunRunning`
abbrev pub is_active : BackupRunState → Bool
is_active pending = true
is_active running = true
is_active succeeded = false
is_active failed = false

abbrev pub is_pending : BackupRunState → Bool
is_pending pending = true
is_pending _ = false

-- an active run of the target
abbrev pub occupies : Text → BackupRun → Bool
occupies target_id run = text_eq run.target_id target_id && is_active run.state

-- Store.CreateBackupRun
unfoldable pub create_backup_run : Ctx → BackupRun → Store → Result (Unit {0}) × Store
create_backup_run ctx run s = live_on ctx s (
    if not (has run.target_id s.backup_targets)
    then (err not_found, s)
    else if has run.id s.backup_runs
    then (err conflict, s)
    else if any_value (occupies run.target_id) s.backup_runs
    then (err conflict, s)
    else (ok tt, record s { backup_runs = insert run.id run s.backup_runs }))

-- a run of the target that is active or was not created before the due time
abbrev pub covers : Text → Time → BackupRun → Bool
covers target_id due_at run =
    occupies target_id run || (text_eq run.target_id target_id && not (ltb run.created_at due_at))

-- Store.CreateScheduledBackupRun
unfoldable pub create_scheduled_backup_run : Ctx → BackupRun → Time → Store → Result Bool × Store
create_scheduled_backup_run ctx run due_at s = live_on ctx s (
    if not (has run.target_id s.backup_targets)
    then (err not_found, s)
    else if any_value (covers run.target_id due_at) s.backup_runs
    then (ok false, s)
    else if has run.id s.backup_runs
    then (err conflict, s)
    else (ok true, record s { backup_runs = insert run.id run s.backup_runs }))

-- `run.CreatedAt.Before(selected.CreatedAt)`, or as old and of a smaller id
abbrev pub older : BackupRun → BackupRun → Bool
older run selected =
    ltb run.created_at selected.created_at
    || (run.created_at == selected.created_at && text_ltb run.id selected.id)

unfoldable pub choose : BackupRun → Option BackupRun → Option BackupRun
choose run none = some run
choose run (some selected) = if older run selected then some run else some selected

-- the loop of ClaimPendingBackupRun, with the run selected so far
unfoldable pub select_pending : List BackupRun → Option BackupRun → Option BackupRun
unfolding choose
select_pending [] selected = selected
select_pending (run ∷ runs) selected =
    select_pending runs (if is_pending run.state then choose run selected else selected)

unfoldable pub claim_selected : Option BackupRun → Time → Store → Result BackupRun × Store
claim_selected none started_at s = (err not_found, s)
claim_selected (some selected) started_at s =
    let claimed = record selected {
      state = running;
      started_at = some started_at;
      updated_at = started_at;
    } in
    (ok claimed, record s { backup_runs = insert selected.id claimed s.backup_runs })

-- Store.ClaimPendingBackupRun
unfoldable pub claim_pending_backup_run : Ctx → Time → Store → Result BackupRun × Store
unfolding claim_selected
claim_pending_backup_run ctx started_at s =
    live_on ctx s (claim_selected (select_pending (values s.backup_runs) none) started_at s)

-- Store.GetBackupRun
unfoldable pub get_backup_run : Ctx → Text → Store → Result BackupRun
get_backup_run ctx id s = live ctx (found (lookup id s.backup_runs))

-- Store.ListBackupRuns
unfoldable pub list_backup_runs : Ctx → Text → ListOptions → Store → Result (List BackupRun)
list_backup_runs ctx target_id options s = live ctx (
    ok (
      paginate
        (sort_by (λ a b. ltb b.created_at a.created_at)
          (keep_if (λ r. is_empty target_id || text_eq r.target_id target_id)
            (values s.backup_runs)))
        options))

unfoldable pub update_found : Option BackupRun → BackupRun → Store → Result (Unit {0}) × Store
update_found none run s = (err not_found, s)
update_found (some current) run s =
    if not (text_eq current.target_id run.target_id)
    then (err invalid, s)
    else (ok tt, record s { backup_runs = insert run.id run s.backup_runs })

-- Store.UpdateBackupRun
unfoldable pub update_backup_run : Ctx → BackupRun → Store → Result (Unit {0}) × Store
unfolding update_found
update_backup_run ctx run s = live_on ctx s (update_found (lookup run.id s.backup_runs) run s)

-- What TryAcquireBackupOperation hands out: the function that unlocks once.
pub record Lease : Type 0 where
  pub released : Bool

-- Store.TryAcquireBackupOperation
unfoldable pub try_acquire_backup_operation : Ctx → Store → Result (Option Lease) × Store
try_acquire_backup_operation ctx s = live_on ctx s (
    if s.backup_operation_locked
    then (ok none, s)
    else (ok (some (record { released = false })), record s { backup_operation_locked = true }))

-- a call of the returned function
unfoldable pub release_lease : Lease → Store → Lease × Store
release_lease lease s =
    if lease.released
    then (lease, s)
    else (record lease { released = true }, record s { backup_operation_locked = false })
