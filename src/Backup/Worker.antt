-- ===== src/Backup/Worker.antt =====
-- backend/internal/backup/worker.go: the worker that claims pending runs and executes them, and that
-- starts restores, under the lease of the memory store.
pub mod Leased
pub mod Restoring
pub mod Draining
pub mod Ending
use account_manager.Prelude.{
  ok, err, Result, ◌>>=◌, Ctx, live, invalid, conflict, ℕ, ◌+◌, zero, suc, Bool, true, false, ◌||◌,
  not, Option, none, some, Text, trim_space, is_blank, Error, is_not_found, if◌then◌else◌,
}
use account_manager.Domain.{Time, BackupTarget, BackupRun}
use account_manager.Memory.{Store}
use account_manager.Memory.BackupRuns.{
  Lease, try_acquire_backup_operation, release_lease, claim_pending_backup_run, get_backup_run,
  update_backup_run,
}
use account_manager.Memory.BackupTargets.{get_backup_target}
use account_manager.Backup.Restores.{check_restorable}
use account_manager.Backup.Failure.{bounded_run_error}
use account_manager.Backup.Engine.{failed_run, execute, restore}
use account_manager.Backup.Platform.{Platform, World, Moments, Executed, completed, failed, refused}

-- What ProcessNext returns.
pub record Processed : Type 0 where
  pub found_run : Bool
  pub failure : Option Error

abbrev pub nothing_to_do : Processed
nothing_to_do = record { found_run = false; failure = none }

abbrev pub ended_with : Error → Processed
ended_with e = record { found_run = true; failure = some e }

abbrev pub failure_of : Executed → Option Error
failure_of (completed run) = none
failure_of (failed run cause) = some cause
failure_of (refused e) = some e

unfoldable pub cause_or : Error → Result (Unit {0}) × Store → Error × Store
cause_or cause (ok _, s) = (cause, s)
cause_or cause (err e, s) = (e, s)

-- `if !target.Enabled`
unfoldable pub check_enabled : BackupTarget → Result BackupTarget
check_enabled target = if target.enabled then ok target else err invalid

-- `if err := ctx.Err()`
abbrev pub check_live : Ctx → Result (Unit {0})
check_live ctx = live ctx (ok tt)

abbrev pub is_given {ℓ} : {A : Type ℓ} → Option A → Bool
is_given none = false
is_given (some a) = true

-- A restore that has taken the lease and runs on its own.
pub record StartedRestore (Handle : Type 0) : Type 0 where
  pub lease : Lease
  pub handle : Handle
  pub run : BackupRun

module _ {Objects Database Handle : Type 0} (p : Platform Objects Database Handle) where
  -- Worker.failRun
  unfoldable pub fail_run : Moments → Time → BackupRun → Error → Store → Error × Store
  unfolding cause_or
  fail_run m now run cause s = cause_or cause (
      update_backup_run m.persist (failed_run (bounded_run_error p.message (some cause)) now run) s)

  -- Worker.openStore
  unfoldable pub open_store : Ctx → BackupTarget → Result Handle
  open_store ctx target = do
    config ← p.unseal ctx target.encrypted_config target.key_version
    p.open_handle ctx target.kind config

  -- the target of the claimed run, enabled, and its store, on a live context
  unfoldable pub prepared : (ℕ → Ctx) → BackupRun → Store → Result (BackupTarget × Handle)
  unfolding check_enabled open_store
  prepared ctx run s = do
    found_target ← get_backup_target (ctx 12) run.target_id s
    target ← check_enabled found_target
    handle ← open_store (ctx 13) target
    _ ← check_live (ctx 14)
    ok (target, handle)

  unfoldable pub run_prepared :
      Moments
      → BackupRun
      → Result (BackupTarget × Handle)
      → World Objects Database
      → Processed × World Objects Database
  unfolding fail_run
  run_prepared m run (err cause) w =
      let (e, s) = fail_run m (m.clock 3) run cause w.repository in
      (ended_with e, record w { repository = s })
  run_prepared m run (ok (target, handle)) w =
      let (answer, w') = execute p m handle run target w in
      (record { found_run = true; failure = failure_of answer }, w')

  -- after the claim
  unfoldable pub run_claimed :
      Moments
      → Result BackupRun × Store
      → World Objects Database
      → Processed × World Objects Database
  unfolding run_prepared prepared
  run_claimed m (err e, s) w = (
    record { found_run = false; failure = if is_not_found e then none else some e },
    record w { repository = s },
  )
  run_claimed m (ok run, s) w =
      run_prepared m run (prepared m.ctx run s) (record w { repository = s })

  -- the deferred release
  unfoldable pub releasing :
      {A : Type 0} → Lease → A × World Objects Database → A × World Objects Database
  releasing lease (answer, w) =
      (answer, record w { repository = (release_lease lease w.repository).1 })

  -- after the attempt to take the lease
  unfoldable pub process_leased :
      Moments
      → Result (Option Lease) × Store
      → World Objects Database
      → Processed × World Objects Database
  unfolding run_claimed releasing
  process_leased m (err e, s) w =
      (record { found_run = false; failure = some e }, record w { repository = s })
  process_leased m (ok none, s) w = (nothing_to_do, record w { repository = s })
  process_leased m (ok (some lease), s) w = releasing lease (
      run_claimed m (claim_pending_backup_run (m.ctx 11) (m.clock 0) s)
        (record w { repository = s }))

  -- Worker.ProcessNext
  unfoldable pub process_next :
      Moments → World Objects Database → Processed × World Objects Database
  unfolding process_leased
  process_next m w = process_leased m (try_acquire_backup_operation (m.ctx 10) w.repository) w

  -- Worker.Run until it waits for the next poll or the context ends, on fuel; `ms n` are the moments of
  -- the n-th round
  unfoldable pub drain :
      ℕ → (ℕ → Moments) → ℕ → World Objects Database → Option (World Objects Database)
  unfolding process_next
  drain zero ms n w = none
  drain (suc fuel) ms n w =
      let (answer, w') = process_next (ms n) w in
      let rest = drain fuel ms (suc n) w' in
      if is_given ((ms n).ctx 9) then some w else if answer.found_run then rest else some w'

  -- between the lease and the goroutine
  unfoldable pub restore_prepared : (ℕ → Ctx) → Text → Store → Result (BackupRun × Handle)
  unfolding check_restorable open_store
  restore_prepared ctx run_id s = do
    found_run ← get_backup_run (ctx 1) (trim_space run_id) s
    run ← check_restorable found_run
    target ← get_backup_target (ctx 2) run.target_id s
    handle ← open_store (ctx 3) target
    ok (run, handle)

  unfoldable pub launch :
      Lease
      → Result (BackupRun × Handle)
      → World Objects Database
      → Result (StartedRestore Handle) × World Objects Database
  unfolding releasing
  launch lease (err e) w = releasing lease (err e, w)
  launch lease (ok (run, handle)) w = (ok (record { lease = lease; handle = handle; run = run }), w)

  unfoldable pub launch_leased :
      (ℕ → Ctx)
      → Text
      → Result (Option Lease) × Store
      → World Objects Database
      → Result (StartedRestore Handle) × World Objects Database
  unfolding launch restore_prepared
  launch_leased ctx run_id (err e, s) w = (err e, record w { repository = s })
  launch_leased ctx run_id (ok none, s) w = (err conflict, record w { repository = s })
  launch_leased ctx run_id (ok (some lease), s) w =
      launch lease (restore_prepared ctx run_id s) (record w { repository = s })

  -- Worker.StartRestore
  unfoldable pub start_restore :
      (ℕ → Ctx)
      → Text
      → World Objects Database
      → Result (StartedRestore Handle) × World Objects Database
  unfolding launch_leased
  start_restore ctx run_id w =
      if is_blank run_id || not (is_given p.restorer)
      then (err invalid, w)
      else launch_leased ctx run_id (try_acquire_backup_operation (ctx 0) w.repository) w

  -- the goroutine: the restore and the deferred release
  unfoldable pub run_restore :
      (ℕ → Ctx)
      → StartedRestore Handle
      → World Objects Database
      → Result (Unit {0}) × World Objects Database
  unfolding releasing
  run_restore ctx started w = releasing started.lease (restore p ctx started.handle started.run w)

  unfoldable pub await :
      (ℕ → Ctx)
      → Result (StartedRestore Handle) × World Objects Database
      → Result (Unit {0}) × World Objects Database
  unfolding run_restore
  await ctx (err e, w) = (err e, w)
  await ctx (ok started, w) = run_restore ctx started w

  -- Worker.Restore; the goroutine asks the context from the fourth question on
  unfoldable pub restore_run :
      (ℕ → Ctx) → Text → World Objects Database → Result (Unit {0}) × World Objects Database
  unfolding await start_restore
  restore_run ctx run_id w = await (λ n. ctx (n + 4)) (start_restore ctx run_id w)
