-- ===== src/Backup/Engine/Keeps.antt =====
-- What every write of a run that is not pending keeps, the engine and the worker keep.
use account_manager.Prelude.{
  ok, err, Result, Ctx, some, Error, inl, inr, Bool-cases, ◌≡◌, refl, false,
}
use account_manager.Domain.{Time, Bytes, BackupTarget, BackupRun}
use account_manager.Memory.{Store}
use account_manager.Memory.BackupRuns.{is_pending, update_backup_run}
use account_manager.Backup.Engine.{
  recorded, starts, mark_started, fail, stored, upload, execute_marked, is_executable, execute,
  started_run, sealed_envelope, succeeded_run, failed_run,
}
use account_manager.Backup.Platform.{
  Platform, World, Moments, Executed, BackupObject, completed, failed,
}
use account_manager.Backup.Failure.{bounded_run_error}

pub recorded_store :
    (answer : Executed) (r : Result (Unit {0}) × Store) → (recorded answer r).1 ≡ r.1
unfolding recorded
recorded_store answer (ok _, s) = refl
recorded_store answer (err e, s) = refl

module _ {Objects Database Handle : Type 0} (p : Platform Objects Database Handle)
    (P : Store → Type 0)
    (writes : (ctx : Ctx) (run : BackupRun) (s : Store)
      → is_pending run.state ≡ false
      → P s
      → P (update_backup_run ctx run s).1) where
  fail-keeps :
      (m : Moments) (now : Time) (run : BackupRun) (cause : Error) (s : Store)
      → P s
      → P (fail p m now run cause s).1
  unfolding fail
  fail-keeps m now run cause s h =
      let run' = failed_run (bounded_run_error p.message (some cause)) now run in
      rw (recorded_store (failed run' cause) (update_backup_run m.persist run' s))
        (writes m.persist run' s refl h)

  stored-keeps :
      (m : Moments) (run : BackupRun) (envelope : Bytes) (answer : Result BackupObject × Objects)
      (w : World Objects Database)
      → P w.repository
      → P (stored p m run envelope answer w).1.repository
  unfolding stored
  stored-keeps m run envelope (err cause, objects) w h =
      fail-keeps m (m.clock 2) run cause w.repository h
  stored-keeps m run envelope (ok object, objects) w h =
      let run' = succeeded_run object (p.sha256_hex envelope) (m.clock 2) run in
      rw (recorded_store (completed run') (update_backup_run (m.ctx 4) run' w.repository))
        (writes (m.ctx 4) run' w.repository refl h)

  upload-keeps :
      (m : Moments) (handle : Handle) (run : BackupRun) (sealed : Result Bytes)
      (w : World Objects Database)
      → P w.repository
      → P (upload p m handle run sealed w).1.repository
  unfolding upload
  upload-keeps m handle run (err cause) w h = fail-keeps m (m.clock 2) run cause w.repository h
  upload-keeps m handle run (ok envelope) w h = stored-keeps m run envelope _ w h

  execute_marked-keeps :
      (m : Moments) (handle : Handle) (run : BackupRun) (answer : Result (Unit {0}) × Store)
      (w : World Objects Database)
      → P answer.1
      → P (execute_marked p m handle run answer w).1.repository
  unfolding execute_marked
  execute_marked-keeps m handle run (err e, s) w h = h
  execute_marked-keeps m handle run (ok _, s) w h =
      upload-keeps m handle run (sealed_envelope p m (s, w.database)) (record w { repository = s })
        h

  mark_started-keeps :
      (ctx : Ctx) (now : Time) (run : BackupRun) (s : Store)
      → P s
      → P (mark_started ctx now run s).1
  unfolding mark_started
  mark_started-keeps ctx now run s h = elim (Bool-cases (starts run)) [
    | inl e ↦ rw e (writes ctx _ s refl h)
    | inr e ↦ rw e h
  ]

  pub execute-keeps :
      (m : Moments) (handle : Handle) (run : BackupRun) (target : BackupTarget)
      (w : World Objects Database)
      → P w.repository
      → P (execute p m handle run target w).1.repository
  unfolding execute
  execute-keeps m handle run target w h = elim (Bool-cases (is_executable run target)) [
    | inl e ↦ rw e (
        execute_marked-keeps m handle (started_run (m.clock 1) run)
          (mark_started (m.ctx 0) (m.clock 1) run w.repository) w
          (mark_started-keeps (m.ctx 0) (m.clock 1) run w.repository h))
    | inr e ↦ rw e h
  ]
