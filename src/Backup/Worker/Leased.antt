-- ===== src/Backup/Worker/Leased.antt =====
-- The worker gives the lease back whatever happens.
use account_manager.Prelude.{
  ok, err, Result, Ctx, Option, none, some, Error, inl, inr, Bool-cases, ◌≡◌, refl,
}
use account_manager.Domain.{BackupTarget, BackupRun}
use account_manager.Memory.{Store}
use account_manager.Memory.BackupRuns.{
  Lease, update_backup_run, claim_pending_backup_run, try_acquire_backup_operation, release_lease,
}
use account_manager.Memory.Consistency.{IsConsistent}
use account_manager.Memory.Consistency.Runs.{
  claim_pending_backup_run-IsConsistent, update_backup_run-IsConsistent,
}
use account_manager.Memory.Consistency.Frames.{try_acquire-IsConsistent, release_lease-IsConsistent}
use account_manager.Backup.Failure.{bounded_run_error}
use account_manager.Backup.Engine.{failed_run}
use account_manager.Backup.Platform.{Platform, World, Moments}
use account_manager.Backup.Engine.Keeps.{execute-keeps}
use account_manager.Backup.Worker.{
  cause_or, fail_run, run_prepared, run_claimed, prepared, releasing, process_leased, process_next,
}

pub cause_or_store : (cause : Error) (r : Result (Unit {0}) × Store) → (cause_or cause r).1 ≡ r.1
unfolding cause_or
cause_or_store cause (ok _, s) = refl
cause_or_store cause (err e, s) = refl

module _ {Objects Database Handle : Type 0} (p : Platform Objects Database Handle) where
  run_prepared-IsConsistent :
      (m : Moments) (run : BackupRun) (r : Result (BackupTarget × Handle))
      (w : World Objects Database)
      → IsConsistent w.repository
      → IsConsistent (run_prepared p m run r w).1.repository
  unfolding run_prepared fail_run
  run_prepared-IsConsistent m run (err cause) w c =
      let run' = failed_run (bounded_run_error p.message (some cause)) (m.clock 3) run in
      rw (cause_or_store cause (update_backup_run m.persist run' w.repository))
        (update_backup_run-IsConsistent m.persist run' w.repository c)
  run_prepared-IsConsistent m run (ok (target, handle)) w c =
      execute-keeps p IsConsistent (λ ctx r s _ h. update_backup_run-IsConsistent ctx r s h) m
        handle run target w c

  run_claimed-IsConsistent :
      (m : Moments) (claim : Result BackupRun × Store) (w : World Objects Database)
      → IsConsistent claim.1
      → IsConsistent (run_claimed p m claim w).1.repository
  unfolding run_claimed
  run_claimed-IsConsistent m (err e, s) w c = c
  run_claimed-IsConsistent m (ok run, s) w c =
      run_prepared-IsConsistent m run (prepared p m.ctx run s) (record w { repository = s }) c

  process_leased-IsConsistent :
      (m : Moments) (r : Result (Option Lease) × Store) (w : World Objects Database)
      → IsConsistent r.1
      → IsConsistent (process_leased p m r w).1.repository
  unfolding process_leased releasing
  process_leased-IsConsistent m (err e, s) w c = c
  process_leased-IsConsistent m (ok none, s) w c = c
  process_leased-IsConsistent m (ok (some lease), s) w c = release_lease-IsConsistent lease _ (
      run_claimed-IsConsistent m (claim_pending_backup_run (m.ctx 11) (m.clock 0) s)
        (record w { repository = s })
        (claim_pending_backup_run-IsConsistent (m.ctx 11) (m.clock 0) s c))

  process_leased-lock :
      (ctx : Ctx) (m : Moments) (s : Store) (w : World Objects Database)
      → (process_leased p m
          (try_acquire_backup_operation ctx s)
          w).1.repository.backup_operation_locked
        ≡ s.backup_operation_locked
  unfolding process_leased releasing try_acquire_backup_operation release_lease
  process_leased-lock (some e) m s w = refl
  process_leased-lock none m s w = elim (Bool-cases s.backup_operation_locked) [
    | inl busy ↦ rw busy refl
    | inr idle ↦ rw idle refl
  ]

  -- One round of the backup worker, whatever fails in it and wherever, leaves the lease as it found it
  -- and keeps the store consistent.
  pub process_next-lease :
      (m : Moments) (w : World Objects Database)
      → IsConsistent w.repository
      → ((process_next p m w).1.repository.backup_operation_locked
          ≡ w.repository.backup_operation_locked)
        × IsConsistent (process_next p m w).1.repository
  unfolding process_next
  process_next-lease m w c = (
    process_leased-lock (m.ctx 10) m w.repository w,
    process_leased-IsConsistent m (try_acquire_backup_operation (m.ctx 10) w.repository) w
        (try_acquire-IsConsistent (m.ctx 10) w.repository c),
  )
