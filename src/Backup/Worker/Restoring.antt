-- ===== src/Backup/Worker/Restoring.antt =====
-- A restore that the worker starts holds the lease until it ends.
use account_manager.Prelude.{
  ok, err, Error, ◌⊎◌, Result, Ctx, none, some, inl, inr, Bool, Bool-cases, ◌≡◌, refl, sym, ap,
  Text, true, false, is_blank, not, ◌||◌, ℕ, ◌+◌,
}
use account_manager.Domain.{Bytes, BackupRun}
use account_manager.Memory.{Store}
use account_manager.Memory.BackupRuns.{try_acquire_backup_operation, release_lease}
use account_manager.Backup.Restores.{is_succeeded}
use account_manager.Backup.Platform.{Platform, World, Restorer}
use account_manager.Backup.Engine.Authentic.{IsAuthentic}
use account_manager.Backup.Worker.{
  StartedRestore, releasing, is_given, launch, launch_leased, start_restore, restore_prepared,
}

abbrev locked : Bool → Store → Store
locked b s = record s { backup_operation_locked = b }

module _ {Objects Database Handle : Type 0} (p : Platform Objects Database Handle) where
  -- A failed start leaves the world as it was; one that succeeds found the lease free and holds it.
  abbrev pub IsLeased :
      World Objects Database → Result (StartedRestore Handle) × World Objects Database → Type 0
  IsLeased w (err e, w') = w' ≡ w
  IsLeased w (ok started, w') =
      (w.repository.backup_operation_locked ≡ false)
      × (started.lease.released ≡ false)
      × (w' ≡ record w { repository = locked true w.repository })

  launch-IsLeased :
      (r : Result (BackupRun × Handle)) (w : World Objects Database)
      → w.repository.backup_operation_locked ≡ false
      → IsLeased w (
          launch p
            (record { released = false })
            r
            (record w { repository = locked true w.repository }))
  unfolding launch releasing release_lease
  launch-IsLeased (err e) w idle =
      ap (λ b. record w { repository = locked b w.repository }) (sym idle)
  launch-IsLeased (ok (run, handle)) w idle = (idle, refl, refl)

  launch_leased-IsLeased :
      (ctx : ℕ → Ctx) (c : Ctx) (run_id : Text) (w : World Objects Database)
      → IsLeased w (launch_leased p ctx run_id (try_acquire_backup_operation c w.repository) w)
  unfolding launch_leased try_acquire_backup_operation
  launch_leased-IsLeased ctx (some e) run_id w = refl
  launch_leased-IsLeased ctx none run_id w =
      elim (Bool-cases w.repository.backup_operation_locked) [
        | inl busy ↦ simp busy refl
        | inr idle ↦
            simp idle
              (launch-IsLeased (restore_prepared p ctx run_id (locked true w.repository)) w idle)
      ]

  -- The start of a restore either fails and leaves the store, the objects and the database as they
  -- were, the lease included, or it found the lease free and holds it, and nothing else has changed.
  pub start_restore-IsLeased :
      (ctx : ℕ → Ctx) (run_id : Text) (w : World Objects Database)
      → IsLeased w (start_restore p ctx run_id w)
  unfolding start_restore
  start_restore-IsLeased ctx run_id w =
      elim (Bool-cases (is_blank run_id || not (is_given p.restorer))) [
        | inl bad ↦ rw bad refl
        | inr good ↦ rw good (launch_leased-IsLeased ctx (ctx 0) run_id w)
      ]

  -- The lease is free; while it is held the restorer runs once, on authentic bytes, on the repository
  -- and the database as they are; its answer is returned, and the lease is free again.
  pub record IsOneRestore (ctx : ℕ → Ctx) (w : World Objects Database)
      (answer : Result (Unit {0}) × World Objects Database) : Type 0 where
    pub raw : Bytes
    pub restorer : Restorer Database
    pub handle : Handle
    pub run : BackupRun
    pub given : p.restorer ≡ some restorer
    pub idle : w.repository.backup_operation_locked ≡ false
    pub succeeded : is_succeeded run.state ≡ true
    pub authentic : IsAuthentic p (λ n. ctx (n + 4)) handle run w.objects raw
    pub done : answer ≡ (
      (restorer (ctx 6) raw (locked true w.repository, w.database)).0,
      record w {
        repository = locked false (restorer (ctx 6) raw (locked true w.repository, w.database)).1.0;
        database = (restorer (ctx 6) raw (locked true w.repository, w.database)).1.1;
      },
    )

  -- A failure that left the world as it was, or one restore under the lease.
  abbrev pub IsBracketed :
      (ℕ → Ctx) → World Objects Database → Result (Unit {0}) × World Objects Database → Type 0
  IsBracketed ctx w answer = ((e : Error) × (answer ≡ (err e, w))) ⊎ IsOneRestore ctx w answer
