-- ===== src/Backup/Engine/Stranded.antt =====
-- A context that ends between the upload and the last write.
use account_manager.Prelude.{
  ok, err, none, some, Error, conflict, ◌≡◌, refl, inl, inr, true, false, lookup, has,
  any_value_of_lookup, Bool-cases, text_eq_iff, arith, sym,
}
use account_manager.Domain.{Bytes, BackupTarget, BackupRun}
use account_manager.Memory.{Store}
use account_manager.Memory.BackupRuns.{is_active, occupies, create_backup_run, update_backup_run}
use account_manager.Backup.Engine.{
  recorded, starts, mark_started, stored, upload, sealed_envelope, execute_marked, is_executable,
  execute, object_key_at,
}
use account_manager.Backup.Platform.{Platform, World, Moments, BackupObject, refused}

create_conflict :
    (run n : BackupRun) (s : Store)
    → lookup run.id s.backup_runs ≡ some run
    → is_active run.state ≡ true
    → n.target_id ≡ run.target_id
    → has n.target_id s.backup_targets ≡ true
    → (create_backup_run none n s).0 ≡ err conflict
unfolding create_backup_run
create_conflict run n s stored active same there =
    let taken =
      any_value_of_lookup (occupies n.target_id) run.id run s.backup_runs stored
        (ground (arith, text_eq_iff run.target_id n.target_id, sym same)) in
    elim (Bool-cases (has n.id s.backup_runs)) [
      | inl known ↦ rw (there, known) refl
      | inr fresh ↦ rw (there, fresh, taken) refl
    ]

module _ {Objects Database Handle : Type 0} (p : Platform Objects Database Handle) where
  -- When the object of a running run was stored and the context ends before the last write, Execute
  -- returns the context's error and leaves the run in the repository as it was, running; so every later
  -- creation of a run of its target is refused as a conflict.
  pub execute_stranded :
      (m : Moments) (handle : Handle) (run n : BackupRun) (target : BackupTarget)
      (w : World Objects Database) (envelope : Bytes) (object : BackupObject) (o' : Objects)
      (e : Error)
      → is_executable run target ≡ true
      → starts run ≡ false
      → sealed_envelope p m (w.repository, w.database) ≡ ok envelope
      → p.put (m.ctx 3) handle (object_key_at (p.format_day (m.clock 1)) run.id) envelope w.objects
        ≡ (ok object, o')
      → m.ctx 4 ≡ some e
      → lookup run.id w.repository.backup_runs ≡ some run
      → n.target_id ≡ run.target_id
      → has n.target_id w.repository.backup_targets ≡ true
      → (execute p m handle run target w ≡ (refused e, record w { objects = o' }))
        × ((create_backup_run none n (execute p m handle run target w).1.repository).0
            ≡ err conflict)
  unfolding execute mark_started execute_marked upload stored recorded update_backup_run
  execute_stranded m handle run n target w envelope object o' e good marked sealed put ended there
        same aimed =
      rw (good, marked, sealed, put, ended)
        (refl, create_conflict run n w.repository there (ground arith) same aimed)
