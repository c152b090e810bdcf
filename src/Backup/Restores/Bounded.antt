-- ===== src/Backup/Restores/Bounded.antt =====
-- How many restore operations the coordinator remembers, and which.
use account_manager.Prelude.{
  ◌≡◌, ◌⊎◌, ◌≤◌, refl, subst, inl, inr, arith, ok, err, Result, Ctx, err-ne-ok, ok-injective, ℕ,
  Bool, Bool-cases, true, false, ◌||◌, some, some-inj, Text, text_eq, List, [], ◌∷◌, ◌++◌, length,
  lookup, insert, values, lookup-insert, lookup-insert_self, size-insert,
}
use account_manager.Domain.{BackupRun, BackupRestoreOperation, Time}
use account_manager.Memory.{Store}
use account_manager.Backup.Restores.{
  RestoreCoordinator, max_remembered_restore_operations, is_running, is_full, pruned, prune_locked,
  new_operation, admit, register, start,
}
use account_manager.Backup.Restores.Pruning.{
  listed, AllRunning, prune_ids-bounded, prune_ids-lookup, prune_ids-running, prune_ids-listed,
}

-- Every operation that is remembered has its id in the order.
abbrev pub IsTracked : RestoreCoordinator → Type 0
IsTracked c =
    (k : Text) (o : BackupRestoreOperation)
    → lookup k c.operations ≡ some o
    → listed k c.order ≡ true

-- What pruning promises.
record IsPruned (c c' : RestoreCoordinator) : Type 0 where
  pub tracked : IsTracked c'
  pub bounded : (is_full c'.operations ≡ false) ⊎ AllRunning c'.operations
  pub kept :
      (k : Text) (o : BackupRestoreOperation)
      → lookup k c.operations ≡ some o
      → is_running o.state ≡ true
      → lookup k c'.operations ≡ some o

prune_locked-IsPruned : (c : RestoreCoordinator) → IsTracked c → IsPruned c (prune_locked c)
unfolding prune_locked pruned
prune_locked-IsPruned c h = elim (Bool-cases (is_full c.operations)) [
  | inr room ↦ rw room (record { tracked = h; bounded = inl room; kept = λ k o p _. p })
  | inl full ↦ rw full (record {
    tracked = λ k o p.
        prune_ids-listed c.order c.operations k o p
          (h k o (prune_ids-lookup c.order c.operations k o p));
    bounded = prune_ids-bounded c.order c.operations (λ k o p. inr (h k o p));
    kept = prune_ids-running c.order c.operations;
  })
]

listed-append :
    (k id : Text) (ids : List Text) → listed k (ids ++ id ∷ []) ≡ (listed k ids || text_eq id k)
listed-append k id [] = ground arith
listed-append k id (x ∷ ids) = ground (arith, listed-append k id ids)

-- What a successful Start promises.
abbrev pub IsStarted : RestoreCoordinator → BackupRestoreOperation → RestoreCoordinator → Type 0
IsStarted c operation c' =
    (lookup operation.id c'.operations ≡ some operation)
    × IsTracked c'
    × ((length (values c'.operations) ≤ max_remembered_restore_operations)
        ⊎ AllRunning c'.operations)
    × ((k : Text) (o : BackupRestoreOperation)
        → lookup k c.operations ≡ some o
        → is_running o.state ≡ true
        → text_eq operation.id k ≡ false
        → lookup k c'.operations ≡ some o)

insert-IsStarted :
    (c c' : RestoreCoordinator) (n : BackupRestoreOperation)
    → is_running n.state ≡ true
    → IsPruned c c'
    → IsStarted c n
        (record { operations = insert n.id n c'.operations; order = c'.order ++ n.id ∷ [] })
insert-IsStarted c c' n running h = (
  lookup-insert_self n.id n c'.operations,
  (λ k o p.
      ground (
        arith,
        listed-append k n.id c'.order,
        lookup-insert n.id k n c'.operations,
        h.tracked k o,
      )),
  elim h.bounded [
    | inl room ↦ inl (ground (arith, size-insert n.id n c'.operations, room))
    | inr all ↦ inr (λ k o p. elim (Bool-cases (text_eq n.id k)) [
      | inl same ↦
          subst (λ x. is_running x.state ≡ true)
            (some-inj (rw (lookup-insert n.id k n c'.operations, same) at p)) running
      | inr other ↦ all k o (rw (lookup-insert n.id k n c'.operations, other) at p)
    ])
  ],
  (λ k o p r other. rw (lookup-insert n.id k n c'.operations, other) (h.kept k o p r)),
)

register-IsStarted :
    (a : Result (Text × BackupRun)) (now : Time) (c : RestoreCoordinator)
    (n : BackupRestoreOperation)
    → IsTracked c
    → (register a now c).0 ≡ ok n
    → IsStarted c n (register a now c).1
unfolding register
register-IsStarted (err e) now c n h done = absurd (err-ne-ok done)
register-IsStarted (ok (id, run)) now c n h done =
    subst (λ x. IsStarted c x (register (ok (id, run)) now c).1) (ok-injective done)
      (insert-IsStarted c (prune_locked c) (new_operation id run now) refl
        (prune_locked-IsPruned c h))

-- A restore that starts is remembered under its id, while every operation that is not running may be
-- forgotten: right after a start, at most 100 operations are remembered, or all of them are running;
-- the operations that were running before are remembered as they were, under every other id; and the
-- order goes on listing every operation remembered.
pub start-IsStarted :
    (ctx : ℕ → Ctx) (run_id : Text) (new_id : Result Text) (start_restore : Text → Result Bool)
    (now : Time) (s : Store) (c : RestoreCoordinator) (n : BackupRestoreOperation)
    → IsTracked c
    → (start ctx run_id new_id start_restore now s c).0 ≡ ok n
    → IsStarted c n (start ctx run_id new_id start_restore now s c).1
unfolding start
start-IsStarted ctx run_id new_id start_restore now s c n h done =
    register-IsStarted (admit ctx run_id new_id start_restore s) now c n h done
