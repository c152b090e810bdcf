-- ===== src/Services/CleanupWorker/Batches.antt =====
-- A round of the cleanup worker with a batch that the store does not grant.
use account_manager.Prelude.{
  lt→ltb, ◌≡◌, refl, ℕ, suc, ◌+◌, ◌-◌, ◌<◌, pos, arith, Ctx, Result, ok, err, Option, none, some,
}
use account_manager.Domain.{Time}
use account_manager.Memory.{Store}
use account_manager.Memory.Messages.Cleanup.{cleanup_cached_messages}
use account_manager.Memory.Messages.Cleanup.Bounds.{cleanup_cached_messages-le}
use account_manager.Services.CleanupWorker.{
  MessageCacheCleanupWorker, Cleaned, after_batch, add_deleted, run_once,
}

after_batch-large :
    (batch total : ℕ) (answer : Result ℕ × Store) (rest : Option (Cleaned × Store))
    → ((n : ℕ) → answer.0 ≡ ok n → n < batch)
    → (c : Cleaned) × (after_batch batch total answer rest ≡ some (c, answer.1))
unfolding after_batch
after_batch-large batch total (err e, s) rest h = (record { total = total; failure = some e }, refl)
after_batch-large batch total (ok n, s) rest h =
    (record { total = total + n; failure = none }, rw (lt→ltb n batch (h n refl)) refl)

-- A cleanup worker whose batch is larger than the 10000 that the memory store deletes in one call
-- stops after its first call, whatever is left to delete: the store is the one that call leaves.
pub run_once-large_batch :
    (fuel : ℕ) (w : MessageCacheCleanupWorker) (clock : ℕ → Time) (ctx : ℕ → Ctx) (s : Store)
    → 10000 < w.batch_size
    → (c : Cleaned) × (run_once (suc fuel) w clock ctx 0 0 s
        ≡ some (
          c,
          (cleanup_cached_messages
              (ctx 0)
              (clock 0 - w.retention)
              (pos w.max_per_folder)
              (pos w.batch_size)
              s).1,
        ))
unfolding run_once
run_once-large_batch fuel w clock ctx s large =
    let answer =
      cleanup_cached_messages (ctx 0) (clock 0 - w.retention) (pos w.max_per_folder)
        (pos w.batch_size) s in
    after_batch-large w.batch_size 0 answer
      (run_once fuel w clock ctx 1 (add_deleted 0 answer.0) answer.1)
      (λ n e. omega (
        arith,
        cleanup_cached_messages-le (ctx 0) (clock 0 - w.retention) (pos w.max_per_folder)
            (pos w.batch_size) n s e,
      ))
