-- ===== src/Services/CleanupWorker.antt =====
-- backend/internal/service/message_cache_cleanup_worker.go: RunOnce, over the memory store.
pub mod Batches
use account_manager.Prelude.{
  ℕ, zero, suc, ◌+◌, ◌-◌, pos, ltb, Ctx, Result, Error, ok, err, Option, none, some, if◌then◌else◌,
}
use account_manager.Domain.{Time}
use account_manager.Memory.{Store}
use account_manager.Memory.Messages.Cleanup.{cleanup_cached_messages}

-- The fields that RunOnce reads; the constructor makes the three positive.
pub record MessageCacheCleanupWorker : Type 0 where
  pub retention : ℕ
  pub max_per_folder : ℕ
  pub batch_size : ℕ

-- The number and the error that RunOnce returns.
pub record Cleaned : Type 0 where
  pub total : ℕ
  pub failure : Option Error

-- `if err != nil || deleted < w.batchSize { return total, err }`, with the rest of the loop; the store
-- returns 0 with an error
unfoldable pub after_batch :
    ℕ → ℕ → Result ℕ × Store → Option (Cleaned × Store) → Option (Cleaned × Store)
after_batch batch_size total (err e, s) rest = some (record { total = total; failure = some e }, s)
after_batch batch_size total (ok deleted, s) rest =
    if ltb deleted batch_size
    then some (record { total = total + deleted; failure = none }, s)
    else rest

unfoldable pub add_deleted : ℕ → Result ℕ → ℕ
add_deleted total (err e) = total
add_deleted total (ok deleted) = total + deleted

-- MessageCacheCleanupWorker.RunOnce, on fuel; `clock n` is the time of the n-th round and `ctx n` what
-- `ctx.Err()` returns in it. A time is not before Go's zero time.
unfoldable pub run_once :
    ℕ
    → MessageCacheCleanupWorker
    → (ℕ → Time)
    → (ℕ → Ctx)
    → ℕ
    → ℕ
    → Store
    → Option (Cleaned × Store)
unfolding after_batch add_deleted
run_once zero w clock ctx n total s = none
run_once (suc fuel) w clock ctx n total s =
    let answer =
      cleanup_cached_messages (ctx n) (clock n - w.retention) (pos w.max_per_folder)
        (pos w.batch_size) s in
    after_batch w.batch_size total answer
      (run_once fuel w clock ctx (suc n) (add_deleted total answer.0) answer.1)
