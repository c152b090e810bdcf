-- ===== src/Memory/Messages/Cleanup.antt =====
-- Store.CleanupCachedMessages of memory/message_cache.go: retention by age and by number.
pub mod Bounds
use account_manager.Prelude.{
  ok, Result, Ctx, live_on, ℤ, ℕ, suc, ◌+◌, ltb, leb, Bool, ◌||◌, get_or, List, [], ◌∷◌, ◌++◌, Map,
  lookup, insert, delete, values, sort_by, if◌then◌else◌,
}
use account_manager.Domain.{CachedMessage, Time}
use account_manager.Ports.{normalize_limit}
use account_manager.Memory.{Store, join_key}
use account_manager.Memory.Messages.{identity_of}

-- groups[key] = append(groups[key], message)
unfoldable pub group_messages :
    List CachedMessage → Map (List CachedMessage) → Map (List CachedMessage)
group_messages [] groups = groups
group_messages (m ∷ ms) groups =
    let key = join_key m.mailbox_id m.folder in
    group_messages ms (insert key (get_or (lookup key groups) [] ++ m ∷ []) groups)

-- `index >= maxPerMailboxFolder || item.ReceivedAt.Before(before)`
abbrev pub expired : Time → ℕ → ℕ → CachedMessage → Bool
expired before max_per_folder index item = leb max_per_folder index || ltb item.received_at before

-- the loop over one group, newest first; it returns at once when the batch is full
unfoldable pub cleanup_items :
    Time → ℕ → ℕ → ℕ → List CachedMessage → ℕ → Map CachedMessage → Map CachedMessage × ℕ
cleanup_items before max_per_folder batch index [] deleted messages = (messages, deleted)
cleanup_items before max_per_folder batch index (item ∷ items) deleted messages =
    let hit = expired before max_per_folder index item in
    let rest =
      cleanup_items before max_per_folder batch (suc index) items
        (if hit then deleted + 1 else deleted)
        (if hit then delete (identity_of item) messages else messages) in
    if leb batch deleted then (messages, deleted) else rest

-- the loop over the groups; after the return of a full batch every later group returns at once too
unfoldable pub cleanup_groups :
    Time → ℕ → ℕ → List (List CachedMessage) → ℕ → Map CachedMessage → Map CachedMessage × ℕ
unfolding cleanup_items
cleanup_groups before max_per_folder batch [] deleted messages = (messages, deleted)
cleanup_groups before max_per_folder batch (items ∷ groups) deleted messages =
    let (left, count) =
      cleanup_items before max_per_folder batch 0
        (sort_by (λ a b. ltb b.received_at a.received_at) items) deleted messages in
    cleanup_groups before max_per_folder batch groups count left

keep_rest : Map CachedMessage × ℕ → Store → Result ℕ × Store
keep_rest (left, count) s = (ok count, record s { cached_messages = left })

-- Store.CleanupCachedMessages
unfoldable pub cleanup_cached_messages : Ctx → Time → ℤ → ℤ → Store → Result ℕ × Store
unfolding keep_rest
cleanup_cached_messages ctx before given_max given_batch s =
    let max_per_folder = normalize_limit given_max 5000 1000000 in
    let batch = normalize_limit given_batch 1000 10000 in
    live_on ctx s (
      keep_rest
        (cleanup_groups before max_per_folder batch
          (values (group_messages (values s.cached_messages) [])) 0 s.cached_messages)
        s)
