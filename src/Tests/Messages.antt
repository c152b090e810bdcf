-- ===== src/Tests/Messages.antt =====
-- Tests of the message cache.
use account_manager.Prelude.{
  ◌≡◌, ◌+◌, refl, ℕ, pos, true, none, ok, err, not_found, codes, [], ◌∷◌, length, values, lookup,
  text_eq, has, insert,
}
use account_manager.Ports.{MessageCacheFilter}
use account_manager.Memory.{Store, new, setting_at, join_key}
use account_manager.Memory.Mailboxes.{create_mailbox}
use account_manager.Memory.Messages.{
  identity_of, purgeable, keep_viewed, count_new, upsert_message, upsert_messages,
  upsert_cached_messages, save_message_sync_state, reset_message_sync_state, get_message_sync_state,
  purge_cached_messages,
}
use account_manager.Memory.Messages.Upsert.{
  is_viewed, upsert_cached_messages-counts, upsert_cached_messages-viewed,
}
use account_manager.Memory.Messages.Purge.{IsDeletion, IsLimit, purge_and_range-IsDeletion}
use account_manager.Memory.Messages.SyncState.{save_message_sync_state-get}
use account_manager.Tests.Data.{box, message, state}

abbrev with_box : Store
with_box = (create_mailbox none box (new 0)).1

abbrev cached : Store
cached = (upsert_cached_messages none (message ∷ []) with_box).1

abbrev whole : MessageCacheFilter
whole = record { mailbox_id = codes "m1"; folder = []; after = none; before = none; search = [] }

upsert_one : (upsert_cached_messages none (message ∷ message ∷ []) with_box).0 ≡ ok 1
unfolding new setting_at has lookup insert text_eq join_key create_mailbox upsert_cached_messages
    upsert_messages upsert_message count_new keep_viewed
upsert_one = refl

upsert_cached_messages-counts_example :
    length
      (values (upsert_cached_messages none (message ∷ message ∷ []) with_box).1.cached_messages)
    ≡ length (values with_box.cached_messages) + 1
upsert_cached_messages-counts_example =
    upsert_cached_messages-counts none (message ∷ message ∷ []) 1 with_box upsert_one

viewed_before : is_viewed (lookup (identity_of message) cached.cached_messages) ≡ true
unfolding new setting_at has lookup insert text_eq join_key create_mailbox upsert_cached_messages
    upsert_messages upsert_message count_new keep_viewed
viewed_before = refl

upsert_cached_messages-viewed_example :
    is_viewed (
      lookup
        (identity_of message)
        (upsert_cached_messages none
          (record message { viewed_at = none } ∷ [])
          cached).1.cached_messages)
    ≡ true
upsert_cached_messages-viewed_example =
    upsert_cached_messages-viewed none (identity_of message)
      (record message { viewed_at = none } ∷ []) cached viewed_before

save_message_sync_state-get_example :
    get_message_sync_state none state.target_id state.folder
      (reset_message_sync_state none state.target_id state.folder
        (save_message_sync_state none state (new 0)).1).1
    ≡ err not_found
save_message_sync_state-get_example = (save_message_sync_state-get state (new 0)).5

purge_and_range-IsDeletion_example :
    (n limit : ℕ) × ((purge_cached_messages none (codes "m1") [] none (pos 2) cached).0 ≡ ok n)
    × IsLimit (pos 2) 500 5000 limit
    × IsDeletion
        (purgeable (codes "m1") [] none)
        limit
        0
        cached.cached_messages
        (purge_cached_messages none (codes "m1") [] none (pos 2) cached).1.cached_messages
        n
purge_and_range-IsDeletion_example =
    (purge_and_range-IsDeletion (λ t. t) (λ t u. text_eq t u) (codes "m1") [] none whole (pos 2)
      cached).0
