-- ===== src/Memory/Consistency/Reach.antt =====
-- Every store that the methods can reach from a new one is consistent.
use account_manager.Prelude.{List, [], ◌∷◌}
use account_manager.Domain.{Time}
use account_manager.Memory.{Store, new}
use account_manager.Memory.Operations.{
  Library, Operation, setting_saved, connection_created, connection_updated, mailbox_created,
  alias_created, credential_upserted, batch_imported, format_created, format_updated,
  pickup_key_created, pickup_key_revoked, account_created, account_credential_upserted,
  target_created, target_updated, run_created, run_scheduled, run_claimed, run_updated,
  lease_acquired, lease_released, messages_upserted, sync_state_saved, sync_state_reset,
  message_viewed, messages_deleted, messages_purged, messages_cleaned, range_deleted,
  capability_upserted, perform, perform_all,
}
use account_manager.Memory.Consistency.{IsConsistent, new-IsConsistent}
use account_manager.Memory.Consistency.Frames.{
  save_app_setting-IsConsistent, try_acquire-IsConsistent, release_lease-IsConsistent,
  upsert_cached_messages-IsConsistent, save_message_sync_state-IsConsistent,
  reset_message_sync_state-IsConsistent, mark_cached_message_viewed-IsConsistent,
  delete_cached_messages-IsConsistent, purge_cached_messages-IsConsistent,
  cleanup_cached_messages-IsConsistent, delete_range-IsConsistent,
  upsert_retrieval_capability-IsConsistent,
}
use account_manager.Memory.Consistency.Connections.{
  create_provider_connection-IsConsistent, update_provider_connection-IsConsistent,
}
use account_manager.Memory.Consistency.Mailboxes.{
  create_mailbox-IsConsistent, create_alias-IsConsistent, upsert_credential-IsConsistent,
  create_pickup_key-IsConsistent, revoke_pickup_key-IsConsistent,
}
use account_manager.Memory.Consistency.Import.{import_mailboxes-IsConsistent}
use account_manager.Memory.Consistency.Catalog.{
  create_mailbox_format-IsConsistent, update_mailbox_format-IsConsistent,
  create_backup_target-IsConsistent, update_backup_target-IsConsistent,
}
use account_manager.Memory.Consistency.Accounts.{
  create_platform_account-IsConsistent, upsert_platform_account_credential-IsConsistent,
}
use account_manager.Memory.Consistency.Runs.{
  create_backup_run-IsConsistent, create_scheduled_backup_run-IsConsistent,
  claim_pending_backup_run-IsConsistent, update_backup_run-IsConsistent,
}

perform-IsConsistent :
    (lib : Library) (o : Operation) (s : Store) → IsConsistent s → IsConsistent (perform lib o s)
unfolding perform
perform-IsConsistent lib (setting_saved ctx x v) s h =
    save_app_setting-IsConsistent lib.json_valid ctx x v s h
perform-IsConsistent lib (connection_created ctx c) s h =
    create_provider_connection-IsConsistent lib.is_object ctx c s h
perform-IsConsistent lib (connection_updated ctx c v) s h =
    update_provider_connection-IsConsistent lib.is_object ctx c v s h
perform-IsConsistent lib (mailbox_created ctx m) s h = create_mailbox-IsConsistent ctx m s h
perform-IsConsistent lib (alias_created ctx a) s h = create_alias-IsConsistent ctx a s h
perform-IsConsistent lib (credential_upserted ctx c) s h = upsert_credential-IsConsistent ctx c s h
perform-IsConsistent lib (batch_imported ctx items strategy) s h =
    import_mailboxes-IsConsistent ctx items strategy s h
perform-IsConsistent lib (format_created ctx f) s h = create_mailbox_format-IsConsistent ctx f s h
perform-IsConsistent lib (format_updated ctx f v) s h =
    update_mailbox_format-IsConsistent ctx f v s h
perform-IsConsistent lib (pickup_key_created ctx k) s h = create_pickup_key-IsConsistent ctx k s h
perform-IsConsistent lib (pickup_key_revoked ctx m i now) s h =
    revoke_pickup_key-IsConsistent ctx m i now s h
perform-IsConsistent lib (account_created ctx a) s h =
    create_platform_account-IsConsistent ctx a s h
perform-IsConsistent lib (account_credential_upserted ctx c) s h =
    upsert_platform_account_credential-IsConsistent ctx c s h
perform-IsConsistent lib (target_created ctx t) s h = create_backup_target-IsConsistent ctx t s h
perform-IsConsistent lib (target_updated ctx t v) s h =
    update_backup_target-IsConsistent ctx t v s h
perform-IsConsistent lib (run_created ctx r) s h = create_backup_run-IsConsistent ctx r s h
perform-IsConsistent lib (run_scheduled ctx r due_at) s h =
    create_scheduled_backup_run-IsConsistent ctx r due_at s h
perform-IsConsistent lib (run_claimed ctx now) s h =
    claim_pending_backup_run-IsConsistent ctx now s h
perform-IsConsistent lib (run_updated ctx r) s h = update_backup_run-IsConsistent ctx r s h
perform-IsConsistent lib (lease_acquired ctx) s h = try_acquire-IsConsistent ctx s h
perform-IsConsistent lib (lease_released lease) s h = release_lease-IsConsistent lease s h
perform-IsConsistent lib (messages_upserted ctx ms) s h =
    upsert_cached_messages-IsConsistent ctx ms s h
perform-IsConsistent lib (sync_state_saved ctx x) s h =
    save_message_sync_state-IsConsistent ctx x s h
perform-IsConsistent lib (sync_state_reset ctx t f) s h =
    reset_message_sync_state-IsConsistent ctx t f s h
perform-IsConsistent lib (message_viewed ctx m i at) s h =
    mark_cached_message_viewed-IsConsistent ctx m i at s h
perform-IsConsistent lib (messages_deleted ctx m f r ids) s h =
    delete_cached_messages-IsConsistent ctx m f r ids s h
perform-IsConsistent lib (messages_purged ctx m f b l) s h =
    purge_cached_messages-IsConsistent ctx m f b l s h
perform-IsConsistent lib (messages_cleaned ctx b m n) s h =
    cleanup_cached_messages-IsConsistent ctx b m n s h
perform-IsConsistent lib (range_deleted ctx f l) s h =
    delete_range-IsConsistent lib.to_lower lib.equal_fold ctx f l s h
perform-IsConsistent lib (capability_upserted ctx c) s h =
    upsert_retrieval_capability-IsConsistent ctx c s h

pub perform_all-IsConsistent_from :
    (lib : Library) (os : List Operation) (s : Store)
    → IsConsistent s
    → IsConsistent (perform_all lib os s)
unfolding perform_all
perform_all-IsConsistent_from lib [] s h = h
perform_all-IsConsistent_from lib (o ∷ os) s h =
    perform_all-IsConsistent_from lib os (perform lib o s) (perform-IsConsistent lib o s h)

-- After any writes whatever on a new store, in any order, failed or not, it keeps the constraints: every
-- index (connections, mailboxes, aliases, pickup keys) agrees with its map in both directions, format
-- names and target names are unique, and aliases, credentials, pickup keys, account credentials and
-- backup runs refer to a mailbox, account or target that is there.
pub perform_all-IsConsistent :
    (lib : Library) (os : List Operation) (now : Time) → IsConsistent (perform_all lib os (new now))
perform_all-IsConsistent lib os now =
    perform_all-IsConsistent_from lib os (new now) (new-IsConsistent now)
