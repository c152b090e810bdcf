-- ===== src/Memory/Operations.antt =====
-- Every method of the memory store that writes, as one type of operations and one function that
-- runs them: the writes of a process in the order in which they took the lock.
use account_manager.Prelude.{ℕ, ℤ, Bool, Text, Option, List, [], ◌∷◌, Ctx}
use account_manager.Domain.{
  Bytes, Time, AppSetting, ProviderConnection, Mailbox, MailboxAlias, MailboxCredential,
  MailboxPickupKey, PlatformAccount, PlatformAccountCredential, MailboxFormat, BackupTarget,
  BackupRun, CachedMessage, MessageFolder, MessageSyncState, MailboxRetrievalCapability,
  RetrievalMethod, MailboxImportItem, ConflictStrategy,
}
use account_manager.Ports.{MessageCacheFilter}
use account_manager.Memory.{Store}
use account_manager.Memory.Settings.{save_app_setting}
use account_manager.Memory.Connections.{create_provider_connection, update_provider_connection}
use account_manager.Memory.Mailboxes.{create_mailbox}
use account_manager.Memory.Aliases.{create_alias}
use account_manager.Memory.Credentials.{upsert_credential}
use account_manager.Memory.Import.{import_mailboxes}
use account_manager.Memory.Formats.{create_mailbox_format, update_mailbox_format}
use account_manager.Memory.PickupKeys.{create_pickup_key, revoke_pickup_key}
use account_manager.Memory.Accounts.{create_platform_account, upsert_platform_account_credential}
use account_manager.Memory.BackupTargets.{create_backup_target, update_backup_target}
use account_manager.Memory.BackupRuns.{
  create_backup_run, create_scheduled_backup_run, claim_pending_backup_run, update_backup_run,
  Lease, try_acquire_backup_operation, release_lease,
}
use account_manager.Memory.Messages.{
  upsert_cached_messages, save_message_sync_state, reset_message_sync_state,
  mark_cached_message_viewed, delete_cached_messages, purge_cached_messages,
  delete_cached_messages_range,
}
use account_manager.Memory.Messages.Cleanup.{cleanup_cached_messages}
use account_manager.Memory.Capabilities.{upsert_retrieval_capability}

-- What the store takes from Go's library: json.Valid, whether json.Unmarshal reads an object that is
-- not null, strings.ToLower and strings.EqualFold.
pub record Library : Type 0 where
  pub json_valid : Bytes → Bool
  pub is_object : Bytes → Bool
  pub to_lower : Text → Text
  pub equal_fold : Text → Text → Bool

pub data Operation : Type 0 where
  setting_saved : Ctx → AppSetting → ℤ → Operation
  connection_created : Ctx → ProviderConnection → Operation
  connection_updated : Ctx → ProviderConnection → ℤ → Operation
  mailbox_created : Ctx → Mailbox → Operation
  alias_created : Ctx → MailboxAlias → Operation
  credential_upserted : Ctx → MailboxCredential → Operation
  batch_imported : (ℕ → Ctx) → List MailboxImportItem → ConflictStrategy → Operation
  format_created : Ctx → MailboxFormat → Operation
  format_updated : Ctx → MailboxFormat → ℤ → Operation
  pickup_key_created : Ctx → MailboxPickupKey → Operation
  pickup_key_revoked : Ctx → Text → Text → Time → Operation
  account_created : Ctx → PlatformAccount → Operation
  account_credential_upserted : Ctx → PlatformAccountCredential → Operation
  target_created : Ctx → BackupTarget → Operation
  target_updated : Ctx → BackupTarget → ℤ → Operation
  run_created : Ctx → BackupRun → Operation
  run_scheduled : Ctx → BackupRun → Time → Operation
  run_claimed : Ctx → Time → Operation
  run_updated : Ctx → BackupRun → Operation
  lease_acquired : Ctx → Operation
  lease_released : Lease → Operation
  messages_upserted : Ctx → List CachedMessage → Operation
  sync_state_saved : Ctx → MessageSyncState → Operation
  sync_state_reset : Ctx → Text → MessageFolder → Operation
  message_viewed : Ctx → Text → Text → Time → Operation
  messages_deleted : Ctx → Text → MessageFolder → RetrievalMethod → List Text → Operation
  messages_purged : Ctx → Text → MessageFolder → Option Time → ℤ → Operation
  messages_cleaned : Ctx → Time → ℤ → ℤ → Operation
  range_deleted : Ctx → MessageCacheFilter → ℤ → Operation
  capability_upserted : Ctx → MailboxRetrievalCapability → Operation

unfoldable pub perform : Library → Operation → Store → Store
perform lib (setting_saved ctx setting v) s = (save_app_setting lib.json_valid ctx setting v s).1
perform lib (connection_created ctx c) s = (create_provider_connection lib.is_object ctx c s).1
perform lib (connection_updated ctx c v) s = (update_provider_connection lib.is_object ctx c v s).1
perform lib (mailbox_created ctx m) s = (create_mailbox ctx m s).1
perform lib (alias_created ctx a) s = (create_alias ctx a s).1
perform lib (credential_upserted ctx c) s = (upsert_credential ctx c s).1
perform lib (batch_imported ctx items strategy) s = (import_mailboxes ctx items strategy s).1
perform lib (format_created ctx f) s = (create_mailbox_format ctx f s).1
perform lib (format_updated ctx f v) s = (update_mailbox_format ctx f v s).1
perform lib (pickup_key_created ctx k) s = (create_pickup_key ctx k s).1
perform lib (pickup_key_revoked ctx mailbox_id id now) s =
    (revoke_pickup_key ctx mailbox_id id now s).1
perform lib (account_created ctx a) s = (create_platform_account ctx a s).1
perform lib (account_credential_upserted ctx c) s = (upsert_platform_account_credential ctx c s).1
perform lib (target_created ctx t) s = (create_backup_target ctx t s).1
perform lib (target_updated ctx t v) s = (update_backup_target ctx t v s).1
perform lib (run_created ctx r) s = (create_backup_run ctx r s).1
perform lib (run_scheduled ctx r due_at) s = (create_scheduled_backup_run ctx r due_at s).1
perform lib (run_claimed ctx now) s = (claim_pending_backup_run ctx now s).1
perform lib (run_updated ctx r) s = (update_backup_run ctx r s).1
perform lib (lease_acquired ctx) s = (try_acquire_backup_operation ctx s).1
perform lib (lease_released lease) s = (release_lease lease s).1
perform lib (messages_upserted ctx ms) s = (upsert_cached_messages ctx ms s).1
perform lib (sync_state_saved ctx state) s = (save_message_sync_state ctx state s).1
perform lib (sync_state_reset ctx target_id folder) s =
    (reset_message_sync_state ctx target_id folder s).1
perform lib (message_viewed ctx mailbox_id id at) s =
    (mark_cached_message_viewed ctx mailbox_id id at s).1
perform lib (messages_deleted ctx mailbox_id folder method ids) s =
    (delete_cached_messages ctx mailbox_id folder method ids s).1
perform lib (messages_purged ctx mailbox_id folder before limit) s =
    (purge_cached_messages ctx mailbox_id folder before limit s).1
perform lib (messages_cleaned ctx before max batch) s =
    (cleanup_cached_messages ctx before max batch s).1
perform lib (range_deleted ctx filter limit) s =
    (delete_cached_messages_range lib.to_lower lib.equal_fold ctx filter limit s).1
perform lib (capability_upserted ctx c) s = (upsert_retrieval_capability ctx c s).1

unfoldable pub perform_all : Library → List Operation → Store → Store
perform_all lib [] s = s
perform_all lib (o ∷ os) s = perform_all lib os (perform lib o s)
