-- ===== src/Memory.antt =====
-- backend/internal/repository/memory: the in-memory repository. A method that locks the store and
-- writes is a function that returns its result beside the new store; a method that only reads
-- returns its result. `ctx` is what `ctx.Err()` returns. Values are immutable here, so the copies
-- that the clone functions make are left out.
pub mod Index
pub mod Links
pub mod Operations
pub mod Consistency
pub mod Settings
pub mod Connections
pub mod Mailboxes
pub mod Aliases
pub mod Credentials
pub mod Formats
pub mod PickupKeys
pub mod Accounts
pub mod BackupTargets
pub mod BackupRuns
pub mod Import
pub mod Capabilities
pub mod Messages
use account_manager.Prelude.{ℕ, pos, Bool, false, [], ◌∷◌, ◌++◌, Text, Map, codes}
use account_manager.Domain.{
  Time, ProviderKey, Mailbox, MailboxAlias, MailboxCredential, MailboxPickupKey, PlatformAccount,
  ProviderConnection, AppSetting, MailboxFormat, PlatformAccountCredential, BackupTarget, BackupRun,
  CachedMessage, MessageSyncState, MailboxRetrievalCapability,
}

pub record Store : Type 0 where
  pub backup_operation_locked : Bool  -- backupOperationMu
  pub provider_connections : Map ProviderConnection
  pub provider_by_identity : Map Text
  pub app_settings : Map AppSetting
  pub mailboxes : Map Mailbox
  pub mailbox_by_identity : Map Text
  pub aliases : Map MailboxAlias
  pub alias_by_identity : Map Text
  pub credentials : Map MailboxCredential
  pub pickup_keys : Map MailboxPickupKey
  pub pickup_by_digest : Map Text
  pub cached_messages : Map CachedMessage
  pub message_sync_states : Map MessageSyncState
  pub retrieval_capabilities : Map MailboxRetrievalCapability
  pub accounts : Map PlatformAccount
  pub platform_credentials : Map PlatformAccountCredential
  pub formats : Map MailboxFormat
  pub backup_targets : Map BackupTarget
  pub backup_runs : Map BackupRun

abbrev pub app_setting_key_token_refresh : Text
app_setting_key_token_refresh = codes "mailbox.token_refresh"

abbrev pub app_setting_key_message_probe : Text
app_setting_key_message_probe = codes "mailbox.message_probe"

abbrev pub app_setting_key_backup_scheduler : Text
app_setting_key_backup_scheduler = codes "backup.scheduler"

unfoldable pub setting_at : Time → Text → Text → Text × AppSetting
setting_at now key value =
    (key, record { key = key; value = value; version = pos 1; updated_at = now })

-- New, at the time `now`
unfoldable pub new : Time → Store
unfolding setting_at
new now = record {
  backup_operation_locked = false;
  provider_connections = [];
  provider_by_identity = [];
  app_settings =
      setting_at now app_setting_key_token_refresh
        (codes "{\"enabled\":true,\"lead_time_minutes\":5}")
      ∷ setting_at now app_setting_key_backup_scheduler
          (codes "{\"enabled\":false,\"max_parallel_runs\":1}")
      ∷ setting_at now app_setting_key_message_probe
          (codes "{\"enabled\":false,\"interval_minutes\":10}")
      ∷ [];
  mailboxes = [];
  mailbox_by_identity = [];
  aliases = [];
  alias_by_identity = [];
  credentials = [];
  pickup_keys = [];
  pickup_by_digest = [];
  cached_messages = [];
  message_sync_states = [];
  retrieval_capabilities = [];
  accounts = [];
  platform_credentials = [];
  formats = [];
  backup_targets = [];
  backup_runs = [];
}

-- s + "\x00" + t, the keys of the maps by identity
unfoldable pub join_key : Text → Text → Text
join_key s t = s ++ 0 ∷ t

-- mailboxIdentity
abbrev pub mailbox_identity : ProviderKey → Text → Text
mailbox_identity provider address = join_key provider address

-- credentialIdentity
abbrev pub credential_identity : Text → Text → Text
credential_identity mailbox_id kind = join_key mailbox_id kind

-- platformCredentialIdentity
abbrev pub platform_credential_identity : Text → Text → Text
platform_credential_identity account_id kind = join_key account_id kind

-- providerConnectionIdentity
abbrev pub provider_connection_identity : ProviderKey → Text → Text
provider_connection_identity provider name = join_key provider name
