-- ===== src/Memory/Consistency.antt =====
-- The constraints that the store enforces between its maps, as the database does by unique and
-- foreign keys: the indexes agree with the maps, names are unique, references lead somewhere.
pub mod Mailboxes
pub mod Connections
pub mod Accounts
pub mod Catalog
pub mod Runs
pub mod Staging
pub mod Import
pub mod Frames
pub mod Reach
use account_manager.Prelude.{◌≡◌, Map, Text, some, [], Distinct, lookup}
use account_manager.Domain.{
  Mailbox, MailboxAlias, MailboxCredential, MailboxPickupKey, ProviderConnection,
  PlatformAccountCredential, MailboxFormat, BackupTarget, BackupRun, Time,
}
use account_manager.Memory.{Store, new, join_key}
use account_manager.Memory.PickupKeys.{hex}
use account_manager.Memory.Index.{IsIndexed, IsIndexed-empty}
use account_manager.Memory.Links.{
  IsAttached, IsAttached-empty, HasUniqueNames, HasUniqueNames-empty,
}

abbrev pub mailbox_key : Mailbox → Text
mailbox_key m = join_key m.provider m.normalized_address

abbrev pub alias_key : MailboxAlias → Text
alias_key a = join_key a.provider a.normalized_address

abbrev pub connection_key : ProviderConnection → Text
connection_key c = join_key c.provider c.name

abbrev pub digest_key : MailboxPickupKey → Text
digest_key k = hex k.digest

pub record IsConsistent (s : Store) : Type 0 where
  pub connections :
      IsIndexed {V = ProviderConnection}
        (λ c. c.id)
        connection_key
        s.provider_connections
        s.provider_by_identity
  pub mailboxes : IsIndexed {V = Mailbox} (λ m. m.id) mailbox_key s.mailboxes s.mailbox_by_identity
  pub aliases : IsIndexed {V = MailboxAlias} (λ a. a.id) alias_key s.aliases s.alias_by_identity
  pub pickup_keys :
      IsIndexed {V = MailboxPickupKey} (λ k. k.id) digest_key s.pickup_keys s.pickup_by_digest
  pub alias_mailboxes : IsAttached {V = MailboxAlias} (λ a. a.mailbox_id) s.aliases s.mailboxes
  pub credential_mailboxes :
      IsAttached {V = MailboxCredential} (λ c. c.mailbox_id) s.credentials s.mailboxes
  pub pickup_mailboxes :
      IsAttached {V = MailboxPickupKey} (λ k. k.mailbox_id) s.pickup_keys s.mailboxes
  pub credential_accounts :
      IsAttached {V = PlatformAccountCredential}
        (λ c. c.platform_account_id)
        s.platform_credentials
        s.accounts
  pub format_names : HasUniqueNames {V = MailboxFormat} (λ f. f.name) s.formats
  pub target_names : HasUniqueNames {V = BackupTarget} (λ t. t.name) s.backup_targets
  pub run_targets : IsAttached {V = BackupRun} (λ r. r.target_id) s.backup_runs s.backup_targets
  pub run_keys : Distinct s.backup_runs
  pub run_ids : (i : Text) (r : BackupRun) → lookup i s.backup_runs ≡ some r → r.id ≡ i

-- A new store is consistent.
pub new-IsConsistent : (now : Time) → IsConsistent (new now)
unfolding new lookup
new-IsConsistent now = record {
  connections = IsIndexed-empty (λ c. c.id) connection_key;
  mailboxes = IsIndexed-empty (λ m. m.id) mailbox_key;
  aliases = IsIndexed-empty (λ a. a.id) alias_key;
  pickup_keys = IsIndexed-empty (λ k. k.id) digest_key;
  alias_mailboxes = IsAttached-empty (λ a. a.mailbox_id) [];
  credential_mailboxes = IsAttached-empty (λ c. c.mailbox_id) [];
  pickup_mailboxes = IsAttached-empty (λ k. k.mailbox_id) [];
  credential_accounts = IsAttached-empty (λ c. c.platform_account_id) [];
  format_names = HasUniqueNames-empty (λ f. f.name);
  target_names = HasUniqueNames-empty (λ t. t.name);
  run_targets = IsAttached-empty (λ r. r.target_id) [];
  run_keys = tt;
  run_ids = λ i r p. cc;
}
