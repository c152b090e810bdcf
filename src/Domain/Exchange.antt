-- ===== src/Domain/Exchange.antt =====
-- backend/internal/domain/importexport.go
use account_manager.Prelude.{ℕ, ℤ, Text, Option, List, Bool}
use account_manager.Domain.Mailboxes.{
  Time, Bytes, ProviderKey, Mailbox, MailboxCredential, MailboxPickupKey, PlatformAccount,
}

pub data MailboxFormatKind : Type 0 where
  delimited template json : MailboxFormatKind

pub data MailboxFormatDirection : Type 0 where
  inbound outbound both : MailboxFormatDirection

pub record MailboxFormatField : Type 0 where
  pub column : Text
  pub target : Text
  pub required : Bool
  pub sensitive : Bool
  pub default : Text

pub record MailboxFormat : Type 0 where
  pub id : Text
  pub name : Text
  pub kind : MailboxFormatKind
  pub direction : MailboxFormatDirection
  pub delimiter : Text
  pub fields : List MailboxFormatField
  pub provider : Option ProviderKey
  pub has_header : Bool
  pub template : Text
  pub parser_config : Bytes
  pub builtin : Bool
  pub enabled : Bool
  pub version : ℤ
  pub created_at : Time
  pub updated_at : Time

-- `other` is a string that is none of the three constants
pub data ConflictStrategy : Type 0 where
  skip update fail : ConflictStrategy
  other : Text → ConflictStrategy

pub record PlatformAccountCredential : Type 0 where
  pub id : Text
  pub platform_account_id : Text
  pub kind : Text
  pub encrypted_secret : Bytes
  pub key_version : Text
  pub metadata : Bytes
  pub created_at : Time
  pub updated_at : Time

pub record MailboxImportItem : Type 0 where
  pub mailbox : Mailbox
  pub credential : Option MailboxCredential
  pub pickup_key : Option MailboxPickupKey
  pub platform_account : Option PlatformAccount
  pub platform_credential : Option PlatformAccountCredential

-- The three counters count items of a slice, so they stay far below the bound of `int`.
pub record MailboxImportResult : Type 0 where
  pub created : ℕ
  pub updated : ℕ
  pub skipped : ℕ
  pub mailbox_ids : List Text
