-- ===== src/Domain/Mailboxes.antt =====
-- backend/internal/domain/mailbox.go
use account_manager.Prelude.{ℕ, ℤ, Text, Option, List, Bool}

-- time.Time, as an instant
abbrev pub Time : Type 0
Time = ℕ

-- []byte and json.RawMessage
abbrev pub Bytes : Type 0
Bytes = List ℕ

-- type ProviderKey string
abbrev pub ProviderKey : Type 0
ProviderKey = Text

pub data MailboxStatus : Type 0 where
  active disabled error : MailboxStatus

pub record Mailbox : Type 0 where
  pub id : Text
  pub provider : ProviderKey
  pub address : Text
  pub normalized_address : Text
  pub display_name : Text
  pub external_reference : Text
  pub status : MailboxStatus
  pub metadata : Bytes
  pub created_at : Time
  pub updated_at : Time

pub data AliasKind : Type 0 where
  split forward : AliasKind

pub record MailboxAlias : Type 0 where
  pub id : Text
  pub mailbox_id : Text
  pub provider : ProviderKey
  pub address : Text
  pub normalized_address : Text
  pub kind : AliasKind
  pub enabled : Bool
  pub metadata : Bytes
  pub created_at : Time
  pub updated_at : Time

-- type CredentialKind string
abbrev pub CredentialKind : Type 0
CredentialKind = Text

pub record MailboxCredential : Type 0 where
  pub id : Text
  pub mailbox_id : Text
  pub kind : CredentialKind
  pub client_id : Text
  pub encrypted_secret : Bytes
  pub key_version : Text
  pub expires_at : Option Time
  pub refresh_after : Option Time
  pub refresh_status : Text
  pub last_refreshed_at : Option Time
  pub last_refresh_error : Text
  pub metadata : Bytes
  pub version : ℤ
  pub created_at : Time
  pub updated_at : Time

pub record MailboxRoute : Type 0 where
  pub id : Text
  pub mailbox_id : Text
  pub alias_id : Text
  pub role : Text
  pub address : Text

pub record PlatformAccount : Type 0 where
  pub id : Text
  pub platform : Text
  pub external_reference : Text
  pub mailbox_id : Text
  pub mailbox_alias_id : Option Text
  pub login_address : Text
  pub status : Text
  pub metadata : Bytes
  pub routes : List MailboxRoute
  pub created_at : Time
  pub updated_at : Time

pub record MailboxPickupKey : Type 0 where
  pub id : Text
  pub mailbox_id : Text
  pub digest : Bytes
  pub encrypted_token : Bytes
  pub key_version : Text
  pub prefix : Text
  pub label : Text
  pub expires_at : Option Time
  pub revoked_at : Option Time
  pub created_at : Time
