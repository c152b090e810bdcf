-- ===== src/Domain/Providers.antt =====
-- backend/internal/domain/provider.go and settings.go
use account_manager.Prelude.{ℤ, Text, List, Bool}
use account_manager.Domain.Mailboxes.{Time, Bytes, ProviderKey}

-- type RetrievalMethod string
abbrev pub RetrievalMethod : Type 0
RetrievalMethod = Text

pub record ProviderCapabilities : Type 0 where
  pub provision_mailbox : Bool
  pub manage_aliases : Bool
  pub forwarding : Bool
  pub refresh_tokens : Bool
  pub retrieval_methods : List RetrievalMethod

pub record ProviderConnection : Type 0 where
  pub id : Text
  pub provider : ProviderKey
  pub name : Text
  pub encrypted_config : Bytes
  pub key_version : Text
  pub enabled : Bool
  pub capabilities : ProviderCapabilities
  pub metadata : Bytes
  pub version : ℤ
  pub created_at : Time
  pub updated_at : Time

pub record AppSetting : Type 0 where
  pub key : Text
  pub value : Bytes
  pub version : ℤ
  pub updated_at : Time
