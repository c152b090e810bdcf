-- ===== src/Domain/Messages.antt =====
-- backend/internal/domain/message_cache.go
use account_manager.Prelude.{ℕ, Text, Option, List, Bool}
use account_manager.Domain.Mailboxes.{Time}
use account_manager.Domain.Providers.{RetrievalMethod}

-- type MessageFolder string
abbrev pub MessageFolder : Type 0
MessageFolder = Text

pub record CachedMessage : Type 0 where
  pub id : Text
  pub mailbox_id : Text
  pub external_id : Text
  pub provider_message_id : Text
  pub retrieval_method : RetrievalMethod
  pub internet_message_id : Text
  pub folder : MessageFolder
  pub sender : Text  -- From
  pub recipients : List Text  -- To
  pub copies : List Text  -- Cc
  pub recipient_addresses : List Text
  pub subject : Text
  pub body : Text  -- Text
  pub html : Text
  pub received_at : Time
  pub unread : Bool
  pub viewed_at : Option Time
  pub headers : List (Text × List Text)
  pub discovered_at : Time
  pub updated_at : Time

pub record MessageSyncState : Type 0 where
  pub target_id : Text
  pub mailbox_id : Text
  pub alias_id : Text
  pub folder : MessageFolder
  pub last_message_at : Option Time
  pub last_synced_at : Time
  pub last_error : Text
  pub retrieval_method : RetrievalMethod
  pub cursor : Text
  pub uid_validity : ℕ  -- uint32
  pub highest_uid : ℕ  -- uint32

pub data RetrievalCapabilityStatus : Type 0 where
  pending available unavailable error : RetrievalCapabilityStatus

pub record MailboxRetrievalCapability : Type 0 where
  pub mailbox_id : Text
  pub method : RetrievalMethod
  pub status : RetrievalCapabilityStatus
  pub preferred : Bool
  pub token_expires_at : Option Time
  pub checked_at : Option Time
  pub error_code : Text
  pub error_message : Text
