-- ===== src/Tests/Data.antt =====
-- Records for the tests.
use account_manager.Prelude.{codes, pos, none, some, true, false, [], ◌∷◌}
use account_manager.Domain.{
  Mailbox, MailboxFormat, MailboxPickupKey, MailboxImportItem, BackupTarget, BackupRun,
  CachedMessage, MessageSyncState, AppSetting, MailboxStatus, MailboxFormatKind,
  MailboxFormatDirection, BackupTargetKind, BackupRunState,
}

abbrev pub box : Mailbox
box = record {
  id = codes "m1";
  provider = codes "gmail";
  address = codes "A@x.org";
  normalized_address = codes "a@x.org";
  display_name = [];
  external_reference = [];
  status = MailboxStatus.active;
  metadata = [];
  created_at = 5;
  updated_at = 5;
}

abbrev pub pickup : MailboxPickupKey
pickup = record {
  id = codes "k1";
  mailbox_id = codes "m1";
  digest = 1 ∷ 171 ∷ [];
  encrypted_token = [];
  key_version = [];
  prefix = [];
  label = [];
  expires_at = none;
  revoked_at = none;
  created_at = 6;
}

abbrev pub format : MailboxFormat
format = record {
  id = codes "f1";
  name = codes "csv";
  kind = MailboxFormatKind.delimited;
  direction = MailboxFormatDirection.both;
  delimiter = codes ",";
  fields = [];
  provider = none;
  has_header = true;
  template = [];
  parser_config = [];
  builtin = false;
  enabled = true;
  version = pos 1;
  created_at = 7;
  updated_at = 7;
}

abbrev pub item : MailboxImportItem
item = record {
  mailbox = box;
  credential = none;
  pickup_key = some pickup;
  platform_account = none;
  platform_credential = none;
}

abbrev pub setting : AppSetting
setting = record { key = codes " probe "; value = 123 ∷ 125 ∷ []; version = pos 0; updated_at = 8 }

abbrev pub target : BackupTarget
target = record {
  id = codes "t1";
  name = codes "disk";
  kind = BackupTargetKind.webdav;
  encrypted_config = [];
  key_version = [];
  enabled = true;
  schedule = codes "daily";
  retention_count = pos 3;
  metadata = [];
  version = pos 1;
  created_at = 10;
  updated_at = 10;
}

abbrev pub run : BackupRun
run = record {
  id = codes "r1";
  target_id = codes "t1";
  state = BackupRunState.pending;
  object_key = [];
  checksum = [];
  size_bytes = pos 0;
  failure = [];
  started_at = none;
  finished_at = none;
  created_at = 30;
  updated_at = 30;
}

abbrev pub message : CachedMessage
message = record {
  id = codes "c1";
  mailbox_id = codes "m1";
  external_id = codes "e1";
  provider_message_id = codes "p1";
  retrieval_method = codes "imap";
  internet_message_id = [];
  folder = codes "inbox";
  sender = [];
  recipients = [];
  copies = [];
  recipient_addresses = [];
  subject = codes "hello";
  body = [];
  html = [];
  received_at = 40;
  unread = true;
  viewed_at = some 41;
  headers = [];
  discovered_at = 40;
  updated_at = 40;
}

abbrev pub state : MessageSyncState
state = record {
  target_id = codes "m1";
  mailbox_id = codes "m1";
  alias_id = [];
  folder = codes "inbox";
  last_message_at = some 40;
  last_synced_at = 42;
  last_error = [];
  retrieval_method = codes "imap";
  cursor = [];
  uid_validity = 0;
  highest_uid = 0;
}
