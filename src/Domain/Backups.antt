-- ===== src/Domain/Backups.antt =====
-- backend/internal/domain/backup.go
use account_manager.Prelude.{ℤ, Text, Option, Bool}
use account_manager.Domain.Mailboxes.{Time, Bytes}

pub data BackupTargetKind : Type 0 where
  s3 webdav : BackupTargetKind

pub record BackupTarget : Type 0 where
  pub id : Text
  pub name : Text
  pub kind : BackupTargetKind
  pub encrypted_config : Bytes
  pub key_version : Text
  pub enabled : Bool
  pub schedule : Text
  pub retention_count : ℤ
  pub metadata : Bytes
  pub version : ℤ
  pub created_at : Time
  pub updated_at : Time

pub data BackupRunState : Type 0 where
  pending running succeeded failed : BackupRunState

pub record BackupRun : Type 0 where
  pub id : Text
  pub target_id : Text
  pub state : BackupRunState
  pub object_key : Text
  pub checksum : Text
  pub size_bytes : ℤ
  pub failure : Text  -- Error
  pub started_at : Option Time
  pub finished_at : Option Time
  pub created_at : Time
  pub updated_at : Time

pub data BackupRestoreState : Type 0 where
  running succeeded failed : BackupRestoreState

pub record BackupRestoreOperation : Type 0 where
  pub id : Text
  pub run_id : Text
  pub target_id : Text
  pub state : BackupRestoreState
  pub failure : Text  -- Error
  pub started_at : Time
  pub finished_at : Option Time
  pub updated_at : Time
