-- ===== src/Backup/Platform.antt =====
-- backend/internal/backup/service.go: what the engine and the worker work with: the state, what they
-- are given, and what they return.
use account_manager.Prelude.{Result, Ctx, ℕ, Option, Text, ℤ, Error}
use account_manager.Domain.{Time, Bytes, BackupTargetKind, BackupRun}
use account_manager.Memory.{Store}

pub record SnapshotEnvelope : Type 0 where
  pub format : Text
  pub key_version : Text
  pub payload : Bytes

-- ports.BackupObject, without the tag that nothing reads
pub record BackupObject : Type 0 where
  pub object_key : Text
  pub size_bytes : ℤ

-- A tool that replaces the database from the bytes of a snapshot (SnapshotRestorer). The records of the
-- repository stand in that database too, so it may change both, and a snapshot may read both.
abbrev pub Restorer : Type 0 → Type 0
Restorer Database = Ctx → Bytes → Store × Database → Result (Unit {0}) × (Store × Database)

-- What the engine and the worker are given. `Objects` is the state of the object stores, `Database`
-- that of the database, `Handle` an opened object store. A reader is what `io.ReadAll` makes of it.
pub record Platform (Objects Database Handle : Type 0) : Type 0 where
  pub seal : Ctx → Bytes → Result (Bytes × Text)  -- SecretBroker.Seal
  pub unseal : Ctx → Bytes → Text → Result Bytes  -- SecretBroker.Open
  pub open_handle : Ctx → BackupTargetKind → Bytes → Result Handle  -- BackupStoreFactory
  pub put : Ctx → Handle → Text → Bytes → Objects → Result BackupObject × Objects
  pub get : Ctx → Handle → Text → Objects → Result (Result Bytes)
  pub snapshot : Ctx → Store × Database → Result (Result Bytes)  -- SnapshotSource
  pub restorer : Option (Restorer Database)
  pub marshal : SnapshotEnvelope → Result Bytes
  pub unmarshal : Bytes → Result SnapshotEnvelope
  pub sha256_hex : Bytes → Text
  pub format_day : Time → Text  -- Format("2006/01/02")
  pub message : Error → Text  -- Error()

pub record World (Objects Database : Type 0) : Type 0 where
  pub repository : Store
  pub objects : Objects
  pub database : Database

-- What the n-th question to the context and to the clock returns; `persist` is the context that
-- outlives a cancellation.
pub record Moments : Type 0 where
  pub ctx : ℕ → Ctx
  pub clock : ℕ → Time
  pub persist : Ctx

-- What Execute returns: a run, a run with the error that failed it, or no run with an error.
pub data Executed : Type 0 where
  completed : BackupRun → Executed
  failed : BackupRun → Error → Executed
  refused : Error → Executed
