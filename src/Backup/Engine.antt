-- ===== src/Backup/Engine.antt =====
-- backend/internal/backup/service.go: the engine that snapshots the database into a sealed object and
-- restores it, over the memory store. The secret broker, the object store, the database tools, JSON
-- and SHA-256 are parameters.
pub mod Keeps
pub mod RoundTrip
pub mod Authentic
pub mod Stranded
use account_manager.Prelude.{
  ok, err, Result, ◌>>=◌, Ctx, invalid, ℕ, Bool, true, false, ◌||◌, ◌&&◌, not, Option, none, some,
  Text, text_eq, is_empty, List, [], ◌∷◌, ◌++◌, ℤ, pos, codes, Error, if◌then◌else◌,
}
use account_manager.Domain.{Time, Bytes, BackupTarget, BackupTargetKind, BackupRun, BackupRunState}
use account_manager.Memory.{Store}
use account_manager.Memory.BackupRuns.{is_active, is_pending, create_backup_run, update_backup_run}
use account_manager.Backup.Restores.{is_succeeded}
use account_manager.Backup.Failure.{bounded_run_error}
use account_manager.Backup.Platform.{
  Restorer, SnapshotEnvelope, BackupObject, Platform, World, Moments, Executed, completed, failed,
  refused,
}

abbrev pub snapshot_format : Text
snapshot_format = codes "account-manager.snapshot.v1"

abbrev pub object_key_at : Text → Text → Text
object_key_at day run_id =
    codes "account-manager/" ++ (day ++ (codes "/" ++ (run_id ++ codes ".snapshot")))

-- the run that `fail` and `failRun` persist
abbrev pub failed_run : Text → Time → BackupRun → BackupRun
failed_run failure now run = record run {
  state = BackupRunState.failed;
  failure = failure;
  finished_at = some now;
  updated_at = now;
}

-- the run once its object is stored
abbrev pub succeeded_run : BackupObject → Text → Time → BackupRun → BackupRun
succeeded_run object checksum now run = record run {
  state = BackupRunState.succeeded;
  object_key = object.object_key;
  checksum = checksum;
  size_bytes = object.size_bytes;
  finished_at = some now;
  updated_at = now;
}

-- the answer of Execute after a write of the run
unfoldable pub recorded : Executed → Result (Unit {0}) × Store → Executed × Store
recorded answer (ok _, s) = (answer, s)
recorded answer (err e, s) = (refused e, s)

abbrev pub is_unset : Option Time → Bool
is_unset none = true
is_unset (some at) = false

abbrev pub starts : BackupRun → Bool
starts run = is_pending run.state || is_unset run.started_at

abbrev pub started_run : Time → BackupRun → BackupRun
started_run now run =
    if starts run
    then record run { state = BackupRunState.running; started_at = some now; updated_at = now }
    else run

-- the run is marked as running where it is not
unfoldable pub mark_started : Ctx → Time → BackupRun → Store → Result (Unit {0}) × Store
mark_started ctx now run s =
    if starts run then update_backup_run ctx (started_run now run) s else (ok tt, s)

abbrev pub pending_run : Text → Text → Time → BackupRun
pending_run id target_id now = record {
  id = id;
  target_id = target_id;
  state = BackupRunState.pending;
  object_key = [];
  checksum = [];
  size_bytes = pos 0;
  failure = [];
  started_at = none;
  finished_at = none;
  created_at = now;
  updated_at = now;
}

-- the guards of Execute; the source is given
abbrev pub is_executable : BackupRun → BackupTarget → Bool
is_executable run target =
    not (is_empty run.id || is_empty target.id)
    && not (not (text_eq run.target_id target.id) || not (is_active run.state))

module _ {Objects Database Handle : Type 0} (p : Platform Objects Database Handle) where
  -- Service.fail
  unfoldable pub fail : Moments → Time → BackupRun → Error → Store → Executed × Store
  unfolding recorded
  fail m now run cause s =
      let run' = failed_run (bounded_run_error p.message (some cause)) now run in
      recorded (failed run' cause) (update_backup_run m.persist run' s)

  -- from the snapshot to the bytes of the object
  unfoldable pub sealed_envelope : Moments → Store × Database → Result Bytes
  sealed_envelope m database = do
    reader ← p.snapshot (m.ctx 1) database
    raw ← reader
    sealed ← p.seal (m.ctx 2) raw
    p.marshal (record { format = snapshot_format; key_version = sealed.1; payload = sealed.0 })

  -- after the object store's answer
  unfoldable pub stored :
      Moments
      → BackupRun
      → Bytes
      → Result BackupObject × Objects
      → World Objects Database
      → Executed × World Objects Database
  unfolding fail
  stored m run envelope (err cause, objects) w =
      let (answer, s) = fail m (m.clock 2) run cause w.repository in
      (answer, record w { repository = s; objects = objects })
  stored m run envelope (ok object, objects) w =
      let run' = succeeded_run object (p.sha256_hex envelope) (m.clock 2) run in
      let (answer, s) = recorded (completed run') (update_backup_run (m.ctx 4) run' w.repository) in
      (answer, record w { repository = s; objects = objects })

  unfoldable pub upload :
      Moments
      → Handle
      → BackupRun
      → Result Bytes
      → World Objects Database
      → Executed × World Objects Database
  unfolding stored fail
  upload m handle run (err cause) w =
      let (answer, s) = fail m (m.clock 2) run cause w.repository in
      (answer, record w { repository = s })
  upload m handle run (ok envelope) w =
      stored m run envelope
        (p.put (m.ctx 3) handle (object_key_at (p.format_day (m.clock 1)) run.id) envelope
          w.objects)
        w

  -- after the mark
  unfoldable pub execute_marked :
      Moments
      → Handle
      → BackupRun
      → Result (Unit {0}) × Store
      → World Objects Database
      → Executed × World Objects Database
  unfolding upload sealed_envelope
  execute_marked m handle run (err e, s) w = (refused e, record w { repository = s })
  execute_marked m handle run (ok _, s) w =
      upload m handle run (sealed_envelope m (s, w.database)) (record w { repository = s })

  -- Service.Execute
  unfoldable pub execute :
      Moments
      → Handle
      → BackupRun
      → BackupTarget
      → World Objects Database
      → Executed × World Objects Database
  unfolding execute_marked mark_started
  execute m handle run target w =
      if is_executable run target
      then execute_marked m handle (started_run (m.clock 1) run)
          (mark_started (m.ctx 0) (m.clock 1) run w.repository) w
      else (refused invalid, w)

  -- after the run was created
  unfoldable pub run_created :
      Moments
      → Handle
      → BackupRun
      → BackupTarget
      → Result (Unit {0}) × Store
      → World Objects Database
      → Executed × World Objects Database
  unfolding execute
  run_created m handle run target (err e, s) w = (refused e, record w { repository = s })
  run_created m handle run target (ok _, s) w =
      execute m handle run target (record w { repository = s })

  unfoldable pub run_named :
      Moments
      → Handle
      → BackupTarget
      → Result Text
      → World Objects Database
      → Executed × World Objects Database
  unfolding run_created
  run_named m handle target (err e) w = (refused e, w)
  run_named m handle target (ok id) w =
      let run = pending_run id target.id (m.clock 0) in
      run_created m handle run target (create_backup_run (m.ctx 5) run w.repository) w

  -- Service.Run, with what the id generator returns
  unfoldable pub run_target :
      Moments
      → Handle
      → BackupTarget
      → Result Text
      → World Objects Database
      → Executed × World Objects Database
  unfolding run_named
  run_target m handle target new_id w =
      if is_empty target.id then (refused invalid, w) else run_named m handle target new_id w

  -- `envelope.Format != …` and what follows
  unfoldable pub open_envelope : Ctx → SnapshotEnvelope → Result Bytes
  open_envelope ctx envelope =
      if text_eq envelope.format snapshot_format
      then p.unseal ctx envelope.payload envelope.key_version
      else err invalid

  -- from the object to the snapshot
  unfoldable pub fetched : (ℕ → Ctx) → Handle → BackupRun → Objects → Result Bytes
  unfolding open_envelope
  fetched ctx handle run objects = do
    reader ← p.get (ctx 0) handle run.object_key objects
    bytes ← reader
    envelope ← if text_eq (p.sha256_hex bytes) run.checksum then p.unmarshal bytes else err invalid
    open_envelope (ctx 1) envelope

  unfoldable pub hand_over :
      Ctx
      → Restorer Database
      → Result Bytes
      → World Objects Database
      → Result (Unit {0}) × World Objects Database
  hand_over ctx restorer (err e) w = (err e, w)
  hand_over ctx restorer (ok raw) w =
      let (answer, (repository, database)) = restorer ctx raw (w.repository, w.database) in
      (answer, record w { repository = repository; database = database })

  unfoldable pub restore_with :
      (ℕ → Ctx)
      → Handle
      → BackupRun
      → Option (Restorer Database)
      → World Objects Database
      → Result (Unit {0}) × World Objects Database
  unfolding hand_over fetched
  restore_with ctx handle run none w = (err invalid, w)
  restore_with ctx handle run (some restorer) w =
      hand_over (ctx 2) restorer (fetched ctx handle run w.objects) w

  -- Service.Restore
  unfoldable pub restore :
      (ℕ → Ctx)
      → Handle
      → BackupRun
      → World Objects Database
      → Result (Unit {0}) × World Objects Database
  unfolding restore_with
  restore ctx handle run w =
      if not (is_succeeded run.state) || is_empty run.object_key || is_empty run.checksum
      then (err invalid, w)
      else restore_with ctx handle run p.restorer w
