-- ===== src/Backup/Engine/RoundTrip.antt =====
-- A snapshot that was stored is restored.
use account_manager.Prelude.{
  ok, err, Result, >>=-eq-ok, Ctx, Option, none, some, Error, inl, inr, Bool-cases, ◌≡◌, refl, sym,
  ◌∙◌, ap, subst, Text, text_eq, text_eq_iff, true, false, is_empty, lookup, lookup-insert_self,
  err-ne-ok,
}
use account_manager.Domain.{Bytes, BackupTarget, BackupRun}
use account_manager.Memory.{Store}
use account_manager.Memory.BackupRuns.{update_backup_run, update_found}
use account_manager.Backup.Restores.{is_succeeded}
use account_manager.Backup.Failure.{bounded_run_error}
use account_manager.Backup.Engine.Keeps.{recorded_store}
use account_manager.Backup.Engine.{
  snapshot_format, failed_run, succeeded_run, started_run, recorded, fail, stored, upload,
  sealed_envelope, execute_marked, mark_started, is_executable, execute, open_envelope, fetched,
  hand_over, restore_with, restore, object_key_at,
}
use account_manager.Backup.Platform.{
  Restorer, Platform, World, Moments, BackupObject, SnapshotEnvelope, completed, failed, refused,
}

-- What the secret broker, the object store, JSON and SHA-256 document: what was sealed, stored or
-- encoded is read back, and neither an object's key nor a digest is empty.
pub record IsHonest {Objects Database Handle : Type 0} (p : Platform Objects Database Handle)
    : Type 0 where
  pub unseal_sealed :
      (ctx : Ctx) (raw : Bytes) (sealed : Bytes × Text)
      → p.seal ctx raw ≡ ok sealed
      → p.unseal none sealed.0 sealed.1 ≡ ok raw
  pub get_put :
      (ctx : Ctx) (handle : Handle) (key : Text) (bytes : Bytes) (o o' : Objects)
      (object : BackupObject)
      → p.put ctx handle key bytes o ≡ (ok object, o')
      → p.get none handle object.object_key o' ≡ ok (ok bytes)
  pub keyed :
      (ctx : Ctx) (handle : Handle) (key : Text) (bytes : Bytes) (o o' : Objects)
      (object : BackupObject)
      → p.put ctx handle key bytes o ≡ (ok object, o')
      → is_empty object.object_key ≡ false
  pub unmarshal_marshalled :
      (envelope : SnapshotEnvelope) (bytes : Bytes)
      → p.marshal envelope ≡ ok bytes
      → p.unmarshal bytes ≡ ok envelope
  pub digest_given : (bytes : Bytes) → is_empty (p.sha256_hex bytes) ≡ false

update_found-lookup :
    (o : Option BackupRun) (run : BackupRun) (s : Store)
    → (update_found o run s).0 ≡ ok tt
    → lookup run.id (update_found o run s).1.backup_runs ≡ some run
unfolding update_found
update_found-lookup none run s h = absurd (err-ne-ok h)
update_found-lookup (some old) run s h = elim (Bool-cases (text_eq old.target_id run.target_id)) [
  | inl same ↦ rw same (lookup-insert_self run.id run s.backup_runs)
  | inr moved ↦ absurd (err-ne-ok (rw moved at h))
]

-- A run whose write succeeds is stored.
pub update_backup_run-lookup :
    (ctx : Ctx) (run : BackupRun) (s : Store)
    → (update_backup_run ctx run s).0 ≡ ok tt
    → lookup run.id (update_backup_run ctx run s).1.backup_runs ≡ some run
unfolding update_backup_run
update_backup_run-lookup (some e) run s h = absurd (err-ne-ok h)
update_backup_run-lookup none run s h = update_found-lookup (lookup run.id s.backup_runs) run s h

recorded-completed :
    (r q : BackupRun) (x : Result (Unit {0}) × Store)
    → (recorded (completed r) x).0 ≡ completed q
    → (r ≡ q) × (x.0 ≡ ok tt)
unfolding recorded
recorded-completed r q (ok tt, s) h = (cc, refl)
recorded-completed r q (err e, s) h = cc

recorded_failed :
    (r q : BackupRun) (cause : Error) (x : Result (Unit {0}) × Store)
    → (recorded (failed r cause) x).0 ≡ completed q
    → ⊥
unfolding recorded
recorded_failed r q cause (ok _, s) h = cc
recorded_failed r q cause (err e, s) h = cc

module _ {Objects Database Handle : Type 0} (p : Platform Objects Database Handle) where
  -- The object that Put left, and the run that refers to it.
  record IsKept (m : Moments) (handle : Handle) (run : BackupRun) (envelope : Bytes)
      (before : Objects) (r : BackupRun) (w' : World Objects Database) : Type 0 where
    object : BackupObject
    put :
        p.put (m.ctx 3) handle (object_key_at (p.format_day (m.clock 1)) run.id) envelope before
        ≡ (ok object, w'.objects)
    same : succeeded_run object (p.sha256_hex envelope) (m.clock 2) run ≡ r
    found : lookup r.id w'.repository.backup_runs ≡ some r

  stored-IsKept :
      (m : Moments) (handle : Handle) (run : BackupRun) (envelope : Bytes)
      (answer : Result BackupObject × Objects) (w w' : World Objects Database) (r : BackupRun)
      (before : Objects)
      → p.put (m.ctx 3) handle (object_key_at (p.format_day (m.clock 1)) run.id) envelope before
        ≡ answer
      → stored p m run envelope answer w ≡ (completed r, w')
      → IsKept m handle run envelope before r w'
  unfolding stored fail
  stored-IsKept m handle run envelope (err cause, objects) w w' r before e h = absurd (
      recorded_failed _ r cause
        (update_backup_run m.persist
          (failed_run (bounded_run_error p.message (some cause)) (m.clock 2) run) w.repository)
        (ap (λ x. x.0) h))
  stored-IsKept m handle run envelope (ok object, objects) w w' r before e h =
      let run' = succeeded_run object (p.sha256_hex envelope) (m.clock 2) run in
      let written = update_backup_run (m.ctx 4) run' w.repository in
      let (same, done) = recorded-completed run' r written (ap (λ x. x.0) h) in
      record {
        object = object;
        put = e ∙ ap (λ x. (ok object, x.1.objects)) h;
        same = same;
        found =
            subst (λ s. lookup r.id s.backup_runs ≡ some r)
              (sym (recorded_store (completed run') written) ∙ ap (λ x. x.1.repository) h)
              (subst (λ q. lookup q.id written.1.backup_runs ≡ some q) same
                (update_backup_run-lookup (m.ctx 4) run' w.repository done));
      }

  -- What a run that completed says of the snapshot, its seal and its object.
  record IsBackup (m : Moments) (handle : Handle) (database : Store × Database) (r : BackupRun)
      (w' : World Objects Database) : Type 0 where
    raw : Bytes
    sealed : Bytes × Text
    envelope : Bytes
    marked : BackupRun
    before : Objects
    read : p.snapshot (m.ctx 1) database ≡ ok (ok raw)
    seal : p.seal (m.ctx 2) raw ≡ ok sealed
    encoded :
        p.marshal (record { format = snapshot_format; key_version = sealed.1; payload = sealed.0 })
        ≡ ok envelope
    kept : IsKept m handle marked envelope before r w'

  upload-IsBackup :
      (m : Moments) (handle : Handle) (run : BackupRun) (sealing : Result Bytes)
      (w w' : World Objects Database) (r : BackupRun)
      → sealed_envelope p m (w.repository, w.database) ≡ sealing
      → upload p m handle run sealing w ≡ (completed r, w')
      → IsBackup m handle (w.repository, w.database) r w'
  unfolding upload fail sealed_envelope
  upload-IsBackup m handle run (err cause) w w' r e h = absurd (
      recorded_failed _ r cause
        (update_backup_run m.persist
          (failed_run (bounded_run_error p.message (some cause)) (m.clock 2) run) w.repository)
        (ap (λ x. x.0) h))
  upload-IsBackup m handle run (ok envelope) w w' r e h =
      let (reader, taken, rest) = >>=-eq-ok (p.snapshot (m.ctx 1) (w.repository, w.database)) _ e in
      let (raw, read, rest') = >>=-eq-ok reader _ rest in
      let (sealed, seal, encoded) = >>=-eq-ok (p.seal (m.ctx 2) raw) _ rest' in
      record {
        raw = raw;
        sealed = sealed;
        envelope = envelope;
        marked = run;
        before = w.objects;
        read = taken ∙ ap ok read;
        seal = seal;
        encoded = encoded;
        kept = stored-IsKept m handle run envelope _ w w' r w.objects refl h;
      }

  execute_marked-IsBackup :
      (m : Moments) (handle : Handle) (run : BackupRun) (marking : Result (Unit {0}) × Store)
      (w w' : World Objects Database) (r : BackupRun)
      → execute_marked p m handle run marking w ≡ (completed r, w')
      → IsBackup m handle (marking.1, w.database) r w'
  unfolding execute_marked
  execute_marked-IsBackup m handle run (err e, s) w w' r h = absurd (refused_ne (ap (λ x. x.0) h))
    where
      refused_ne : {e : Error} → refused e ≡ completed r → ⊥
      refused_ne k = cc
  execute_marked-IsBackup m handle run (ok _, s) w w' r h =
      upload-IsBackup m handle run (sealed_envelope p m (s, w.database))
        (record w { repository = s }) w' r refl h

  execute-IsBackup :
      (m : Moments) (handle : Handle) (run : BackupRun) (target : BackupTarget)
      (w w' : World Objects Database) (r : BackupRun)
      → execute p m handle run target w ≡ (completed r, w')
      → IsBackup m handle ((mark_started (m.ctx 0) (m.clock 1) run w.repository).1, w.database) r w'
  unfolding execute
  execute-IsBackup m handle run target w w' r h = elim (Bool-cases (is_executable run target)) [
    | inl good ↦
        execute_marked-IsBackup m handle (started_run (m.clock 1) run)
          (mark_started (m.ctx 0) (m.clock 1) run w.repository) w w' r (rw good at h)
    | inr bad ↦ absurd (refused_ne (ap (λ x. x.0) (rw bad at h)))
  ]
    where
      refused_ne : {e : Error} → refused e ≡ completed r → ⊥
      refused_ne k = cc

  fetched_kept :
      (honest : IsHonest p) (m : Moments) (handle : Handle) (database : Store × Database)
      (r : BackupRun) (w' : World Objects Database) (b : IsBackup m handle database r w')
      → fetched p (λ _. none) handle r w'.objects ≡ ok b.raw
  unfolding fetched open_envelope
  fetched_kept honest m handle database r w' b =
      let k = b.kept in
      let key = ap (λ q. q.object_key) k.same in
      let got = honest.get_put (m.ctx 3) handle _ b.envelope b.before w'.objects k.object k.put in
      rw
        (
          subst (λ x. p.get none handle x w'.objects ≡ ok (ok b.envelope)) key got,
          (text_eq_iff (p.sha256_hex b.envelope) r.checksum).1 (ap (λ q. q.checksum) k.same),
          honest.unmarshal_marshalled _ b.envelope b.encoded,
          (text_eq_iff snapshot_format snapshot_format).1 refl,
        )
        (honest.unseal_sealed (m.ctx 2) b.raw b.sealed b.seal)

  restore-fetched :
      (handle : Handle) (r : BackupRun) (v : World Objects Database) (restorer : Restorer Database)
      (raw : Bytes)
      → p.restorer ≡ some restorer
      → is_succeeded r.state ≡ true
      → is_empty r.object_key ≡ false
      → is_empty r.checksum ≡ false
      → fetched p (λ _. none) handle r v.objects ≡ ok raw
      → restore p (λ _. none) handle r v ≡ (
        (restorer none raw (v.repository, v.database)).0,
        record v {
          repository = (restorer none raw (v.repository, v.database)).1.0;
          database = (restorer none raw (v.repository, v.database)).1.1;
        },
      )
  unfolding restore restore_with hand_over
  restore-fetched handle r v restorer raw given done keyed summed got =
      rw (done, keyed, summed, given, got) refl

  -- With a secret broker, an object store, a codec and a digest that do what they document: a run that
  -- Execute completes is stored as it was returned, and a restore of it, in any later world whose
  -- objects are those that Execute left, hands the restorer exactly the bytes that the snapshot read,
  -- with the run marked as running, and changes nothing but the repository and the database, which become what the restorer makes of
  -- them.
  pub restore-execute :
      (m : Moments) (handle : Handle) (run : BackupRun) (target : BackupTarget)
      (w w' v : World Objects Database) (r : BackupRun) (restorer : Restorer Database)
      → IsHonest p
      → p.restorer ≡ some restorer
      → execute p m handle run target w ≡ (completed r, w')
      → v.objects ≡ w'.objects
      → (raw : Bytes) × (p.snapshot
            (m.ctx 1)
            ((mark_started (m.ctx 0) (m.clock 1) run w.repository).1, w.database)
          ≡ ok (ok raw))
        × (lookup r.id w'.repository.backup_runs ≡ some r)
        × (restore p (λ _. none) handle r v ≡ (
          (restorer none raw (v.repository, v.database)).0,
          record v {
            repository = (restorer none raw (v.repository, v.database)).1.0;
            database = (restorer none raw (v.repository, v.database)).1.1;
          },
        ))
  restore-execute m handle run target w w' v r restorer honest given done same =
      let b = execute-IsBackup m handle run target w w' r done in
      let k = b.kept in
      (
        b.raw,
        b.read,
        k.found,
        restore-fetched handle r v restorer b.raw given
            (ap (λ q. is_succeeded q.state) (sym k.same))
            (ap (λ q. is_empty q.object_key) (sym k.same)
              ∙ honest.keyed (m.ctx 3) handle _ b.envelope b.before w'.objects k.object k.put)
            (ap (λ q. is_empty q.checksum) (sym k.same) ∙ honest.digest_given b.envelope)
            (ap (fetched p (λ _. none) handle r) same ∙ fetched_kept honest m handle _ r w' b),
      )
