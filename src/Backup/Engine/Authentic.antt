-- ===== src/Backup/Engine/Authentic.antt =====
-- A restore touches the repository and the database only with the authentic bytes of the run's object.
use account_manager.Prelude.{
  ok, err, Result, >>=-eq-ok, Ctx, Option, none, some, Error, inl, inr, Bool-cases, ◌≡◌, ◌⊎◌, refl,
  Text, text_eq, text_eq_iff, true, is_empty, not, ◌||◌, ℕ, err-ne-ok, arith, ap, ◌∙◌, invalid,
  if◌then◌else◌,
}
use account_manager.Domain.{Bytes, BackupRun}
use account_manager.Backup.Restores.{is_succeeded}
use account_manager.Backup.Engine.{
  snapshot_format, open_envelope, fetched, hand_over, restore_with, restore,
}
use account_manager.Backup.Platform.{Restorer, Platform, World, SnapshotEnvelope}

module _ {Objects Database Handle : Type 0} (p : Platform Objects Database Handle) where
  -- The object of the run was read, its digest is the run's, and it opens to `raw`.
  pub record IsAuthentic (ctx : ℕ → Ctx) (handle : Handle) (run : BackupRun) (objects : Objects)
      (raw : Bytes) : Type 0 where
    pub bytes : Bytes
    pub envelope : SnapshotEnvelope
    pub got : p.get (ctx 0) handle run.object_key objects ≡ ok (ok bytes)
    pub digest : p.sha256_hex bytes ≡ run.checksum
    pub decoded : p.unmarshal bytes ≡ ok envelope
    pub format : envelope.format ≡ snapshot_format
    pub opened : p.unseal (ctx 1) envelope.payload envelope.key_version ≡ ok raw

  open_envelope-eq-ok :
      (ctx : Ctx) (envelope : SnapshotEnvelope) (raw : Bytes)
      → open_envelope p ctx envelope ≡ ok raw
      → (envelope.format ≡ snapshot_format)
        × (p.unseal ctx envelope.payload envelope.key_version ≡ ok raw)
  unfolding open_envelope
  open_envelope-eq-ok ctx envelope raw h =
      elim (Bool-cases (text_eq envelope.format snapshot_format)) [
        | inl e ↦ ((text_eq_iff envelope.format snapshot_format).0 e, rw e at h)
        | inr e ↦ absurd (err-ne-ok (rw e at h))
      ]

  checked-eq-ok :
      (bytes : Bytes) (checksum : Text) (envelope : SnapshotEnvelope)
      → (if text_eq (p.sha256_hex bytes) checksum then p.unmarshal bytes else err invalid)
        ≡ ok envelope
      → (p.sha256_hex bytes ≡ checksum) × (p.unmarshal bytes ≡ ok envelope)
  checked-eq-ok bytes checksum envelope h =
      elim (Bool-cases (text_eq (p.sha256_hex bytes) checksum)) [
        | inl e ↦ ((text_eq_iff (p.sha256_hex bytes) checksum).0 e, rw e at h)
        | inr e ↦ absurd (err-ne-ok (rw e at h))
      ]

  fetched-IsAuthentic :
      (ctx : ℕ → Ctx) (handle : Handle) (run : BackupRun) (objects : Objects) (raw : Bytes)
      → fetched p ctx handle run objects ≡ ok raw
      → IsAuthentic ctx handle run objects raw
  unfolding fetched
  fetched-IsAuthentic ctx handle run objects raw h =
      let (reader, opened, rest) = >>=-eq-ok (p.get (ctx 0) handle run.object_key objects) _ h in
      let (bytes, read, rest') = >>=-eq-ok reader _ rest in
      let (envelope, checked, rest'') =
        >>=-eq-ok
          (if text_eq (p.sha256_hex bytes) run.checksum then p.unmarshal bytes else err invalid) _
          rest' in
      let (digest, decoded) = checked-eq-ok bytes run.checksum envelope checked in
      let (format, unsealed) = open_envelope-eq-ok (ctx 1) envelope raw rest'' in
      record {
        bytes = bytes;
        envelope = envelope;
        got = opened ∙ ap ok read;
        digest = digest;
        decoded = decoded;
        format = format;
        opened = unsealed;
      }

  -- A restore that failed before the hand-over, or one that handed authentic bytes over.
  abbrev pub IsSound :
      (ℕ → Ctx)
      → Handle
      → BackupRun
      → World Objects Database
      → Result (Unit {0}) × World Objects Database
      → Type 0
  IsSound ctx handle run w answer =
      ((e : Error) × (answer ≡ (err e, w)))
      ⊎ ((raw : Bytes) × (restorer : Restorer Database) × (p.restorer ≡ some restorer)
          × (is_succeeded run.state ≡ true)
          × IsAuthentic ctx handle run w.objects raw
          × (answer ≡ (
            (restorer (ctx 2) raw (w.repository, w.database)).0,
            record w {
              repository = (restorer (ctx 2) raw (w.repository, w.database)).1.0;
              database = (restorer (ctx 2) raw (w.repository, w.database)).1.1;
            },
          )))

  hand_over-IsSound :
      (ctx : ℕ → Ctx) (handle : Handle) (run : BackupRun) (w : World Objects Database)
      (restorer : Restorer Database) (r : Result Bytes)
      → p.restorer ≡ some restorer
      → is_succeeded run.state ≡ true
      → fetched p ctx handle run w.objects ≡ r
      → IsSound ctx handle run w (hand_over p (ctx 2) restorer r w)
  unfolding hand_over
  hand_over-IsSound ctx handle run w restorer (err e) given done h = inl (e, refl)
  hand_over-IsSound ctx handle run w restorer (ok raw) given done h =
      inr (raw, restorer, given, done, fetched-IsAuthentic ctx handle run w.objects raw h, refl)

  restore_with-IsSound :
      (ctx : ℕ → Ctx) (handle : Handle) (run : BackupRun) (w : World Objects Database)
      (o : Option (Restorer Database))
      → p.restorer ≡ o
      → is_succeeded run.state ≡ true
      → IsSound ctx handle run w (restore_with p ctx handle run o w)
  unfolding restore_with
  restore_with-IsSound ctx handle run w none given done = inl (invalid, refl)
  restore_with-IsSound ctx handle run w (some restorer) given done =
      hand_over-IsSound ctx handle run w restorer (fetched p ctx handle run w.objects) given done
        refl

  -- A restore that fails before the hand-over changes nothing. Any other is of a succeeded run: it
  -- read the run's object, whose digest is the run's checksum and whose envelope has the format that
  -- the engine writes, and handed the restorer the bytes that the broker opened; it returns the
  -- restorer's answer and changes only the repository and the database, as the restorer does.
  pub restore-IsSound :
      (ctx : ℕ → Ctx) (handle : Handle) (run : BackupRun) (w : World Objects Database)
      → IsSound ctx handle run w (restore p ctx handle run w)
  unfolding restore
  restore-IsSound ctx handle run w =
      elim (Bool-cases
        (not (is_succeeded run.state) || is_empty run.object_key || is_empty run.checksum)) [
          | inl bad ↦ rw bad (inl (invalid, refl))
          | inr good ↦
              rw good (restore_with-IsSound ctx handle run w p.restorer refl (ground arith))
        ]
