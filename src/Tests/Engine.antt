-- ===== src/Tests/Engine.antt =====
-- Tests of the backup engine and of the worker, with an object store that is a map, a database that is
-- a list of bytes and a broker that seals nothing.
mod Witnesses
use account_manager.Prelude.{
  ok, err, Error, Result, Ctx, Option, none, some, true, false, codes, [], ◌∷◌, Map, Text, text_eq,
  is_empty, lookup, insert, Bool, ◌&&◌, if◌then◌else◌, ◌≡◌, refl, ℕ, pos, has, any_value,
  trim_space, is_blank, values, ◌+◌, lookup-insert, text_eq_iff, arith, lookup-insert_self,
  Bool-cases, ap, sym, subst, inl, inr, err-ne-ok, ok-injective,
}
use account_manager.Domain.{Bytes, BackupTarget, BackupRun, Time}
use account_manager.Memory.{Store, new, setting_at}
use account_manager.Memory.BackupTargets.{create_backup_target}
use account_manager.Memory.BackupRuns.{create_backup_run}
use account_manager.Backup.Engine.{snapshot_format}
use account_manager.Backup.Platform.{
  Restorer, Platform, World, Moments, SnapshotEnvelope, BackupObject,
}
use account_manager.Backup.Engine.RoundTrip.{IsHonest}
use account_manager.Tests.Data.{target, run}

abbrev pub Objects : Type 0
Objects = Map Bytes

-- A broker that knows one version of its key.
abbrev marshalled : SnapshotEnvelope → Result Bytes
marshalled e =
    if text_eq e.format snapshot_format && text_eq e.key_version (codes "v1")
    then ok e.payload
    else err Error.external

abbrev unmarshalled : Bytes → Result SnapshotEnvelope
unmarshalled b = ok (record { format = snapshot_format; key_version = codes "v1"; payload = b })

abbrev put_object : Ctx → Unit {0} → Text → Bytes → Objects → Result BackupObject × Objects
put_object ctx _ key bytes objects =
    if is_empty key
    then (err Error.external, objects)
    else (ok (record { object_key = key; size_bytes = pos 7 }), insert key bytes objects)

abbrev read_object : Option Bytes → Result (Result Bytes)
read_object none = err Error.not_found
read_object (some bytes) = ok (ok bytes)

abbrev pub replace_database : Restorer Bytes
replace_database ctx raw (repository, database) = (ok tt, (new 0, raw))

abbrev pub platform : Platform Objects Bytes (Unit {0})
platform = record {
  seal = λ ctx raw. ok (raw, codes "v1");
  unseal = λ ctx sealed version. ok sealed;
  open_handle = λ ctx kind config. ok tt;
  put = put_object;
  get = λ ctx handle key objects. read_object (lookup key objects);
  snapshot = λ ctx source. ok (ok source.1);
  restorer = some replace_database;
  marshal = marshalled;
  unmarshal = unmarshalled;
  sha256_hex = λ bytes. 48 ∷ bytes;
  format_day = λ t. codes "2026/01/02";
  message = λ e. codes "broken  pipe";
}

put_object-get :
    (key : Text) (bytes : Bytes) (o o' : Objects) (object : BackupObject)
    → put_object none tt key bytes o ≡ (ok object, o')
    → (read_object (lookup object.object_key o') ≡ ok (ok bytes))
      × (is_empty object.object_key ≡ false)
put_object-get key bytes o o' object h = elim (Bool-cases (is_empty key)) [
  | inl bad ↦ absurd (err-ne-ok (ap (λ x. x.0) (rw bad at h)))
  | inr good ↦
      let same = rw good at h in
      let key_same = ap (λ b. b.object_key) (ok-injective (ap (λ x. x.0) same)) in
      (
        subst (λ k. read_object (lookup k o') ≡ ok (ok bytes)) key_same
            (subst (λ m. read_object (lookup key m) ≡ ok (ok bytes)) (ap (λ x. x.1) same)
              (ap read_object (lookup-insert_self key bytes o))),
        subst (λ k. is_empty k ≡ false) key_same good,
      )
]

marshalled-inverse :
    (e : SnapshotEnvelope) (bytes : Bytes) → marshalled e ≡ ok bytes → unmarshalled bytes ≡ ok e
marshalled-inverse e bytes h =
    ground (arith, text_eq_iff e.format snapshot_format, text_eq_iff e.key_version (codes "v1"))

pub platform-IsHonest : IsHonest platform
platform-IsHonest = record {
  unseal_sealed = λ ctx raw sealed h. ap (λ x. ok x.0) (sym (ok-injective h));
  get_put = λ ctx handle key bytes o o' object h. (put_object-get key bytes o o' object h).0;
  keyed = λ ctx handle key bytes o o' object h. (put_object-get key bytes o o' object h).1;
  unmarshal_marshalled = marshalled-inverse;
  digest_given = λ bytes. refl;
}

abbrev pub moments : Moments
moments = record { ctx = λ n. none; clock = λ n. 100 + n; persist = none }

-- A store with a target and a pending run, and a small database.
abbrev pub world : World Objects Bytes
world = record {
  repository = (create_backup_run none run (create_backup_target none target (new 0)).1).1;
  objects = [];
  database = 1 ∷ 2 ∷ 3 ∷ [];
}
