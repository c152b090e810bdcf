-- ===== src/Backup/Restores/Pruning.antt =====
-- What the loop of pruneLocked takes away and what it leaves.
use account_manager.Prelude.{
  ◌≡◌, ◌⊎◌, ◌≤◌, refl, inl, inr, arith, Bool, Bool-cases, true, false, ◌||◌, Option, none, some,
  Text, text_eq, text_eq_iff, List, [], ◌∷◌, Map, length, lookup, delete, values, lookup-delete,
  if◌then◌else◌,
}
use mathlib.Core.Bool.{true≢false}
use account_manager.Domain.{BackupRestoreOperation}
use account_manager.Backup.Restores.{is_running, is_full, drops, stays, prune_ids}

abbrev pub listed : Text → List Text → Bool
listed k [] = false
listed k (id ∷ ids) = text_eq id k || listed k ids

none-ne-some {ℓ} : {A : Type ℓ} {a : A} → none ≡ some a → ⊥
none-ne-some e = cc

size-delete {ℓ} :
    {V : Type ℓ} (k : Text) (m : Map V) → length (values (delete k m)) ≤ length (values m)
unfolding delete values
size-delete k [] = omega arith
size-delete k ((j, v) ∷ m) = ground (arith, size-delete k m)

-- The loop only takes operations away.
size-prune_ids :
    (ids : List Text) (m : Map BackupRestoreOperation)
    → length (values (prune_ids ids m).1) ≤ length (values m)
unfolding prune_ids
size-prune_ids [] m = omega arith
size-prune_ids (id ∷ ids) m = elim (Bool-cases (drops (lookup id m) (is_full m))) [
  | inl gone ↦ rw gone (omega (arith, size-prune_ids ids (delete id m), size-delete id m))
  | inr left ↦ rw left (size-prune_ids ids m)
]

-- Every operation that is there is running.
abbrev pub AllRunning : Map BackupRestoreOperation → Type 0
AllRunning m =
    (k : Text) (o : BackupRestoreOperation) → lookup k m ≡ some o → is_running o.state ≡ true

-- Every operation that is not running has its id in the list.
abbrev IsListed : List Text → Map BackupRestoreOperation → Type 0
IsListed ids m =
    (k : Text) (o : BackupRestoreOperation)
    → lookup k m ≡ some o
    → (is_running o.state ≡ true) ⊎ (listed k ids ≡ true)

IsListed-delete :
    (id : Text) (ids : List Text) (m : Map BackupRestoreOperation)
    → IsListed (id ∷ ids) m
    → IsListed ids (delete id m)
IsListed-delete id ids m h k o p = elim (Bool-cases (text_eq id k)) [
  | inl same ↦ absurd (none-ne-some (rw (lookup-delete id k m, same) at p))
  | inr other ↦ elim (h k o (rw (lookup-delete id k m, other) at p)) [
    | inl r ↦ inl r
    | inr l ↦ inr (rw other at l)
  ]
]

-- An operation that a full loop leaves is running.
IsListed-left :
    (id : Text) (ids : List Text) (m : Map BackupRestoreOperation)
    → drops (lookup id m) true ≡ false
    → IsListed (id ∷ ids) m
    → IsListed ids m
IsListed-left id ids m left h k o p = elim (Bool-cases (text_eq id k)) [
  | inl same ↦ inl (ground (arith, (rw ((text_eq_iff id k).0 same, p) at left)))
  | inr other ↦ elim (h k o p) [ inl r ↦ inl r | inr l ↦ inr (rw other at l) ]
]

pub prune_ids-bounded :
    (ids : List Text) (m : Map BackupRestoreOperation)
    → IsListed ids m
    → (is_full (prune_ids ids m).1 ≡ false) ⊎ AllRunning (prune_ids ids m).1
unfolding prune_ids
prune_ids-bounded [] m h = inr (λ k o p. elim (h k o p) [ inl r ↦ r | inr l ↦ cc ])
prune_ids-bounded (id ∷ ids) m h = elim (Bool-cases (drops (lookup id m) (is_full m))) [
  | inl gone ↦ rw gone (prune_ids-bounded ids (delete id m) (IsListed-delete id ids m h))
  | inr left ↦ elim (Bool-cases (is_full m)) [
    | inr room ↦ rw left (inl (ground (arith, size-prune_ids ids m)))
    | inl full ↦ rw left (prune_ids-bounded ids m (IsListed-left id ids m (rw full at left) h))
  ]
]

-- What is left was there before.
pub prune_ids-lookup :
    (ids : List Text) (m : Map BackupRestoreOperation) (k : Text) (o : BackupRestoreOperation)
    → lookup k (prune_ids ids m).1 ≡ some o
    → lookup k m ≡ some o
unfolding prune_ids
prune_ids-lookup [] m k o p = p
prune_ids-lookup (id ∷ ids) m k o p = elim (Bool-cases (drops (lookup id m) (is_full m))) [
  | inr left ↦ prune_ids-lookup ids m k o (rw left at p)
  | inl gone ↦ elim (Bool-cases (text_eq id k)) [
    | inl same ↦ absurd (
        none-ne-some (
          rw (lookup-delete id k m, same) at
            (prune_ids-lookup ids (delete id m) k o (rw gone at p))))
    | inr other ↦
        rw (lookup-delete id k m, other) at (prune_ids-lookup ids (delete id m) k o (rw gone at p))
  ]
]

-- A running operation is never taken away.
pub prune_ids-running :
    (ids : List Text) (m : Map BackupRestoreOperation) (k : Text) (o : BackupRestoreOperation)
    → lookup k m ≡ some o
    → is_running o.state ≡ true
    → lookup k (prune_ids ids m).1 ≡ some o
unfolding prune_ids
prune_ids-running [] m k o p r = p
prune_ids-running (id ∷ ids) m k o p r = elim (Bool-cases (drops (lookup id m) (is_full m))) [
  | inr left ↦ rw left (prune_ids-running ids m k o p r)
  | inl gone ↦ elim (Bool-cases (text_eq id k)) [
    | inl same ↦ absurd (true≢false (ground (arith, r, rw ((text_eq_iff id k).0 same, p) at gone)))
    | inr other ↦
        rw gone (prune_ids-running ids (delete id m) k o (rw (lookup-delete id k m, other) p) r)
  ]
]

listed_either :
    (b : Bool) (k id : Text) (ids : List Text)
    → listed k ids ≡ true
    → listed k (if b then id ∷ ids else ids) ≡ true
listed_either b k id ids h = ground (arith, h)

stays_of_drops :
    (o : Option BackupRestoreOperation) (x : BackupRestoreOperation) (full : Bool)
    → o ≡ some x
    → drops o full ≡ false
    → stays o full ≡ true
stays_of_drops none x full e d = absurd (none-ne-some e)
stays_of_drops (some o) x full e d = ground arith

-- The ids of what is left are kept.
pub prune_ids-listed :
    (ids : List Text) (m : Map BackupRestoreOperation) (k : Text) (o : BackupRestoreOperation)
    → lookup k (prune_ids ids m).1 ≡ some o
    → listed k ids ≡ true
    → listed k (prune_ids ids m).0 ≡ true
unfolding prune_ids
prune_ids-listed [] m k o p l = l
prune_ids-listed (id ∷ ids) m k o p l = elim (Bool-cases (drops (lookup id m) (is_full m))) [
  | inl gone ↦ elim (Bool-cases (text_eq id k)) [
    | inr other ↦ rw gone (
        listed_either (stays (lookup id m) (is_full m)) k id (prune_ids ids (delete id m)).0
          (prune_ids-listed ids (delete id m) k o (rw gone at p) (rw other at l)))
    | inl same ↦ absurd (
        none-ne-some (
          rw (lookup-delete id k m, same) at
            (prune_ids-lookup ids (delete id m) k o (rw gone at p))))
  ]
  | inr left ↦ elim (Bool-cases (text_eq id k)) [
    | inr other ↦ rw left (
        listed_either (stays (lookup id m) (is_full m)) k id (prune_ids ids m).0
          (prune_ids-listed ids m k o (rw left at p) (rw other at l)))
    | inl same ↦
        let there : lookup id m ≡ some o =
          rw ((text_eq_iff id k).0 same) (prune_ids-lookup ids m k o (rw left at p)) in
        rw (left, stays_of_drops (lookup id m) o (is_full m) there left, same) refl
  ]
]
