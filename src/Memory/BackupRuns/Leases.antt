-- ===== src/Memory/BackupRuns/Leases.antt =====
-- The lease that snapshots and restores share: who holds it, step by step.
use account_manager.Prelude.{
  ◌≡◌, refl, none, some, true, false, inl, inr, arith, ℕ, ◌+◌, Bool, Bool-cases, not, some-inj, Ctx,
  ok, err-ne-ok, ok-injective, List, [], ◌∷◌, ◌++◌, count_if, if◌then◌else◌,
}
use account_manager.Memory.{Store, new}
use account_manager.Domain.{Time}
use account_manager.Memory.BackupRuns.{Lease, try_acquire_backup_operation, release_lease}

-- The store and every lease it ever handed out, with their holders' calls so far.
pub record Holders : Type 0 where
  pub store : Store
  pub leases : List Lease

-- A call of TryAcquireBackupOperation that succeeds or does not, or a call of some lease's release
-- function, the first of that lease or not.
pub data IsStep : Holders → Holders → Type 0 where
  granted :
      (ctx : Ctx) (h : Holders) (lease : Lease)
      → (try_acquire_backup_operation ctx h.store).0 ≡ ok (some lease)
      → IsStep h (record {
        store = (try_acquire_backup_operation ctx h.store).1;
        leases = lease ∷ h.leases;
      })
  refused :
      (ctx : Ctx) (h : Holders)
      → ((lease : Lease) → (try_acquire_backup_operation ctx h.store).0 ≡ ok (some lease) → ⊥)
      → IsStep h (record h { store = (try_acquire_backup_operation ctx h.store).1 })
  returned :
      (before after : List Lease) (lease : Lease) (s : Store)
      → IsStep
          (record { store = s; leases = before ++ lease ∷ after })
          (record {
            store = (release_lease lease s).1;
            leases = before ++ (release_lease lease s).0 ∷ after;
          })

pub data IsReachable : Holders → Type 0 where
  started : (now : Time) → IsReachable (record { store = new now; leases = [] })
  stepped : (h k : Holders) → IsReachable h → IsStep h k → IsReachable k

-- How many leases are still held.
abbrev pub held : List Lease → ℕ
held leases = count_if (λ l. not l.released) leases

abbrev locks : Bool → ℕ
locks true = 1
locks false = 0

abbrev IsCounted : Holders → Type 0
IsCounted h = held h.leases ≡ locks h.store.backup_operation_locked

none-ne-some {ℓ} : {A : Type ℓ} {a : A} → none ≡ some a → ⊥
none-ne-some e = cc

held-append : (xs ys : List Lease) → held (xs ++ ys) ≡ held xs + held ys
held-append [] ys = omega arith
held-append (x ∷ xs) ys = ground (arith, held-append xs ys)

grant-IsCounted :
    (ctx : Ctx) (h : Holders) (lease : Lease)
    → (try_acquire_backup_operation ctx h.store).0 ≡ ok (some lease)
    → IsCounted h
    → held (lease ∷ h.leases)
      ≡ locks (try_acquire_backup_operation ctx h.store).1.backup_operation_locked
unfolding try_acquire_backup_operation
grant-IsCounted (some e) h lease done c = absurd (err-ne-ok done)
grant-IsCounted none h lease done c = elim (Bool-cases h.store.backup_operation_locked) [
  | inl busy ↦ absurd (none-ne-some (ok-injective (rw busy at done)))
  | inr idle ↦ rw (idle, ← some-inj (ok-injective (rw idle at done)), rw idle at c) refl
]

refuse-IsCounted :
    (ctx : Ctx) (h : Holders)
    → ((lease : Lease) → (try_acquire_backup_operation ctx h.store).0 ≡ ok (some lease) → ⊥)
    → IsCounted h
    → held h.leases ≡ locks (try_acquire_backup_operation ctx h.store).1.backup_operation_locked
unfolding try_acquire_backup_operation
refuse-IsCounted (some e) h never c = c
refuse-IsCounted none h never c = elim (Bool-cases h.store.backup_operation_locked) [
  | inl busy ↦ rw busy (rw busy at c)
  | inr idle ↦ absurd (never (record { released = false }) (rw idle refl))
]

return-IsCounted :
    (before after : List Lease) (lease : Lease) (s : Store)
    → held (before ++ lease ∷ after) ≡ locks s.backup_operation_locked
    → held (before ++ (release_lease lease s).0 ∷ after)
      ≡ locks (release_lease lease s).1.backup_operation_locked
unfolding release_lease
return-IsCounted before after lease s c = elim (Bool-cases lease.released) [
  | inl again ↦ simp again c
  | inr first ↦ ground (
    arith,
    held-append before (lease ∷ after),
    held-append before (record { released = true } ∷ after),
  )
]

step-IsCounted : (h k : Holders) → IsStep h k → IsCounted h → IsCounted k
step-IsCounted _ _ (granted ctx h lease done) c = grant-IsCounted ctx h lease done c
step-IsCounted _ _ (refused ctx h never) c = refuse-IsCounted ctx h never c
step-IsCounted _ _ (returned before after lease s) c = return-IsCounted before after lease s c

reachable-IsCounted : (h : Holders) → IsReachable h → IsCounted h
unfolding new
reachable-IsCounted _ (started now) = refl
reachable-IsCounted _ (stepped h k r step) = step-IsCounted h k step (reachable-IsCounted h r)

-- Mutual exclusion of snapshots and restores: however the acquisitions and the releases (also the
-- repeated ones) follow one another from a new store, the leases still held are one when the store is
-- locked and none when it is not.
pub leases-exclusive :
    (h : Holders)
    → IsReachable h
    → held h.leases ≡ (if h.store.backup_operation_locked then 1 else 0)
leases-exclusive h r = ground (arith, reachable-IsCounted h r)
