-- ===== src/Memory/BackupRuns/Claim.antt =====
-- The claim takes the oldest pending run, whatever the order of the map.
use mathlib.Core.Bool.{true≢false}
use account_manager.Prelude.{
  some-inj, All_values-lookup, ◌≡◌, ◌⊎◌, subst, refl, sym, ap, ◌∙◌, none, some, true, false, inl,
  inr, arith, Bool-cases, lookup, insert, Result, ok, err, not_found, Option, Text, text_ltb_irrefl,
  text_ltb_trans, All, All-values, List, [], ◌∷◌, values,
}
use account_manager.Domain.{BackupRun, Time}
use account_manager.Domain.BackupRunState.{running}
use account_manager.Memory.{Store}
use account_manager.Memory.BackupRuns.{
  is_pending, older, choose, select_pending, claim_selected, claim_pending_backup_run,
}
use account_manager.Memory.Consistency.{IsConsistent}
use account_manager.Memory.Consistency.Runs.{IsChosen, select_pending-IsChosen}

older_irrefl : (r : BackupRun) → older r r ≡ false
older_irrefl r = ground (arith, text_ltb_irrefl r.id)

older_trans : (p q r : BackupRun) → older p q ≡ true → older q r ≡ true → older p r ≡ true
older_trans p q r h k = ground (arith, text_ltb_trans p.id q.id r.id)

-- As old as `r` at least.
abbrev Le : BackupRun → BackupRun → Type 0
Le m r = (m ≡ r) ⊎ (older m r ≡ true)

Le_trans : (p q r : BackupRun) → Le p q → Le q r → Le p r
Le_trans p q r (inl e) k = subst (λ x. Le x r) (sym e) k
Le_trans p q r (inr h) (inl e) = inr (ap (older p) (sym e) ∙ h)
Le_trans p q r (inr h) (inr k) = inr (older_trans p q r h k)

not_older_of_Le : (q r m : BackupRun) → older q r ≡ false → Le m r → older q m ≡ false
not_older_of_Le q r m h (inl e) = ap (older q) e ∙ h
not_older_of_Le q r m h (inr k) = elim (Bool-cases (older q m)) [
  | inr no_older ↦ no_older
  | inl yes_older ↦ absurd (true≢false (sym (older_trans q m r yes_older k) ∙ h))
]

-- A selection is replaced only by an older run.
select_pending-some :
    (rs : List BackupRun) (r : BackupRun)
    → (m : BackupRun) × (select_pending rs (some r) ≡ some m) × Le m r
unfolding select_pending choose
select_pending-some [] r = (r, refl, inl refl)
select_pending-some (q ∷ rs) r = elim (Bool-cases (is_pending q.state)) [
  | inr idle ↦ rw idle (select_pending-some rs r)
  | inl waiting ↦ elim (Bool-cases (older q r)) [
    | inl e ↦
        rw (waiting, e)
          (let (m, found, le) = select_pending-some rs q in (m, found, Le_trans m q r le (inr e)))
    | inr e ↦ rw (waiting, e) (select_pending-some rs r)
  ]
]

choose-some :
    (q : BackupRun) (o : Option BackupRun)
    → (r : BackupRun) × (choose q o ≡ some r) × (older q r ≡ false)
unfolding choose
choose-some q none = (q, refl, older_irrefl q)
choose-some q (some r) = elim (Bool-cases (older q r)) [
  | inl e ↦ rw e (q, refl, older_irrefl q)
  | inr e ↦ rw e (r, refl, e)
]

-- No pending run of the list is older than the one selected; if none is selected, none is pending.
abbrev IsOldest : List BackupRun → Option BackupRun → Type 0
IsOldest rs none = All (λ q. is_pending q.state ≡ false) rs
IsOldest rs (some m) = All (λ q. is_pending q.state ≡ true → older q m ≡ false) rs

select_pending_rest :
    (q : BackupRun) (rs : List BackupRun) (o o' : Option BackupRun)
    → ((m : BackupRun) → o' ≡ some m → is_pending q.state ≡ true → older q m ≡ false)
    → (o' ≡ none → is_pending q.state ≡ false)
    → IsOldest rs o'
    → IsOldest (q ∷ rs) o'
select_pending_rest q rs o none f g h = (g refl, h)
select_pending_rest q rs o (some m) f g h = (f m refl, h)

select_pending-IsOldest :
    (rs : List BackupRun) (o : Option BackupRun) → IsOldest rs (select_pending rs o)
unfolding select_pending
select_pending-IsOldest [] none = tt
select_pending-IsOldest [] (some r) = tt
select_pending-IsOldest (q ∷ rs) o = elim (Bool-cases (is_pending q.state)) [
  | inr idle ↦ rw idle (
      select_pending_rest q rs o (select_pending rs o)
        (λ m _ waiting. absurd (true≢false (sym waiting ∙ idle))) (λ _. idle)
        (select_pending-IsOldest rs o))
  | inl waiting ↦
      let (r, chosen, q_r) = choose-some q o in
      let (m, found, m_r) = select_pending-some rs r in
      rw waiting (
        select_pending_rest q rs o (select_pending rs (choose q o))
          (λ n e _.
            subst (λ x. older q x ≡ false)
              (some-inj (sym found ∙ ap (select_pending rs) (sym chosen) ∙ e))
              (not_older_of_Le q r m q_r m_r))
          (λ e. absurd (some_none (sym found ∙ ap (select_pending rs) (sym chosen) ∙ e)))
          (select_pending-IsOldest rs (choose q o)))
]
  where
    some_none : {m : BackupRun} → some m ≡ none → ⊥
    some_none e = cc

-- A claim that fails, or one that takes the oldest pending run.
abbrev pub IsClaimed : Time → Store → Result BackupRun × Store → Type 0
IsClaimed now s (result, s') =
    ((result ≡ err not_found)
      × (s' ≡ s)
      × ((k : Text) (q : BackupRun) → lookup k s.backup_runs ≡ some q → is_pending q.state ≡ false))
    ⊎ ((m : BackupRun) × (lookup m.id s.backup_runs ≡ some m)
        × (is_pending m.state ≡ true)
        × ((k : Text) (q : BackupRun)
            → lookup k s.backup_runs ≡ some q
            → is_pending q.state ≡ true
            → older q m ≡ false)
        × (result ≡ ok (record m { state = running; started_at = some now; updated_at = now }))
        × (s' ≡ record s {
          backup_runs =
              insert m.id (record m { state = running; started_at = some now; updated_at = now })
                s.backup_runs;
        }))

claim_selected-oldest :
    (o : Option BackupRun) (now : Time) (s : Store)
    → IsConsistent s
    → IsChosen s.backup_runs o
    → IsOldest (values s.backup_runs) o
    → IsClaimed now s (claim_selected o now s)
unfolding claim_selected
claim_selected-oldest none now s c chosen h =
    inl (
      refl,
      refl,
      λ k q p. All_values-lookup (λ r. is_pending r.state ≡ false) k q s.backup_runs h p,
    )
claim_selected-oldest (some m) now s c (k, p, waiting) h =
    let p_id : lookup m.id s.backup_runs ≡ some m =
      subst (λ x. lookup x s.backup_runs ≡ some m) (sym (c.run_ids k m p)) p in
    inr (
      m,
      p_id,
      waiting,
      (λ j q found.
          All_values-lookup (λ r. is_pending r.state ≡ true → older r m ≡ false) j q s.backup_runs h
            found),
      refl,
      refl,
    )

-- On a consistent store, a claim with a live context either finds no stored run pending, returns the
-- not-found error and leaves the store as it is; or it returns a run that was stored and pending, than
-- which no stored pending run is older (by creation time, then by id), moved to running with the given
-- start time, and stores it under its id.
pub claim_pending-oldest :
    (now : Time) (s : Store)
    → IsConsistent s
    → IsClaimed now s (claim_pending_backup_run none now s)
unfolding claim_pending_backup_run
claim_pending-oldest now s c =
    claim_selected-oldest (select_pending (values s.backup_runs) none) now s c
      (select_pending-IsChosen s.backup_runs (values s.backup_runs) none
        (All-values s.backup_runs c.run_keys) tt)
      (select_pending-IsOldest (values s.backup_runs) none)
