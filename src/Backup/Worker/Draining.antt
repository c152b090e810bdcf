-- ===== src/Backup/Worker/Draining.antt =====
-- The worker takes every pending run.
use native.Mathlib.Nat.{le_trans, le_refl}
use account_manager.Prelude.{
  ok, err, Result, Ctx, Option, none, some, inl, inr, Bool, Bool-cases, ◌≡◌, refl, sym, ◌∙◌, ap,
  Text, text_eq, true, false, ℕ, zero, suc, ◌≤◌, ◌<◌, arith, lookup, insert, values, Map, count_if,
  [], ◌∷◌, List, All-values, All, All-map, err-ne-ok, ◌⊎◌,
}
use account_manager.Domain.{BackupTarget, BackupRun, Time}
use account_manager.Domain.BackupRunState.{running}
use account_manager.Memory.{Store}
use account_manager.Memory.BackupRuns.{
  is_pending, update_backup_run, update_found, claim_pending_backup_run,
  try_acquire_backup_operation, release_lease,
}
use account_manager.Memory.BackupRuns.Claim.{IsClaimed, claim_pending-oldest}
use account_manager.Memory.Consistency.{IsConsistent}
use account_manager.Backup.Failure.{bounded_run_error}
use account_manager.Backup.Engine.{failed_run}
use account_manager.Backup.Platform.{Platform, World, Moments}
use account_manager.Backup.Engine.Keeps.{execute-keeps}
use account_manager.Backup.Worker.Leased.{process_next-lease, cause_or_store}
use account_manager.Backup.Worker.{
  Processed, fail_run, run_prepared, run_claimed, prepared, releasing, process_leased, process_next,
  drain,
}

abbrev waits : BackupRun → Bool
waits run = is_pending run.state

-- How many stored runs are pending.
abbrev pub pending_runs : Store → ℕ
pending_runs s = count_if waits (values s.backup_runs)

-- A run that is not pending, written anywhere.
insert_ended-le :
    (k : Text) (run : BackupRun) (m : Map BackupRun)
    → waits run ≡ false
    → count_if waits (values (insert k run m)) ≤ count_if waits (values m)
unfolding insert values
insert_ended-le k run [] h = ground arith
insert_ended-le k run ((j, q) ∷ m) h = ground (arith, insert_ended-le k run m)

-- A run that is not pending in the place of one that is.
insert_taken :
    (k : Text) (run old : BackupRun) (m : Map BackupRun)
    → waits run ≡ false
    → lookup k m ≡ some old
    → waits old ≡ true
    → suc (count_if waits (values (insert k run m))) ≡ count_if waits (values m)
unfolding insert values lookup
insert_taken k run old [] h e w = cc
insert_taken k run old ((j, q) ∷ m) h e w = ground (arith, insert_taken k run old m)

update_found-le :
    (o : Option BackupRun) (run : BackupRun) (s : Store)
    → waits run ≡ false
    → pending_runs (update_found o run s).1 ≤ pending_runs s
unfolding update_found
update_found-le none run s h = omega arith
update_found-le (some old) run s h = elim (Bool-cases (text_eq old.target_id run.target_id)) [
  | inl same ↦ rw same (insert_ended-le run.id run s.backup_runs h)
  | inr moved ↦ rw moved (omega arith)
]

update_backup_run-le :
    (ctx : Ctx) (run : BackupRun) (s : Store)
    → waits run ≡ false
    → pending_runs (update_backup_run ctx run s).1 ≤ pending_runs s
unfolding update_backup_run
update_backup_run-le (some e) run s h = omega arith
update_backup_run-le none run s h = update_found-le (lookup run.id s.backup_runs) run s h

count_none : (runs : List BackupRun) → All (λ q. waits q ≡ false) runs → count_if waits runs ≡ 0
count_none [] h = refl
count_none (q ∷ runs) (h, hs) = rw h (count_none runs hs)

none_pending :
    (s : Store)
    → IsConsistent s
    → ((k : Text) (q : BackupRun) → lookup k s.backup_runs ≡ some q → waits q ≡ false)
    → pending_runs s ≡ 0
none_pending s c h =
    count_none (values s.backup_runs)
      (All-map (values s.backup_runs) (λ q (k, e). h k q e) (All-values s.backup_runs c.run_keys))

locked-IsConsistent :
    (s : Store) → IsConsistent s → IsConsistent (record s { backup_operation_locked = true })
locked-IsConsistent s c = assumption

module _ {Objects Database Handle : Type 0} (p : Platform Objects Database Handle) where
  run_prepared-le :
      (n : ℕ) (m : Moments) (run : BackupRun) (r : Result (BackupTarget × Handle))
      (w : World Objects Database)
      → pending_runs w.repository ≤ n
      → pending_runs (run_prepared p m run r w).1.repository ≤ n
  unfolding run_prepared fail_run
  run_prepared-le n m run (err cause) w h =
      let run' = failed_run (bounded_run_error p.message (some cause)) (m.clock 3) run in
      rw (cause_or_store cause (update_backup_run m.persist run' w.repository))
        (le_trans (update_backup_run-le m.persist run' w.repository refl) h)
  run_prepared-le n m run (ok (target, handle)) w h =
      execute-keeps p (λ s. pending_runs s ≤ n)
        (λ ctx r s ended le. le_trans (update_backup_run-le ctx r s ended) le) m handle run target w
        h

  -- A round found nothing to do and nothing is pending, or it took a pending run.
  abbrev pub IsRound : Store → Processed × World Objects Database → Type 0
  IsRound s (answer, w) =
      ((answer.found_run ≡ false) × (pending_runs w.repository ≡ 0))
      ⊎ ((answer.found_run ≡ true) × (suc (pending_runs w.repository) ≤ pending_runs s))

  run_prepared_found :
      (m : Moments) (run : BackupRun) (r : Result (BackupTarget × Handle))
      (w : World Objects Database)
      → (run_prepared p m run r w).0.found_run ≡ true
  unfolding run_prepared
  run_prepared_found m run (err cause) w = refl
  run_prepared_found m run (ok (target, handle)) w = refl

  run_claimed-IsRound :
      (m : Moments) (now : Time) (s : Store) (claim : Result BackupRun × Store)
      (w : World Objects Database)
      → IsConsistent s
      → IsClaimed now s claim
      → IsRound s (run_claimed p m claim w)
  unfolding run_claimed
  run_claimed-IsRound m now s (err e, s') w c (inl (_, same, none_left)) =
      inl (refl, ap pending_runs same ∙ none_pending s c none_left)
  run_claimed-IsRound m now s (err e, s') w c (inr (q, _, _, _, done, _)) = absurd (err-ne-ok done)
  run_claimed-IsRound m now s (ok run, s') w c (inl (e, _, _)) = absurd (err-ne-ok (sym e))
  run_claimed-IsRound m now s (ok run, s') w c (inr (q, found, waiting, _, _, stored)) = inr (
    run_prepared_found m run _ _,
    omega (
      arith,
      run_prepared-le (pending_runs s') m run (prepared p m.ctx run s')
          (record w { repository = s' }) (le_refl _),
      ap pending_runs stored,
      insert_taken q.id (record q { state = running; started_at = some now; updated_at = now }) q
          s.backup_runs refl found waiting,
    ),
  )

  process_leased-IsRound :
      (m : Moments) (s : Store) (w : World Objects Database)
      → IsConsistent s
      → s.backup_operation_locked ≡ false
      → m.ctx 11 ≡ none
      → IsRound s (process_leased p m (try_acquire_backup_operation none s) w)
  unfolding process_leased releasing try_acquire_backup_operation release_lease
  process_leased-IsRound m s w c idle live_ctx =
      let taken = record s { backup_operation_locked = true } in
      simp (idle, live_ctx)
        (run_claimed-IsRound m (m.clock 0) taken (claim_pending_backup_run none (m.clock 0) taken)
          (record w { repository = taken }) (locked-IsConsistent s c)
          (claim_pending-oldest (m.clock 0) taken (locked-IsConsistent s c)))

  process_next-IsRound :
      (m : Moments) (w : World Objects Database)
      → IsConsistent w.repository
      → w.repository.backup_operation_locked ≡ false
      → ((i : ℕ) → m.ctx i ≡ none)
      → IsRound w.repository (process_next p m w)
  unfolding process_next
  process_next-IsRound m w c idle live_ctx =
      rw (live_ctx 10) (process_leased-IsRound m w.repository w c idle (live_ctx 11))

  -- On a consistent store whose lease is free, while the context lives, the worker's loop comes to
  -- wait for the next poll after at most as many rounds as runs are pending and one more, whatever the
  -- snapshots, seals and uploads answer; then no run is pending, and the lease is free.
  pub drain-pending :
      (fuel : ℕ) (ms : ℕ → Moments) (n : ℕ) (w : World Objects Database)
      → IsConsistent w.repository
      → w.repository.backup_operation_locked ≡ false
      → ((k i : ℕ) → (ms k).ctx i ≡ none)
      → pending_runs w.repository < fuel
      → (w' : World Objects Database) × (drain p fuel ms n w ≡ some w')
        × (pending_runs w'.repository ≡ 0)
        × (w'.repository.backup_operation_locked ≡ false)
  unfolding drain
  drain-pending zero ms n w c idle live_ctx less = absurd (omega arith)
  drain-pending (suc fuel) ms n w c idle live_ctx less =
      let (lease, c') = process_next-lease p (ms n) w c in
      let idle' = lease ∙ idle in
      elim (process_next-IsRound (ms n) w c idle (live_ctx n)) [
        | inl (stop, none_left) ↦
            ((process_next p (ms n) w).1, rw (live_ctx n 9, stop) refl, none_left, idle')
        | inr (found, fewer) ↦
            let (w', drained, ended, free) =
              drain-pending fuel ms (suc n) (process_next p (ms n) w).1 c' idle' live_ctx
                (omega arith) in
            (w', rw (live_ctx n 9, found) drained, ended, free)
      ]
