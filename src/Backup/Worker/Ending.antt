-- ===== src/Backup/Worker/Ending.antt =====
-- A run that the worker takes does not stay running, while the contexts live.
use account_manager.Prelude.{
  ok, err, Result, Option, none, some, Error, inl, inr, Bool-cases, ◌≡◌, refl, sym, ◌∙◌, ap, subst,
  Text, text_eq_iff, true, false, ℕ, lookup, lookup-insert_self, arith, is_empty, err-ne-ok,
  ok-injective, >>=-eq-ok, live-eq-ok, found, values,
}
use account_manager.Domain.{BackupTarget, BackupRun, BackupRunState, Bytes, Time}
use account_manager.Memory.{Store}
use account_manager.Memory.BackupRuns.{
  Lease, is_active, update_backup_run, update_found, claim_pending_backup_run, claim_selected,
  select_pending, try_acquire_backup_operation, release_lease,
}
use account_manager.Memory.BackupTargets.{get_backup_target}
use account_manager.Backup.Failure.{bounded_run_error}
use account_manager.Backup.Engine.{
  starts, mark_started, fail, stored, upload, sealed_envelope, execute_marked, is_executable,
  execute, failed_run, succeeded_run,
}
use account_manager.Backup.Platform.{Platform, World, Moments, BackupObject, completed, failed}
use account_manager.Backup.Engine.Keeps.{recorded_store}
use account_manager.Backup.Worker.Leased.{cause_or_store}
use account_manager.Backup.Worker.{
  fail_run, run_prepared, run_claimed, prepared, releasing, process_leased, process_next,
  check_enabled, open_store, check_live,
}

-- A run of the target is stored under the id.
abbrev IsPresent : Text → Text → Store → Type 0
IsPresent id target_id s =
    (q : BackupRun) × (lookup id s.backup_runs ≡ some q) × (q.target_id ≡ target_id)

-- The run stored under the id is neither pending nor running.
abbrev pub IsEnded : Text → Store → Type 0
IsEnded id s = (q : BackupRun) × (lookup id s.backup_runs ≡ some q) × (is_active q.state ≡ false)

update_found_present :
    (run old : BackupRun) (s : Store)
    → old.target_id ≡ run.target_id
    → lookup run.id (update_found (some old) run s).1.backup_runs ≡ some run
unfolding update_found
update_found_present run old s same =
    rw ((text_eq_iff old.target_id run.target_id).1 same)
      (lookup-insert_self run.id run s.backup_runs)

-- A write of a run of the same target on a live context reaches the store.
update_present :
    (run : BackupRun) (s : Store)
    → IsPresent run.id run.target_id s
    → lookup run.id (update_backup_run none run s).1.backup_runs ≡ some run
unfolding update_backup_run
update_present run s (old, found, same) = rw found (update_found_present run old s same)

-- The target of the run, where it is stored, is stored under its own id.
abbrev pub IsAimed : BackupRun → Store → Type 0
IsAimed run s =
    (is_empty run.id ≡ false)
    × (is_empty run.target_id ≡ false)
    × ((t : BackupTarget) → lookup run.target_id s.backup_targets ≡ some t → t.id ≡ run.target_id)

found-eq-ok {ℓ} : {A : Type ℓ} {a : A} (o : Option A) → found o ≡ ok a → o ≡ some a
found-eq-ok none h = absurd (err-ne-ok h)
found-eq-ok (some a) h = ap some (ok-injective h)

check_enabled-eq-ok : (first t : BackupTarget) → check_enabled first ≡ ok t → first ≡ t
unfolding check_enabled
check_enabled-eq-ok first t h = elim (Bool-cases first.enabled) [
  | inl on ↦ ok-injective (simp on at h)
  | inr off ↦ absurd (err-ne-ok (rw off at h))
]

module _ {Objects Database Handle : Type 0} (p : Platform Objects Database Handle) (m : Moments)
    (live_ctx : (i : ℕ) → m.ctx i ≡ none) (live_persist : m.persist ≡ none) where
  fail-IsEnded :
      (now : Time) (run : BackupRun) (cause : Error) (s : Store)
      → IsPresent run.id run.target_id s
      → IsEnded run.id (fail p m now run cause s).1
  unfolding fail
  fail-IsEnded now run cause s there =
      let run' = failed_run (bounded_run_error p.message (some cause)) now run in
      (
        run',
        rw (recorded_store (failed run' cause) (update_backup_run m.persist run' s), live_persist)
            (update_present run' s there),
        refl,
      )

  stored-IsEnded :
      (run : BackupRun) (envelope : Bytes) (answer : Result BackupObject × Objects)
      (w : World Objects Database)
      → IsPresent run.id run.target_id w.repository
      → IsEnded run.id (stored p m run envelope answer w).1.repository
  unfolding stored
  stored-IsEnded run envelope (err cause, objects) w there =
      fail-IsEnded (m.clock 2) run cause w.repository there
  stored-IsEnded run envelope (ok object, objects) w there =
      let run' = succeeded_run object (p.sha256_hex envelope) (m.clock 2) run in
      (
        run',
        rw
            (
              recorded_store (completed run') (update_backup_run (m.ctx 4) run' w.repository),
              live_ctx 4,
            )
            (update_present run' w.repository there),
        refl,
      )

  upload-IsEnded :
      (handle : Handle) (run : BackupRun) (sealed : Result Bytes) (w : World Objects Database)
      → IsPresent run.id run.target_id w.repository
      → IsEnded run.id (upload p m handle run sealed w).1.repository
  unfolding upload
  upload-IsEnded handle run (err cause) w there =
      fail-IsEnded (m.clock 2) run cause w.repository there
  upload-IsEnded handle run (ok envelope) w there = stored-IsEnded run envelope _ w there

  -- a run that is running already is not marked again
  execute-IsEnded :
      (handle : Handle) (run : BackupRun) (target : BackupTarget) (w : World Objects Database)
      → is_executable run target ≡ true
      → starts run ≡ false
      → IsPresent run.id run.target_id w.repository
      → IsEnded run.id (execute p m handle run target w).1.repository
  unfolding execute mark_started execute_marked
  execute-IsEnded handle run target w good marked there =
      rw (good, marked)
        (upload-IsEnded handle run (sealed_envelope p m (w.repository, w.database)) w there)

  prepared_target :
      (run : BackupRun) (s : Store) (t : BackupTarget) (handle : Handle)
      → prepared p m.ctx run s ≡ ok (t, handle)
      → lookup run.target_id s.backup_targets ≡ some t
  unfolding prepared get_backup_target
  prepared_target run s t handle h =
      let (first, got, rest) = >>=-eq-ok (get_backup_target (m.ctx 12) run.target_id s) _ h in
      let (second, enabled, rest') = >>=-eq-ok (check_enabled first) _ rest in
      let (opened, _, rest'') = >>=-eq-ok (open_store p (m.ctx 13) second) _ rest' in
      let (_, _, last) = >>=-eq-ok (check_live (m.ctx 14)) _ rest'' in
      let same = check_enabled-eq-ok first second enabled ∙ ap (λ x. x.0) (ok-injective last) in
      found-eq-ok (lookup run.target_id s.backup_targets)
        (live-eq-ok (m.ctx 12) _ (got ∙ ap ok same)).1

  run_prepared-IsEnded :
      (run : BackupRun) (r : Result (BackupTarget × Handle)) (w : World Objects Database)
      → prepared p m.ctx run w.repository ≡ r
      → IsAimed run w.repository
      → is_active run.state ≡ true
      → starts run ≡ false
      → IsPresent run.id run.target_id w.repository
      → IsEnded run.id (run_prepared p m run r w).1.repository
  unfolding run_prepared fail_run
  run_prepared-IsEnded run (err cause) w e aimed active marked there =
      let run' = failed_run (bounded_run_error p.message (some cause)) (m.clock 3) run in
      (
        run',
        rw (cause_or_store cause (update_backup_run m.persist run' w.repository), live_persist)
            (update_present run' w.repository there),
        refl,
      )
  run_prepared-IsEnded run (ok (t, handle)) w e (named, aims, keyed) active marked there =
      let same = keyed t (prepared_target run w.repository t handle e) in
      execute-IsEnded handle run t w
        (ground (arith, text_eq_iff run.target_id t.id, ap is_empty same)) marked there

  -- What a claim says of the run that it returns.
  claim_selected_lem :
      (o : Option BackupRun) (now : Time) (s : Store) (run : BackupRun)
      → (claim_selected o now s).0 ≡ ok run
      → (is_active run.state ≡ true)
        × (starts run ≡ false)
        × IsPresent run.id run.target_id (claim_selected o now s).1
        × ((claim_selected o now s).1.backup_targets ≡ s.backup_targets)
  unfolding claim_selected
  claim_selected_lem none now s run h = absurd (err-ne-ok h)
  claim_selected_lem (some q) now s run h =
      let claimed : BackupRun = record q {
        state = BackupRunState.running;
        started_at = some now;
        updated_at = now;
      } in
      let same : claimed ≡ run = ok-injective h in
      subst
        (λ r.
          (is_active r.state ≡ true)
          × (starts r ≡ false)
          × IsPresent r.id r.target_id (claim_selected (some q) now s).1
          × ((claim_selected (some q) now s).1.backup_targets ≡ s.backup_targets))
        same (refl, refl, (claimed, lookup-insert_self q.id claimed s.backup_runs, refl), refl)

  run_claimed-IsEnded :
      (run : BackupRun) (s : Store) (claim : Result BackupRun × Store) (w : World Objects Database)
      → claim.0 ≡ ok run
      → (is_active run.state ≡ true)
        × (starts run ≡ false)
        × IsPresent run.id run.target_id claim.1
        × (claim.1.backup_targets ≡ s.backup_targets)
      → IsAimed run s
      → IsEnded run.id (run_claimed p m claim w).1.repository
  unfolding run_claimed
  run_claimed-IsEnded run s (err e, s') w h claimed aimed = absurd (err-ne-ok h)
  run_claimed-IsEnded run s (ok r, s') w h (active, marked, there, targets) (named, aims, keyed) =
      let w' = record w { repository = s' } in
      subst (λ q. IsEnded run.id (run_prepared p m q (prepared p m.ctx q s') w').1.repository)
        (sym (ok-injective h))
        (run_prepared-IsEnded run (prepared p m.ctx run s') w' refl
          (named, aims, λ t e. keyed t (ap (λ x. lookup run.target_id x) (sym targets) ∙ e)) active
          marked there)

  release_runs :
      (lease : Lease) (s : Store) (id : Text) → IsEnded id s → IsEnded id (release_lease lease s).1
  unfolding release_lease
  release_runs lease s id h = elim (Bool-cases lease.released) [
    | inl again ↦ simp again h
    | inr first ↦ simp first h
  ]

  process_leased-IsEnded :
      (s : Store) (w : World Objects Database) (run : BackupRun)
      → s.backup_operation_locked ≡ false
      → (claim_pending_backup_run none (m.clock 0) (record s { backup_operation_locked = true })).0
        ≡ ok run
      → IsAimed run s
      → IsEnded run.id (process_leased p m (try_acquire_backup_operation none s) w).1.repository
  unfolding process_leased releasing try_acquire_backup_operation claim_pending_backup_run
  process_leased-IsEnded s w run idle taken aimed =
      let s' = record s { backup_operation_locked = true } in
      let o = select_pending (values s'.backup_runs) none in
      simp (idle, live_ctx)
        (release_runs (record { released = false })
          (run_claimed p m (claim_selected o (m.clock 0) s')
            (record w { repository = s' })).1.repository
          run.id
          (run_claimed-IsEnded run s' (claim_selected o (m.clock 0) s')
            (record w { repository = s' }) taken (claim_selected_lem o (m.clock 0) s' run taken)
            aimed))

  -- While the contexts live, a run that the worker claims under a free lease is succeeded or failed
  -- once the round is over, whatever the target, the snapshot, the seal and the upload answer; the run
  -- and its target have ids, and the target, where it is stored, is stored under its own.
  pub process_next-IsEnded :
      (w : World Objects Database) (run : BackupRun)
      → w.repository.backup_operation_locked ≡ false
      → (claim_pending_backup_run none
          (m.clock 0)
          (record w.repository { backup_operation_locked = true })).0
        ≡ ok run
      → IsAimed run w.repository
      → IsEnded run.id (process_next p m w).1.repository
  unfolding process_next
  process_next-IsEnded w run idle taken aimed =
      rw (live_ctx 10) (process_leased-IsEnded w.repository w run idle taken aimed)
