-- ===== src/Backup/Scheduler/Runs.antt =====
-- What RunOnce does to the backup runs.
use account_manager.Prelude.{
  ◌≡◌, refl, none, some, inl, inr, arith, ℕ, ◌*◌, ◌<◌, Bool, Bool-cases, not, ◌||◌, Ctx, Result, ok,
  err, Error, Option, Text, List, [], ◌∷◌, length, ltb, trim_space, is_empty,
}
use account_manager.Domain.{BackupTarget, BackupRun, Time}
use account_manager.Memory.{Store}
use account_manager.Memory.BackupRuns.{create_scheduled_backup_run}
use account_manager.Memory.BackupRuns.Exclusive.{IsExclusive, schedule-IsExclusive}
use account_manager.Memory.Consistency.{IsConsistent}
use account_manager.Memory.Consistency.Runs.{create_scheduled_backup_run-IsConsistent}
use account_manager.Memory.BackupTargets.{sorted_targets}
use account_manager.Backup.Scheduler.Targets.{list_targets_from-returns}
use account_manager.Backup.Scheduler.{
  page_size, Library, Progress, created_result, new_run, fail_with, with_id, when_due, with_runs,
  with_schedule, anchor_of, parse_schedule, schedule_target, schedule_targets, run_over, run_once,
  started, conclude,
}

-- What a round keeps: the constraints of the store and one active run for a target.
abbrev IsSound : Store → Type 0
IsSound s = IsConsistent s × IsExclusive s

created_result-IsSound :
    (r : Result Bool × Store) (p : Progress) → IsSound r.1 → IsSound (created_result r p).store
unfolding created_result fail_with
created_result-IsSound (ok b, s) p h = h
created_result-IsSound (err e, s) p h = h

with_id-IsSound :
    (r : Result Text) (target : BackupTarget) (due_at now : Time) (ctx : Ctx) (p : Progress)
    → IsSound p.store
    → IsSound (with_id r target due_at now ctx p).store
unfolding with_id fail_with
with_id-IsSound (err e) target due_at now ctx p h = h
with_id-IsSound (ok id) target due_at now ctx p (c, x) =
    created_result-IsSound
      (create_scheduled_backup_run ctx (new_run id target.id now) due_at p.store) _
      (
        create_scheduled_backup_run-IsConsistent ctx (new_run id target.id now) due_at p.store c,
        schedule-IsExclusive ctx (new_run id target.id now) due_at p.store x,
      )

when_due-IsSound :
    (lib : Library) (o : Option Time) (target : BackupTarget) (now : Time) (ctx : ℕ → Ctx)
    (p : Progress)
    → IsSound p.store
    → IsSound (when_due lib o target now ctx p).store
unfolding when_due
when_due-IsSound lib none target now ctx p h = h
when_due-IsSound lib (some due_at) target now ctx p h = elim (Bool-cases (ltb now due_at)) [
  | inl early ↦ rw early h
  | inr due ↦ rw due (with_id-IsSound (lib.new_id p.ids) target due_at now (ctx p.asked) p h)
]

with_runs-IsSound :
    (lib : Library) (r : Result (List BackupRun)) (next : Time → Option Time)
    (target : BackupTarget) (now : Time) (ctx : ℕ → Ctx) (p : Progress)
    → IsSound p.store
    → IsSound (with_runs lib r next target now ctx p).store
unfolding with_runs fail_with
with_runs-IsSound lib (err e) next target now ctx p h = h
with_runs-IsSound lib (ok runs) next target now ctx p h =
    when_due-IsSound lib (next (anchor_of target runs)) target now ctx p h

with_schedule-IsSound :
    (lib : Library) (r : Result (Time → Option Time)) (target : BackupTarget) (now : Time)
    (ctx : ℕ → Ctx) (p : Progress)
    → IsSound p.store
    → IsSound (with_schedule lib r target now ctx p).store
unfolding with_schedule fail_with
with_schedule-IsSound lib (err e) target now ctx p h = h
with_schedule-IsSound lib (ok next) target now ctx p h =
    with_runs-IsSound lib _ next target now ctx _ h

schedule_target-IsSound :
    (lib : Library) (target : BackupTarget) (now : Time) (ctx : ℕ → Ctx) (p : Progress)
    → IsSound p.store
    → IsSound (schedule_target lib target now ctx p).store
unfolding schedule_target
schedule_target-IsSound lib target now ctx p h =
    elim (Bool-cases (not target.enabled || is_empty (trim_space target.schedule))) [
      | inl off ↦ rw off h
      | inr on ↦
          rw on (with_schedule-IsSound lib (parse_schedule lib target.schedule) target now ctx p h)
    ]

schedule_targets-IsSound :
    (lib : Library) (targets : List BackupTarget) (now : Time) (ctx : ℕ → Ctx) (p : Progress)
    → IsSound p.store
    → IsSound (schedule_targets lib targets now ctx p).store
unfolding schedule_targets
schedule_targets-IsSound lib [] now ctx p h = h
schedule_targets-IsSound lib (target ∷ targets) now ctx p h =
    schedule_targets-IsSound lib targets now ctx (schedule_target lib target now ctx p)
      (schedule_target-IsSound lib target now ctx p h)

run_over-IsSound :
    (lib : Library) (r : Result (List BackupTarget)) (asked : ℕ) (now : Time) (ctx : ℕ → Ctx)
    (s : Store)
    → IsSound s
    → (errors : List Error) × (s' : Store) × (run_over lib (some r) asked now ctx s
        ≡ some (errors, s'))
      × IsSound s'
unfolding run_over started conclude
run_over-IsSound lib (err x) asked now ctx s h = (x ∷ [], s, refl, h)
run_over-IsSound lib (ok targets) asked now ctx s h = (
  _,
  _,
  refl,
  schedule_targets-IsSound lib targets now ctx
      (record { store = s; asked = asked; ids = 0; errors = [] }) h,
)

-- A round of the scheduler comes to an end, with fuel for one more page than the targets fill; and
-- whatever the library calls return and the context says, it keeps the store's constraints and that no
-- target has two active runs.
pub run_once-IsSound :
    (fuel : ℕ) (lib : Library) (now : Time) (ctx : ℕ → Ctx) (s : Store)
    → IsConsistent s
    → IsExclusive s
    → length (sorted_targets s) < page_size * fuel
    → (errors : List Error) × (s' : Store) × (run_once fuel lib now ctx s ≡ some (errors, s'))
      × IsConsistent s'
      × IsExclusive s'
unfolding run_once
run_once-IsSound fuel lib now ctx s c x h =
    let (r, e) = list_targets_from-returns fuel ctx 0 0 [] s (omega arith) (omega arith) in
    let (errors, s', e', (c', x')) = run_over-IsSound lib r fuel now ctx s (c, x) in
    rw e (errors, s', e', c', x')
