-- ===== src/Backup/Scheduler.antt =====
-- backend/internal/backup/scheduler.go, over the memory store.
pub mod Targets
pub mod Runs
use account_manager.Prelude.{
  ok, err, Result, Error, Ctx, ◌>>=◌, invalid, found, ℕ, zero, suc, ◌+◌, pos, ltb, Bool, true,
  false, ◌||◌, not, Option, none, some, Text, text_eq, trim_space, is_empty, codes, List, [], ◌∷◌,
  ◌++◌, length, if◌then◌else◌,
}
use account_manager.Domain.{BackupTarget, BackupRun, Time}
use account_manager.Domain.BackupRunState.{pending}
use account_manager.Ports.{ListOptions}
use account_manager.Memory.{Store}
use account_manager.Memory.BackupTargets.{list_backup_targets}
use account_manager.Memory.BackupRuns.{list_backup_runs, create_scheduled_backup_run}

abbrev pub page_size : ℕ
page_size = 500

abbrev pub page_options : ℕ → ListOptions
page_options offset = record { limit = pos page_size; offset = pos offset }

-- `if len(page) < pageSize { return targets, nil }`, with the rest of the loop
after_page :
    List BackupTarget
    → Result (List BackupTarget)
    → Option (Result (List BackupTarget))
    → Option (Result (List BackupTarget))
after_page targets (err e) rest = some (err e)
after_page targets (ok page) rest =
    if ltb (length page) page_size then some (ok (targets ++ page)) else rest

-- the list that the loop goes on with
unfoldable pub with_page : List BackupTarget → Result (List BackupTarget) → List BackupTarget
with_page targets (err e) = targets
with_page targets (ok page) = targets ++ page

-- the loop of Scheduler.listTargets, on fuel; `ctx n` is what `ctx.Err()` returns at the n-th
-- question
unfoldable pub list_targets_from :
    ℕ → (ℕ → Ctx) → ℕ → ℕ → List BackupTarget → Store → Option (Result (List BackupTarget))
unfolding after_page with_page
list_targets_from zero ctx n offset targets s = none
list_targets_from (suc fuel) ctx n offset targets s =
    let page = list_backup_targets (ctx n) (page_options offset) s in
    after_page targets page
      (list_targets_from fuel ctx (suc n) (offset + page_size) (with_page targets page) s)

-- What the scheduler takes from libraries: strings.ToLower, the parser of cron expressions with the
-- `Next` of what it parses (`none` is the zero time), and the generator of ids, by the number of the
-- call.
pub record Library : Type 0 where
  pub to_lower : Text → Text
  pub parse : Text → Option (Time → Option Time)
  pub new_id : ℕ → Result Text

-- the cron expression that stands for a schedule's name
named : Text → Text → Text
named lowered value =
    if text_eq lowered (codes "daily")
    then codes "15 2 * * *"
    else if text_eq lowered (codes "weekly")
    then codes "15 2 * * 0"
    else if text_eq lowered (codes "six-hours") || text_eq lowered (codes "six_hours")
    then codes "0 */6 * * *"
    else value

parsed : Option (Time → Option Time) → Result (Time → Option Time)
parsed none = err invalid
parsed (some schedule) = ok schedule

-- ParseSchedule
unfoldable pub parse_schedule : Library → Text → Result (Time → Option Time)
unfolding named parsed
parse_schedule lib given =
    let value = trim_space given in parsed (lib.parse (named (lib.to_lower value) value))

-- Where a round of RunOnce stands: the store, the questions to the context and the ids so far, and
-- the errors joined at its end.
pub record Progress : Type 0 where
  pub store : Store
  pub asked : ℕ
  pub ids : ℕ
  pub errors : List Error

-- scheduleErrors = append(scheduleErrors, ...)
unfoldable pub fail_with : Error → Progress → Progress
fail_with e p = record p { errors = p.errors ++ e ∷ [] }

-- the later one of the target's creation and its newest run's
unfoldable pub anchor_of : BackupTarget → List BackupRun → Time
anchor_of target [] = target.created_at
anchor_of target (run ∷ runs) =
    if ltb target.created_at run.created_at then run.created_at else target.created_at

new_run : Text → Text → Time → BackupRun
new_run id target_id now = record {
  id = id;
  target_id = target_id;
  state = pending;
  object_key = [];
  checksum = [];
  size_bytes = pos 0;
  failure = [];
  started_at = none;
  finished_at = none;
  created_at = now;
  updated_at = now;
}

-- `created` is only logged
created_result : Result Bool × Store → Progress → Progress
unfolding fail_with
created_result (ok created, s) p = record p { store = s }
created_result (err e, s) p = fail_with e (record p { store = s })

unfoldable pub with_id : Result Text → BackupTarget → Time → Time → Ctx → Progress → Progress
unfolding fail_with new_run created_result
with_id (err e) target due_at now ctx p = fail_with e (record p { ids = suc p.ids })
with_id (ok id) target due_at now ctx p =
    created_result (create_scheduled_backup_run ctx (new_run id target.id now) due_at p.store)
      (record p { ids = suc p.ids; asked = suc p.asked })

-- from `dueAt := schedule.Next(anchor)`
unfoldable pub when_due :
    Library → Option Time → BackupTarget → Time → (ℕ → Ctx) → Progress → Progress
unfolding with_id
when_due lib none target now ctx p = p
when_due lib (some due_at) target now ctx p =
    if ltb now due_at then p else with_id (lib.new_id p.ids) target due_at now (ctx p.asked) p

unfoldable pub with_runs :
    Library
    → Result (List BackupRun)
    → (Time → Option Time)
    → BackupTarget
    → Time
    → (ℕ → Ctx)
    → Progress
    → Progress
unfolding fail_with when_due
with_runs lib (err e) next target now ctx p = fail_with e p
with_runs lib (ok runs) next target now ctx p =
    when_due lib (next (anchor_of target runs)) target now ctx p

unfoldable pub with_schedule :
    Library → Result (Time → Option Time) → BackupTarget → Time → (ℕ → Ctx) → Progress → Progress
unfolding fail_with with_runs
with_schedule lib (err e) target now ctx p = fail_with e p
with_schedule lib (ok next) target now ctx p =
    with_runs lib
      (list_backup_runs (ctx p.asked) target.id (record { limit = pos 1; offset = pos 0 }) p.store)
      next target now ctx (record p { asked = suc p.asked })

-- one round of the loop of RunOnce
unfoldable pub schedule_target : Library → BackupTarget → Time → (ℕ → Ctx) → Progress → Progress
unfolding with_schedule
schedule_target lib target now ctx p =
    if not target.enabled || is_empty (trim_space target.schedule)
    then p
    else with_schedule lib (parse_schedule lib target.schedule) target now ctx p

unfoldable pub schedule_targets :
    Library → List BackupTarget → Time → (ℕ → Ctx) → Progress → Progress
unfolding schedule_target
schedule_targets lib [] now ctx p = p
schedule_targets lib (target ∷ targets) now ctx p =
    schedule_targets lib targets now ctx (schedule_target lib target now ctx p)

started : Store → ℕ → Progress
started s asked = record { store = s; asked = asked; ids = 0; errors = [] }

conclude : Progress → List Error × Store
conclude p = (p.errors, p.store)

unfoldable pub run_over :
    Library
    → Option (Result (List BackupTarget))
    → ℕ
    → Time
    → (ℕ → Ctx)
    → Store
    → Option (List Error × Store)
unfolding started conclude
run_over lib none asked now ctx s = none
run_over lib (some (err e)) asked now ctx s = some (e ∷ [], s)
run_over lib (some (ok targets)) asked now ctx s =
    some (conclude (schedule_targets lib targets now ctx (started s asked)))

-- listTargets asks the context `fuel` times at most; the questions of the loop after it are numbered
-- from there.
-- Scheduler.RunOnce at the time `now`: the errors it joins, and the store
unfoldable pub run_once : ℕ → Library → Time → (ℕ → Ctx) → Store → Option (List Error × Store)
unfolding run_over
run_once fuel lib now ctx s = run_over lib (list_targets_from fuel ctx 0 0 [] s) fuel now ctx s
