-- ===== src/Memory/BackupRuns/Exclusive.antt =====
-- At most one pending or running run for a target.
use account_manager.Prelude.{
  ◌⊎◌, ◌&&◌, not, false, ◌≡◌, refl, sym, ◌∙◌, none, some, true, inl, inr, arith, Bool-cases, has,
  lookup, insert, lookup-insert, any_value, any_value-lookup, Ctx, Option, Text, text_eq,
  text_eq_iff, All-values, values,
}
use account_manager.Domain.{BackupRun, Time}
use account_manager.Domain.BackupRunState.{running}
use account_manager.Memory.{Store}
use account_manager.Memory.BackupRuns.{
  is_active, is_pending, occupies, covers, create_backup_run, create_scheduled_backup_run,
  claim_selected, claim_pending_backup_run, select_pending, update_found, update_backup_run,
}
use account_manager.Memory.Consistency.{IsConsistent}
use account_manager.Memory.Consistency.Runs.{IsChosen, select_pending-IsChosen}

-- Two active runs of one target are one run.
abbrev pub IsExclusive : Store → Type 0
IsExclusive s =
    (i j : Text) (q r : BackupRun)
    → lookup i s.backup_runs ≡ some q
    → lookup j s.backup_runs ≡ some r
    → is_active q.state ≡ true
    → is_active r.state ≡ true
    → q.target_id ≡ r.target_id
    → i ≡ j

-- A run written where no other run of its target is active.
insert-IsExclusive :
    (k : Text) (n : BackupRun) (s : Store)
    → ((i : Text) (q : BackupRun)
        → lookup i s.backup_runs ≡ some q
        → is_active q.state ≡ true
        → is_active n.state ≡ true
        → q.target_id ≡ n.target_id
        → i ≡ k)
    → IsExclusive s
    → IsExclusive (record s { backup_runs = insert k n s.backup_runs })
insert-IsExclusive k n s alone h i j q r p e qa ra same = ground (
  arith,
  lookup-insert k i n s.backup_runs,
  lookup-insert k j n s.backup_runs,
  text_eq_iff k i,
  text_eq_iff k j,
  alone i q,
  alone j r,
  h i j q r,
)

create-IsExclusive :
    (ctx : Ctx) (n : BackupRun) (s : Store)
    → IsExclusive s
    → IsExclusive (create_backup_run ctx n s).1
unfolding create_backup_run
create-IsExclusive (some e) n s h = h
create-IsExclusive none n s h = elim (Bool-cases (has n.target_id s.backup_targets)) [
  | inr missing ↦ rw missing h
  | inl there ↦ elim (Bool-cases (has n.id s.backup_runs)) [
    | inl taken ↦ rw (there, taken) h
    | inr fresh ↦ elim (Bool-cases (any_value (occupies n.target_id) s.backup_runs)) [
      | inl busy ↦ rw (there, fresh, busy) h
      | inr idle ↦
          rw (there, fresh, idle)
            (insert-IsExclusive n.id n s
              (λ i q p qa _ same. ground (
                arith,
                any_value-lookup (occupies n.target_id) i q s.backup_runs idle p,
                text_eq_iff q.target_id n.target_id,
              ))
              h)
    ]
  ]
]

pub schedule-IsExclusive :
    (ctx : Ctx) (n : BackupRun) (due_at : Time) (s : Store)
    → IsExclusive s
    → IsExclusive (create_scheduled_backup_run ctx n due_at s).1
unfolding create_scheduled_backup_run
schedule-IsExclusive (some e) n due_at s h = h
schedule-IsExclusive none n due_at s h = elim (Bool-cases (has n.target_id s.backup_targets)) [
  | inr missing ↦ rw missing h
  | inl there ↦ elim (Bool-cases (any_value (covers n.target_id due_at) s.backup_runs)) [
    | inl covered ↦ rw (there, covered) h
    | inr due ↦ elim (Bool-cases (has n.id s.backup_runs)) [
      | inl taken ↦ rw (there, due, taken) h
      | inr fresh ↦
          rw (there, due, fresh)
            (insert-IsExclusive n.id n s
              (λ i q p qa _ same. ground (
                arith,
                any_value-lookup (covers n.target_id due_at) i q s.backup_runs due p,
                text_eq_iff q.target_id n.target_id,
              ))
              h)
    ]
  ]
]

is_active_of_pending : (r : BackupRun) → is_pending r.state ≡ true → is_active r.state ≡ true
is_active_of_pending r h = ground arith

claim_selected-IsExclusive :
    (o : Option BackupRun) (now : Time) (s : Store)
    → IsConsistent s
    → IsChosen s.backup_runs o
    → IsExclusive s
    → IsExclusive (claim_selected o now s).1
unfolding claim_selected
claim_selected-IsExclusive none now s c chosen h = h
claim_selected-IsExclusive (some r) now s c (k, found, waiting) h =
    insert-IsExclusive r.id (record r { state = running; started_at = some now; updated_at = now })
      s
      (λ i q p qa _ same.
        h i k q r p found qa (is_active_of_pending r waiting) same ∙ sym (c.run_ids k r found))
      h

claim-IsExclusive :
    (ctx : Ctx) (now : Time) (s : Store)
    → IsConsistent s
    → IsExclusive s
    → IsExclusive (claim_pending_backup_run ctx now s).1
unfolding claim_pending_backup_run
claim-IsExclusive (some e) now s c h = h
claim-IsExclusive none now s c h =
    claim_selected-IsExclusive (select_pending (values s.backup_runs) none) now s c
      (select_pending-IsChosen s.backup_runs (values s.backup_runs) none
        (All-values s.backup_runs c.run_keys) tt)
      h

-- The written run is active and replaces a finished one.
abbrev pub Revives : BackupRun → Store → Type 0
Revives n s =
    (old : BackupRun) × (lookup n.id s.backup_runs ≡ some old)
    × (is_active n.state ≡ true)
    × (is_active old.state ≡ false)

update_found-IsExclusive :
    (o : Option BackupRun) (n : BackupRun) (s : Store)
    → lookup n.id s.backup_runs ≡ o
    → IsExclusive s
    → IsExclusive (update_found o n s).1 ⊎ Revives n s
unfolding update_found
update_found-IsExclusive none n s found h = inl h
update_found-IsExclusive (some old) n s found h =
    elim (Bool-cases (text_eq old.target_id n.target_id)) [
      | inr moved ↦ rw moved (inl h)
      | inl kept ↦ elim (Bool-cases (is_active n.state && not (is_active old.state))) [
        | inl revived ↦ inr (old, found, ground arith, ground arith)
        | inr tame ↦ rw kept (
            inl (
              insert-IsExclusive n.id n s
                (λ i q p qa na same.
                  h i n.id q old p found qa (ground arith)
                    (same ∙ sym ((text_eq_iff old.target_id n.target_id).0 kept)))
                h))
      ]
    ]

update-IsExclusive :
    (ctx : Ctx) (n : BackupRun) (s : Store)
    → IsExclusive s
    → IsExclusive (update_backup_run ctx n s).1 ⊎ Revives n s
unfolding update_backup_run
update-IsExclusive (some e) n s h = inl h
update-IsExclusive none n s h = update_found-IsExclusive (lookup n.id s.backup_runs) n s refl h

-- On a consistent store in which no target has two active runs, that stays so under a run created on
-- demand, a run created by the schedule and a claim, whatever they return; and under the update of a
-- run, unless the update makes a finished run active again.
pub runs-IsExclusive :
    (ctx : Ctx) (n : BackupRun) (due_at now : Time) (s : Store)
    → IsConsistent s
    → IsExclusive s
    → IsExclusive (create_backup_run ctx n s).1
      × IsExclusive (create_scheduled_backup_run ctx n due_at s).1
      × IsExclusive (claim_pending_backup_run ctx now s).1
      × (IsExclusive (update_backup_run ctx n s).1 ⊎ Revives n s)
runs-IsExclusive ctx n due_at now s c h = (
  create-IsExclusive ctx n s h,
  schedule-IsExclusive ctx n due_at s h,
  claim-IsExclusive ctx now s c h,
  update-IsExclusive ctx n s h,
)
