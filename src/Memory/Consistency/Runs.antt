-- ===== src/Memory/Consistency/Runs.antt =====
-- The writes to backup runs keep the store consistent.
use account_manager.Prelude.{
  ◌≡◌, refl, sym, none, some, true, inl, inr, arith, ◌∙◌, ap, Bool-cases, has, lookup, insert,
  lookup-insert, Ctx, Option, Text, text_eq, text_eq_iff, Map, Distinct-insert, All, All-values,
  List, [], ◌∷◌, values, any_value,
}
use account_manager.Domain.{BackupRun, Time}
use account_manager.Domain.BackupRunState.{running}
use account_manager.Memory.{Store}
use account_manager.Memory.BackupRuns.{
  occupies, covers, is_pending, create_backup_run, create_scheduled_backup_run, select_pending,
  choose, older, claim_selected, claim_pending_backup_run, update_found, update_backup_run,
}
use account_manager.Memory.Links.{IsAttached-insert}
use account_manager.Memory.Consistency.{IsConsistent}

insert_ids :
    (k : Text) (r : BackupRun) (m : Map BackupRun)
    → r.id ≡ k
    → ((i : Text) (q : BackupRun) → lookup i m ≡ some q → q.id ≡ i)
    → (i : Text) (q : BackupRun) → lookup i (insert k r m) ≡ some q
    → q.id ≡ i
insert_ids k r m e h i q p = ground (arith, lookup-insert k i r m, text_eq_iff k i, h i q)

-- A run written under its own id, for a target that is there.
pub insert_run-IsConsistent :
    (r : BackupRun) (s : Store)
    → has r.target_id s.backup_targets ≡ true
    → IsConsistent s
    → IsConsistent (record s { backup_runs = insert r.id r s.backup_runs })
insert_run-IsConsistent r s there h = assumption (
  IsAttached-insert (λ r. r.target_id) r.id r s.backup_runs s.backup_targets there h.run_targets,
  Distinct-insert r.id r s.backup_runs h.run_keys,
  insert_ids r.id r s.backup_runs refl h.run_ids,
)

pub create_backup_run-IsConsistent :
    (ctx : Ctx) (r : BackupRun) (s : Store)
    → IsConsistent s
    → IsConsistent (create_backup_run ctx r s).1
unfolding create_backup_run
create_backup_run-IsConsistent (some e) r s h = h
create_backup_run-IsConsistent none r s h = elim (Bool-cases (has r.target_id s.backup_targets)) [
  | inr missing ↦ rw missing h
  | inl there ↦ elim (Bool-cases (has r.id s.backup_runs)) [
    | inl taken ↦ rw (there, taken) h
    | inr fresh ↦ elim (Bool-cases (any_value (occupies r.target_id) s.backup_runs)) [
      | inl busy ↦ rw (there, fresh, busy) h
      | inr idle ↦ rw (there, fresh, idle) (insert_run-IsConsistent r s there h)
    ]
  ]
]

pub create_scheduled_backup_run-IsConsistent :
    (ctx : Ctx) (r : BackupRun) (due_at : Time) (s : Store)
    → IsConsistent s
    → IsConsistent (create_scheduled_backup_run ctx r due_at s).1
unfolding create_scheduled_backup_run
create_scheduled_backup_run-IsConsistent (some e) r due_at s h = h
create_scheduled_backup_run-IsConsistent none r due_at s h =
    elim (Bool-cases (has r.target_id s.backup_targets)) [
      | inr missing ↦ rw missing h
      | inl there ↦ elim (Bool-cases (any_value (covers r.target_id due_at) s.backup_runs)) [
        | inl covered ↦ rw (there, covered) h
        | inr due ↦ elim (Bool-cases (has r.id s.backup_runs)) [
          | inl taken ↦ rw (there, due, taken) h
          | inr fresh ↦ rw (there, due, fresh) (insert_run-IsConsistent r s there h)
        ]
      ]
    ]

-- What the claim selects is a run of the map, and pending.
abbrev pub IsCandidate : Map BackupRun → BackupRun → Type 0
IsCandidate m r = (k : Text) × (lookup k m ≡ some r) × (is_pending r.state ≡ true)

abbrev pub IsChosen : Map BackupRun → Option BackupRun → Type 0
IsChosen m none = Unit
IsChosen m (some r) = IsCandidate m r

choose-IsChosen :
    (m : Map BackupRun) (r : BackupRun) (o : Option BackupRun)
    → IsCandidate m r
    → IsChosen m o
    → IsChosen m (choose r o)
unfolding choose
choose-IsChosen m r none c h = c
choose-IsChosen m r (some q) c h = elim (Bool-cases (older r q)) [ inl e ↦ rw e c | inr e ↦ rw e h ]

pub select_pending-IsChosen :
    (m : Map BackupRun) (rs : List BackupRun) (o : Option BackupRun)
    → All (λ r. (k : Text) × (lookup k m ≡ some r)) rs
    → IsChosen m o
    → IsChosen m (select_pending rs o)
unfolding select_pending
select_pending-IsChosen m [] o a h = h
select_pending-IsChosen m (r ∷ rs) o ((k, e), a) h = elim (Bool-cases (is_pending r.state)) [
  | inl p ↦ rw p (select_pending-IsChosen m rs (choose r o) a (choose-IsChosen m r o (k, e, p) h))
  | inr p ↦ rw p (select_pending-IsChosen m rs o a h)
]

claim_selected-IsConsistent :
    (o : Option BackupRun) (now : Time) (s : Store)
    → IsChosen s.backup_runs o
    → IsConsistent s
    → IsConsistent (claim_selected o now s).1
unfolding claim_selected
claim_selected-IsConsistent none now s c h = h
claim_selected-IsConsistent (some r) now s (k, found, _) h =
    insert_run-IsConsistent (record r { state = running; started_at = some now; updated_at = now })
      s (h.run_targets k r found) h

pub claim_pending_backup_run-IsConsistent :
    (ctx : Ctx) (now : Time) (s : Store)
    → IsConsistent s
    → IsConsistent (claim_pending_backup_run ctx now s).1
unfolding claim_pending_backup_run
claim_pending_backup_run-IsConsistent (some e) now s h = h
claim_pending_backup_run-IsConsistent none now s h =
    claim_selected-IsConsistent (select_pending (values s.backup_runs) none) now s
      (select_pending-IsChosen s.backup_runs (values s.backup_runs) none
        (All-values s.backup_runs h.run_keys) tt)
      h

update_found-IsConsistent :
    (o : Option BackupRun) (r : BackupRun) (s : Store)
    → lookup r.id s.backup_runs ≡ o
    → IsConsistent s
    → IsConsistent (update_found o r s).1
unfolding update_found
update_found-IsConsistent none r s found h = h
update_found-IsConsistent (some old) r s found h =
    elim (Bool-cases (text_eq old.target_id r.target_id)) [
      | inr moved ↦ rw moved h
      | inl kept ↦ rw kept (
          insert_run-IsConsistent r s
            (ap (λ t. has t s.backup_targets) (sym ((text_eq_iff old.target_id r.target_id).0 kept))
              ∙ h.run_targets r.id old found)
            h)
    ]

pub update_backup_run-IsConsistent :
    (ctx : Ctx) (r : BackupRun) (s : Store)
    → IsConsistent s
    → IsConsistent (update_backup_run ctx r s).1
unfolding update_backup_run
update_backup_run-IsConsistent (some e) r s h = h
update_backup_run-IsConsistent none r s h =
    update_found-IsConsistent (lookup r.id s.backup_runs) r s refl h
