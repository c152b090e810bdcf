-- ===== src/Memory/BackupRuns/Schedule.antt =====
-- A scheduled run is created once for a due time.
use account_manager.Prelude.{
  Map, ◌≡◌, ◌⊎◌, refl, sym, ap, ◌∙◌, none, some, true, false, inl, inr, arith, Bool, Bool-cases,
  Ctx, ℕ, ◌+◌, suc, Text, List, [], ◌∷◌, All, length, values, size-insert, has, insert,
  lookup-insert, any_value, any_value_of_lookup, Result, ok, err, not_found, conflict, text_eq_iff,
  ◌≤◌, if◌then◌else◌,
}
use mathlib.Core.Bool.{true≢false}
use mathlib.Core.List.{Mem, mem-cons_self, mem-cons_of_mem}
use account_manager.Domain.{BackupRun, Time}
use account_manager.Memory.{Store}
use account_manager.Memory.BackupRuns.{covers, is_active, create_scheduled_backup_run}

abbrev is_created : Result Bool → Bool
is_created (ok b) = b
is_created (err e) = false

-- Scheduled creations for one due time, one after another: how many report that they created a run,
-- and the store after them.
unfoldable pub create_each : List (Ctx × BackupRun) → Time → Store → ℕ × Store
create_each [] due_at s = (0, s)
create_each ((ctx, n) ∷ ns) due_at s =
    let (answer, s') = create_scheduled_backup_run ctx n due_at s in
    let (count, last) = create_each ns due_at s' in
    ((if is_created answer then suc count else count), last)

-- A creation that creates nothing, or one that creates the run when no run of the target covers the
-- due time.
abbrev IsCreation : BackupRun → Time → Store → Result Bool × Store → Type 0
IsCreation n due_at s answer =
    ((r : Result Bool) × (answer ≡ (r, s)) × (is_created r ≡ false))
    ⊎ ((answer ≡ (ok true, record s { backup_runs = insert n.id n s.backup_runs }))
        × (any_value (covers n.target_id due_at) s.backup_runs ≡ false)
        × (has n.id s.backup_runs ≡ false))

create_scheduled-IsCreation :
    (ctx : Ctx) (n : BackupRun) (due_at : Time) (s : Store)
    → IsCreation n due_at s (create_scheduled_backup_run ctx n due_at s)
unfolding create_scheduled_backup_run
create_scheduled-IsCreation (some e) n due_at s = inl (err e, refl, refl)
create_scheduled-IsCreation none n due_at s = elim (Bool-cases (has n.target_id s.backup_targets)) [
  | inr missing ↦ rw missing (inl (err not_found, refl, refl))
  | inl there ↦ elim (Bool-cases (any_value (covers n.target_id due_at) s.backup_runs)) [
    | inl covered ↦ rw (there, covered) (inl (ok false, refl, refl))
    | inr due ↦ elim (Bool-cases (has n.id s.backup_runs)) [
      | inl taken ↦ rw (there, due, taken) (inl (err conflict, refl, refl))
      | inr fresh ↦ rw (there, due, fresh) (inr (refl, refl, refl))
    ]
  ]
]

covered_after :
    (n : BackupRun) (due_at : Time) (s : Store)
    → due_at ≤ n.created_at
    → any_value (covers n.target_id due_at) (insert n.id n s.backup_runs) ≡ true
covered_after n due_at s late =
    any_value_of_lookup (covers n.target_id due_at) n.id n (insert n.id n s.backup_runs)
      (ground (arith, lookup-insert n.id n.id n s.backup_runs, text_eq_iff n.id n.id))
      (ground (arith, text_eq_iff n.target_id n.target_id))

-- The attempts are for one target, and their runs are created at the due time or later.
abbrev pub AreFor : Text → Time → List (Ctx × BackupRun) → Type 0
AreFor target_id due_at ns =
    All (λ (x : Ctx × BackupRun). (x.1.target_id ≡ target_id) × (due_at ≤ x.1.created_at)) ns

-- Once a run covers the due time, nothing more is created.
create_each-covered :
    (target_id : Text) (due_at : Time) (ns : List (Ctx × BackupRun)) (s : Store)
    → AreFor target_id due_at ns
    → any_value (covers target_id due_at) s.backup_runs ≡ true
    → create_each ns due_at s ≡ (0, s)
unfolding create_each
create_each-covered target_id due_at [] s h covered = refl
create_each-covered target_id due_at ((ctx, n) ∷ ns) s ((same, late), hs) covered =
    elim (create_scheduled-IsCreation ctx n due_at s) [
      | inl (r, e, idle) ↦ rw (e, idle) (create_each-covered target_id due_at ns s hs covered)
      | inr (e, free, fresh) ↦ absurd (true≢false (sym covered ∙ (rw same at free)))
    ]

any_value-Mem {ℓ} :
    {A : Type ℓ} (p : A → Bool) (m : Map A)
    → any_value p m ≡ true
    → (v : A) × Mem v (values m) × (p v ≡ true)
unfolding any_value values
any_value-Mem p [] h = cc
any_value-Mem p ((k, v) ∷ m) h = elim (Bool-cases (p v)) [
  | inl hit ↦ (v, mem-cons_self, hit)
  | inr miss ↦
      let (w, stored, hit) = any_value-Mem p m (rw miss at h) in (w, mem-cons_of_mem v stored, hit)
]

-- Why a run is not created: its target is not stored, its id is taken, or a stored run of the target
-- is active or was created at the due time or later.
abbrev pub IsExcused : BackupRun → Time → Store → Type 0
IsExcused n due_at s =
    (has n.target_id s.backup_targets ≡ false)
    ⊎ (has n.id s.backup_runs ≡ true)
    ⊎ ((r : BackupRun) × Mem r (values s.backup_runs)
        × (r.target_id ≡ n.target_id)
        × ((is_active r.state ≡ true) ⊎ (due_at ≤ r.created_at)))

covers-excuses :
    (n r : BackupRun) (due_at : Time)
    → covers n.target_id due_at r ≡ true
    → (r.target_id ≡ n.target_id) × ((is_active r.state ≡ true) ⊎ (due_at ≤ r.created_at))
covers-excuses n r due_at h =
    let same = (text_eq_iff r.target_id n.target_id).0 (ground arith) in
    (
      same,
      elim (Bool-cases (is_active r.state)) [
        | inl active ↦ inl active
        | inr finished ↦ inr (ground arith)
      ],
    )

create_scheduled-IsExcused :
    (n : BackupRun) (due_at : Time) (s : Store)
    → ((create_scheduled_backup_run none n due_at s).0 ≡ ok true) ⊎ IsExcused n due_at s
unfolding create_scheduled_backup_run
create_scheduled-IsExcused n due_at s = elim (Bool-cases (has n.target_id s.backup_targets)) [
  | inr missing ↦ inr (inl missing)
  | inl there ↦ elim (Bool-cases (any_value (covers n.target_id due_at) s.backup_runs)) [
    | inl covered ↦
        let (r, stored, hit) = any_value-Mem (covers n.target_id due_at) s.backup_runs covered in
        let (same, late) = covers-excuses n r due_at hit in inr (inr (inr (r, stored, same, late)))
    | inr due ↦ elim (Bool-cases (has n.id s.backup_runs)) [
      | inl taken ↦ inr (inr (inl taken))
      | inr fresh ↦ rw (there, due, fresh) (inl refl)
    ]
  ]
]

create_each-once :
    (target_id : Text) (due_at : Time) (ns : List (Ctx × BackupRun)) (s : Store)
    → AreFor target_id due_at ns
    → let (count, last) = create_each ns due_at s in
      (count ≤ 1) × (length (values last.backup_runs) ≡ length (values s.backup_runs) + count)
unfolding create_each
create_each-once target_id due_at [] s h = (omega arith, omega arith)
create_each-once target_id due_at ((ctx, n) ∷ ns) s ((same, late), hs) =
    elim (create_scheduled-IsCreation ctx n due_at s) [
      | inl (r, e, idle) ↦ rw (e, idle) (create_each-once target_id due_at ns s hs)
      | inr (e, free, fresh) ↦
          rw
            (
              e,
              create_each-covered target_id due_at ns
                  (record s { backup_runs = insert n.id n s.backup_runs }) hs
                  (ap (λ t. any_value (covers t due_at) (insert n.id n s.backup_runs)) (sym same)
                    ∙ covered_after n due_at s late),
            )
            (omega arith, ground (arith, size-insert n.id n s.backup_runs, fresh))
    ]

-- Of scheduled creations for one target and one due time, with any runs that are created at the due
-- time or later, at most one reports that it created a run; and the store has exactly so many more
-- runs. If the first has a live context, one of them reports it, unless the target of the first is not
-- stored, the id of its run is taken, or a stored run of the target is active or was created at the due
-- time or later.
pub create_scheduled-once :
    (n : BackupRun) (due_at : Time) (ns : List (Ctx × BackupRun)) (s : Store)
    → due_at ≤ n.created_at
    → AreFor n.target_id due_at ns
    → let (count, last) = create_each ((none, n) ∷ ns) due_at s in
      (count ≤ 1)
      × (length (values last.backup_runs) ≡ length (values s.backup_runs) + count)
      × ((1 ≤ count) ⊎ IsExcused n due_at s)
unfolding create_each
create_scheduled-once n due_at ns s late hs =
    let (most, grown) = create_each-once n.target_id due_at ((none, n) ∷ ns) s ((refl, late), hs) in
    (
      most,
      grown,
      elim (create_scheduled-IsExcused n due_at s) [
        | inr excuse ↦ inr excuse
        | inl done ↦ rw done (inl (omega arith))
      ],
    )
