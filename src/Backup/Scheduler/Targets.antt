-- ===== src/Backup/Scheduler/Targets.antt =====
-- The pages of listTargets put together.
use account_manager.Prelude.{
  ◌≡◌, refl, ap, none, some, inl, inr, arith, ℕ, suc, zero, ◌+◌, ◌*◌, ◌≤◌, ◌<◌, Bool-cases,
  Option-cases, Ctx, Result, ok, err, Error, List, [], ◌++◌, length, take, drop, ltb, ltb→lt,
}
use account_manager.Domain.{BackupTarget}
use account_manager.Ports.{normalize, normalize_limit, normalize_offset, paginate}
use account_manager.Ports.Pages.{page_of_lem, take-take, take_all, short, long}
use account_manager.Memory.{Store}
use account_manager.Memory.BackupTargets.{sorted_targets, list_backup_targets}
use account_manager.Backup.Scheduler.{
  page_size, page_options, after_page, with_page, list_targets_from,
}

-- A page that listTargets asks for.
page_of_targets :
    (offset : ℕ) (s : Store)
    → list_backup_targets none (page_options offset) s
      ≡ ok (take page_size (drop offset (sorted_targets s)))
unfolding list_backup_targets paginate normalize normalize_limit normalize_offset
page_of_targets offset s =
    ap ok (page_of_lem (sorted_targets s) (record { limit = page_size; offset = offset }))

cancelled_page :
    (e : Error) (offset : ℕ) (s : Store)
    → list_backup_targets (some e) (page_options offset) s ≡ err e
unfolding list_backup_targets
cancelled_page e offset s = refl

list_targets_from-all :
    (fuel : ℕ) (ctx : ℕ → Ctx) (n offset : ℕ) (s : Store)
    → ((k : ℕ) → ctx k ≡ none)
    → length (sorted_targets s) < offset + page_size * fuel
    → offset ≤ length (sorted_targets s)
    → list_targets_from fuel ctx n offset (take offset (sorted_targets s)) s
      ≡ some (ok (sorted_targets s))
unfolding list_targets_from after_page with_page
list_targets_from-all zero ctx n offset s live h k = absurd (omega arith)
list_targets_from-all (suc fuel) ctx n offset s live h k =
    rw (live n, page_of_targets offset s, take-take offset page_size (sorted_targets s))
      (elim (Bool-cases
        (ltb (length (take page_size (drop offset (sorted_targets s)))) page_size)) [
          | inl last ↦ rw last (
              ap (λ ts. some (ok ts))
                (take_all (offset + page_size) (sorted_targets s)
                  (short page_size offset (sorted_targets s) (ltb→lt _ _ last))))
          | inr more ↦ rw more (
              list_targets_from-all fuel ctx (suc n) (offset + page_size) s live (omega arith)
                (long page_size offset (sorted_targets s) k more))
        ])

-- The loop returns, whatever the context says.
pub list_targets_from-returns :
    (fuel : ℕ) (ctx : ℕ → Ctx) (n offset : ℕ) (targets : List BackupTarget) (s : Store)
    → length (sorted_targets s) < offset + page_size * fuel
    → offset ≤ length (sorted_targets s)
    → (r : Result (List BackupTarget)) × (list_targets_from fuel ctx n offset targets s ≡ some r)
unfolding list_targets_from after_page with_page
list_targets_from-returns zero ctx n offset targets s h k = absurd (omega arith)
list_targets_from-returns (suc fuel) ctx n offset targets s h k = elim (Option-cases (ctx n)) [
  | inr (e, cancelled) ↦ (err e, rw (cancelled, cancelled_page e offset s) refl)
  | inl live ↦
      elim (Bool-cases (ltb (length (take page_size (drop offset (sorted_targets s)))) page_size)) [
        | inl last ↦ (
          ok (targets ++ take page_size (drop offset (sorted_targets s))),
          rw (live, page_of_targets offset s, last) refl,
        )
        | inr more ↦
            let (r, e) =
              list_targets_from-returns fuel ctx (suc n) (offset + page_size)
                (targets ++ take page_size (drop offset (sorted_targets s))) s (omega arith)
                (long page_size offset (sorted_targets s) k more) in
            (r, rw (live, page_of_targets offset s, more) e)
      ]
]

-- On a context that is never cancelled, listTargets returns every backup target in the order of the
-- ids, also where they are more than the 500 of a page; fuel for one more page than the targets fill is
-- enough.
pub list_targets_from-enough :
    (fuel : ℕ) (ctx : ℕ → Ctx) (s : Store)
    → ((k : ℕ) → ctx k ≡ none)
    → length (sorted_targets s) < page_size * fuel
    → list_targets_from fuel ctx 0 0 [] s ≡ some (ok (sorted_targets s))
list_targets_from-enough fuel ctx s live h =
    list_targets_from-all fuel ctx 0 0 s live (omega arith) (omega arith)
