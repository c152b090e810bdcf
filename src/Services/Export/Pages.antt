-- ===== src/Services/Export/Pages.antt =====
-- The export without ids takes every mailbox, page by page.
use account_manager.Prelude.{
  ok, Ctx, ℕ, zero, suc, ◌+◌, ◌*◌, ◌≤◌, ◌<◌, pos, ltb, ltb→lt, Bool, Option, none, some, List, [],
  ◌∷◌, ◌++◌, length, take, drop, keep_if, values, sort_by, ◌≡◌, refl, ap, sym, ◌∙◌, arith, inl, inr,
  Bool-cases,
}
use account_manager.Domain.{Mailbox, ProviderKey}
use account_manager.Ports.{paginate, normalize, normalize_limit, normalize_offset}
use account_manager.Ports.Pages.{page_of_lem, take-take, take_all, short, long}
use account_manager.Memory.{Store}
use account_manager.Memory.Mailboxes.{list_mailboxes, newer}
use account_manager.Services.Export.{
  of_provider, page_limit, after_mailboxes, with_mailboxes, export_pages, export_mailboxes,
}
use account_manager.Services.ExportValues.{Exporter}

-- The mailboxes in the order of ListMailboxes.
abbrev pub all_mailboxes : Store → List Mailbox
all_mailboxes s = sort_by newer (values s.mailboxes)

keep_if-append :
    {A : Type 0} (p : A → Bool) (xs ys : List A)
    → keep_if p (xs ++ ys) ≡ keep_if p xs ++ keep_if p ys
keep_if-append p [] ys = refl
keep_if-append p (x ∷ xs) ys = elim (Bool-cases (p x)) [
  | inl e ↦ rw e (ap (λ r. x ∷ r) (keep_if-append p xs ys))
  | inr e ↦ rw e (keep_if-append p xs ys)
]

page_of_mailboxes :
    (offset : ℕ) (s : Store)
    → list_mailboxes none (record { limit = pos page_limit; offset = pos offset }) s
      ≡ ok (take page_limit (drop offset (all_mailboxes s)))
unfolding list_mailboxes paginate normalize normalize_limit normalize_offset
page_of_mailboxes offset s =
    ap ok (page_of_lem (all_mailboxes s) (record { limit = page_limit; offset = offset }))

module _ (x : Exporter) (provider : Option ProviderKey) (s : Store) where
  abbrev kept : ℕ → List Mailbox
  kept offset = keep_if (of_provider provider) (take offset (all_mailboxes s))

  kept-next :
      (offset : ℕ)
      → kept offset
          ++ keep_if (of_provider provider) (take page_limit (drop offset (all_mailboxes s)))
        ≡ kept (offset + page_limit)
  kept-next offset =
      sym (
        keep_if-append (of_provider provider) (take offset (all_mailboxes s))
          (take page_limit (drop offset (all_mailboxes s))))
      ∙ ap (keep_if (of_provider provider)) (take-take offset page_limit (all_mailboxes s))

  export_pages-all :
      (fuel : ℕ) (ctx : ℕ → Ctx) (n offset : ℕ)
      → ((k : ℕ) → ctx k ≡ none)
      → length (all_mailboxes s) < offset + page_limit * fuel
      → offset ≤ length (all_mailboxes s)
      → export_pages x fuel ctx n offset provider (kept offset) s
        ≡ some (ok (keep_if (of_provider provider) (all_mailboxes s)))
  unfolding export_pages after_mailboxes with_mailboxes
  export_pages-all zero ctx n offset live h k = absurd (omega arith)
  export_pages-all (suc fuel) ctx n offset live h k =
      rw (live n, page_of_mailboxes offset s, kept-next offset)
        (elim (Bool-cases
          (ltb (length (take page_limit (drop offset (all_mailboxes s)))) page_limit)) [
            | inl last ↦ rw last (
                ap (λ ms. some (ok (keep_if (of_provider provider) ms)))
                  (take_all (offset + page_limit) (all_mailboxes s)
                    (short page_limit offset (all_mailboxes s) (ltb→lt _ _ last))))
            | inr more ↦ rw more (
                export_pages-all fuel ctx (suc n) (offset + page_limit) live (omega arith)
                  (long page_limit offset (all_mailboxes s) k more))
          ])

  -- An export of no given ids takes exactly the mailboxes of the format's provider, or all of them
  -- where it has none, in the order of the list, also where they are more than the 500 of a page, when
  -- the context is never cancelled; fuel for one page more than the mailboxes fill is enough.
  pub export_mailboxes-all :
      (fuel : ℕ) (ctx : ℕ → Ctx)
      → ((k : ℕ) → ctx k ≡ none)
      → length (all_mailboxes s) < page_limit * fuel
      → export_mailboxes x fuel ctx [] provider s
        ≡ some (ok (keep_if (of_provider provider) (all_mailboxes s)))
  unfolding export_mailboxes
  export_mailboxes-all fuel ctx live h =
      export_pages-all fuel ctx 0 0 live (omega arith) (omega arith)
