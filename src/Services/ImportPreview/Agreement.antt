-- ===== src/Services/ImportPreview/Agreement.antt =====
-- The preview of a batch and its import agree on how many mailboxes are new.
use mathlib.Core.Path.{fun_ext}
use account_manager.Prelude.{
  ok, >>=-eq-ok, ok-injective, Ctx, ℕ, suc, ◌+◌, Bool, true, false, ◌||◌, none, List, [], ◌∷◌,
  length, map, keep_if, Text, has, has-lookup, has-insert, lookup, insert, ◌≡◌, refl, sym, ap, ◌∙◌,
  arith, inl, inr, Bool-cases, Option-cases,
}
use account_manager.Domain.{Mailbox, MailboxImportItem, MailboxImportResult, ConflictStrategy}
use account_manager.Memory.{Store}
use account_manager.Memory.Mailboxes.{get_mailbox_by_identity}
use account_manager.Memory.Consistency.{IsConsistent, mailbox_key}
use account_manager.Memory.Import.{initial_progress, no_result, stage, import_mailboxes}
use account_manager.Memory.Import.Accounting.{import_mailboxes-eq-ok, import_mailboxes-accounts}
use account_manager.Services.ImportPreview.{
  ParsedImportRow, ImportPreview, Seen, is_valid, row_identity, existence, count_valid,
  count_invalid, preview_row, preview_rows, preview, empty_preview,
}
use account_manager.Services.ImportPreview.Counts.{preview-IsCounted}
use account_manager.Services.ImportPreview.Imported.{
  new_of, IsTaken, new_of-next, identities_of, mailbox_of, import_items-new,
}

or_false : (b : Bool) → b || false ≡ b
or_false true = refl
or_false false = refl

length-map {ℓ κ} :
    {A : Type ℓ} {B : Type κ} (f : A → B) (xs : List A) → length (map f xs) ≡ length xs
length-map f [] = refl
length-map f (x ∷ xs) = ap suc (length-map f xs)

module _ (s : Store) where
  -- What the preview takes for known.
  abbrev seen_or_stored : Seen → Text → Bool
  seen_or_stored seen j = has j s.mailbox_by_identity || has j seen

  existence-stored :
      (row : ParsedImportRow)
      → existence
          (get_mailbox_by_identity none row.mailbox.provider row.mailbox.normalized_address s)
        ≡ ok (has (row_identity row) s.mailbox_by_identity)
  unfolding existence get_mailbox_by_identity
  existence-stored row =
      rw (has-lookup (row_identity row) s.mailbox_by_identity)
        (elim (Option-cases (lookup (row_identity row) s.mailbox_by_identity)) [
          | inl missing ↦ rw missing refl
          | inr (id, stored) ↦ rw stored refl
        ])

  count_valid-IsTaken :
      (strategy : ConflictStrategy) (row : ParsedImportRow) (seen : Seen) (p : ImportPreview)
      → IsTaken
          (row_identity row)
          (seen_or_stored seen)
          p.new_rows
          (seen_or_stored (insert (row_identity row) tt seen))
          (count_valid strategy row
            (has (row_identity row) s.mailbox_by_identity)
            (has (row_identity row) seen)
            p).new_rows
  unfolding count_valid
  count_valid-IsTaken strategy row seen p =
      (refl, λ j. ground (arith, has-insert (row_identity row) j tt seen))

  preview_rows-new :
      (i : ℕ) (strategy : ConflictStrategy) (rows : List ParsedImportRow)
      (state last : Seen × ImportPreview)
      → preview_rows (λ _. none) i strategy rows s state ≡ ok last
      → (last.1.new_rows
          ≡ state.1.new_rows
            + new_of (seen_or_stored state.0) (map row_identity (keep_if is_valid rows)))
        × (last.1.valid_rows ≡ state.1.valid_rows + length (keep_if is_valid rows))
  unfolding preview_rows preview_row
  preview_rows-new i strategy [] state last done =
      let same = sym (ok-injective done) in
      (
        unfold new_of in (ap (λ x. x.1.new_rows) same ∙ omega arith),
        ap (λ x. x.1.valid_rows) same ∙ omega arith,
      )
  preview_rows-new i strategy (row ∷ rows) (seen, p) last done =
      let k = row_identity row in
      elim (Bool-cases (is_valid row)) [
        | inr bad ↦ rw bad (
            unfold count_invalid in
            preview_rows-new (suc i) strategy rows (seen, count_invalid row p) last
              (rw bad at done))
        | inl good ↦
            let (new_rest, valid_rest) =
              preview_rows-new (suc i) strategy rows
                (
                  insert k tt seen,
                  count_valid strategy row (has k s.mailbox_by_identity) (has k seen) p,
                )
                last (rw (good, existence-stored row) at done) in
            rw good (
              new_of-next k (map row_identity (keep_if is_valid rows)) (seen_or_stored seen)
                  (seen_or_stored (insert k tt seen)) p.new_rows _ last.1.new_rows
                  (count_valid-IsTaken strategy row seen p) new_rest,
              (unfold count_valid in omega (arith, valid_rest)),
            )
      ]

  abbrev mailbox_at : ParsedImportRow → Mailbox
  mailbox_at row = row.mailbox

  identities_at :
      (rows : List ParsedImportRow) → map row_identity rows ≡ map mailbox_key (map mailbox_at rows)
  identities_at [] = refl
  identities_at (row ∷ rows) = ap (λ r. row_identity row ∷ r) (identities_at rows)

  known_at_first : seen_or_stored [] ≡ identities_of (initial_progress s)
  unfolding has initial_progress stage
  known_at_first = fun_ext (λ j. or_false (has j s.mailbox_by_identity))

  -- The preview of a batch agrees with its import: when both succeed on one consistent store and the
  -- items hold the mailboxes of the valid rows, in their order, then the import creates exactly as many
  -- mailboxes as the preview showed as new, and updates or skips exactly as many as it showed as
  -- conflicts, whatever the strategies.
  pub preview-import :
      (strategy strategy' : ConflictStrategy) (ctx : ℕ → Ctx) (rows : List ParsedImportRow)
      (items : List MailboxImportItem) (p : ImportPreview) (r : MailboxImportResult)
      → IsConsistent s
      → preview (λ _. none) strategy rows s ≡ ok p
      → map mailbox_of items ≡ map mailbox_at (keep_if is_valid rows)
      → (import_mailboxes ctx items strategy' s).0 ≡ ok r
      → (r.created ≡ p.new_rows) × (r.updated + r.skipped ≡ p.conflict_rows)
  unfolding preview
  preview-import strategy strategy' ctx rows items p r c previewed same imported =
      let (last, looped, rest) =
        >>=-eq-ok (preview_rows (λ _. none) 0 strategy rows s ([], empty_preview (length rows))) _
          previewed in
      let shown = ok-injective rest in
      let (new_rows, valid_rows) =
        preview_rows-new 0 strategy rows ([], empty_preview (length rows)) last looped in
      let (q, _, done, result, _) = import_mailboxes-eq-ok ctx items strategy' s r imported in
      let created = import_items-new ctx 1 strategy' items (initial_progress s) q done in
      let keys = ap (map mailbox_key) same ∙ sym (identities_at (keep_if is_valid rows)) in
      let sizes = ap length same in
      let counted = preview-IsCounted (λ _. none) strategy rows s p previewed in
      let new_rows' = sym (ap (λ x. x.new_rows) shown) ∙ new_rows in
      let created' =
        sym (ap (λ x. x.created) result)
        ∙ created
        ∙ ap
            (λ ks.
              (initial_progress s).result.created + new_of (identities_of (initial_progress s)) ks)
            keys
        ∙ ap
            (λ f.
              (initial_progress s).result.created
              + new_of f (map row_identity (keep_if is_valid rows)))
            (sym known_at_first) in
      let nothing : ((initial_progress s).result.created ≡ 0) =
        unfold initial_progress no_result in refl in
      let (totals, _, _) = import_mailboxes-accounts ctx items strategy' s r c imported in
      (
        omega (arith, new_rows', created', nothing),
        omega (
          arith,
          new_rows',
          created',
          nothing,
          totals,
          sizes,
          length-map mailbox_of items,
          length-map mailbox_at (keep_if is_valid rows),
          valid_rows,
          ap (λ x. x.valid_rows) shown,
          counted.split_valid,
        ),
      )
