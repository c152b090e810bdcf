-- ===== src/Services/ImportPreview/Counts.antt =====
-- The counters of a preview.
use account_manager.Prelude.{
  ok, >>=-eq-ok, ok-injective, Ctx, ℕ, suc, ◌+◌, Bool, List, [], ◌∷◌, length, length-append, has,
  ◌≡◌, refl, subst, arith, inl, inr, Bool-cases,
}
use account_manager.Domain.{ConflictStrategy}
use account_manager.Memory.{Store}
use account_manager.Memory.Mailboxes.{get_mailbox_by_identity}
use account_manager.Services.ImportPreview.{
  ParsedImportRow, ImportPreview, Seen, is_valid, row_identity, existence, count_valid,
  count_invalid, preview_row, preview_rows, preview, empty_preview,
}

-- The counters after `n` rows.
pub record IsCounted (total n : ℕ) (p : ImportPreview) : Type 0 where
  pub total_rows : p.total_rows ≡ total
  pub shown : length p.rows ≡ n
  pub split_rows : p.valid_rows + p.invalid_rows ≡ n
  pub split_valid : p.new_rows + p.conflict_rows ≡ p.valid_rows

count_valid-IsCounted :
    (strategy : ConflictStrategy) (row : ParsedImportRow) (exists duplicate : Bool) (total n : ℕ)
    (p : ImportPreview)
    → IsCounted total n p
    → IsCounted total (n + 1) (count_valid strategy row exists duplicate p)
unfolding count_valid
count_valid-IsCounted strategy row exists duplicate total n p h = record {
  total_rows = h.total_rows;
  shown = omega (arith, length-append {0} p.rows _, h.shown);
  split_rows = omega (arith, h.split_rows);
  split_valid = ground (arith, h.split_valid);
}

count_invalid-IsCounted :
    (row : ParsedImportRow) (total n : ℕ) (p : ImportPreview)
    → IsCounted total n p
    → IsCounted total (n + 1) (count_invalid row p)
unfolding count_invalid
count_invalid-IsCounted row total n p h = record {
  total_rows = h.total_rows;
  shown = omega (arith, length-append {0} p.rows _, h.shown);
  split_rows = omega (arith, h.split_rows);
  split_valid = h.split_valid;
}

preview_row-IsCounted :
    (ctx : Ctx) (strategy : ConflictStrategy) (row : ParsedImportRow) (s : Store)
    (state state' : Seen × ImportPreview) (total n : ℕ)
    → IsCounted total n state.1
    → preview_row ctx strategy row s state ≡ ok state'
    → IsCounted total (n + 1) state'.1
unfolding preview_row
preview_row-IsCounted ctx strategy row s (seen, p) state' total n h done =
    elim (Bool-cases (is_valid row)) [
      | inr bad ↦
          subst (λ x. IsCounted total (n + 1) x.1) (ok-injective (rw bad at done))
            (count_invalid-IsCounted row total n p h)
      | inl good ↦
          let (exists, known, rest) =
            >>=-eq-ok
              (existence
                (get_mailbox_by_identity ctx row.mailbox.provider row.mailbox.normalized_address s))
              _ (rw good at done) in
          subst (λ x. IsCounted total (n + 1) x.1) (ok-injective rest)
            (count_valid-IsCounted strategy row exists (has (row_identity row) seen) total n p h)
    ]

preview_rows-IsCounted :
    (ctx : ℕ → Ctx) (i : ℕ) (strategy : ConflictStrategy) (rows : List ParsedImportRow) (s : Store)
    (state state' : Seen × ImportPreview) (total n : ℕ)
    → IsCounted total n state.1
    → preview_rows ctx i strategy rows s state ≡ ok state'
    → IsCounted total (n + length rows) state'.1
unfolding preview_rows
preview_rows-IsCounted ctx i strategy [] s state state' total n h done =
    subst (λ x. IsCounted total (n + 0) x.1) (ok-injective done)
      (subst (λ k. IsCounted total k state.1) (omega arith) h)
preview_rows-IsCounted ctx i strategy (row ∷ rows) s state state' total n h done =
    let (next, stepped, rest) = >>=-eq-ok (preview_row (ctx i) strategy row s state) _ done in
    subst (λ k. IsCounted total k state'.1) (omega arith)
      (preview_rows-IsCounted ctx (suc i) strategy rows s next state' total (n + 1)
        (preview_row-IsCounted (ctx i) strategy row s state next total n h stepped) rest)

-- The counters of a preview that succeeds, whatever the store and the strategy: it shows every row and
-- counts it in the total, every row is valid or invalid, and every valid row is new or a conflict.
pub preview-IsCounted :
    (ctx : ℕ → Ctx) (strategy : ConflictStrategy) (rows : List ParsedImportRow) (s : Store)
    (p : ImportPreview)
    → preview ctx strategy rows s ≡ ok p
    → IsCounted (length rows) (length rows) p
unfolding preview
preview-IsCounted ctx strategy rows s p done =
    let (state, looped, rest) =
      >>=-eq-ok (preview_rows ctx 0 strategy rows s ([], empty_preview (length rows))) _ done in
    subst (IsCounted (length rows) (length rows)) (ok-injective rest) (
      subst (λ k. IsCounted (length rows) k state.1) (omega arith)
        (preview_rows-IsCounted ctx 0 strategy rows s ([], empty_preview (length rows)) state
          (length rows) 0
          (record { total_rows = refl; shown = refl; split_rows = refl; split_valid = refl })
          looped))
