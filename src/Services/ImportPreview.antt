-- ===== src/Services/ImportPreview.antt =====
-- backend/internal/service/importexport.go: Preview and Import once the rows are parsed, over the
-- memory store.
pub mod Counts
pub mod Agreement
pub mod Imported
use account_manager.Prelude.{
  ok, err, Result, ◌>>=◌, Ctx, Error, is_not_found, ℕ, suc, ◌+◌, Bool, true, false, ◌||◌, not,
  Option, none, some, List, [], ◌∷◌, ◌++◌, length, Text, Map, has, insert, if◌then◌else◌,
}
use account_manager.Domain.{Mailbox, MailboxImportItem, MailboxImportResult, ConflictStrategy}
use account_manager.Domain.ConflictStrategy.{skip, update, fail, other}
use account_manager.Memory.{Store, mailbox_identity}
use account_manager.Memory.Mailboxes.{get_mailbox_by_identity, count_mailboxes}
use account_manager.Memory.Aliases.{count_aliases}
use account_manager.Memory.Import.{import_mailboxes}
use account_manager.Services.DelimitedInput.{RowProblem}

-- The part of parsedImportRow that Preview reads.
pub record ParsedImportRow : Type 0 where
  pub line : ℕ
  pub mailbox : Mailbox
  pub errors : List RowProblem

pub data PreviewAction : Type 0 where
  will_create will_update will_reject will_skip not_valid : PreviewAction

pub record ImportPreviewRow : Type 0 where
  pub line : ℕ
  pub errors : List RowProblem
  pub exists : Bool
  pub duplicate : Bool
  pub action : PreviewAction

pub record ImportPreview : Type 0 where
  pub rows : List ImportPreviewRow
  pub total_rows : ℕ
  pub valid_rows : ℕ
  pub invalid_rows : ℕ
  pub new_rows : ℕ
  pub conflict_rows : ℕ

pub record ImportRowError : Type 0 where
  pub line : ℕ
  pub errors : List RowProblem

abbrev pub row_identity : ParsedImportRow → Text
row_identity row = mailbox_identity row.mailbox.provider row.mailbox.normalized_address

abbrev pub no_errors : List RowProblem → Bool
no_errors [] = true
no_errors (e ∷ es) = false

-- `len(row.preview.Errors) == 0`
abbrev pub is_valid : ParsedImportRow → Bool
is_valid row = no_errors row.errors

-- the switch over the strategy of the request
abbrev pub conflict_action : ConflictStrategy → PreviewAction
conflict_action update = will_update
conflict_action fail = will_reject
conflict_action skip = will_skip
conflict_action (other name) = will_skip

-- `lookupErr == nil`, and what is returned for an error other than a miss
unfoldable pub existence : Result (Option Mailbox) → Result Bool
existence (ok m) = ok true
existence (err e) = if is_not_found e then ok false else err e

unfoldable pub count_valid :
    ConflictStrategy → ParsedImportRow → Bool → Bool → ImportPreview → ImportPreview
count_valid strategy row exists duplicate p =
    let conflicts = exists || duplicate in
    record p {
      rows =
          p.rows
          ++ (record {
            line = row.line;
            errors = row.errors;
            exists = exists;
            duplicate = duplicate;
            action = if conflicts then conflict_action strategy else will_create;
          }
              ∷ []);
      valid_rows = p.valid_rows + 1;
      new_rows = if conflicts then p.new_rows else p.new_rows + 1;
      conflict_rows = if conflicts then p.conflict_rows + 1 else p.conflict_rows;
    }

unfoldable pub count_invalid : ParsedImportRow → ImportPreview → ImportPreview
count_invalid row p = record p {
  rows =
      p.rows
      ++ (record {
        line = row.line;
        errors = row.errors;
        exists = false;
        duplicate = false;
        action = not_valid;
      }
          ∷ []);
  invalid_rows = p.invalid_rows + 1;
}

-- The set `seen` beside the preview.
abbrev pub Seen : Type 0
Seen = Map (Unit {0})

-- one round of the loop
unfoldable pub preview_row :
    Ctx
    → ConflictStrategy
    → ParsedImportRow
    → Store
    → Seen × ImportPreview
    → Result (Seen × ImportPreview)
unfolding existence count_valid count_invalid
preview_row ctx strategy row s (seen, p) =
    if not (is_valid row) then ok (seen, count_invalid row p) else do
      exists ←
          existence
            (get_mailbox_by_identity ctx row.mailbox.provider row.mailbox.normalized_address s)
      ok (
        insert (row_identity row) tt seen,
        count_valid strategy row exists (has (row_identity row) seen) p,
      )

unfoldable pub preview_rows :
    (ℕ → Ctx)
    → ℕ
    → ConflictStrategy
    → List ParsedImportRow
    → Store
    → Seen × ImportPreview
    → Result (Seen × ImportPreview)
preview_rows ctx n strategy [] s state = ok state
preview_rows ctx n strategy (row ∷ rows) s state =
    preview_row (ctx n) strategy row s state >>= preview_rows ctx (suc n) strategy rows s

abbrev pub empty_preview : ℕ → ImportPreview
empty_preview total = record {
  rows = [];
  total_rows = total;
  valid_rows = 0;
  invalid_rows = 0;
  new_rows = 0;
  conflict_rows = 0;
}

-- ImportExportService.Preview below parseImport
unfoldable pub preview :
    (ℕ → Ctx) → ConflictStrategy → List ParsedImportRow → Store → Result ImportPreview
unfolding preview_rows preview_row
preview ctx strategy rows s = do
  state ← preview_rows ctx 0 strategy rows s ([], empty_preview (length rows))
  ok state.1

-- normalizeConflictStrategy
unfoldable pub normalize_conflict_strategy : ConflictStrategy → ConflictStrategy
normalize_conflict_strategy (other name) = skip
normalize_conflict_strategy strategy = strategy
