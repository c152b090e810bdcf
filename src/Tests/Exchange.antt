-- ===== src/Tests/Exchange.antt =====
-- Tests of the delimited files, of the preview and of the export.
use account_manager.Prelude.{
  ok, none, some, true, false, codes, [], ◌∷◌, List, Text, text_eq, lookup, insert, has, ◌≡◌, refl,
  ℕ, ◌+◌, ◌<◌, ◌*◌, arith, inl, inr, All, Map, contains, starts_with, is_blank, trim_space,
  drop_space, is_space, keep_if, Ctx, length, values, sort_by, place, any_value, pos,
}
use account_manager.Domain.{MailboxFormat, MailboxImportResult}
use account_manager.Domain.ConflictStrategy.{skip, update}
use account_manager.Memory.{Store, new, setting_at, join_key}
use account_manager.Memory.Mailboxes.{create_mailbox, get_mailbox, get_mailbox_by_identity}
use account_manager.Memory.Credentials.{list_credentials}
use account_manager.Memory.Accounts.{list_platform_accounts_by_mailbox}
use account_manager.Ports.{paginate}
use account_manager.Memory.Formats.{create_mailbox_format, get_mailbox_format}
use account_manager.Memory.Consistency.{new-IsConsistent}
use account_manager.Memory.PickupKeys.{hex}
use account_manager.Memory.Import.{
  stage, commit, same_owner, import_mailboxes, import_items, import_item, import_over, create_new,
  update_existing, update_credential, finish_item, apply_imported_platform,
  apply_imported_pickup_key, add_pickup_key, create_credential, initial_progress, no_result,
  conclude,
}
use account_manager.Services.Formats.{
  canonical_format_target, sensitive_format_target, format_has_sensitive_fields, is_among,
}
use account_manager.Services.Delimited.{
  parse_delimited_line, encode_delimited_line, encode_field, double_quotes, has_special, join,
}
use account_manager.Services.Delimited.Encoding.{
  IsEncodable, parse-encode_delimited_line, parse-encode_ambiguous,
}
use account_manager.Services.DelimitedInput.{parse_delimited_input, render_delimited, value_of}
use account_manager.Services.DelimitedInput.RoundTrip.{
  IsPlainFormat, IsPlainRecord, rows_of, parse-render_delimited,
}
use account_manager.Services.ImportPreview.{
  ParsedImportRow, ImportPreview, preview, preview_rows, preview_row, existence, count_valid,
  count_invalid, PreviewAction,
}
use account_manager.Services.ImportPreview.Agreement.{preview-import}
use account_manager.Services.Export.{
  MailboxExportRequest, Exported, export, of_provider, export_mailboxes, export_admitted,
  admit_export, exported, export_ids, export_records,
}
use account_manager.Services.ExportValues.{
  Exporter, export_values, base_values, pickup_values, credential_values, metadata_values,
  platform_values,
}
use account_manager.Services.ExportValues.Public.{IsPublic}
use account_manager.Services.Export.Secrets.{export-IsPublic}
use account_manager.Services.Export.Pages.{all_mailboxes, export_mailboxes-all}
use account_manager.Tests.Data.{box, format, item}

abbrev dashes : Text
dashes = codes "----"

abbrev first : Text
first = codes "a\"b"

abbrev others : List Text
others = codes "c----d" ∷ codes "e" ∷ []

values-IsEncodable : All (IsEncodable dashes) (first ∷ others)
unfolding has_special contains starts_with
values-IsEncodable = (inl refl, (inl refl, (inr (refl, tt), tt)))

parse-encode_delimited_line_example :
    parse_delimited_line (encode_delimited_line (first ∷ others) dashes) dashes
    ≡ record { fields = first ∷ others; unclosed = false; no_delimiter = false }
parse-encode_delimited_line_example =
    parse-encode_delimited_line dashes first others refl (refl, (refl, (refl, (refl, tt))))
      values-IsEncodable

no_special : has_special (codes "-") ≡ false
unfolding has_special
no_special = refl

parse-encode_ambiguous_example :
    (rest : List Text) × ((parse_delimited_line
        (encode_delimited_line (codes "-" ∷ codes "x" ∷ []) dashes)
        dashes).fields
      ≡ [] ∷ rest)
parse-encode_ambiguous_example =
    parse-encode_ambiguous b'-' (codes "---") (codes "x") [] no_special refl
      (refl, (refl, (refl, tt)))

-- Two columns behind commas.
abbrev plain_format : MailboxFormat
plain_format = record format {
  has_header = false;
  fields =
      record {
        column = codes "email";
        target = codes "address";
        required = true;
        sensitive = false;
        default = [];
      }
      ∷ record {
        column = codes "name";
        target = codes "display_name";
        required = false;
        sensitive = false;
        default = codes "?";
      }
      ∷ [];
}

abbrev one_record : Map Text
one_record = (codes "address", codes "a@x") ∷ (codes "display_name", codes "b, c") ∷ []

abbrev same : Text → Text
same s = s

plain_format-IsPlainFormat : IsPlainFormat same plain_format
plain_format-IsPlainFormat = record {
  headless = refl;
  given = refl;
  unquoted = (refl, tt);
  on_line = ((refl, refl), tt);
  inhabited = omega arith;
}

one_record-IsPlainRecord : IsPlainRecord same plain_format one_record
unfolding value_of canonical_format_target lookup text_eq trim_space drop_space is_space is_blank
    has_special contains starts_with encode_delimited_line encode_field double_quotes join
one_record-IsPlainRecord = record {
  cells = ((refl, refl), ((refl, refl), tt));
  breakless = (
    ((refl, refl), ((refl, refl), ((refl, refl), tt))),
    (((refl, refl), ((refl, refl), ((refl, refl), ((refl, refl), tt)))), tt),
  );
  encodable = (inr (refl, (refl, (refl, tt))), (inl refl, tt));
  visible = refl;
}

unmarked :
    starts_with (0xFEFF ∷ []) (render_delimited same plain_format (one_record ∷ one_record ∷ []))
    ≡ false
unfolding value_of canonical_format_target lookup text_eq trim_space drop_space is_space has_special
    contains starts_with encode_delimited_line encode_field double_quotes join render_delimited
unmarked = refl

parse-render_delimited_example :
    parse_delimited_input same plain_format
      (render_delimited same plain_format (one_record ∷ one_record ∷ []))
    ≡ ok (rows_of same plain_format 1 (one_record ∷ one_record ∷ []))
parse-render_delimited_example =
    parse-render_delimited same plain_format (one_record ∷ one_record ∷ [])
      plain_format-IsPlainFormat (one_record-IsPlainRecord, (one_record-IsPlainRecord, tt)) unmarked

abbrev row : ParsedImportRow
row = record { line = 1; mailbox = box; errors = [] }

abbrev always : ℕ → Ctx
always n = none

abbrev previewed : ImportPreview
previewed = record {
  rows =
      record {
        line = 1;
        errors = [];
        exists = false;
        duplicate = false;
        action = PreviewAction.will_create;
      }
      ∷ record {
        line = 1;
        errors = [];
        exists = false;
        duplicate = true;
        action = PreviewAction.will_skip;
      }
      ∷ [];
  total_rows = 2;
  valid_rows = 2;
  invalid_rows = 0;
  new_rows = 1;
  conflict_rows = 1;
}

preview_twice : preview always skip (row ∷ row ∷ []) (new 0) ≡ ok previewed
unfolding preview preview_rows preview_row existence count_valid count_invalid
    get_mailbox_by_identity new setting_at has lookup insert text_eq join_key
preview_twice = refl

abbrev imported : MailboxImportResult
imported = record {
  created = 1;
  updated = 1;
  skipped = 0;
  mailbox_ids = codes "m1" ∷ codes "m1" ∷ [];
}

import_twice : (import_mailboxes always (item ∷ item ∷ []) update (new 0)).0 ≡ ok imported
unfolding new setting_at has lookup text_eq insert join_key hex stage commit same_owner
    add_pickup_key apply_imported_pickup_key apply_imported_platform update_credential
    create_credential finish_item update_existing create_new import_over import_item import_items
    initial_progress no_result conclude import_mailboxes
import_twice = refl

preview-import_example :
    (imported.created ≡ previewed.new_rows)
    × (imported.updated + imported.skipped ≡ previewed.conflict_rows)
preview-import_example =
    preview-import (new 0) skip update always (row ∷ row ∷ []) (item ∷ item ∷ []) previewed imported
      (new-IsConsistent 0) preview_twice refl import_twice

abbrev exporter : Exporter
exporter = record {
  lower = same;
  unseal = λ ctx bytes version. ok bytes;
  decode_credential = λ bytes. none;
  decode_platform = λ bytes. none;
  decode_object = λ bytes. none;
  reveal = none;
  format_time = λ t. [];
  format_int = λ n. [];
  format_bool = λ b. [];
}

-- A store with a mailbox and a format of two open columns.
abbrev stocked : Store
stocked = (create_mailbox_format none plain_format (create_mailbox none box (new 0)).1).1

abbrev request : MailboxExportRequest
request = record {
  format_id = codes " f1";
  mailbox_ids = codes "m1" ∷ [];
  include_sensitive = true;
}

abbrev values_of_box : Map Text
values_of_box =
    (codes "address", codes "A@x.org")
    ∷ (codes "display_name", [])
    ∷ (codes "external_reference", [])
    ∷ (codes "provider", codes "gmail")
    ∷ (codes "status", codes "active")
    ∷ []

abbrev sent : Exported
sent = record {
  format = record plain_format { version = pos 1 };
  records = values_of_box ∷ [];
  sensitive_included = false;
}

export_once : export exporter 1 always request false stocked ≡ some (ok sent)
unfolding new setting_at has lookup text_eq insert join_key any_value create_mailbox
    create_mailbox_format get_mailbox_format export export_admitted admit_export exported
    export_mailboxes export_ids export_records export_values base_values pickup_values
    credential_values metadata_values platform_values format_has_sensitive_fields
    canonical_format_target sensitive_format_target is_among trim_space drop_space is_space
    get_mailbox list_credentials list_platform_accounts_by_mailbox values sort_by paginate
export_once = refl

export-IsPublic_example :
    All IsPublic sent.records
    × (sent.sensitive_included ≡ false)
    × (format_has_sensitive_fields same sent.format.fields ≡ false)
export-IsPublic_example =
    export-IsPublic exporter 1 always request false stocked sent refl export_once

stocked_size : length (all_mailboxes stocked) < 500 * 1
unfolding new setting_at has lookup text_eq insert join_key any_value create_mailbox
    create_mailbox_format values sort_by place
stocked_size = omega arith

export_mailboxes-all_example :
    export_mailboxes exporter 1 always [] (some (codes "gmail")) stocked
    ≡ some (ok (keep_if (of_provider (some (codes "gmail"))) (all_mailboxes stocked)))
export_mailboxes-all_example =
    export_mailboxes-all exporter (some (codes "gmail")) stocked 1 always (λ k. refl) stocked_size
