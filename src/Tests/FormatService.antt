-- ===== src/Tests/FormatService.antt =====
-- The format service at concrete formats.
use account_manager.Prelude.{
  ok, Ctx, not, is_empty, ℕ, some, none, true, false, [], ◌∷◌, codes, All, arith, ◌≡◌, refl, pos,
  text_eq, Text, is_blank, trim_space, drop_space, is_space, starts_with, has, insert, values,
}
use account_manager.Domain.{MailboxFormat, MailboxFormatField}
use account_manager.Domain.MailboxFormatKind.{delimited}
use account_manager.Domain.MailboxFormatDirection.{both}
use account_manager.Memory.{Store, new}
use account_manager.Backup.Failure.{byte_len, utf8_len}
use account_manager.Services.Formats.{
  canonical_format_target, valid_format_target, sensitive_format_target, is_among,
}
use account_manager.Services.FormatBuild.{
  SaveMailboxFormatInput, Builder, build, check_name, kind_of, direction_of, check_delimiter,
  has_break, check_template, check_count, check_fields, kept_field, refuses, check_import,
  given_provider, check_provider, check_compiles, normalized_json,
}
use account_manager.Services.FormatBuild.Valid.{IsValidFormat, build-IsValidFormat}
use account_manager.Services.FormatBuild.Fields.{targets_field}
use account_manager.Services.FormatService.{
  create_format, update_format, ensure_builtins, builtin_formats,
}
use account_manager.Services.FormatService.Stored.{AreValid, formats-AreValid}

abbrev builder : Builder
builder = record {
  lower = λ s. s;
  valid = λ bytes. false;
  provider_from_address = λ bytes. not (is_empty bytes);
  registered = λ key. ok tt;
  compiles = λ f. ok tt;
}

abbrev column : Text → Text → MailboxFormatField
column name target = record {
  column = name;
  target = target;
  required = false;
  sensitive = false;
  default = [];
}

-- The host goes by another name, and the password is not marked.
abbrev input : SaveMailboxFormatInput
input = record {
  name = codes " imap ";
  kind = [];
  direction = [];
  delimiter = codes "|";
  fields =
      column (codes "mail") (codes "address")
      ∷ column (codes "server") (codes " host")
      ∷ column (codes "secret") (codes "password")
      ∷ [];
  provider = some (codes "gmail");
  has_header = false;
  template = [];
  parser_config = [];
  enabled = none;
  version = pos 0;
}

abbrev made : MailboxFormat
made = record {
  id = [];
  name = codes "imap";
  kind = delimited;
  direction = both;
  delimiter = codes "|";
  fields =
      column (codes "mail") (codes "address")
      ∷ column (codes "server") (codes "imap_host")
      ∷ record (column (codes "secret") (codes "password")) { sensitive = true }
      ∷ [];
  provider = some (codes "gmail");
  has_header = false;
  template = [];
  parser_config = codes "{}";
  builtin = false;
  enabled = true;
  version = pos 0;
  created_at = 0;
  updated_at = 0;
}

build-input : build builder input ≡ ok made
unfolding build check_name is_blank trim_space drop_space is_space kind_of direction_of text_eq
    check_delimiter has_break byte_len utf8_len check_template check_count check_fields kept_field
    refuses canonical_format_target valid_format_target sensitive_format_target is_among has insert
    starts_with check_import given_provider check_provider check_compiles normalized_json
build-input = refl

build-IsValidFormat_example : IsValidFormat builder made
build-IsValidFormat_example = build-IsValidFormat builder input made build-input

builtins-AreValid : All (IsValidFormat builder) (builtin_formats 9)
unfolding canonical_format_target valid_format_target sensitive_format_target is_among text_eq
    trim_space drop_space is_space starts_with has_break byte_len utf8_len targets_field
builtins-AreValid = (
  record {
    named = refl;
    filled = omega arith;
    bounded = omega arith;
    separated = (refl, refl, omega arith);
    described = tt;
    allowed = (
      record { named = refl; known = refl; marked = refl },
      (record { named = refl; known = refl; marked = refl }, tt),
    );
    apart = (((refl, refl), tt), (tt, tt));
    importable = (refl, refl);
  },
  (
    record {
      named = refl;
      filled = omega arith;
      bounded = omega arith;
      separated = (refl, refl, omega arith);
      described = tt;
      allowed = (
        record { named = refl; known = refl; marked = refl },
        (
          record { named = refl; known = refl; marked = refl },
          (
            record { named = refl; known = refl; marked = refl },
            (record { named = refl; known = refl; marked = refl }, tt),
          ),
        ),
      );
      apart = (
        ((refl, refl), ((refl, refl), ((refl, refl), tt))),
        (((refl, refl), ((refl, refl), tt)), (((refl, refl), tt), (tt, tt))),
      );
      importable = refl;
    },
    tt,
  ),
)

abbrev live_always : ℕ → Ctx
live_always n = none

new-AreValid : AreValid builder (new 0)
unfolding new values
new-AreValid = tt

-- The store after a creation.
abbrev stocked : Store
stocked = (create_format builder none input (ok (codes "format_1")) 9 (new 0)).1

stocked-AreValid : AreValid builder stocked
stocked-AreValid =
    (formats-AreValid builder live_always input (ok (codes "format_1")) [] 9 (new 0)
      builtins-AreValid new-AreValid).0

formats-AreValid_example :
    AreValid builder (create_format builder none input (ok (codes "format_2")) 9 stocked).1
    × AreValid builder (update_format builder live_always (codes "format_1") input 9 stocked).1
    × AreValid builder (ensure_builtins live_always 9 stocked).1
formats-AreValid_example =
    formats-AreValid builder live_always input (ok (codes "format_2")) (codes "format_1") 9 stocked
      builtins-AreValid stocked-AreValid
