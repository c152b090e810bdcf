-- ===== src/Services/FormatBuild.antt =====
-- FormatService.build of backend/internal/service/formats.go: how a saved format is checked and made.
-- strings.ToLower, encoding/json, the registry of providers and the compiler of templates are
-- parameters.
pub mod Valid
pub mod Fields
use account_manager.Prelude.{
  ok, err, Result, ◌>>=◌, invalid, ℕ, pos, ltb, ◌==◌, Bool, true, false, ◌||◌, ◌&&◌, not, Option,
  none, some, get_or, List, [], ◌∷◌, length, Text, text_eq, trim_space, is_blank, is_empty, codes,
  starts_with, Map, has, insert, ℤ, if◌then◌else◌,
}
use account_manager.Domain.{
  MailboxFormat, MailboxFormatField, MailboxFormatKind, MailboxFormatDirection, ProviderKey, Bytes,
}
use account_manager.Domain.MailboxFormatKind.{delimited, template, json}
use account_manager.Domain.MailboxFormatDirection.{inbound, outbound, both}
use account_manager.Backup.Failure.{byte_len}
use account_manager.Services.Formats.{
  canonical_format_target, valid_format_target, sensitive_format_target,
}
use account_manager.Services.DelimitedInput.{line_feed, carriage_return}

-- The kind and the direction are strings that the client sends.
pub record SaveMailboxFormatInput : Type 0 where
  pub name : Text
  pub kind : Text
  pub direction : Text
  pub delimiter : Text
  pub fields : List MailboxFormatField
  pub provider : Option ProviderKey
  pub has_header : Bool
  pub template : Text
  pub parser_config : Bytes
  pub enabled : Option Bool
  pub version : ℤ

-- strings.ToLower, json.Valid, the flag that json.Unmarshal reads from the parser's settings, the
-- registry's Get, and compileMailboxTemplate without its result.
pub record Builder : Type 0 where
  pub lower : Text → Text
  pub valid : Bytes → Bool
  pub provider_from_address : Bytes → Bool
  pub registered : ProviderKey → Result (Unit {0})
  pub compiles : MailboxFormat → Result (Unit {0})

-- the kind, with its default
unfoldable pub kind_of : Text → Result MailboxFormatKind
kind_of given =
    if is_empty given || text_eq given (codes "delimited")
    then ok delimited
    else if text_eq given (codes "template")
    then ok template
    else if text_eq given (codes "json")
    then ok json
    else err invalid

-- the direction, with its default
unfoldable pub direction_of : Text → Result MailboxFormatDirection
direction_of given =
    if is_empty given || text_eq given (codes "both")
    then ok both
    else if text_eq given (codes "import")
    then ok inbound
    else if text_eq given (codes "export")
    then ok outbound
    else err invalid

-- `strings.ContainsAny(s, "\r\n")`
unfoldable pub has_break : Text → Bool
has_break [] = false
has_break (c ∷ s) = c == carriage_return || c == line_feed || has_break s

unfoldable pub check_name : Text → Result (Unit {0})
check_name name = if is_blank name then err invalid else ok tt

unfoldable pub check_delimiter : MailboxFormatKind → Text → Result (Unit {0})
unfolding has_break byte_len
check_delimiter delimited s =
    if is_empty s || has_break s || ltb 16 (byte_len s) then err invalid else ok tt
check_delimiter _ s = ok tt

unfoldable pub check_template : MailboxFormatKind → Text → Result (Unit {0})
check_template template s = if is_blank s then err invalid else ok tt
check_template _ s = ok tt

unfoldable pub check_count : ℕ → Result (Unit {0})
check_count n = if n == 0 || ltb 64 n then err invalid else ok tt

-- `input.Provider != nil && *input.Provider != ""`, with the key
unfoldable pub given_provider : Option ProviderKey → Option ProviderKey
given_provider none = none
given_provider (some key) = if is_empty key then none else some key

abbrev pub has_prefix_metadata : Text → Bool
has_prefix_metadata target = starts_with (codes "metadata.") target

-- What the loop over the fields leaves: the fields, and the set of their targets.
pub record Checked : Type 0 where
  pub fields : List MailboxFormatField
  pub targets : Map (Unit {0})

module _ (b : Builder) where
  -- the column and the target of a field, as they are kept
  unfoldable pub kept_field : MailboxFormatField → MailboxFormatField
  unfolding sensitive_format_target
  kept_field field =
      let target = canonical_format_target b.lower field.target in
      record field {
        column = trim_space field.column;
        target = target;
        sensitive = if sensitive_format_target b.lower target then true else field.sensitive;
      }

  -- the guards of the loop on a field that is trimmed
  unfoldable pub refuses : MailboxFormatField → Map (Unit {0}) → Map (Unit {0}) → Bool
  refuses field columns targets =
      is_empty field.column
      || not (valid_format_target b.lower field.target)
      || has (b.lower field.column) columns
      || (has field.target targets && not (has_prefix_metadata field.target))

  -- the loop over the fields
  unfoldable pub check_fields :
      List MailboxFormatField → Map (Unit {0}) → Map (Unit {0}) → Result Checked
  unfolding kept_field refuses
  check_fields [] columns targets = ok (record { fields = []; targets = targets })
  check_fields (given ∷ givens) columns targets =
      let field = kept_field given in
      let rest =
        check_fields givens (insert (b.lower field.column) tt columns)
          (insert field.target tt targets) in
      if refuses field columns targets then err invalid else do
        checked ← rest
        ok (record { fields = field ∷ checked.fields; targets = checked.targets })

  -- what an import asks of the targets
  unfoldable pub check_import :
      MailboxFormatDirection → Option ProviderKey → Bytes → Map (Unit {0}) → Result (Unit {0})
  check_import outbound provider config targets = ok tt
  check_import _ (some key) config targets =
      if not (has (codes "address") targets) then err invalid else ok tt
  check_import _ none config targets =
      if not (has (codes "address") targets)
      then err invalid
      else if not (b.provider_from_address config) && not (has (codes "provider") targets)
      then err invalid
      else ok tt

  unfoldable pub check_provider : Option ProviderKey → Result (Unit {0})
  check_provider none = ok tt
  check_provider (some key) = b.registered key

  -- a template is compiled unless the format only exports
  unfoldable pub check_compiles : MailboxFormatDirection → MailboxFormat → Result (Unit {0})
  check_compiles outbound f = ok tt
  check_compiles _ f = elim f.kind [ template ↦ b.compiles f | _ ↦ ok tt ]

  -- normalizedJSON
  unfoldable pub normalized_json : Bytes → Bytes
  normalized_json value = if is_empty value || not (b.valid value) then codes "{}" else value

  -- the format that build makes; the caller sets its id, version and times
  abbrev pub built_format :
      SaveMailboxFormatInput
      → MailboxFormatKind
      → MailboxFormatDirection
      → List MailboxFormatField
      → MailboxFormat
  built_format input kind direction fields = record {
    id = [];
    name = trim_space input.name;
    kind = kind;
    direction = direction;
    delimiter = input.delimiter;
    fields = fields;
    provider = given_provider input.provider;
    has_header = input.has_header;
    template = input.template;
    parser_config = normalized_json input.parser_config;
    builtin = false;
    enabled = get_or input.enabled true;
    version = pos 0;
    created_at = 0;
    updated_at = 0;
  }

  -- FormatService.build
  unfoldable pub build : SaveMailboxFormatInput → Result MailboxFormat
  unfolding check_fields check_import check_provider check_compiles normalized_json
  build input = do
    _ ← check_name input.name
    kind ← kind_of input.kind
    direction ← direction_of input.direction
    _ ← check_delimiter kind input.delimiter
    _ ← check_template kind input.template
    _ ← check_count (length input.fields)
    checked ← check_fields input.fields [] []
    _ ←
        check_import direction (given_provider input.provider) (normalized_json input.parser_config)
          checked.targets
    _ ← check_provider (given_provider input.provider)
    _ ← check_compiles direction (built_format input kind direction checked.fields)
    ok (built_format input kind direction checked.fields)
