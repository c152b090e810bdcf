-- ===== src/Services/FormatBuild/Valid.antt =====
-- What every format that build makes satisfies.
use account_manager.Prelude.{
  ok, >>=-eq-ok, ok-injective, ℕ, ◌≤◌, true, false, ◌||◌, Option, none, some, List, [], length,
  Text, is_empty, is_blank, trim_space, codes, Map, has, All, ◌≡◌, arith, subst,
}
use account_manager.Domain.{
  MailboxFormat, MailboxFormatField, MailboxFormatKind, MailboxFormatDirection, ProviderKey, Bytes,
}
use account_manager.Domain.MailboxFormatKind.{delimited, template, json}
use account_manager.Domain.MailboxFormatDirection.{inbound, outbound, both}
use account_manager.Backup.Failure.{byte_len}
use account_manager.Services.FormatBuild.{
  SaveMailboxFormatInput, Builder, Checked, has_break, check_fields, check_delimiter,
  check_template, check_count, check_import, build, check_name, kind_of, direction_of,
  check_provider, check_compiles, built_format,
}
use account_manager.Services.FormatBuild.Fields.{
  IsAllowed, AreApart, targets_field, check_fields-IsAllowed, check_fields-targets,
}

-- A delimiter of a delimited format.
abbrev pub HasDelimiter : MailboxFormatKind → Text → Type 0
HasDelimiter delimited s = (is_empty s ≡ false) × (has_break s ≡ false) × (byte_len s ≤ 16)
HasDelimiter _ s = Unit

-- A template of a template format.
abbrev pub HasTemplate : MailboxFormatKind → Text → Type 0
HasTemplate template s = is_blank s ≡ false
HasTemplate _ s = Unit

module _ (b : Builder) where
  -- A format that takes imports has the address among its targets, and a source of the provider.
  abbrev pub IsImportable :
      MailboxFormatDirection → Option ProviderKey → Bytes → List MailboxFormatField → Type 0
  IsImportable outbound provider config fields = Unit
  IsImportable _ (some key) config fields = targets_field (codes "address") fields ≡ true
  IsImportable _ none config fields =
      (targets_field (codes "address") fields ≡ true)
      × ((b.provider_from_address config || targets_field (codes "provider") fields) ≡ true)

  pub record IsValidFormat (f : MailboxFormat) : Type 0 where
    pub named : is_empty f.name ≡ false
    pub filled : 1 ≤ length f.fields
    pub bounded : length f.fields ≤ 64
    pub separated : HasDelimiter f.kind f.delimiter
    pub described : HasTemplate f.kind f.template
    pub allowed : All (IsAllowed b) f.fields
    pub apart : AreApart b f.fields
    pub importable : IsImportable f.direction f.provider f.parser_config f.fields

  check_delimiter-HasDelimiter :
      (kind : MailboxFormatKind) (s : Text) → check_delimiter kind s ≡ ok tt → HasDelimiter kind s
  unfolding check_delimiter
  check_delimiter-HasDelimiter delimited s h = (ground arith, ground arith, ground arith)
  check_delimiter-HasDelimiter template s h = tt
  check_delimiter-HasDelimiter json s h = tt

  check_template-HasTemplate :
      (kind : MailboxFormatKind) (s : Text) → check_template kind s ≡ ok tt → HasTemplate kind s
  unfolding check_template
  check_template-HasTemplate delimited s h = tt
  check_template-HasTemplate template s h = ground arith
  check_template-HasTemplate json s h = tt

  check_import-IsImportable :
      (direction : MailboxFormatDirection) (provider : Option ProviderKey) (config : Bytes)
      (fields : List MailboxFormatField) (targets : Map (Unit {0}))
      → ((target : Text) → has target targets ≡ targets_field target fields)
      → check_import b direction provider config targets ≡ ok tt
      → IsImportable direction provider config fields
  unfolding check_import
  check_import-IsImportable outbound provider config fields targets same h = tt
  check_import-IsImportable inbound (some key) config fields targets same h =
      ground (arith, same (codes "address"))
  check_import-IsImportable both (some key) config fields targets same h =
      ground (arith, same (codes "address"))
  check_import-IsImportable inbound none config fields targets same h = (
    ground (arith, same (codes "address")),
    ground (arith, same (codes "address"), same (codes "provider")),
  )
  check_import-IsImportable both none config fields targets same h = (
    ground (arith, same (codes "address")),
    ground (arith, same (codes "address"), same (codes "provider")),
  )

  check_count-le : (n : ℕ) → check_count n ≡ ok tt → (1 ≤ n) × (n ≤ 64)
  unfolding check_count
  check_count-le n h = (ground arith, ground arith)

  check_name-given : (name : Text) → check_name name ≡ ok tt → is_empty (trim_space name) ≡ false
  unfolding check_name is_blank
  check_name-given name h = ground arith

  check_fields-found :
      (input : SaveMailboxFormatInput) (checked : Checked)
      → check_fields b input.fields [] [] ≡ ok checked
      → (target : Text) → has target checked.targets ≡ targets_field target checked.fields
  unfolding has
  check_fields-found input checked h target =
      check_fields-targets b input.fields [] [] checked target h

  -- A format that build accepts has a name and 1 to 64 fields. Each field has a column and a known
  -- target, and is marked as sensitive if its target is. No two columns are equal up to case, and no two
  -- targets unless they are metadata. A delimited format has a delimiter of 1 to 16 bytes without line
  -- ends, a template format a template. A format that takes imports has an address among its targets,
  -- and a fixed provider, or parser settings that find the provider from the address, or a target for it.
  pub build-IsValidFormat :
      (input : SaveMailboxFormatInput) (f : MailboxFormat) → build b input ≡ ok f → IsValidFormat f
  unfolding build
  build-IsValidFormat input f h =
      let (_, named, h1) = >>=-eq-ok (check_name input.name) _ h in
      let (kind, _, h2) = >>=-eq-ok (kind_of input.kind) _ h1 in
      let (direction, _, h3) = >>=-eq-ok (direction_of input.direction) _ h2 in
      let (_, separated, h4) = >>=-eq-ok (check_delimiter kind input.delimiter) _ h3 in
      let (_, described, h5) = >>=-eq-ok (check_template kind input.template) _ h4 in
      let (_, counted, h6) = >>=-eq-ok (check_count (length input.fields)) _ h5 in
      let (checked, done, h7) = >>=-eq-ok (check_fields b input.fields [] []) _ h6 in
      let built = built_format b input kind direction checked.fields in
      let (_, imported, h8) =
        >>=-eq-ok (check_import b direction built.provider built.parser_config checked.targets) _
          h7 in
      let (_, _, h9) = >>=-eq-ok (check_provider b built.provider) _ h8 in
      let (_, _, last) = >>=-eq-ok (check_compiles b direction built) _ h9 in
      let (allowed, _, apart, count) = check_fields-IsAllowed b input.fields [] [] checked done in
      let (filled, bounded) = check_count-le (length input.fields) counted in
      subst IsValidFormat (ok-injective last) (record {
        named = check_name-given input.name named;
        filled = omega (arith, filled, count);
        bounded = omega (arith, bounded, count);
        separated = check_delimiter-HasDelimiter kind input.delimiter separated;
        described = check_template-HasTemplate kind input.template described;
        allowed = allowed;
        apart = apart;
        importable =
            check_import-IsImportable direction built.provider built.parser_config checked.fields
              checked.targets (check_fields-found input checked done) imported;
      })
