-- ===== src/Services/Export.antt =====
-- backend/internal/service/importexport.go: Export up to the rendering, over the memory store.
pub mod Secrets
pub mod Pages
use account_manager.Prelude.{
  ok, err, Result, ◌>>=◌, Ctx, Error, invalid, unauthorized, not_configured, is_not_found, ℤ, pos,
  ℕ, zero, suc, ◌+◌, ltb, Bool, true, false, ◌||◌, ◌&&◌, not, Option, none, some, List, [], ◌∷◌,
  ◌++◌, length, keep_if, Text, text_eq, is_empty, trim_space, codes, Map, lookup, has, insert, eq_ℤ,
  if◌then◌else◌,
}
use account_manager.Domain.{
  Mailbox, MailboxStatus, MailboxFormat, MailboxFormatField, MailboxFormatDirection,
  MailboxCredential, PlatformAccount, PlatformAccountCredential, ProviderKey, Bytes, Time,
}
use account_manager.Domain.MailboxFormatDirection.{inbound, outbound, both}
use account_manager.Ports.{ListOptions}
use account_manager.Memory.{Store}
use account_manager.Memory.Mailboxes.{get_mailbox, list_mailboxes}
use account_manager.Memory.Credentials.{list_credentials}
use account_manager.Memory.Accounts.{
  list_platform_accounts_by_mailbox, get_platform_account_credential,
}
use account_manager.Memory.Formats.{get_mailbox_format}
use account_manager.Services.Formats.{
  canonical_format_target, is_among, format_has_sensitive_fields, format_has_target,
}
use account_manager.Services.ExportValues.{
  MailboxCredentialSecret, PlatformAccountCredentialSecret, JsonValue, Exporter, json_value_text,
  status_text, base_values, insert_some, decoded, no_text, account_page, entries,
  credential_secret_required, revealed, pickup_values, secret_values, opened_values,
  credential_values, metadata_values, login_values, platform_values, export_values,
}

abbrev pub exports : MailboxFormatDirection → Bool
exports inbound = false
exports outbound = true
exports both = true

-- `provider == nil || mailbox.Provider == *provider`
abbrev pub of_provider : Option ProviderKey → Mailbox → Bool
of_provider none m = true
of_provider (some provider) m = text_eq m.provider provider

abbrev pub page_limit : ℕ
page_limit = 500

pub record MailboxExportRequest : Type 0 where
  pub format_id : Text
  pub mailbox_ids : List Text
  pub include_sensitive : Bool

-- Export before the rendering: the format, the records and SensitiveIncluded.
pub record Exported : Type 0 where
  pub format : MailboxFormat
  pub records : List (Map Text)
  pub sensitive_included : Bool

module _ (x : Exporter) where
  -- the loop over the given ids
  unfoldable pub export_ids :
      Ctx → List Text → Map (Unit {0}) → Option ProviderKey → Store → Result (List Mailbox)
  export_ids ctx [] seen provider s = ok []
  export_ids ctx (id ∷ ids) seen provider s =
      let again = export_ids ctx ids seen provider s in
      let rest = export_ids ctx ids (insert id tt seen) provider s in
      if has id seen then again else do
        m ← get_mailbox ctx id s
        items ← rest
        ok (if of_provider provider m then m ∷ items else items)

  -- what follows a page: its error, the end, or the rest of the loop
  unfoldable pub after_mailboxes :
      Result (List Mailbox)
      → List Mailbox
      → Option (Result (List Mailbox))
      → Option (Result (List Mailbox))
  after_mailboxes (err e) items rest = some (err e)
  after_mailboxes (ok page) items rest =
      if ltb (length page) page_limit then some (ok items) else rest

  unfoldable pub with_mailboxes :
      Option ProviderKey → List Mailbox → Result (List Mailbox) → List Mailbox
  with_mailboxes provider items (err e) = items
  with_mailboxes provider items (ok page) = items ++ keep_if (of_provider provider) page

  -- the loop over the pages, on fuel
  unfoldable pub export_pages :
      ℕ
      → (ℕ → Ctx)
      → ℕ
      → ℕ
      → Option ProviderKey
      → List Mailbox
      → Store
      → Option (Result (List Mailbox))
  unfolding after_mailboxes with_mailboxes
  export_pages zero ctx n offset provider items s = none
  export_pages (suc fuel) ctx n offset provider items s =
      let page =
        list_mailboxes (ctx n) (record { limit = pos page_limit; offset = pos offset }) s in
      let items' = with_mailboxes provider items page in
      after_mailboxes page items'
        (export_pages fuel ctx (suc n) (offset + page_limit) provider items' s)

  -- ImportExportService.exportMailboxes
  unfoldable pub export_mailboxes :
      ℕ → (ℕ → Ctx) → List Text → Option ProviderKey → Store → Option (Result (List Mailbox))
  unfolding export_pages export_ids
  export_mailboxes fuel ctx [] provider s = export_pages fuel ctx 0 0 provider [] s
  export_mailboxes fuel ctx (id ∷ ids) provider s =
      some (export_ids (ctx 0) (id ∷ ids) [] provider s)

  -- the loop over the mailboxes
  unfoldable pub export_records :
      (ℕ → Ctx) → ℕ → List Mailbox → MailboxFormat → Bool → Store → Result (List (Map Text))
  unfolding export_values
  export_records ctx n [] f include s = ok []
  export_records ctx n (m ∷ mailboxes) f include s = do
    values ← export_values x (ctx n) m f include s
    rest ← export_records ctx (suc n) mailboxes f include s
    ok (values ∷ rest)

  -- the guards
  unfoldable pub admit_export : Ctx → MailboxExportRequest → Bool → Store → Result MailboxFormat
  unfolding format_has_sensitive_fields
  admit_export ctx request admin s = do
    f ← get_mailbox_format ctx (trim_space request.format_id) s
    if not (f.enabled && exports f.direction)
        then err invalid
        else if request.include_sensitive
            && format_has_sensitive_fields x.lower f.fields
            && not admin
        then err unauthorized
        else ok f

  unfoldable pub exported :
      (ℕ → Ctx)
      → MailboxExportRequest
      → Bool
      → MailboxFormat
      → Store
      → Option (Result (List Mailbox))
      → Option (Result Exported)
  unfolding export_records
  exported ctx request admin f s none = none
  exported ctx request admin f s (some mailboxes) = some do
    items ← mailboxes
    records ← export_records ctx 1 items f (request.include_sensitive && admin) s
    ok (record {
      format = f;
      records = records;
      sensitive_included =
          request.include_sensitive && admin && format_has_sensitive_fields x.lower f.fields;
    })

  unfoldable pub export_admitted :
      ℕ
      → (ℕ → Ctx)
      → MailboxExportRequest
      → Bool
      → Result MailboxFormat
      → Store
      → Option (Result Exported)
  unfolding exported export_mailboxes
  export_admitted fuel ctx request admin (err e) s = some (err e)
  export_admitted fuel ctx request admin (ok f) s =
      exported ctx request admin f s (export_mailboxes fuel ctx request.mailbox_ids f.provider s)

  -- ImportExportService.Export up to renderExport
  unfoldable pub export :
      ℕ → (ℕ → Ctx) → MailboxExportRequest → Bool → Store → Option (Result Exported)
  unfolding export_admitted admit_export
  export fuel ctx request admin s =
      export_admitted fuel ctx request admin (admit_export (ctx 0) request admin s) s
