-- ===== src/Services/ExportValues.antt =====
-- backend/internal/service/importexport.go: the values that Export writes for a mailbox. The broker,
-- encoding/json, strconv, time.Format and strings.ToLower are parameters.
pub mod Public
use account_manager.Prelude.{
  ok, err, Result, ◌>>=◌, Ctx, Error, invalid, unauthorized, not_configured, is_not_found, ℤ, pos,
  ℕ, zero, suc, ◌+◌, ltb, Bool, true, false, ◌||◌, ◌&&◌, not, Option, none, some, List, [], ◌∷◌,
  ◌++◌, length, keep_if, Text, text_eq, is_empty, trim_space, codes, Map, lookup, has, insert, eq_ℤ,
  if◌then◌else◌,
}
use account_manager.Domain.{
  Mailbox, MailboxStatus, MailboxFormat, MailboxFormatField, MailboxFormatDirection,
  MailboxCredential, PlatformAccount, PlatformAccountCredential, ProviderKey, Bytes, Time,
}
use account_manager.Domain.MailboxFormatDirection.{inbound, outbound, both}
use account_manager.Ports.{ListOptions}
use account_manager.Memory.{Store}
use account_manager.Memory.Mailboxes.{get_mailbox, list_mailboxes}
use account_manager.Memory.Credentials.{list_credentials}
use account_manager.Memory.Accounts.{
  list_platform_accounts_by_mailbox, get_platform_account_credential,
}
use account_manager.Memory.Formats.{get_mailbox_format}
use account_manager.Services.Formats.{
  canonical_format_target, is_among, format_has_sensitive_fields, format_has_target,
}

-- domain.MailboxCredentialSecret
pub record MailboxCredentialSecret : Type 0 where
  pub client_id : Text
  pub refresh_token : Text
  pub username : Text
  pub password : Text
  pub host : Text
  pub port : ℤ
  pub use_tls : Option Bool
  pub proxy_url : Text
  pub inbox_folder : Text
  pub junk_folder : Text

-- domain.PlatformAccountCredentialSecret
pub record PlatformAccountCredentialSecret : Type 0 where
  pub password : Text
  pub access_token : Text

-- A value of a decoded JSON object; `printed` is one that fmt.Sprint or json.Marshal turns into the
-- text.
pub data JsonValue : Type 0 where
  null : JsonValue
  text : Text → JsonValue
  printed : Text → JsonValue

-- What Export takes from libraries and from the services it is given; `none` for a payload that does
-- not decode, and for an exporter of pickup keys that is not set.
pub record Exporter : Type 0 where
  pub lower : Text → Text  -- strings.ToLower
  pub unseal : Ctx → Bytes → Text → Result Bytes  -- SecretBroker.Open
  pub decode_credential : Bytes → Option MailboxCredentialSecret
  pub decode_platform : Bytes → Option PlatformAccountCredentialSecret
  pub decode_object : Bytes → Option (Map JsonValue)
  pub reveal : Option (Ctx → Text → Result Text)  -- PickupKeyExporter.Reveal
  pub format_time : Time → Text
  pub format_int : ℤ → Text
  pub format_bool : Bool → Text

-- jsonValueText
unfoldable pub json_value_text : JsonValue → Text
json_value_text null = []
json_value_text (text t) = t
json_value_text (printed t) = t

abbrev pub status_text : MailboxStatus → Text
status_text MailboxStatus.active = codes "active"
status_text MailboxStatus.disabled = codes "disabled"
status_text MailboxStatus.error = codes "error"

-- the map that exportValues begins with
unfoldable pub base_values : Mailbox → Map Text
base_values m = insert (codes "status") (status_text m.status) (
    insert (codes "provider") m.provider (
      insert (codes "external_reference") m.external_reference
        (insert (codes "display_name") m.display_name (insert (codes "address") m.address []))))

abbrev pub insert_some {ℓ} : {A : Type ℓ} → Text → (A → Text) → Option A → Map Text → Map Text
insert_some key print none values = values
insert_some key print (some a) values = insert key (print a) values

abbrev pub decoded {ℓ} : {A : Type ℓ} → Option A → Result A
decoded none = err invalid
decoded (some a) = ok a

abbrev pub no_text : Option Text → Bool
no_text none = true
no_text (some t) = is_empty t

abbrev pub account_page : ListOptions
account_page = record { limit = pos 500; offset = pos 0 }

abbrev pub entries : Option (Map JsonValue) → Map JsonValue
entries none = []
entries (some object) = object

module _ (x : Exporter) where
  -- credentialSecretRequired
  unfoldable pub credential_secret_required : List MailboxFormatField → Bool → Bool
  unfolding is_among canonical_format_target
  credential_secret_required [] include = false
  credential_secret_required (field ∷ fields) include =
      let target = canonical_format_target x.lower field.target in
      is_among target (
        codes "username"
        ∷ codes "imap_host"
        ∷ codes "imap_port"
        ∷ codes "use_tls"
        ∷ codes "inbox_folder"
        ∷ codes "junk_folder"
        ∷ [])
      || (include
          && is_among target (codes "refresh_token" ∷ codes "password" ∷ codes "proxy_url" ∷ []))
      || credential_secret_required fields include

  unfoldable pub revealed :
      Option (Ctx → Text → Result Text) → Ctx → Text → Map Text → Result (Map Text)
  revealed none ctx mailbox_id values = err not_configured
  revealed (some reveal) ctx mailbox_id values = do
    key ← reveal ctx mailbox_id
    ok (insert (codes "pickup_key") key values)

  -- the pickup key
  unfoldable pub pickup_values : Ctx → Bool → MailboxFormat → Text → Map Text → Result (Map Text)
  unfolding format_has_target revealed
  pickup_values ctx include f mailbox_id values =
      if include && format_has_target x.lower (codes "pickup_key") f.fields
      then revealed x.reveal ctx mailbox_id values
      else ok values

  -- what the opened secret of a credential adds
  unfoldable pub secret_values : Bool → MailboxCredentialSecret → Map Text → Map Text
  secret_values include secret values =
      let first =
        if no_text (lookup (codes "client_id") values)
        then insert (codes "client_id") secret.client_id values
        else values in
      let second =
        insert (codes "imap_host") secret.host (insert (codes "username") secret.username first) in
      let third =
        if eq_ℤ secret.port (pos 0)
        then second
        else insert (codes "imap_port") (x.format_int secret.port) second in
      let fourth = insert (codes "junk_folder") secret.junk_folder (
        insert (codes "inbox_folder") secret.inbox_folder
          (insert_some (codes "use_tls") x.format_bool secret.use_tls third)) in
      if include
      then insert (codes "proxy_url") secret.proxy_url (
          insert (codes "password") secret.password
            (insert (codes "refresh_token") secret.refresh_token fourth))
      else fourth

  unfoldable pub opened_values :
      Ctx → Bool → MailboxFormat → MailboxCredential → Map Text → Result (Map Text)
  unfolding credential_secret_required secret_values
  opened_values ctx include f credential values =
      if not (credential_secret_required f.fields include) then ok values else do
        plaintext ← x.unseal ctx credential.encrypted_secret credential.key_version
        secret ← decoded (x.decode_credential plaintext)
        ok (secret_values include secret values)

  -- the first credential
  unfoldable pub credential_values :
      Ctx → Bool → MailboxFormat → List MailboxCredential → Map Text → Result (Map Text)
  unfolding opened_values
  credential_values ctx include f [] values = ok values
  credential_values ctx include f (credential ∷ rest) values =
      opened_values ctx include f credential (
        insert_some (codes "refresh_after") x.format_time credential.refresh_after (
          insert_some (codes "expires_at") x.format_time credential.expires_at (
            insert (codes "client_id") credential.client_id
              (insert (codes "credential_kind") credential.kind values))))

  -- the loop over metadataValues
  unfoldable pub metadata_values : Map JsonValue → Map Text → Map Text
  unfolding json_value_text
  metadata_values [] values = values
  metadata_values ((key, value) ∷ rest) values =
      metadata_values rest (insert (codes "metadata." ++ key) (json_value_text value) values)

  -- what the login of the account adds; a login that is missing adds nothing
  unfoldable pub login_values :
      Ctx → Result PlatformAccountCredential → Map Text → Result (Map Text)
  login_values ctx (err e) values = if is_not_found e then ok values else err e
  login_values ctx (ok credential) values = do
    plaintext ← x.unseal ctx credential.encrypted_secret credential.key_version
    secret ← decoded (x.decode_platform plaintext)
    ok (
        insert (codes "platform_access_token") secret.access_token
          (insert (codes "platform_account_password") secret.password values))

  -- the first platform account
  unfoldable pub platform_values :
      Ctx → Bool → List PlatformAccount → Store → Map Text → Result (Map Text)
  unfolding login_values
  platform_values ctx include [] s values = ok values
  platform_values ctx include (account ∷ rest) s values =
      let values' =
        insert (codes "platform_external_reference") account.external_reference
          (insert (codes "platform") account.platform values) in
      if include
      then login_values ctx (get_platform_account_credential ctx account.id (codes "login") s)
          values'
      else ok values'

  -- ImportExportService.exportValues
  unfoldable pub export_values : Ctx → Mailbox → MailboxFormat → Bool → Store → Result (Map Text)
  unfolding base_values pickup_values credential_values metadata_values platform_values
  export_values ctx m f include s = do
    with_key ← pickup_values ctx include f m.id (base_values m)
    credentials ← list_credentials ctx m.id s
    with_credential ← credential_values ctx include f credentials with_key
    accounts ← list_platform_accounts_by_mailbox ctx m.id account_page s
    platform_values ctx include accounts s
        (metadata_values (entries (x.decode_object m.metadata)) with_credential)
