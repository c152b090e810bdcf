-- ===== src/Services/Formats.antt =====
-- backend/internal/service/formats.go: the targets of format fields. strings.ToLower is a parameter.
use account_manager.Prelude.{
  Bool, false, ◌||◌, ◌&&◌, Text, text_eq, trim_space, codes, starts_with, length, ltb, List, [],
  ◌∷◌, if◌then◌else◌,
}
use account_manager.Domain.{MailboxFormatField}

-- one of the constants of a `case`
unfoldable pub is_among : Text → List Text → Bool
is_among s [] = false
is_among s (t ∷ ts) = text_eq s t || is_among s ts

-- the constants of sensitiveFormatTarget
abbrev pub sensitive_targets : List Text
sensitive_targets =
    codes "refresh_token"
    ∷ codes "password"
    ∷ codes "pickup_key"
    ∷ codes "proxy_url"
    ∷ codes "platform_account_password"
    ∷ codes "platform_access_token"
    ∷ []

module _ (lower : Text → Text) where
  -- canonicalFormatTarget
  unfoldable pub canonical_format_target : Text → Text
  canonical_format_target given =
      let target = lower (trim_space given) in
      if text_eq target (codes "host")
      then codes "imap_host"
      else if text_eq target (codes "port")
      then codes "imap_port"
      else target

  -- sensitiveFormatTarget
  unfoldable pub sensitive_format_target : Text → Bool
  unfolding canonical_format_target is_among
  sensitive_format_target given = is_among (canonical_format_target given) sensitive_targets

  -- validFormatTarget
  unfoldable pub valid_format_target : Text → Bool
  unfolding canonical_format_target is_among
  valid_format_target given =
      let target = canonical_format_target given in
      is_among target (
        codes "address"
        ∷ codes "display_name"
        ∷ codes "external_reference"
        ∷ codes "provider"
        ∷ codes "status"
        ∷ codes "credential_kind"
        ∷ codes "client_id"
        ∷ codes "refresh_token"
        ∷ codes "password"
        ∷ codes "pickup_key"
        ∷ codes "expires_at"
        ∷ codes "refresh_after"
        ∷ codes "username"
        ∷ codes "imap_host"
        ∷ codes "imap_port"
        ∷ codes "use_tls"
        ∷ codes "proxy_url"
        ∷ codes "inbox_folder"
        ∷ codes "junk_folder"
        ∷ codes "platform"
        ∷ codes "platform_external_reference"
        ∷ codes "platform_account_password"
        ∷ codes "platform_access_token"
        ∷ [])
      || (starts_with (codes "metadata.") given && ltb (length (codes "metadata.")) (length given))

  -- formatHasSensitiveFields
  unfoldable pub format_has_sensitive_fields : List MailboxFormatField → Bool
  unfolding sensitive_format_target
  format_has_sensitive_fields [] = false
  format_has_sensitive_fields (field ∷ fields) =
      sensitive_format_target field.target || format_has_sensitive_fields fields

  -- formatHasTarget
  unfoldable pub format_has_target : Text → List MailboxFormatField → Bool
  unfolding canonical_format_target
  format_has_target target [] = false
  format_has_target target (field ∷ fields) =
      text_eq (canonical_format_target field.target) (canonical_format_target target)
      || format_has_target target fields
