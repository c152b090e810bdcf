-- ===== src/Services/ExportValues/Public.antt =====
-- The values of an export without sensitive fields hold no secret.
use mathlib.Core.Bool.{true≢false}
use account_manager.Prelude.{
  ok, >>=-eq-ok, ok-injective, Ctx, Bool, true, false, Option, none, some, List, [], ◌∷◌, ◌++◌,
  Text, text_eq, text_eq_iff, codes, Map, lookup, insert, lookup-insert, ◌≡◌, refl, sym, subst, ap,
  ◌∙◌, inl, inr, Bool-cases, eq_ℤ, pos, if◌then◌else◌,
}
use account_manager.Domain.{Mailbox, MailboxFormat, MailboxCredential, PlatformAccount}
use account_manager.Memory.{Store}
use account_manager.Memory.Credentials.{list_credentials}
use account_manager.Memory.Accounts.{list_platform_accounts_by_mailbox}
use account_manager.Services.Formats.{is_among, sensitive_targets}
use account_manager.Services.ExportValues.{
  Exporter, MailboxCredentialSecret, JsonValue, json_value_text, base_values, insert_some, decoded,
  no_text, pickup_values, secret_values, credential_secret_required, opened_values,
  credential_values, metadata_values, entries, platform_values, export_values, account_page,
}

-- The map has no value for a sensitive target.
abbrev pub IsPublic : Map Text → Type 0
IsPublic values =
    (target : Text) → is_among target sensitive_targets ≡ true → lookup target values ≡ none

insert-IsPublic :
    (key value : Text) (values : Map Text)
    → is_among key sensitive_targets ≡ false
    → IsPublic values
    → IsPublic (insert key value values)
insert-IsPublic key value values open_key h target secret =
    lookup-insert key target value values ∙ elim (Bool-cases (text_eq key target)) [
      | inr e ↦ rw e (h target secret)
      | inl e ↦ absurd (
          true≢false (
            sym secret
            ∙ ap (λ k. is_among k sensitive_targets) (sym ((text_eq_iff key target).0 e))
            ∙ open_key))
    ]

insert_some-IsPublic {ℓ} :
    {A : Type ℓ} (key : Text) (print : A → Text) (o : Option A) (values : Map Text)
    → is_among key sensitive_targets ≡ false
    → IsPublic values
    → IsPublic (insert_some key print o values)
insert_some-IsPublic key print none values open_key h = h
insert_some-IsPublic key print (some a) values open_key h =
    insert-IsPublic key (print a) values open_key h

metadata_key : (key : Text) → is_among (codes "metadata." ++ key) sensitive_targets ≡ false
unfolding is_among text_eq
metadata_key key = refl

base_values-IsPublic : (m : Mailbox) → IsPublic (base_values m)
unfolding base_values is_among text_eq lookup
base_values-IsPublic m = insert-IsPublic (codes "status") _ _ refl (
    insert-IsPublic (codes "provider") _ _ refl (
      insert-IsPublic (codes "external_reference") _ _ refl (
        insert-IsPublic (codes "display_name") _ _ refl
          (insert-IsPublic (codes "address") _ _ refl (λ target secret. refl)))))

module _ (x : Exporter) where
  metadata_values-IsPublic :
      (object : Map JsonValue) (values : Map Text)
      → IsPublic values
      → IsPublic (metadata_values x object values)
  unfolding metadata_values
  metadata_values-IsPublic [] values h = h
  metadata_values-IsPublic ((key, value) ∷ rest) values h =
      metadata_values-IsPublic rest
        (insert (codes "metadata." ++ key) (json_value_text value) values)
        (insert-IsPublic (codes "metadata." ++ key) (json_value_text value) values
          (metadata_key key) h)

  insert_client-IsPublic :
      (client : Text) (values : Map Text)
      → IsPublic values
      → IsPublic (
          if no_text (lookup (codes "client_id") values)
          then insert (codes "client_id") client values
          else values)
  unfolding is_among text_eq
  insert_client-IsPublic client values h =
      elim (Bool-cases (no_text (lookup (codes "client_id") values))) [
        | inl e ↦ rw e (insert-IsPublic (codes "client_id") client values refl h)
        | inr e ↦ rw e h
      ]

  insert_port-IsPublic :
      (port : Bool) (printed : Text) (values : Map Text)
      → IsPublic values
      → IsPublic (if port then values else insert (codes "imap_port") printed values)
  unfolding is_among text_eq
  insert_port-IsPublic true printed values h = h
  insert_port-IsPublic false printed values h =
      insert-IsPublic (codes "imap_port") printed values refl h

  secret_values-IsPublic :
      (secret : MailboxCredentialSecret) (values : Map Text)
      → IsPublic values
      → IsPublic (secret_values x false secret values)
  unfolding secret_values is_among text_eq
  secret_values-IsPublic secret values h = insert-IsPublic (codes "junk_folder") _ _ refl (
      insert-IsPublic (codes "inbox_folder") _ _ refl (
        insert_some-IsPublic (codes "use_tls") x.format_bool secret.use_tls _ refl (
          insert_port-IsPublic (eq_ℤ secret.port (pos 0)) (x.format_int secret.port) _ (
            insert-IsPublic (codes "imap_host") _ _ refl (
              insert-IsPublic (codes "username") _ _ refl
                (insert_client-IsPublic secret.client_id values h))))))

  opened_values-IsPublic :
      (ctx : Ctx) (f : MailboxFormat) (credential : MailboxCredential) (values last : Map Text)
      → IsPublic values
      → opened_values x ctx false f credential values ≡ ok last
      → IsPublic last
  unfolding opened_values
  opened_values-IsPublic ctx f credential values last h done =
      elim (Bool-cases (credential_secret_required x f.fields false)) [
        | inr e ↦ subst IsPublic (ok-injective (rw e at done)) h
        | inl e ↦
            let (plaintext, _, rest) =
              >>=-eq-ok (x.unseal ctx credential.encrypted_secret credential.key_version) _
                (rw e at done) in
            let (secret, _, rest') = >>=-eq-ok (decoded (x.decode_credential plaintext)) _ rest in
            subst IsPublic (ok-injective rest') (secret_values-IsPublic secret values h)
      ]

  credential_values-IsPublic :
      (ctx : Ctx) (f : MailboxFormat) (credentials : List MailboxCredential)
      (values last : Map Text)
      → IsPublic values
      → credential_values x ctx false f credentials values ≡ ok last
      → IsPublic last
  unfolding credential_values is_among text_eq
  credential_values-IsPublic ctx f [] values last h done = subst IsPublic (ok-injective done) h
  credential_values-IsPublic ctx f (credential ∷ rest) values last h done =
      opened_values-IsPublic ctx f credential _ last
        (insert_some-IsPublic (codes "refresh_after") x.format_time credential.refresh_after _ refl
          (insert_some-IsPublic (codes "expires_at") x.format_time credential.expires_at _ refl (
            insert-IsPublic (codes "client_id") _ _ refl
              (insert-IsPublic (codes "credential_kind") _ _ refl h))))
        done

  platform_values-IsPublic :
      (ctx : Ctx) (accounts : List PlatformAccount) (s : Store) (values last : Map Text)
      → IsPublic values
      → platform_values x ctx false accounts s values ≡ ok last
      → IsPublic last
  unfolding platform_values is_among text_eq
  platform_values-IsPublic ctx [] s values last h done = subst IsPublic (ok-injective done) h
  platform_values-IsPublic ctx (account ∷ rest) s values last h done =
      subst IsPublic (ok-injective done) (
        insert-IsPublic (codes "platform_external_reference") _ _ refl
          (insert-IsPublic (codes "platform") _ _ refl h))

  -- Without sensitive fields, no secret is among the values of a mailbox.
  pub export_values-IsPublic :
      (ctx : Ctx) (m : Mailbox) (f : MailboxFormat) (s : Store) (last : Map Text)
      → export_values x ctx m f false s ≡ ok last
      → IsPublic last
  unfolding export_values pickup_values
  export_values-IsPublic ctx m f s last done =
      let (credentials, _, rest) = >>=-eq-ok (list_credentials ctx m.id s) _ done in
      let (values, credited, rest') =
        >>=-eq-ok (credential_values x ctx false f credentials (base_values m)) _ rest in
      let (accounts, _, rest'') =
        >>=-eq-ok (list_platform_accounts_by_mailbox ctx m.id account_page s) _ rest' in
      platform_values-IsPublic ctx accounts s _ last
        (metadata_values-IsPublic (entries (x.decode_object m.metadata)) values (
          credential_values-IsPublic ctx f credentials (base_values m) values
            (base_values-IsPublic m) credited))
        rest''
