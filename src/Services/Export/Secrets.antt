-- ===== src/Services/Export/Secrets.antt =====
-- No secret leaves the service without an administrator who asks for it.
use account_manager.Prelude.{
  ok, err, Result, >>=-eq-ok, ok-injective, err-ne-ok, some-inj, Ctx, ℕ, suc, Bool, false, ◌&&◌,
  not, Option, none, some, List, [], ◌∷◌, Text, Map, ◌≡◌, sym, subst, ap, ◌∙◌, arith, inl, inr,
  Bool-cases, trim_space, All,
}
use account_manager.Domain.{Mailbox, MailboxFormat}
use account_manager.Memory.{Store}
use account_manager.Memory.Formats.{get_mailbox_format}
use account_manager.Services.Formats.{format_has_sensitive_fields}
use account_manager.Services.Export.{
  MailboxExportRequest, Exported, export_records, exports, admit_export, exported, export_admitted,
  export, export_mailboxes,
}
use account_manager.Services.ExportValues.{Exporter, export_values}
use account_manager.Services.ExportValues.Public.{IsPublic, export_values-IsPublic}

module _ (x : Exporter) where
  export_records-IsPublic :
      (ctx : ℕ → Ctx) (n : ℕ) (mailboxes : List Mailbox) (f : MailboxFormat) (s : Store)
      (last : List (Map Text))
      → export_records x ctx n mailboxes f false s ≡ ok last
      → All IsPublic last
  unfolding export_records
  export_records-IsPublic ctx n [] f s last done = subst (All IsPublic) (ok-injective done) tt
  export_records-IsPublic ctx n (m ∷ mailboxes) f s last done =
      let (values, valued, rest) = >>=-eq-ok (export_values x (ctx n) m f false s) _ done in
      let (records, recorded, rest') =
        >>=-eq-ok (export_records x ctx (suc n) mailboxes f false s) _ rest in
      subst (All IsPublic) (ok-injective rest') (
        export_values-IsPublic x (ctx n) m f s values valued,
        export_records-IsPublic ctx (suc n) mailboxes f s records recorded,
      )

  admitted :
      (ctx : Ctx) (request : MailboxExportRequest) (admin : Bool) (s : Store) (f : MailboxFormat)
      → admit_export x ctx request admin s ≡ ok f
      → request.include_sensitive && admin ≡ false
      → request.include_sensitive && format_has_sensitive_fields x.lower f.fields ≡ false
  unfolding admit_export
  admitted ctx request admin s f done barred =
      let (g, _, rest) =
        >>=-eq-ok (get_mailbox_format ctx (trim_space request.format_id) s) _ done in
      elim (Bool-cases (not (g.enabled && exports g.direction))) [
        | inl bad ↦ absurd (err-ne-ok (rw bad at rest))
        | inr good ↦
            elim (Bool-cases (
              request.include_sensitive
              && format_has_sensitive_fields x.lower g.fields
              && not admin)) [
                | inl secret ↦ absurd (err-ne-ok (rw (good, secret) at rest))
                | inr allowed ↦
                    subst
                      (λ h.
                        request.include_sensitive && format_has_sensitive_fields x.lower h.fields
                        ≡ false)
                      (ok-injective (rw (good, allowed) at rest)) (ground (arith, allowed, barred))
              ]
      ]

  exported-IsPublic :
      (ctx : ℕ → Ctx) (request : MailboxExportRequest) (admin : Bool) (f : MailboxFormat)
      (s : Store) (o : Option (Result (List Mailbox))) (e : Exported)
      → request.include_sensitive && admin ≡ false
      → exported x ctx request admin f s o ≡ some (ok e)
      → All IsPublic e.records × (e.format ≡ f) × (e.sensitive_included ≡ false)
  unfolding exported
  exported-IsPublic ctx request admin f s none e barred done = cc
  exported-IsPublic ctx request admin f s (some mailboxes) e barred done =
      let (items, _, rest) = >>=-eq-ok mailboxes _ (some-inj done) in
      let (records, recorded, rest') =
        >>=-eq-ok (export_records x ctx 1 items f (request.include_sensitive && admin) s) _ rest in
      let public =
        export_records-IsPublic ctx 1 items f s records
          (ap (λ b. export_records x ctx 1 items f b s) (sym barred) ∙ recorded) in
      let same = ok-injective rest' in
      (
        subst (All IsPublic) (ap (λ k. k.records) same) public,
        sym (ap (λ k. k.format) same),
        sym (ap (λ k. k.sensitive_included) same) ∙ ground (arith, barred),
      )

  export_admitted-IsPublic :
      (fuel : ℕ) (ctx : ℕ → Ctx) (request : MailboxExportRequest) (admin : Bool) (s : Store)
      (r : Result MailboxFormat) (e : Exported)
      → request.include_sensitive && admin ≡ false
      → export_admitted x fuel ctx request admin r s ≡ some (ok e)
      → All IsPublic e.records × (r ≡ ok e.format) × (e.sensitive_included ≡ false)
  unfolding export_admitted
  export_admitted-IsPublic fuel ctx request admin s (err f) e barred done = cc
  export_admitted-IsPublic fuel ctx request admin s (ok f) e barred done =
      let (public, same, excluded) =
        exported-IsPublic ctx request admin f s
          (export_mailboxes x fuel ctx request.mailbox_ids f.provider s) e barred done in
      (public, ap ok (sym same), excluded)

  -- Without both an administrator and the wish for sensitive fields, an export that succeeds has no
  -- refresh token, password, pickup key, proxy address, platform password or access token in any of
  -- its records, and says so; and if it was asked for sensitive fields, its format has none.
  pub export-IsPublic :
      (fuel : ℕ) (ctx : ℕ → Ctx) (request : MailboxExportRequest) (admin : Bool) (s : Store)
      (e : Exported)
      → request.include_sensitive && admin ≡ false
      → export x fuel ctx request admin s ≡ some (ok e)
      → All IsPublic e.records
        × (e.sensitive_included ≡ false)
        × (request.include_sensitive && format_has_sensitive_fields x.lower e.format.fields ≡ false)
  unfolding export
  export-IsPublic fuel ctx request admin s e barred done =
      let (public, admission, excluded) =
        export_admitted-IsPublic fuel ctx request admin s (admit_export x (ctx 0) request admin s) e
          barred done in
      (public, excluded, admitted (ctx 0) request admin s e.format admission barred)
