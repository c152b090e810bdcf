-- ===== src/Memory/Credentials.antt =====
-- The mailbox credentials of memory/store.go: one for each mailbox and kind, versioned.
use account_manager.Prelude.{
  ok, err, Result, Ctx, live, live_on, found, conflict, not_found, pos, eq_ℤ, inc64, Option, none,
  some, not, Text, text_eq, text_ltb, List, keep_if, lookup, has, insert, values, sort_by,
  if◌then◌else◌,
}
use account_manager.Domain.{MailboxCredential, CredentialKind}
use account_manager.Memory.{Store, credential_identity}

-- the part of UpsertCredential after the mailbox is found
unfoldable pub upsert_over :
    Option MailboxCredential → Text → MailboxCredential → Store → Result (Unit {0}) × Store
upsert_over (some existing) identity c s =
    if not (eq_ℤ c.version existing.version)
    then (err conflict, s)
    else let saved = record c {
      version = inc64 existing.version;
      created_at = existing.created_at;
    } in
      (ok tt, record s { credentials = insert identity saved s.credentials })
upsert_over none identity c s =
    if not (eq_ℤ c.version (pos 0))
    then (err conflict, s)
    else let saved = record c { version = pos 1 } in
      (ok tt, record s { credentials = insert identity saved s.credentials })

-- Store.UpsertCredential
unfoldable pub upsert_credential : Ctx → MailboxCredential → Store → Result (Unit {0}) × Store
unfolding upsert_over
upsert_credential ctx c s =
    let identity = credential_identity c.mailbox_id c.kind in
    live_on ctx s (
      if not (has c.mailbox_id s.mailboxes)
      then (err not_found, s)
      else upsert_over (lookup identity s.credentials) identity c s)

-- Store.GetCredential
unfoldable pub get_credential : Ctx → Text → CredentialKind → Store → Result MailboxCredential
get_credential ctx mailbox_id kind s =
    live ctx (found (lookup (credential_identity mailbox_id kind) s.credentials))

-- Store.ListCredentials
unfoldable pub list_credentials : Ctx → Text → Store → Result (List MailboxCredential)
list_credentials ctx mailbox_id s = live ctx (
    ok (
      sort_by (λ a b. text_ltb a.kind b.kind)
        (keep_if (λ c. text_eq c.mailbox_id mailbox_id) (values s.credentials))))
