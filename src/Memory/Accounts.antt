-- ===== src/Memory/Accounts.antt =====
-- PlatformAccountRepository of memory/store.go: accounts routed to mailboxes and aliases.
use account_manager.Prelude.{
  ok, err, Result, Ctx, live, live_on, found, conflict, not_found, invalid, ltb, ◌==◌, Bool, false,
  ◌||◌, ◌&&◌, Option, none, some, not, Text, text_eq, text_ltb, is_empty, List, keep_if, lookup,
  has, insert, values, sort_by, if◌then◌else◌,
}
use account_manager.Domain.{PlatformAccount, PlatformAccountCredential, MailboxAlias}
use account_manager.Ports.{ListOptions, paginate}
use account_manager.Memory.{Store, platform_credential_identity}

-- `!exists || alias.MailboxID != account.MailboxID`, negated
alias_attached : Option MailboxAlias → Text → Bool
alias_attached none mailbox_id = false
alias_attached (some alias) mailbox_id = text_eq alias.mailbox_id mailbox_id

-- the checks on the route of a new account
unfoldable pub check_alias : Option Text → PlatformAccount → Store → Result (Unit {0})
unfolding alias_attached
check_alias none account s = ok tt
check_alias (some alias_id) account s =
    if is_empty account.mailbox_id
    then err invalid
    else if alias_attached (lookup alias_id s.aliases) account.mailbox_id
    then ok tt
    else err invalid

unfoldable pub store_checked :
    Result (Unit {0}) → PlatformAccount → Store → Result (Unit {0}) × Store
store_checked (err e) account s = (err e, s)
store_checked (ok _) account s =
    (ok tt, record s { accounts = insert account.id account s.accounts })

-- Store.CreatePlatformAccount
unfoldable pub create_platform_account : Ctx → PlatformAccount → Store → Result (Unit {0}) × Store
unfolding check_alias store_checked
create_platform_account ctx account s = live_on ctx s (
    if has account.id s.accounts
    then (err conflict, s)
    else if not (is_empty account.mailbox_id) && not (has account.mailbox_id s.mailboxes)
    then (err not_found, s)
    else store_checked (check_alias account.mailbox_alias_id account s) account s)

-- Store.GetPlatformAccount
unfoldable pub get_platform_account : Ctx → Text → Store → Result PlatformAccount
get_platform_account ctx id s = live ctx (found (lookup id s.accounts))

newer : PlatformAccount → PlatformAccount → Bool
newer a b =
    if a.created_at == b.created_at then text_ltb a.id b.id else ltb b.created_at a.created_at

-- Store.ListPlatformAccounts
unfoldable pub list_platform_accounts :
    Ctx → Text → ListOptions → Store → Result (List PlatformAccount)
unfolding newer
list_platform_accounts ctx platform options s = live ctx (
    ok (
      paginate
        (sort_by newer
          (keep_if (λ a. is_empty platform || text_eq a.platform platform) (values s.accounts)))
        options))

-- Store.ListPlatformAccountsByMailbox
unfoldable pub list_platform_accounts_by_mailbox :
    Ctx → Text → ListOptions → Store → Result (List PlatformAccount)
list_platform_accounts_by_mailbox ctx mailbox_id options s = live ctx (
    ok (
      paginate
        (sort_by (λ a b. text_ltb a.id b.id)
          (keep_if (λ a. text_eq a.mailbox_id mailbox_id) (values s.accounts)))
        options))

-- `credential.ID` and `credential.CreatedAt` of a credential that is there already are kept
abbrev pub merge_platform_credential :
    Option PlatformAccountCredential → PlatformAccountCredential → PlatformAccountCredential
merge_platform_credential none c = c
merge_platform_credential (some current) c = record c {
  id = current.id;
  created_at = current.created_at;
}

-- Store.UpsertPlatformAccountCredential
unfoldable pub upsert_platform_account_credential :
    Ctx → PlatformAccountCredential → Store → Result (Unit {0}) × Store
upsert_platform_account_credential ctx c s =
    let key = platform_credential_identity c.platform_account_id c.kind in
    let saved = merge_platform_credential (lookup key s.platform_credentials) c in
    live_on ctx s (
      if not (has c.platform_account_id s.accounts)
      then (err not_found, s)
      else (ok tt, record s { platform_credentials = insert key saved s.platform_credentials }))

-- Store.GetPlatformAccountCredential
unfoldable pub get_platform_account_credential :
    Ctx → Text → Text → Store → Result PlatformAccountCredential
get_platform_account_credential ctx account_id kind s =
    live ctx (found (lookup (platform_credential_identity account_id kind) s.platform_credentials))
