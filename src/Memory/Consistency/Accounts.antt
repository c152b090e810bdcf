-- ===== src/Memory/Consistency/Accounts.antt =====
-- The writes to platform accounts and their credentials keep the store consistent.
use account_manager.Prelude.{
  ◌≡◌, refl, none, some, inl, inr, ◌&&◌, not, Bool-cases, has, lookup, Ctx, Result, ok, err, Option,
  is_empty,
}
use account_manager.Domain.{PlatformAccount, PlatformAccountCredential}
use account_manager.Memory.{Store, platform_credential_identity}
use account_manager.Memory.Accounts.{
  check_alias, store_checked, create_platform_account, merge_platform_credential,
  upsert_platform_account_credential,
}
use account_manager.Memory.Links.{IsAttached-insert, IsAttached-grow}
use account_manager.Memory.Consistency.{IsConsistent}

store_checked-IsConsistent :
    (r : Result (Unit {0})) (a : PlatformAccount) (s : Store)
    → IsConsistent s
    → IsConsistent (store_checked r a s).1
unfolding store_checked
store_checked-IsConsistent (err e) a s h = h
store_checked-IsConsistent (ok _) a s h = assumption (
    IsAttached-grow (λ c. c.platform_account_id) a.id a s.platform_credentials s.accounts
      h.credential_accounts)

pub create_platform_account-IsConsistent :
    (ctx : Ctx) (a : PlatformAccount) (s : Store)
    → IsConsistent s
    → IsConsistent (create_platform_account ctx a s).1
unfolding create_platform_account
create_platform_account-IsConsistent (some e) a s h = h
create_platform_account-IsConsistent none a s h = elim (Bool-cases (has a.id s.accounts)) [
  | inl taken ↦ rw taken h
  | inr fresh ↦
      rw fresh
        (elim (Bool-cases (not (is_empty a.mailbox_id) && not (has a.mailbox_id s.mailboxes))) [
          | inl missing ↦ rw missing h
          | inr there ↦
              rw there (store_checked-IsConsistent (check_alias a.mailbox_alias_id a s) a s h)
        ])
]

pub merge-account_id :
    (o : Option PlatformAccountCredential) (c : PlatformAccountCredential)
    → (merge_platform_credential o c).platform_account_id ≡ c.platform_account_id
merge-account_id none c = refl
merge-account_id (some current) c = refl

pub upsert_platform_account_credential-IsConsistent :
    (ctx : Ctx) (c : PlatformAccountCredential) (s : Store)
    → IsConsistent s
    → IsConsistent (upsert_platform_account_credential ctx c s).1
unfolding upsert_platform_account_credential
upsert_platform_account_credential-IsConsistent (some e) c s h = h
upsert_platform_account_credential-IsConsistent none c s h =
    elim (Bool-cases (has c.platform_account_id s.accounts)) [
      | inr missing ↦ rw missing h
      | inl there ↦
          let key = platform_credential_identity c.platform_account_id c.kind in
          let o = lookup key s.platform_credentials in
          rw there (
            assumption (
              IsAttached-insert (λ c. c.platform_account_id) key (merge_platform_credential o c)
                s.platform_credentials s.accounts (rw (merge-account_id o c) there)
                h.credential_accounts))
    ]
