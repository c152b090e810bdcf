-- ===== src/Memory/Consistency/Staging.antt =====
-- The parts of an imported item that follow its mailbox keep the store consistent.
use account_manager.Prelude.{
  ◌≡◌, refl, none, some, true, inl, inr, Bool-cases, has, lookup, insert, has-insert_self,
  has-lookup, Result, ok, err, ◌>>=◌, Option, Text, pos,
}
use account_manager.Domain.{
  MailboxCredential, MailboxPickupKey, PlatformAccount, PlatformAccountCredential,
  MailboxImportItem, MailboxImportResult,
}
use account_manager.Memory.{Store, credential_identity, platform_credential_identity}
use account_manager.Memory.Accounts.{merge_platform_credential}
use account_manager.Memory.PickupKeys.{hex}
use account_manager.Memory.Import.{
  Staged, Progress, commit, add_pickup_key, apply_imported_pickup_key, merge_account,
  store_platform_credential, apply_imported_platform, merge_credential, update_credential,
  create_credential, finish_item, same_owner,
}
use account_manager.Memory.Index.{IsIndexed-add}
use account_manager.Memory.Links.{IsAttached, IsAttached-insert, IsAttached-grow}
use account_manager.Memory.Consistency.Accounts.{merge-account_id}
use account_manager.Memory.Consistency.{IsConsistent, digest_key}

-- The property of the copies, when the step went through.
abbrev pub Keeps : Store → Result Progress → Type 0
Keeps s (err e) = Unit
Keeps s (ok p) = IsConsistent (commit p.staged s)

abbrev KeepsStaged : Store → Result Staged → Type 0
KeepsStaged s (err e) = Unit
KeepsStaged s (ok t) = IsConsistent (commit t s)

module _ (s : Store) where
  add_pickup_key-Keeps :
      (o : Option Text) (key : MailboxPickupKey) (id : Text) (t : Staged)
      → lookup (hex key.digest) t.pickup_by_digest ≡ o
      → has id t.mailboxes ≡ true
      → IsConsistent (commit t s)
      → KeepsStaged s (add_pickup_key o key id t)
  unfolding add_pickup_key commit
  add_pickup_key-Keeps (some j) key id t e there h =
      elim (Bool-cases (same_owner (lookup j t.pickup_keys) id)) [
        | inl mine ↦ rw mine h
        | inr foreign ↦ rw foreign tt
      ]
  add_pickup_key-Keeps none key id t e there h = elim (Bool-cases (has key.id t.pickup_keys)) [
    | inl taken ↦ rw taken tt
    | inr fresh ↦
        let k = record key { mailbox_id = id } in
        rw fresh (
          assumption (
            IsIndexed-add (λ k. k.id) digest_key k t.pickup_keys t.pickup_by_digest fresh
                (rw (has-lookup, e) refl) h.pickup_keys,
            IsAttached-insert (λ k. k.mailbox_id) key.id k t.pickup_keys t.mailboxes there
                h.pickup_mailboxes,
          ))
  ]

  apply_imported_pickup_key-Keeps :
      (o : Option MailboxPickupKey) (id : Text) (t : Staged)
      → has id t.mailboxes ≡ true
      → IsConsistent (commit t s)
      → KeepsStaged s (apply_imported_pickup_key o id t)
  unfolding apply_imported_pickup_key
  apply_imported_pickup_key-Keeps none id t there h = h
  apply_imported_pickup_key-Keeps (some key) id t there h =
      add_pickup_key-Keeps (lookup (hex key.digest) t.pickup_by_digest) key id t refl there h

  merge_account_id :
      (o : Option PlatformAccount) (a : PlatformAccount) → (merge_account o a).id ≡ a.id
  unfolding merge_account
  merge_account_id none a = refl
  merge_account_id (some b) a = refl

  store_platform_credential-IsAttached :
      (c : Option PlatformAccountCredential) (id : Text) (t : Staged)
      → has id t.accounts ≡ true
      → IsAttached {V = PlatformAccountCredential}
          (λ c. c.platform_account_id)
          t.platform_credentials
          t.accounts
      → IsAttached {V = PlatformAccountCredential}
          (λ c. c.platform_account_id)
          (store_platform_credential c id t.platform_credentials)
          t.accounts
  unfolding store_platform_credential
  store_platform_credential-IsAttached none id t there h = h
  store_platform_credential-IsAttached (some given) id t there h =
      let c = record given { platform_account_id = id } in
      let key = platform_credential_identity id given.kind in
      let o = lookup key t.platform_credentials in
      IsAttached-insert (λ c. c.platform_account_id) key (merge_platform_credential o c)
        t.platform_credentials t.accounts (rw (merge-account_id o c) there) h

  apply_imported_platform-Keeps :
      (o : Option PlatformAccount) (c : Option PlatformAccountCredential) (id : Text) (t : Staged)
      → IsConsistent (commit t s)
      → IsConsistent (commit (apply_imported_platform o c id t) s)
  unfolding apply_imported_platform commit
  apply_imported_platform-Keeps none c id t h = h
  apply_imported_platform-Keeps (some given) c id t h =
      let a = merge_account (lookup given.id t.accounts) (record given { mailbox_id = id }) in
      let t' = record t { accounts = insert a.id a t.accounts } in
      assumption (
        store_platform_credential-IsAttached c a.id t' (has-insert_self a.id a t.accounts) (
          IsAttached-grow (λ c. c.platform_account_id) a.id a t.platform_credentials t.accounts
            h.credential_accounts))

  mailboxes-apply_imported_platform :
      (o : Option PlatformAccount) (c : Option PlatformAccountCredential) (id : Text) (t : Staged)
      → (apply_imported_platform o c id t).mailboxes ≡ t.mailboxes
  unfolding apply_imported_platform
  mailboxes-apply_imported_platform none c id t = refl
  mailboxes-apply_imported_platform (some given) c id t = refl

  mailbox_of_merge :
      (o : Option MailboxCredential) (c : MailboxCredential)
      → (merge_credential o c).mailbox_id ≡ c.mailbox_id
  unfolding merge_credential
  mailbox_of_merge none c = refl
  mailbox_of_merge (some current) c = refl

  pub update_credential-Keeps :
      (o : Option MailboxCredential) (id : Text) (t : Staged)
      → has id t.mailboxes ≡ true
      → IsConsistent (commit t s)
      → IsConsistent (commit (update_credential o id t) s)
  unfolding update_credential commit
  update_credential-Keeps none id t there h = h
  update_credential-Keeps (some given) id t there h =
      let c = record given { mailbox_id = id } in
      let key = credential_identity id given.kind in
      let o = lookup key t.credentials in
      assumption (
        IsAttached-insert (λ c. c.mailbox_id) key (merge_credential o c) t.credentials t.mailboxes
          (rw (mailbox_of_merge o c) there) h.credential_mailboxes)

  pub create_credential-Keeps :
      (o : Option MailboxCredential) (id : Text) (t : Staged)
      → has id t.mailboxes ≡ true
      → IsConsistent (commit t s)
      → IsConsistent (commit (create_credential o id t) s)
  unfolding create_credential commit
  create_credential-Keeps none id t there h = h
  create_credential-Keeps (some given) id t there h = assumption (
      IsAttached-insert (λ c. c.mailbox_id) (credential_identity id given.kind)
        (record given { mailbox_id = id; version = pos 1 }) t.credentials t.mailboxes there
        h.credential_mailboxes)

  pub mailboxes-update_credential :
      (o : Option MailboxCredential) (id : Text) (t : Staged)
      → (update_credential o id t).mailboxes ≡ t.mailboxes
  unfolding update_credential
  mailboxes-update_credential none id t = refl
  mailboxes-update_credential (some given) id t = refl

  pub mailboxes-create_credential :
      (o : Option MailboxCredential) (id : Text) (t : Staged)
      → (create_credential o id t).mailboxes ≡ t.mailboxes
  unfolding create_credential
  mailboxes-create_credential none id t = refl
  mailboxes-create_credential (some given) id t = refl

  finish-Keeps :
      (r : Result Staged) (result : MailboxImportResult)
      → KeepsStaged s r
      → Keeps s (r >>= λ t. ok (record { staged = t; result = result }))
  finish-Keeps (ok t) result h = h
  finish-Keeps (err e) result h = tt

  pub finish_item-Keeps :
      (item : MailboxImportItem) (id : Text) (t : Staged) (result : MailboxImportResult)
      → has id t.mailboxes ≡ true
      → IsConsistent (commit t s)
      → Keeps s (finish_item item id t result)
  unfolding finish_item
  finish_item-Keeps item id t result there h =
      let a = item.platform_account in
      let c = item.platform_credential in
      finish-Keeps (apply_imported_pickup_key item.pickup_key id (apply_imported_platform a c id t))
        result
        (apply_imported_pickup_key-Keeps item.pickup_key id (apply_imported_platform a c id t)
          (rw (mailboxes-apply_imported_platform a c id t) there)
          (apply_imported_platform-Keeps a c id t h))
