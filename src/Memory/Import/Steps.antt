-- ===== src/Memory/Import/Steps.antt =====
-- What the steps of an imported item leave alone, and what an item that went through has done.
use account_manager.Prelude.{
  ◌≡◌, refl, subst, ◌∙◌, none, some, arith, lookup, ok, >>=-eq-ok, Option, Text,
}
use account_manager.Domain.{
  MailboxPickupKey, MailboxCredential, PlatformAccount, PlatformAccountCredential,
  MailboxImportItem, MailboxImportResult,
}
use account_manager.Memory.Import.{
  Staged, Progress, add_pickup_key, apply_imported_pickup_key, apply_imported_platform,
  update_credential, create_credential, finish_item,
}
use account_manager.Memory.PickupKeys.{hex}

-- The steps after the mailbox leave the mailboxes and their index alone.
pub record SameMailboxes (t u : Staged) : Type 0 where
  pub mailboxes : u.mailboxes ≡ t.mailboxes
  pub identities : u.identities ≡ t.identities

add_pickup_key-SameMailboxes :
    (o : Option Text) (key : MailboxPickupKey) (id : Text) (t u : Staged)
    → add_pickup_key o key id t ≡ ok u
    → SameMailboxes t u
unfolding add_pickup_key
add_pickup_key-SameMailboxes none key id t u h = ground arith
add_pickup_key-SameMailboxes (some j) key id t u h = ground arith

apply_imported_pickup_key-SameMailboxes :
    (o : Option MailboxPickupKey) (id : Text) (t u : Staged)
    → apply_imported_pickup_key o id t ≡ ok u
    → SameMailboxes t u
unfolding apply_imported_pickup_key
apply_imported_pickup_key-SameMailboxes none id t u h = ground arith
apply_imported_pickup_key-SameMailboxes (some key) id t u h =
    add_pickup_key-SameMailboxes (lookup (hex key.digest) t.pickup_by_digest) key id t u h

apply_imported_platform-SameMailboxes :
    (a : Option PlatformAccount) (c : Option PlatformAccountCredential) (id : Text) (t : Staged)
    → SameMailboxes t (apply_imported_platform a c id t)
unfolding apply_imported_platform
apply_imported_platform-SameMailboxes none c id t = record { mailboxes = refl; identities = refl }
apply_imported_platform-SameMailboxes (some a) c id t = record {
  mailboxes = refl;
  identities = refl;
}

pub update_credential-SameMailboxes :
    (o : Option MailboxCredential) (id : Text) (t : Staged)
    → SameMailboxes t (update_credential o id t)
unfolding update_credential
update_credential-SameMailboxes none id t = record { mailboxes = refl; identities = refl }
update_credential-SameMailboxes (some c) id t = record { mailboxes = refl; identities = refl }

pub create_credential-SameMailboxes :
    (o : Option MailboxCredential) (id : Text) (t : Staged)
    → SameMailboxes t (create_credential o id t)
unfolding create_credential
create_credential-SameMailboxes none id t = record { mailboxes = refl; identities = refl }
create_credential-SameMailboxes (some c) id t = record { mailboxes = refl; identities = refl }

SameMailboxes-trans : {t u v : Staged} → SameMailboxes t u → SameMailboxes u v → SameMailboxes t v
SameMailboxes-trans a b = record {
  mailboxes = b.mailboxes ∙ a.mailboxes;
  identities = b.identities ∙ a.identities;
}

-- An item that went through has the counters of its branch, and the maps of its branch.
pub finish_item-eq-ok :
    (item : MailboxImportItem) (id : Text) (t : Staged) (r : MailboxImportResult) (q : Progress)
    → finish_item item id t r ≡ ok q
    → SameMailboxes t q.staged × (q.result ≡ r)
unfolding finish_item
finish_item-eq-ok item id t r q h =
    let platform = apply_imported_platform item.platform_account item.platform_credential id t in
    let (u, applied, done) =
      >>=-eq-ok (apply_imported_pickup_key item.pickup_key id platform) _ h in
    (
      SameMailboxes-trans
          (apply_imported_platform-SameMailboxes item.platform_account item.platform_credential id
            t)
          (subst (λ w. SameMailboxes platform w) (staged_of u r q done)
            (apply_imported_pickup_key-SameMailboxes item.pickup_key id platform u applied)),
      result_of u r q done,
    )
  where
    staged_of :
        (u : Staged) (r : MailboxImportResult) (q : Progress)
        → ok (record { staged = u; result = r }) ≡ ok q
        → u ≡ q.staged
    staged_of u r q e = ground arith

    result_of :
        (u : Staged) (r : MailboxImportResult) (q : Progress)
        → ok (record { staged = u; result = r }) ≡ ok q
        → q.result ≡ r
    result_of u r q e = ground arith
