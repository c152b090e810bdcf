-- ===== src/Memory/Import.antt =====
-- Store.ImportMailboxes of memory/store.go: a batch is applied to copies of the maps, and the copies
-- replace the maps only when every item went through.
pub mod Steps
pub mod Accounting
pub mod Again
use account_manager.Prelude.{
  ok, err, Result, ◌>>=◌, Ctx, live, live_on, conflict, not_found, invalid, pos, inc64, ℕ, suc, ◌+◌,
  Bool, true, false, Option, none, some, [], ◌∷◌, ◌++◌, not, Text, text_eq, List, Map, lookup, has,
  insert, if◌then◌else◌,
}
use account_manager.Domain.{
  Mailbox, MailboxCredential, MailboxPickupKey, PlatformAccount, PlatformAccountCredential,
  MailboxImportItem, MailboxImportResult, ConflictStrategy, Time,
}
use account_manager.Domain.ConflictStrategy.{skip, update, fail, other}
use account_manager.Memory.{
  Store, mailbox_identity, credential_identity, platform_credential_identity,
}
use account_manager.Memory.PickupKeys.{hex}
use account_manager.Memory.Accounts.{merge_platform_credential}

-- the copies of the maps
pub record Staged : Type 0 where
  pub mailboxes : Map Mailbox
  pub identities : Map Text
  pub credentials : Map MailboxCredential
  pub accounts : Map PlatformAccount
  pub platform_credentials : Map PlatformAccountCredential
  pub pickup_keys : Map MailboxPickupKey
  pub pickup_by_digest : Map Text

-- The loops that copy the maps. A map is a value here, so its copy is the map itself; that Go's maps are
-- shared where they are not copied is not modelled.
unfoldable pub stage : Store → Staged
stage s = record {
  mailboxes = s.mailboxes;
  identities = s.mailbox_by_identity;
  credentials = s.credentials;
  accounts = s.accounts;
  platform_credentials = s.platform_credentials;
  pickup_keys = s.pickup_keys;
  pickup_by_digest = s.pickup_by_digest;
}

unfoldable pub commit : Staged → Store → Store
commit t s = record s {
  mailboxes = t.mailboxes;
  mailbox_by_identity = t.identities;
  credentials = t.credentials;
  accounts = t.accounts;
  platform_credentials = t.platform_credentials;
  pickup_keys = t.pickup_keys;
  pickup_by_digest = t.pickup_by_digest;
}

-- the batch so far: the copies and the counters
pub record Progress : Type 0 where
  pub staged : Staged
  pub result : MailboxImportResult

-- `byDigest[digest]` is there: the key must belong to the same mailbox
unfoldable pub same_owner : Option MailboxPickupKey → Text → Bool
same_owner none mailbox_id = text_eq [] mailbox_id
same_owner (some key) mailbox_id = text_eq key.mailbox_id mailbox_id

unfoldable pub add_pickup_key : Option Text → MailboxPickupKey → Text → Staged → Result Staged
unfolding same_owner
add_pickup_key (some existing_id) key mailbox_id t =
    if same_owner (lookup existing_id t.pickup_keys) mailbox_id then ok t else err conflict
add_pickup_key none key mailbox_id t =
    if has key.id t.pickup_keys
    then err conflict
    else ok (record t {
      pickup_keys = insert key.id (record key { mailbox_id = mailbox_id }) t.pickup_keys;
      pickup_by_digest = insert (hex key.digest) key.id t.pickup_by_digest;
    })

-- applyImportedPickupKey
unfoldable pub apply_imported_pickup_key : Option MailboxPickupKey → Text → Staged → Result Staged
unfolding add_pickup_key
apply_imported_pickup_key none mailbox_id t = ok t
apply_imported_pickup_key (some key) mailbox_id t =
    add_pickup_key (lookup (hex key.digest) t.pickup_by_digest) key mailbox_id t

-- `account.CreatedAt` of an account that is there already is kept
unfoldable pub merge_account : Option PlatformAccount → PlatformAccount → PlatformAccount
merge_account none account = account
merge_account (some current) account = record account { created_at = current.created_at }

unfoldable pub store_platform_credential :
    Option PlatformAccountCredential
    → Text
    → Map PlatformAccountCredential
    → Map PlatformAccountCredential
store_platform_credential none account_id m = m
store_platform_credential (some given) account_id m =
    let credential = record given { platform_account_id = account_id } in
    let key = platform_credential_identity account_id credential.kind in
    insert key (merge_platform_credential (lookup key m) credential) m

-- applyImportedPlatform
unfoldable pub apply_imported_platform :
    Option PlatformAccount → Option PlatformAccountCredential → Text → Staged → Staged
unfolding merge_account store_platform_credential
apply_imported_platform none credential mailbox_id t = t
apply_imported_platform (some given) credential mailbox_id t =
    let account =
      merge_account (lookup given.id t.accounts) (record given { mailbox_id = mailbox_id }) in
    record t {
      accounts = insert account.id account t.accounts;
      platform_credentials = store_platform_credential credential account.id t.platform_credentials;
    }

unfoldable pub merge_credential : Option MailboxCredential → MailboxCredential → MailboxCredential
merge_credential none c = record c { version = pos 1 }
merge_credential (some current) c = record c {
  id = current.id;
  version = inc64 current.version;
  created_at = current.created_at;
}

-- the credential of an item that updates a mailbox
unfoldable pub update_credential : Option MailboxCredential → Text → Staged → Staged
unfolding merge_credential
update_credential none mailbox_id t = t
update_credential (some given) mailbox_id t =
    let credential = record given { mailbox_id = mailbox_id } in
    let key = credential_identity mailbox_id credential.kind in
    record t {
      credentials =
          insert key (merge_credential (lookup key t.credentials) credential) t.credentials;
    }

-- the credential of an item that creates a mailbox
unfoldable pub create_credential : Option MailboxCredential → Text → Staged → Staged
create_credential none mailbox_id t = t
create_credential (some given) mailbox_id t =
    let credential = record given { mailbox_id = mailbox_id; version = pos 1 } in
    record t {
      credentials =
          insert (credential_identity mailbox_id credential.kind) credential t.credentials;
    }

-- `existing.CreatedAt`, of a mailbox that may be missing
unfoldable pub created_at_of : Option Mailbox → Time
created_at_of none = 0
created_at_of (some m) = m.created_at

-- the end of both branches: the platform account and the pickup key
unfoldable pub finish_item :
    MailboxImportItem → Text → Staged → MailboxImportResult → Result Progress
finish_item item mailbox_id t result = do
  t' ←
      apply_imported_pickup_key item.pickup_key mailbox_id
        (apply_imported_platform item.platform_account item.platform_credential mailbox_id t)
  ok (record { staged = t'; result = result })

-- case domain.ConflictUpdate
unfoldable pub update_existing : MailboxImportItem → Text → Progress → Result Progress
unfolding created_at_of update_credential finish_item
update_existing item existing_id p =
    let t = p.staged in
    let updated = record (item.mailbox) {
      id = existing_id;
      created_at = created_at_of (lookup existing_id t.mailboxes);
    } in
    let t' = record t { mailboxes = insert existing_id updated t.mailboxes } in
    finish_item item existing_id (update_credential item.credential existing_id t')
      (record (p.result) {
        updated = p.result.updated + 1;
        mailbox_ids = p.result.mailbox_ids ++ existing_id ∷ [];
      })

-- the mailbox is new
unfoldable pub create_new : MailboxImportItem → Progress → Result Progress
unfolding create_credential finish_item
create_new item p =
    let t = p.staged in
    let m = item.mailbox in
    if has m.id t.mailboxes
    then err conflict
    else let t' = record t {
      mailboxes = insert m.id m t.mailboxes;
      identities = insert (mailbox_identity m.provider m.normalized_address) m.id t.identities;
    } in
      finish_item item m.id (create_credential item.credential m.id t') (record (p.result) {
        created = p.result.created + 1;
        mailbox_ids = p.result.mailbox_ids ++ m.id ∷ [];
      })

unfoldable pub import_over :
    ConflictStrategy → Option Text → MailboxImportItem → Progress → Result Progress
unfolding update_existing create_new
import_over strategy none item p = create_new item p
import_over skip (some existing_id) item p =
    ok (record p { result = record (p.result) { skipped = p.result.skipped + 1 } })
import_over fail (some existing_id) item p = err conflict
import_over update (some existing_id) item p = update_existing item existing_id p
import_over (other name) (some existing_id) item p = ok p

-- one round of the loop
unfoldable pub import_item : ConflictStrategy → MailboxImportItem → Progress → Result Progress
unfolding import_over
import_item strategy item p =
    import_over strategy
      (lookup (mailbox_identity item.mailbox.provider item.mailbox.normalized_address)
        p.staged.identities)
      item p

-- the loop; `ctx n` is what `ctx.Err()` returns at the n-th question
unfoldable pub import_items :
    (ℕ → Ctx) → ℕ → ConflictStrategy → List MailboxImportItem → Progress → Result Progress
import_items ctx n strategy [] p = ok p
import_items ctx n strategy (item ∷ items) p =
    live (ctx n) (import_item strategy item p >>= import_items ctx (suc n) strategy items)

unfoldable pub no_result : MailboxImportResult
no_result = record { created = 0; updated = 0; skipped = 0; mailbox_ids = [] }

unfoldable pub initial_progress : Store → Progress
unfolding no_result stage
initial_progress s = record { staged = stage s; result = no_result }

unfoldable pub conclude : Result Progress → Store → Result MailboxImportResult × Store
unfolding commit
conclude (err e) s = (err e, s)
conclude (ok p) s = (ok p.result, commit p.staged s)

abbrev pub is_known : ConflictStrategy → Bool
is_known (other name) = false
is_known _ = true

-- Store.ImportMailboxes
unfoldable pub import_mailboxes :
    (ℕ → Ctx)
    → List MailboxImportItem
    → ConflictStrategy
    → Store
    → Result MailboxImportResult × Store
unfolding conclude initial_progress
import_mailboxes ctx items strategy s =
    if not (is_known strategy)
    then (err invalid, s)
    else live_on (ctx 0) s (conclude (import_items ctx 1 strategy items (initial_progress s)) s)
