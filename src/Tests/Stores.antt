-- ===== src/Tests/Stores.antt =====
-- Tests of the mailboxes, their imports, the settings and the formats.
use account_manager.Prelude.{
  Bool-cases, inl, inr, subst, some-inj, ◌+◌, any_value, ◌≡◌, refl, ℕ, pos, true, none, some, ok,
  err, Error, false, conflict, Ctx, codes, [], ◌∷◌, length, values, lookup, text_eq, has, insert,
  trim_space,
}
use account_manager.Domain.{Mailbox, MailboxImportResult}
use account_manager.Domain.ConflictStrategy.{skip, update}
use account_manager.Memory.{Store, new, setting_at, join_key}
use account_manager.Memory.Mailboxes.{create_mailbox, get_mailbox_by_identity}
use account_manager.Memory.Mailboxes.Directory.{
  Creates, Finds, HasKeys, IsKey, directory, mailboxes-directory,
}
use account_manager.Memory.Mailboxes.RoundTrip.{create_mailbox-get}
use account_manager.Memory.PickupKeys.{hex, create_pickup_key, revoke_pickup_key}
use account_manager.Memory.PickupKeys.Life.{create_pickup_key-life}
use account_manager.Memory.Settings.{save_current, save_app_setting}
use account_manager.Memory.Settings.Optimistic.{save_app_setting-once}
use account_manager.Memory.Formats.{
  create_mailbox_format, update_over, update_mailbox_format, name_taken,
}
use account_manager.Memory.Formats.Optimistic.{update_mailbox_format-once}
use account_manager.Memory.Import.{
  stage, commit, same_owner, add_pickup_key, apply_imported_pickup_key, apply_imported_platform,
  update_credential, create_credential, finish_item, update_existing, create_new, import_over,
  import_item, import_items, initial_progress, no_result, conclude, import_mailboxes,
}
use account_manager.Memory.Import.Again.{import_mailboxes-again}
use account_manager.Memory.Import.Accounting.{import_mailboxes-accounts}
use account_manager.Memory.Consistency.{IsConsistent, new-IsConsistent}
use account_manager.Memory.Consistency.Mailboxes.{create_mailbox-IsConsistent}
use account_manager.Memory.Consistency.Reach.{perform_all-IsConsistent}
use account_manager.Memory.Operations.{Library, mailbox_created, pickup_key_created, perform_all}
use account_manager.Tests.Data.{box, pickup, format, item, setting}

abbrev always : ℕ → Ctx
always n = none

abbrev accepting : Library
accepting = record {
  json_valid = λ _. true;
  is_object = λ _. true;
  to_lower = λ t. t;
  equal_fold = λ t u. text_eq t u;
}

abbrev imported : MailboxImportResult
imported = record { created = 1; updated = 0; skipped = 0; mailbox_ids = codes "m1" ∷ [] }

import_once : (import_mailboxes always (item ∷ []) update (new 0)).0 ≡ ok imported
unfolding new setting_at has lookup text_eq insert join_key hex stage commit same_owner
    add_pickup_key apply_imported_pickup_key apply_imported_platform update_credential
    create_credential finish_item update_existing create_new import_over import_item import_items
    initial_progress no_result conclude import_mailboxes
import_once = refl

perform_all-IsConsistent_example :
    IsConsistent (
      perform_all accepting
        (mailbox_created none box ∷ pickup_key_created none pickup ∷ [])
        (new 0))
perform_all-IsConsistent_example =
    perform_all-IsConsistent accepting
      (mailbox_created none box ∷ pickup_key_created none pickup ∷ []) 0

-- The store with one mailbox, and another mailbox whose provider and address run together alike.
abbrev one_box : Store
one_box = (create_mailbox none box (new 0)).1

abbrev other_box : Mailbox
other_box = record box {
  id = codes "m2";
  provider = codes "gmai";
  normalized_address = codes "la@x.org";
}

one_box-HasKeys : HasKeys one_box
unfolding new setting_at has insert lookup create_mailbox
one_box-HasKeys i b found = elim (Bool-cases (text_eq box.id i)) [
  | inl e ↦
      subst (λ (m : Mailbox). IsKey m.provider) (some-inj (rw e at found))
        (refl, (refl, (refl, (refl, (refl, tt)))))
  | inr e ↦ let none_found = rw e at found in cc
]

mailboxes-directory_example :
    Creates other_box
      (directory one_box)
      (create_mailbox none other_box one_box).0
      (directory (create_mailbox none other_box one_box).1)
    × Finds
        (codes "gmail")
        (codes "a@x.org")
        (directory one_box)
        (get_mailbox_by_identity none (codes "gmail") (codes "a@x.org") one_box)
mailboxes-directory_example =
    mailboxes-directory other_box (codes "gmail") (codes "a@x.org") one_box
      (create_mailbox-IsConsistent none box (new 0) (new-IsConsistent 0)) one_box-HasKeys
      (refl, (refl, (refl, (refl, tt)))) (refl, (refl, (refl, (refl, (refl, tt)))))

import_mailboxes-again_example :
    import_mailboxes always (item ∷ []) skip (import_mailboxes always (item ∷ []) update (new 0)).1
    ≡ (
      ok (record { created = 0; updated = 0; skipped = 1; mailbox_ids = [] }),
      (import_mailboxes always (item ∷ []) update (new 0)).1,
    )
import_mailboxes-again_example =
    import_mailboxes-again always always (item ∷ []) update (new 0) imported import_once (λ _. refl)

import_mailboxes-accounts_example :
    (1 + 0 + 0 ≡ length (item ∷ []))
    × (length imported.mailbox_ids ≡ 1 + 0)
    × (length (values (import_mailboxes always (item ∷ []) update (new 0)).1.mailboxes)
        ≡ length (values (new 0).mailboxes) + 1)
import_mailboxes-accounts_example =
    import_mailboxes-accounts always (item ∷ []) update (new 0) imported (new-IsConsistent 0)
      import_once

create_box : (create_mailbox none box (new 0)).0 ≡ ok tt
unfolding new setting_at has create_mailbox
create_box = refl

create_mailbox-get_example :
    get_mailbox_by_identity none
      (codes "gmail")
      (codes "a@x.org")
      (create_mailbox none box (new 0)).1
    ≡ ok (some box)
create_mailbox-get_example = (create_mailbox-get box (new 0) create_box).1

create_pickup : (create_pickup_key none pickup (create_mailbox none box (new 0)).1).0 ≡ ok tt
unfolding new setting_at has insert text_eq create_mailbox create_pickup_key
create_pickup = refl

differ : text_eq pickup.mailbox_id (codes "m2") ≡ false
unfolding text_eq
differ = refl

create_pickup_key-life_example :
    let s = (create_mailbox none box (new 0)).1 in
    let s' = (create_pickup_key none pickup s).1 in
    (e : Error) × (create_pickup_key none
        (record pickup { id = codes "k2" })
        (revoke_pickup_key none pickup.mailbox_id pickup.id 8 s').1
      ≡ (err e, (revoke_pickup_key none pickup.mailbox_id pickup.id 8 s').1))
create_pickup_key-life_example =
    (create_pickup_key-life pickup (record pickup { id = codes "k2" }) (codes "m2") 8 9
      (create_mailbox none box (new 0)).1 create_pickup refl refl differ).5

save_setting : (save_app_setting (λ _. true) none setting (pos 0) (new 0)).0 ≡ ok tt
unfolding new setting_at save_app_setting save_current lookup text_eq trim_space
save_setting = refl

save_app_setting-once_example :
    (save_app_setting
      (λ _. true)
      none
      setting
      (pos 0)
      (save_app_setting (λ _. true) none setting (pos 0) (new 0)).1).1
    ≡ (save_app_setting (λ _. true) none setting (pos 0) (new 0)).1
save_app_setting-once_example =
    (save_app_setting-once (λ _. true) setting setting (pos 0) (new 0) save_setting refl).1

update_format :
    (update_mailbox_format none format (pos 1) (create_mailbox_format none format (new 0)).1).0
    ≡ ok tt
unfolding new setting_at has lookup insert text_eq create_mailbox_format update_mailbox_format
    update_over name_taken any_value
update_format = refl

update_mailbox_format-once_example :
    let s = (create_mailbox_format none format (new 0)).1 in
    let s' = (update_mailbox_format none format (pos 1) s).1 in
    update_mailbox_format none format (pos 1) s' ≡ (err conflict, s')
update_mailbox_format-once_example =
    (update_mailbox_format-once format format (pos 1) (create_mailbox_format none format (new 0)).1
      update_format refl).4
