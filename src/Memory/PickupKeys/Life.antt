-- ===== src/Memory/PickupKeys/Life.antt =====
-- A pickup key from its creation to its revocation.
use account_manager.Prelude.{
  lookup-insert_self, ◌≡◌, refl, none, some, false, inl, inr, Bool-cases, has, lookup, insert, ok,
  err, Error, conflict, true, has-insert_self, ap, ◌∙◌, not_found, err-ne-ok, Text, text_eq,
  text_eq_iff,
}
use account_manager.Domain.{MailboxPickupKey, Bytes, Time}
use account_manager.Memory.{Store}
use account_manager.Memory.PickupKeys.{
  hex, create_pickup_key, check_digest, find_pickup_key_by_digest, revoke_found, revoke_pickup_key,
}

-- What a find gives for a digest that leads to a stored key.
find_of_index :
    (k : MailboxPickupKey) (i : Text) (s : Store)
    → lookup (hex k.digest) s.pickup_by_digest ≡ some i
    → lookup i s.pickup_keys ≡ some k
    → find_pickup_key_by_digest none k.digest s ≡ ok k
unfolding find_pickup_key_by_digest check_digest
find_of_index k i s p q = rw (p, q, (text_eq_iff k.digest k.digest).1 refl) refl

-- A key whose digest is taken is not created.
create_pickup_key-taken :
    (k : MailboxPickupKey) (digest : Bytes) (s : Store)
    → k.digest ≡ digest
    → has (hex digest) s.pickup_by_digest ≡ true
    → (e : Error) × (create_pickup_key none k s ≡ (err e, s))
unfolding create_pickup_key
create_pickup_key-taken k digest s same taken = elim (Bool-cases (has k.mailbox_id s.mailboxes)) [
  | inr missing ↦ rw missing (not_found, refl)
  | inl there ↦ elim (Bool-cases (has k.id s.pickup_keys)) [
    | inl known ↦ rw (there, known) (conflict, refl)
    | inr fresh ↦
        rw (there, fresh, ap (λ d. has (hex d) s.pickup_by_digest) same ∙ taken) (conflict, refl)
  ]
]

-- A pickup key that was just created is found by its digest, as it was given; once it is revoked, it is
-- found as revoked at that time, and a further revocation changes nothing; to revoke it under another
-- mailbox fails and changes nothing; and, before and after the revocation, the creation of any key
-- with the same digest fails and changes nothing.
pub create_pickup_key-life :
    (k k' : MailboxPickupKey) (other : Text) (now later : Time) (s : Store)
    → (create_pickup_key none k s).0 ≡ ok tt
    → k.revoked_at ≡ none
    → k'.digest ≡ k.digest
    → text_eq k.mailbox_id other ≡ false
    → let s' = (create_pickup_key none k s).1 in
      let s'' = (revoke_pickup_key none k.mailbox_id k.id now s').1 in
      (find_pickup_key_by_digest none k.digest s' ≡ ok k)
      × (find_pickup_key_by_digest none k.digest s'' ≡ ok (record k { revoked_at = some now }))
      × (revoke_pickup_key none k.mailbox_id k.id later s'' ≡ (ok tt, s''))
      × (revoke_pickup_key none other k.id now s' ≡ (err not_found, s'))
      × ((e : Error) × (create_pickup_key none k' s' ≡ (err e, s')))
      × ((e : Error) × (create_pickup_key none k' s'' ≡ (err e, s'')))
unfolding create_pickup_key revoke_pickup_key revoke_found
create_pickup_key-life k k' other now later s done active same apart =
    elim (Bool-cases (has k.mailbox_id s.mailboxes)) [
      | inr missing ↦ absurd (err-ne-ok (rw missing at done))
      | inl there ↦ elim (Bool-cases (has k.id s.pickup_keys)) [
        | inl taken ↦ absurd (err-ne-ok (rw (there, taken) at done))
        | inr fresh ↦ elim (Bool-cases (has (hex k.digest) s.pickup_by_digest)) [
          | inl known ↦ absurd (err-ne-ok (rw (there, fresh, known) at done))
          | inr new ↦
              rw (there, fresh, new)
                ((
                  find_of_index k k.id _ (lookup-insert_self (hex k.digest) k.id s.pickup_by_digest)
                      (lookup-insert_self k.id k s.pickup_keys),
                  rw
                      (
                        lookup-insert_self k.id k s.pickup_keys,
                        (text_eq_iff k.mailbox_id k.mailbox_id).1 refl,
                        active,
                      )
                      (find_of_index (record k { revoked_at = some now }) k.id _
                        (lookup-insert_self (hex k.digest) k.id s.pickup_by_digest)
                        (lookup-insert_self k.id (record k { revoked_at = some now })
                          (insert k.id k s.pickup_keys))),
                  rw
                      (
                        lookup-insert_self k.id k s.pickup_keys,
                        (text_eq_iff k.mailbox_id k.mailbox_id).1 refl,
                        active,
                        lookup-insert_self k.id (record k { revoked_at = some now })
                            (insert k.id k s.pickup_keys),
                        (text_eq_iff k.mailbox_id k.mailbox_id).1 refl,
                      )
                      refl,
                  rw (lookup-insert_self k.id k s.pickup_keys, apart) refl,
                  create_pickup_key-taken k' k.digest _ same
                      (has-insert_self (hex k.digest) k.id s.pickup_by_digest),
                  rw
                      (
                        lookup-insert_self k.id k s.pickup_keys,
                        (text_eq_iff k.mailbox_id k.mailbox_id).1 refl,
                        active,
                      )
                      (create_pickup_key-taken k' k.digest _ same
                        (has-insert_self (hex k.digest) k.id s.pickup_by_digest)),
                ))
        ]
      ]
    ]
