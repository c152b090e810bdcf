-- ===== src/Memory/Consistency/Mailboxes.antt =====
-- The writes to mailboxes, aliases, credentials and pickup keys keep the store consistent.
use account_manager.Prelude.{
  ◌≡◌, refl, ap, ◌∙◌, none, some, true, inl, inr, Bool-cases, Option-cases, has, lookup, insert,
  Ctx, Text, text_eq, Option, eq_ℤ, inc64, pos,
}
use account_manager.Domain.{Time, Mailbox, MailboxAlias, MailboxCredential, MailboxPickupKey}
use account_manager.Memory.{Store, credential_identity}
use account_manager.Memory.Mailboxes.{create_mailbox}
use account_manager.Memory.Aliases.{create_alias}
use account_manager.Memory.Credentials.{upsert_over, upsert_credential}
use account_manager.Memory.PickupKeys.{create_pickup_key, revoke_found, revoke_pickup_key}
use account_manager.Memory.Index.{IsIndexed-add, IsIndexed-replace}
use account_manager.Memory.Links.{IsAttached-insert, IsAttached-grow}
use account_manager.Memory.Consistency.{IsConsistent, mailbox_key, alias_key, digest_key}

pub create_mailbox-IsConsistent :
    (ctx : Ctx) (m : Mailbox) (s : Store) → IsConsistent s → IsConsistent (create_mailbox ctx m s).1
unfolding create_mailbox
create_mailbox-IsConsistent (some e) m s h = h
create_mailbox-IsConsistent none m s h = elim (Bool-cases (has m.id s.mailboxes)) [
  | inl taken ↦ rw taken h
  | inr new_id ↦ elim (Bool-cases (has (mailbox_key m) s.mailbox_by_identity)) [
    | inl taken ↦ rw (new_id, taken) h
    | inr new_key ↦
        rw (new_id, new_key)
          (assumption (
            h.connections,
            h.aliases,
            IsIndexed-add (λ m. m.id) mailbox_key m s.mailboxes s.mailbox_by_identity new_id new_key
                h.mailboxes,
            IsAttached-grow (λ a. a.mailbox_id) m.id m s.aliases s.mailboxes h.alias_mailboxes,
            IsAttached-grow (λ c. c.mailbox_id) m.id m s.credentials s.mailboxes
                h.credential_mailboxes,
            IsAttached-grow (λ k. k.mailbox_id) m.id m s.pickup_keys s.mailboxes h.pickup_mailboxes,
          ))
  ]
]

pub create_alias-IsConsistent :
    (ctx : Ctx) (a : MailboxAlias) (s : Store)
    → IsConsistent s
    → IsConsistent (create_alias ctx a s).1
unfolding create_alias
create_alias-IsConsistent (some e) a s h = h
create_alias-IsConsistent none a s h = elim (Bool-cases (has a.mailbox_id s.mailboxes)) [
  | inr missing ↦ rw missing h
  | inl there ↦ elim (Bool-cases (has a.id s.aliases)) [
    | inl taken ↦ rw (there, taken) h
    | inr new_id ↦ elim (Bool-cases (has (alias_key a) s.alias_by_identity)) [
      | inl taken ↦ rw (there, new_id, taken) h
      | inr new_key ↦
          rw (there, new_id, new_key)
            (assumption (
              IsIndexed-add (λ a. a.id) alias_key a s.aliases s.alias_by_identity new_id new_key
                  h.aliases,
              IsAttached-insert (λ a. a.mailbox_id) a.id a s.aliases s.mailboxes there
                  h.alias_mailboxes,
            ))
    ]
  ]
]

upsert_over-IsConsistent :
    (o : Option MailboxCredential) (key : Text) (c : MailboxCredential) (s : Store)
    → has c.mailbox_id s.mailboxes ≡ true
    → IsConsistent s
    → IsConsistent (upsert_over o key c s).1
unfolding upsert_over
upsert_over-IsConsistent (some old) key c s there h =
    elim (Bool-cases (eq_ℤ c.version old.version)) [
      | inl e ↦ rw e (
          assumption (
            IsAttached-insert (λ c. c.mailbox_id) key
              (record c { version = inc64 old.version; created_at = old.created_at }) s.credentials
              s.mailboxes there h.credential_mailboxes))
      | inr e ↦ rw e h
    ]
upsert_over-IsConsistent none key c s there h = elim (Bool-cases (eq_ℤ c.version (pos 0))) [
  | inl e ↦ rw e (
      assumption (
        IsAttached-insert (λ c. c.mailbox_id) key (record c { version = pos 1 }) s.credentials
          s.mailboxes there h.credential_mailboxes))
  | inr e ↦ rw e h
]

pub upsert_credential-IsConsistent :
    (ctx : Ctx) (c : MailboxCredential) (s : Store)
    → IsConsistent s
    → IsConsistent (upsert_credential ctx c s).1
unfolding upsert_credential
upsert_credential-IsConsistent (some e) c s h = h
upsert_credential-IsConsistent none c s h = elim (Bool-cases (has c.mailbox_id s.mailboxes)) [
  | inr missing ↦ rw missing h
  | inl there ↦
      let key = credential_identity c.mailbox_id c.kind in
      rw there (upsert_over-IsConsistent (lookup key s.credentials) key c s there h)
]

pub create_pickup_key-IsConsistent :
    (ctx : Ctx) (k : MailboxPickupKey) (s : Store)
    → IsConsistent s
    → IsConsistent (create_pickup_key ctx k s).1
unfolding create_pickup_key
create_pickup_key-IsConsistent (some e) k s h = h
create_pickup_key-IsConsistent none k s h = elim (Bool-cases (has k.mailbox_id s.mailboxes)) [
  | inr missing ↦ rw missing h
  | inl there ↦ elim (Bool-cases (has k.id s.pickup_keys)) [
    | inl taken ↦ rw (there, taken) h
    | inr new_id ↦ elim (Bool-cases (has (digest_key k) s.pickup_by_digest)) [
      | inl taken ↦ rw (there, new_id, taken) h
      | inr new_key ↦
          rw (there, new_id, new_key)
            (assumption (
              IsIndexed-add (λ k. k.id) digest_key k s.pickup_keys s.pickup_by_digest new_id new_key
                  h.pickup_keys,
              IsAttached-insert (λ k. k.mailbox_id) k.id k s.pickup_keys s.mailboxes there
                  h.pickup_mailboxes,
            ))
    ]
  ]
]

revoke_key-IsConsistent :
    (id : Text) (now : Time) (s : Store) (k : MailboxPickupKey)
    → lookup id s.pickup_keys ≡ some k
    → k.id ≡ id
    → IsConsistent s
    → IsConsistent
        (record s { pickup_keys = insert id (record k { revoked_at = some now }) s.pickup_keys })
revoke_key-IsConsistent id now s k found same h = rw (← same) (
    assumption (
      IsIndexed-replace (λ k. k.id) digest_key (record k { revoked_at = some now }) k s.pickup_keys
          s.pickup_by_digest (ap (λ i. lookup i s.pickup_keys) same ∙ found) refl h.pickup_keys,
      IsAttached-insert (λ k. k.mailbox_id) k.id (record k { revoked_at = some now }) s.pickup_keys
          s.mailboxes (h.pickup_mailboxes id k found) h.pickup_mailboxes,
    ))

revoke_found-IsConsistent :
    (o : Option MailboxPickupKey) (mailbox_id id : Text) (now : Time) (s : Store)
    → lookup id s.pickup_keys ≡ o
    → IsConsistent s
    → IsConsistent (revoke_found o mailbox_id id now s).1
unfolding revoke_found
revoke_found-IsConsistent none mailbox_id id now s found h = h
revoke_found-IsConsistent (some k) mailbox_id id now s found h =
    elim (Bool-cases (text_eq k.mailbox_id mailbox_id)) [
      | inr other ↦ rw other h
      | inl mine ↦ rw mine (elim (Option-cases k.revoked_at) [
        | inr (t, e) ↦ rw e h
        | inl e ↦
            rw e (revoke_key-IsConsistent id now s k found (h.pickup_keys.to_index id k found).0 h)
      ])
    ]

pub revoke_pickup_key-IsConsistent :
    (ctx : Ctx) (mailbox_id id : Text) (now : Time) (s : Store)
    → IsConsistent s
    → IsConsistent (revoke_pickup_key ctx mailbox_id id now s).1
unfolding revoke_pickup_key
revoke_pickup_key-IsConsistent (some e) mailbox_id id now s h = h
revoke_pickup_key-IsConsistent none mailbox_id id now s h =
    revoke_found-IsConsistent (lookup id s.pickup_keys) mailbox_id id now s refl h
