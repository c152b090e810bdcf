-- ===== src/Memory/Mailboxes/RoundTrip.antt =====
-- A mailbox that was created is found, by its id and by its address.
use account_manager.Prelude.{
  found, lookup-insert_self, ◌≡◌, refl, ap, none, some, true, false, inl, inr, arith, Bool,
  Bool-cases, has, insert, lookup-insert, has-insert_self, ok, err, conflict, err-ne-ok, Text,
  text_eq, if◌then◌else◌,
}
use account_manager.Domain.{Mailbox}
use account_manager.Memory.{Store, mailbox_identity}
use account_manager.Memory.Mailboxes.{create_mailbox, get_mailbox, get_mailbox_by_identity}

either {ℓ} : {A : Type ℓ} (b : Bool) (a : A) → (if b then a else a) ≡ a
either true a = refl
either false a = refl

-- The lookups of a mailbox that was just created give that mailbox.
pub create_mailbox-get :
    (m : Mailbox) (s : Store)
    → (create_mailbox none m s).0 ≡ ok tt
    → let s' = (create_mailbox none m s).1 in
      (get_mailbox none m.id s' ≡ ok m)
      × (get_mailbox_by_identity none m.provider m.normalized_address s' ≡ ok (some m))
      × ((i : Text) → text_eq m.id i ≡ false → get_mailbox none i s' ≡ get_mailbox none i s)
      × ((n : Mailbox)
          → n.provider ≡ m.provider
          → n.normalized_address ≡ m.normalized_address
          → create_mailbox none n s' ≡ (err conflict, s'))
unfolding create_mailbox get_mailbox get_mailbox_by_identity
create_mailbox-get m s done = elim (Bool-cases (has m.id s.mailboxes)) [
  | inl taken ↦ absurd (err-ne-ok (rw taken at done))
  | inr fresh ↦
      elim (Bool-cases
        (has (mailbox_identity m.provider m.normalized_address) s.mailbox_by_identity)) [
          | inl known ↦ absurd (err-ne-ok (rw (fresh, known) at done))
          | inr new ↦
              rw (fresh, new)
                (
                  rw (lookup-insert_self m.id m s.mailboxes) refl,
                  rw
                      (
                        lookup-insert_self (mailbox_identity m.provider m.normalized_address) m.id
                            s.mailbox_by_identity,
                        lookup-insert_self m.id m s.mailboxes,
                      )
                      refl,
                  λ i other. ap found (ground (arith, lookup-insert m.id i m s.mailboxes)),
                  λ n e f.
                      rw
                        (
                          e,
                          f,
                          has-insert_self (mailbox_identity m.provider m.normalized_address) m.id
                              s.mailbox_by_identity,
                        )
                        (either (has n.id (insert m.id m s.mailboxes)) _),
                )
        ]
]
