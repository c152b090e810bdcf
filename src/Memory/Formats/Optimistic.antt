-- ===== src/Memory/Formats/Optimistic.antt =====
-- Optimistic locking of the mailbox formats.
use account_manager.Prelude.{
  lookup-insert_self, ◌≡◌, refl, none, some, false, inl, inr, ℤ, eq_ℤ, eq_ℤ_iff, inc64, inc64-ne,
  Bool-cases, lookup, insert, ok, err, conflict, err-ne-ok, Option,
}
use account_manager.Domain.{MailboxFormat}
use account_manager.Memory.{Store}
use account_manager.Memory.Formats.{name_taken, update_over, update_mailbox_format}

update_over-once :
    (o : Option MailboxFormat) (f g : MailboxFormat) (v : ℤ) (s : Store)
    → lookup f.id s.formats ≡ o
    → (update_over o f v s).0 ≡ ok tt
    → g.id ≡ f.id
    → let s' = (update_over o f v s).1 in
      (old : MailboxFormat) × (lookup f.id s.formats ≡ some old)
      × (old.version ≡ v)
      × (lookup f.id s'.formats
          ≡ some (record f { version = inc64 v; created_at = old.created_at }))
      × (update_mailbox_format none g v s' ≡ (err conflict, s'))
unfolding update_over update_mailbox_format
update_over-once none f g v s found done same = absurd (err-ne-ok done)
update_over-once (some old) f g v s found done same = elim (Bool-cases (eq_ℤ old.version v)) [
  | inr stale ↦ absurd (err-ne-ok (rw stale at done))
  | inl current ↦ elim (Bool-cases (name_taken f.id f.name s.formats)) [
    | inl taken ↦ absurd (err-ne-ok (rw (current, taken) at done))
    | inr free ↦
        let e : old.version ≡ v = (eq_ℤ_iff old.version v).0 current in
        let saved : MailboxFormat = record f {
          version = inc64 old.version;
          created_at = old.created_at;
        } in
        let stored : lookup f.id (insert f.id saved s.formats) ≡ some saved =
          lookup-insert_self f.id saved s.formats in
        let stale : eq_ℤ (inc64 old.version) v ≡ false = rw (← e) (inc64-ne old.version) in
        rw (current, free, same, stored, stale) (old, found, e, rw e refl, refl)
  ]
]

-- A successful update of a format was made on the version that it expected, and stores the new format
-- with the version after it (which may wrap around) and the old creation time; a second update of the
-- same format that expects the same version is refused as a conflict and changes nothing.
pub update_mailbox_format-once :
    (f g : MailboxFormat) (v : ℤ) (s : Store)
    → (update_mailbox_format none f v s).0 ≡ ok tt
    → g.id ≡ f.id
    → let s' = (update_mailbox_format none f v s).1 in
      (old : MailboxFormat) × (lookup f.id s.formats ≡ some old)
      × (old.version ≡ v)
      × (lookup f.id s'.formats
          ≡ some (record f { version = inc64 v; created_at = old.created_at }))
      × (update_mailbox_format none g v s' ≡ (err conflict, s'))
update_mailbox_format-once f g v s done same =
    unfold update_mailbox_format in
    update_over-once (lookup f.id s.formats) f g v s refl (unfold update_mailbox_format in done)
      same
