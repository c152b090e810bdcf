-- ===== src/Memory/Mailboxes.antt =====
-- The mailboxes of memory/store.go, with the index by provider and normalized address.
pub mod RoundTrip
pub mod Directory
use account_manager.Prelude.{
  ok, err, Result, ◌>>=◌, Ctx, live, live_on, found, conflict, ℕ, Option, Bool, true, ltb, ◌==◌,
  Text, text_ltb, List, length, lookup, has, insert, values, sort_by, if◌then◌else◌,
}
use account_manager.Domain.{Mailbox, ProviderKey}
use account_manager.Ports.{ListOptions, paginate}
use account_manager.Memory.{Store, mailbox_identity}

-- Store.CreateMailbox
unfoldable pub create_mailbox : Ctx → Mailbox → Store → Result (Unit {0}) × Store
create_mailbox ctx m s =
    let identity = mailbox_identity m.provider m.normalized_address in
    live_on ctx s (
      if has m.id s.mailboxes
      then (err conflict, s)
      else if has identity s.mailbox_by_identity
      then (err conflict, s)
      else (
        ok tt,
        record s {
          mailboxes = insert m.id m s.mailboxes;
          mailbox_by_identity = insert identity m.id s.mailbox_by_identity;
        },
      ))

-- Store.GetMailbox
unfoldable pub get_mailbox : Ctx → Text → Store → Result Mailbox
get_mailbox ctx id s = live ctx (found (lookup id s.mailboxes))

-- Store.GetMailboxByIdentity. An index entry whose mailbox is missing gives Go's zero value;
-- `none` stands for it.
unfoldable pub get_mailbox_by_identity : Ctx → ProviderKey → Text → Store → Result (Option Mailbox)
get_mailbox_by_identity ctx provider address s = live ctx do
  id ← found (lookup (mailbox_identity provider address) s.mailbox_by_identity)
  ok (lookup id s.mailboxes)

-- newest first, then by id
pub newer : Mailbox → Mailbox → Bool
newer a b =
    if a.created_at == b.created_at then text_ltb a.id b.id else ltb b.created_at a.created_at

-- Store.ListMailboxes
unfoldable pub list_mailboxes : Ctx → ListOptions → Store → Result (List Mailbox)
unfolding newer
list_mailboxes ctx options s = live ctx (ok (paginate (sort_by newer (values s.mailboxes)) options))

-- Store.CountMailboxes
unfoldable pub count_mailboxes : Ctx → Store → Result ℕ
count_mailboxes ctx s = live ctx (ok (length (values s.mailboxes)))
