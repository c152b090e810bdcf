-- ===== src/Memory/Formats.antt =====
-- MailboxFormatRepository of memory/store.go: formats with unique names, versioned.
pub mod Optimistic
use account_manager.Prelude.{
  ok, err, Result, Ctx, live, live_on, found, conflict, not_found, ℤ, pos, eq_ℤ, inc64, Bool, false,
  ◌||◌, ◌&&◌, Option, none, some, [], ◌∷◌, not, Text, text_eq, text_ltb, List, Map, any_value,
  lookup, has, insert, values, sort_by, if◌then◌else◌,
}
use account_manager.Domain.{MailboxFormat}
use account_manager.Ports.{ListOptions, paginate}
use account_manager.Memory.{Store}

-- Store.CreateMailboxFormat
unfoldable pub create_mailbox_format : Ctx → MailboxFormat → Store → Result (Unit {0}) × Store
create_mailbox_format ctx format s = live_on ctx s (
    if has format.id s.formats
    then (err conflict, s)
    else if any_value (λ existing. text_eq existing.name format.name) s.formats
    then (err conflict, s)
    else let saved = record format { version = pos 1 } in
      (ok tt, record s { formats = insert format.id saved s.formats }))

-- Store.GetMailboxFormat
unfoldable pub get_mailbox_format : Ctx → Text → Store → Result MailboxFormat
get_mailbox_format ctx id s = live ctx (found (lookup id s.formats))

by_name : MailboxFormat → MailboxFormat → Bool
by_name a b = if text_eq a.name b.name then text_ltb a.id b.id else text_ltb a.name b.name

-- Store.ListMailboxFormats
unfoldable pub list_mailbox_formats : Ctx → ListOptions → Store → Result (List MailboxFormat)
unfolding by_name
list_mailbox_formats ctx options s =
    live ctx (ok (paginate (sort_by by_name (values s.formats)) options))

-- the loop of UpdateMailboxFormat over the other formats
unfoldable pub name_taken : Text → Text → Map MailboxFormat → Bool
name_taken id name [] = false
name_taken id name ((key, existing) ∷ m) =
    (not (text_eq key id) && text_eq existing.name name) || name_taken id name m

unfoldable pub update_over :
    Option MailboxFormat → MailboxFormat → ℤ → Store → Result (Unit {0}) × Store
unfolding name_taken
update_over none format expected s = (err not_found, s)
update_over (some current) format expected s =
    if not (eq_ℤ current.version expected)
    then (err conflict, s)
    else if name_taken format.id format.name s.formats
    then (err conflict, s)
    else let saved = record format {
      version = inc64 current.version;
      created_at = current.created_at;
    } in
      (ok tt, record s { formats = insert format.id saved s.formats })

-- Store.UpdateMailboxFormat
unfoldable pub update_mailbox_format : Ctx → MailboxFormat → ℤ → Store → Result (Unit {0}) × Store
unfolding update_over
update_mailbox_format ctx format expected s =
    live_on ctx s (update_over (lookup format.id s.formats) format expected s)
