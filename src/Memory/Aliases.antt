-- ===== src/Memory/Aliases.antt =====
-- The aliases of memory/store.go, with the index by provider and normalized address.
use account_manager.Prelude.{
  ok, err, Result, Ctx, live, live_on, found, conflict, not_found, ℕ, ◌||◌, not, Text, text_eq,
  text_ltb, List, is_empty, keep_if, count_if, lookup, has, insert, values, sort_by, if◌then◌else◌,
}
use account_manager.Domain.{MailboxAlias}
use account_manager.Ports.{ListOptions, paginate}
use account_manager.Memory.{Store, mailbox_identity}

-- Store.CreateAlias
unfoldable pub create_alias : Ctx → MailboxAlias → Store → Result (Unit {0}) × Store
create_alias ctx a s =
    let identity = mailbox_identity a.provider a.normalized_address in
    live_on ctx s (
      if not (has a.mailbox_id s.mailboxes)
      then (err not_found, s)
      else if has a.id s.aliases
      then (err conflict, s)
      else if has identity s.alias_by_identity
      then (err conflict, s)
      else (
        ok tt,
        record s {
          aliases = insert a.id a s.aliases;
          alias_by_identity = insert identity a.id s.alias_by_identity;
        },
      ))

-- Store.GetAlias
unfoldable pub get_alias : Ctx → Text → Store → Result MailboxAlias
get_alias ctx id s = live ctx (found (lookup id s.aliases))

-- Store.ListAliases
unfoldable pub list_aliases : Ctx → Text → ListOptions → Store → Result (List MailboxAlias)
list_aliases ctx mailbox_id options s = live ctx (
    ok (
      paginate
        (sort_by (λ a b. text_ltb a.id b.id)
          (keep_if (λ a. text_eq a.mailbox_id mailbox_id) (values s.aliases)))
        options))

-- Store.CountAliases
unfoldable pub count_aliases : Ctx → Text → Store → Result ℕ
count_aliases ctx mailbox_id s =
    live ctx (
      ok
        (count_if (λ a. is_empty mailbox_id || text_eq a.mailbox_id mailbox_id) (values s.aliases)))
