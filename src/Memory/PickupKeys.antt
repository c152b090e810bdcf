-- ===== src/Memory/PickupKeys.antt =====
-- PickupKeyRepository of memory/store.go, with the index by the digest in hex.
pub mod Life
use account_manager.Prelude.{
  ok, err, Result, ◌>>=◌, Ctx, live, live_on, found, conflict, not_found, ℕ, ◌+◌, ◌-◌, ◌/◌, ◌%◌,
  ltb, Bool, true, false, ◌||◌, ◌&&◌, Option, none, some, get_or, [], ◌∷◌, not, Text, text_eq, List,
  keep_if, lookup, has, insert, values, sort_by, if◌then◌else◌,
}
use account_manager.Domain.{MailboxPickupKey, Bytes, Time}
use account_manager.Ports.{ListOptions, paginate}
use account_manager.Memory.{Store}

hex_digit : ℕ → ℕ
hex_digit n = if ltb n 10 then n + b'0' else n - 10 + b'a'

-- hex.EncodeToString
unfoldable pub hex : Bytes → Text
unfolding hex_digit
hex [] = []
hex (b ∷ bs) = hex_digit (b / 16) ∷ hex_digit (b % 16) ∷ hex bs

-- Store.CreatePickupKey
unfoldable pub create_pickup_key : Ctx → MailboxPickupKey → Store → Result (Unit {0}) × Store
create_pickup_key ctx key s =
    let digest = hex key.digest in
    live_on ctx s (
      if not (has key.mailbox_id s.mailboxes)
      then (err not_found, s)
      else if has key.id s.pickup_keys
      then (err conflict, s)
      else if has digest s.pickup_by_digest
      then (err conflict, s)
      else (
        ok tt,
        record s {
          pickup_keys = insert key.id key s.pickup_keys;
          pickup_by_digest = insert digest key.id s.pickup_by_digest;
        },
      ))

-- domain.MailboxPickupKey{}, what a map read gives for a key that is not there
zero_key : MailboxPickupKey
zero_key = record {
  id = [];
  mailbox_id = [];
  digest = [];
  encrypted_token = [];
  key_version = [];
  prefix = [];
  label = [];
  expires_at = none;
  revoked_at = none;
  created_at = 0;
}

-- `!bytes.Equal(key.Digest, digest)` gives ErrNotFound
check_digest : MailboxPickupKey → Bytes → Result MailboxPickupKey
check_digest key digest = if text_eq key.digest digest then ok key else err not_found

-- Store.FindPickupKeyByDigest
unfoldable pub find_pickup_key_by_digest : Ctx → Bytes → Store → Result MailboxPickupKey
unfolding check_digest zero_key
find_pickup_key_by_digest ctx digest s = live ctx do
  id ← found (lookup (hex digest) s.pickup_by_digest)
  check_digest (get_or (lookup id s.pickup_keys) zero_key) digest

unfoldable pub revoke_found :
    Option MailboxPickupKey → Text → Text → Time → Store → Result (Unit {0}) × Store
revoke_found none mailbox_id key_id now s = (err not_found, s)
revoke_found (some key) mailbox_id key_id now s =
    if not (text_eq key.mailbox_id mailbox_id) then (err not_found, s) else elim key.revoked_at [
      | none ↦
          let revoked = record key { revoked_at = some now } in
          (ok tt, record s { pickup_keys = insert key_id revoked s.pickup_keys })
      | some _ ↦ (ok tt, s)
    ]

-- Store.RevokePickupKey, at the time `now`
unfoldable pub revoke_pickup_key : Ctx → Text → Text → Time → Store → Result (Unit {0}) × Store
unfolding revoke_found
revoke_pickup_key ctx mailbox_id key_id now s =
    live_on ctx s (revoke_found (lookup key_id s.pickup_keys) mailbox_id key_id now s)

-- Store.ListPickupKeys
unfoldable pub list_pickup_keys : Ctx → Text → ListOptions → Store → Result (List MailboxPickupKey)
list_pickup_keys ctx mailbox_id options s = live ctx (
    ok (
      paginate
        (sort_by (λ a b. ltb b.created_at a.created_at)
          (keep_if (λ k. text_eq k.mailbox_id mailbox_id) (values s.pickup_keys)))
        options))
