-- ===== src/Memory/Connections.antt =====
-- ProviderConnectionRepository of memory/store.go, with the index by provider and name.
use account_manager.Prelude.{
  ok, err, Result, ◌>>=◌, Ctx, live, live_on, found, not_found, invalid, conflict, ℤ, pos,
  is_non_positive, eq_ℤ, inc64, Option, none, some, Bool, true, false, ◌||◌, ◌&&◌, not, Text,
  text_eq, text_ltb, codes, List, lookup, has, insert, delete, values, keep_if, sort_by, is_blank,
  is_empty, if◌then◌else◌,
}
use account_manager.Domain.{ProviderConnection, ProviderKey, Bytes}
use account_manager.Ports.{ListOptions, ProviderConnectionFilter, paginate}
use account_manager.Memory.{Store, provider_connection_identity}

-- validateProviderConnection
unfoldable pub validate_provider_connection : ProviderConnection → Result (Unit {0})
validate_provider_connection c =
    if is_blank c.id || is_blank c.provider || is_blank c.name
    then err invalid
    else if is_empty c.encrypted_config || is_blank c.key_version
    then err invalid
    else if is_non_positive c.version
    then err invalid
    else ok tt

-- Store.GetProviderConnection
unfoldable pub get_provider_connection : Ctx → Text → Store → Result ProviderConnection
get_provider_connection ctx id s = live ctx (found (lookup id s.provider_connections))

-- Store.GetProviderConnectionByProviderAndName. An index entry whose connection is missing gives
-- Go's zero value; `none` stands for it.
unfoldable pub get_provider_connection_by_provider_and_name :
    Ctx → ProviderKey → Text → Store → Result (Option ProviderConnection)
get_provider_connection_by_provider_and_name ctx provider name s = live ctx do
  id ← found (lookup (provider_connection_identity provider name) s.provider_by_identity)
  ok (lookup id s.provider_connections)

passes : ProviderConnectionFilter → ProviderConnection → Bool
passes filter c =
    if not (is_empty filter.provider) && not (text_eq c.provider filter.provider)
    then false
    else elim filter.enabled [ none ↦ true | some true ↦ c.enabled | some false ↦ not c.enabled ]

before : ProviderConnection → ProviderConnection → Bool
before a b =
    if not (text_eq a.provider b.provider)
    then text_ltb a.provider b.provider
    else if not (text_eq a.name b.name)
    then text_ltb a.name b.name
    else text_ltb a.id b.id

-- Store.ListProviderConnections
unfoldable pub list_provider_connections :
    Ctx → ProviderConnectionFilter → ListOptions → Store → Result (List ProviderConnection)
unfolding passes before
list_provider_connections ctx filter options s = live ctx (
    ok
      (paginate (sort_by before (keep_if (passes filter) (values s.provider_connections))) options))

-- the part of CreateProviderConnection under the lock
unfoldable pub create_checked : ProviderConnection → Store → Result (Unit {0}) × Store
create_checked c s =
    let identity = provider_connection_identity c.provider c.name in
    if has c.id s.provider_connections
    then (err conflict, s)
    else if has identity s.provider_by_identity
    then (err conflict, s)
    else (
      ok tt,
      record s {
        provider_connections = insert c.id c s.provider_connections;
        provider_by_identity = insert identity c.id s.provider_by_identity;
      },
    )

unfoldable pub create_valid :
    Result (Unit {0}) → ProviderConnection → Store → Result (Unit {0}) × Store
unfolding create_checked
create_valid (err e) c s = (err e, s)
create_valid (ok _) c s = create_checked c s

unfoldable pub create_with : Result Bytes → ProviderConnection → Store → Result (Unit {0}) × Store
unfolding create_valid validate_provider_connection
create_with (err e) given s = (err e, s)
create_with (ok metadata) given s =
    let c = record given { version = pos 1; metadata = metadata } in
    create_valid (validate_provider_connection c) c s

-- `id, taken := s.providerByIdentity[newIdentity]; taken && id != connection.ID`
unfoldable pub taken_by_other : Option Text → Text → Bool
taken_by_other none id = false
taken_by_other (some other) id = not (text_eq other id)

unfoldable pub update_valid :
    Result (Unit {0}) → ProviderConnection → ProviderConnection → Store → Result (Unit {0}) × Store
unfolding taken_by_other
update_valid (err e) current c s = (err e, s)
update_valid (ok _) current c s =
    let old_identity = provider_connection_identity current.provider current.name in
    let new_identity = provider_connection_identity c.provider c.name in
    if taken_by_other (lookup new_identity s.provider_by_identity) c.id
    then (err conflict, s)
    else (
      ok tt,
      record s {
        provider_by_identity =
            insert new_identity c.id (delete old_identity s.provider_by_identity);
        provider_connections = insert c.id c s.provider_connections;
      },
    )

unfoldable pub update_current :
    Option ProviderConnection → ProviderConnection → ℤ → Store → Result (Unit {0}) × Store
unfolding update_valid validate_provider_connection
update_current none c expected s = (err not_found, s)
update_current (some current) c expected s =
    if not (text_eq c.provider current.provider)
    then (err invalid, s)
    else if not (eq_ℤ current.version expected)
    then (err conflict, s)
    else let next = record c { version = inc64 current.version; created_at = current.created_at } in
      update_valid (validate_provider_connection next) current next s

unfoldable pub update_with :
    Result Bytes → ProviderConnection → ℤ → Store → Result (Unit {0}) × Store
unfolding update_current
update_with (err e) given expected s = (err e, s)
update_with (ok metadata) given expected s =
    update_current (lookup given.id s.provider_connections) (record given { metadata = metadata })
      expected s

-- `is_object` tells whether json.Unmarshal reads the bytes as a JSON object other than null
module _ (is_object : Bytes → Bool) where
  -- normalizeProviderConnectionMetadata
  unfoldable pub normalize_metadata : Bytes → Result Bytes
  normalize_metadata value =
      if is_empty value then ok (codes "{}") else if is_object value then ok value else err invalid

  -- Store.CreateProviderConnection
  unfoldable pub create_provider_connection :
      Ctx → ProviderConnection → Store → Result (Unit {0}) × Store
  unfolding normalize_metadata create_with
  create_provider_connection ctx given s =
      live_on ctx s (create_with (normalize_metadata given.metadata) given s)

  -- Store.UpdateProviderConnection
  unfoldable pub update_provider_connection :
      Ctx → ProviderConnection → ℤ → Store → Result (Unit {0}) × Store
  unfolding normalize_metadata update_with
  update_provider_connection ctx given expected s =
      live_on ctx s (update_with (normalize_metadata given.metadata) given expected s)
