-- ===== src/Memory/Consistency/Connections.antt =====
-- The writes to provider connections keep the store consistent.
use account_manager.Prelude.{
  ◌≡◌, refl, none, some, false, inl, inr, arith, Bool, Bool-cases, has, lookup, Ctx, Result, ok,
  err, Option, Text, text_eq, text_eq_iff, ℤ, pos, eq_ℤ, inc64,
}
use account_manager.Domain.{ProviderConnection, Bytes}
use account_manager.Memory.{Store}
use account_manager.Memory.Connections.{
  create_checked, create_valid, create_with, create_provider_connection, normalize_metadata,
  taken_by_other, update_valid, update_current, update_with, update_provider_connection,
  validate_provider_connection,
}
use account_manager.Memory.Index.{IsIndexed-add, IsIndexed-rename}
use account_manager.Memory.Consistency.{IsConsistent, connection_key}

create_checked-IsConsistent :
    (c : ProviderConnection) (s : Store) → IsConsistent s → IsConsistent (create_checked c s).1
unfolding create_checked
create_checked-IsConsistent c s h = elim (Bool-cases (has c.id s.provider_connections)) [
  | inl taken ↦ rw taken h
  | inr new_id ↦ elim (Bool-cases (has (connection_key c) s.provider_by_identity)) [
    | inl taken ↦ rw (new_id, taken) h
    | inr new_key ↦
        rw (new_id, new_key)
          (assumption (
            IsIndexed-add (λ c. c.id) connection_key c s.provider_connections s.provider_by_identity
              new_id new_key h.connections))
  ]
]

create_valid-IsConsistent :
    (r : Result (Unit {0})) (c : ProviderConnection) (s : Store)
    → IsConsistent s
    → IsConsistent (create_valid r c s).1
unfolding create_valid
create_valid-IsConsistent (err e) c s h = h
create_valid-IsConsistent (ok _) c s h = unfold create_checked in create_checked-IsConsistent c s h

create_with-IsConsistent :
    (r : Result Bytes) (c : ProviderConnection) (s : Store)
    → IsConsistent s
    → IsConsistent (create_with r c s).1
unfolding create_with
create_with-IsConsistent (err e) c s h = h
create_with-IsConsistent (ok metadata) c s h =
    let d = record c { version = pos 1; metadata = metadata } in
    create_valid-IsConsistent (validate_provider_connection d) d s h

pub create_provider_connection-IsConsistent :
    (is_object : Bytes → Bool) (ctx : Ctx) (c : ProviderConnection) (s : Store)
    → IsConsistent s
    → IsConsistent (create_provider_connection is_object ctx c s).1
unfolding create_provider_connection
create_provider_connection-IsConsistent is_object (some e) c s h = h
create_provider_connection-IsConsistent is_object none c s h =
    create_with-IsConsistent (normalize_metadata is_object c.metadata) c s h

owner_is : (o : Option Text) (id i : Text) → taken_by_other o id ≡ false → o ≡ some i → i ≡ id
unfolding taken_by_other
owner_is none id i free p = cc
owner_is (some j) id i free p = ground (arith, text_eq_iff j id)

update_valid-IsConsistent :
    (r : Result (Unit {0})) (old c : ProviderConnection) (s : Store)
    → lookup c.id s.provider_connections ≡ some old
    → IsConsistent s
    → IsConsistent (update_valid r old c s).1
unfolding update_valid
update_valid-IsConsistent (err e) old c s found h = h
update_valid-IsConsistent (ok _) old c s found h =
    elim (Bool-cases (taken_by_other (lookup (connection_key c) s.provider_by_identity) c.id)) [
      | inl taken ↦ rw taken h
      | inr free ↦ rw free (
          assumption (
            IsIndexed-rename (λ c. c.id) connection_key c old s.provider_connections
              s.provider_by_identity found
              (λ i p. owner_is (lookup (connection_key c) s.provider_by_identity) c.id i free p)
              h.connections))
    ]

update_current-IsConsistent :
    (o : Option ProviderConnection) (c : ProviderConnection) (v : ℤ) (s : Store)
    → lookup c.id s.provider_connections ≡ o
    → IsConsistent s
    → IsConsistent (update_current o c v s).1
unfolding update_current
update_current-IsConsistent none c v s found h = h
update_current-IsConsistent (some old) c v s found h =
    elim (Bool-cases (text_eq c.provider old.provider)) [
      | inr moved ↦ rw moved h
      | inl kept ↦ elim (Bool-cases (eq_ℤ old.version v)) [
        | inr stale ↦ rw (kept, stale) h
        | inl fresh ↦
            let d = record c { version = inc64 old.version; created_at = old.created_at } in
            rw (kept, fresh)
              (update_valid-IsConsistent (validate_provider_connection d) old d s found h)
      ]
    ]

update_with-IsConsistent :
    (r : Result Bytes) (c : ProviderConnection) (v : ℤ) (s : Store)
    → IsConsistent s
    → IsConsistent (update_with r c v s).1
unfolding update_with
update_with-IsConsistent (err e) c v s h = h
update_with-IsConsistent (ok metadata) c v s h =
    update_current-IsConsistent (lookup c.id s.provider_connections)
      (record c { metadata = metadata }) v s refl h

pub update_provider_connection-IsConsistent :
    (is_object : Bytes → Bool) (ctx : Ctx) (c : ProviderConnection) (v : ℤ) (s : Store)
    → IsConsistent s
    → IsConsistent (update_provider_connection is_object ctx c v s).1
unfolding update_provider_connection
update_provider_connection-IsConsistent is_object (some e) c v s h = h
update_provider_connection-IsConsistent is_object none c v s h =
    update_with-IsConsistent (normalize_metadata is_object c.metadata) c v s h
