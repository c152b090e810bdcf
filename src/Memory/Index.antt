-- ===== src/Memory/Index.antt =====
-- A map of values by id beside an index from a second key to ids, as the store keeps for mailboxes,
-- aliases, provider connections and pickup keys.
use account_manager.Prelude.{
  ◌≡◌, Option, none, some, false, [], Text, text_eq_iff, Map, lookup, insert, delete, has,
  lookup-insert, lookup-delete, lookup_of_absent, arith,
}

abbrev pub key_at : {V : Type 0} → (V → Text) → Option V → Option Text
key_at key none = none
key_at key (some v) = some (key v)

-- The map holds each value under its own id, the index leads from each value's key to its id, and
-- every entry of the index leads to a value with that key.
pub record IsIndexed {V : Type 0} (id key : V → Text) (items : Map V) (index : Map Text)
    : Type 0 where
  pub to_index :
      (i : Text) (v : V) → lookup i items ≡ some v → (id v ≡ i) × (lookup (key v) index ≡ some i)
  pub from_index : (k i : Text) → lookup k index ≡ some i → key_at key (lookup i items) ≡ some k

module _ {V : Type 0} (id key : V → Text) where
  pub IsIndexed-empty : IsIndexed id key [] []
  unfolding lookup
  IsIndexed-empty = record { to_index = λ i v p. cc; from_index = λ k i p. cc }

  -- A value with a new id and a new key.
  pub IsIndexed-add :
      (v : V) (items : Map V) (index : Map Text)
      → has (id v) items ≡ false
      → has (key v) index ≡ false
      → IsIndexed id key items index
      → IsIndexed id key (insert (id v) v items) (insert (key v) (id v) index)
  IsIndexed-add v items index new_id new_key h = record {
    to_index = λ i w p. ground (
      arith,
      lookup-insert (id v) i v items,
      lookup-insert (key v) (key w) (id v) index,
      text_eq_iff (id v) i,
      text_eq_iff (key v) (key w),
      h.to_index i w,
      lookup_of_absent (key v) index new_key,
    );
    from_index = λ k i p. ground (
      arith,
      lookup-insert (id v) i v items,
      lookup-insert (key v) k (id v) index,
      text_eq_iff (id v) i,
      text_eq_iff (key v) k,
      h.from_index k i,
      lookup_of_absent (id v) items new_id,
    );
  }

  -- Another value under the same id and the same key.
  pub IsIndexed-replace :
      (v old : V) (items : Map V) (index : Map Text)
      → lookup (id v) items ≡ some old
      → key v ≡ key old
      → IsIndexed id key items index
      → IsIndexed id key (insert (id v) v items) index
  IsIndexed-replace v old items index present same h = record {
    to_index = λ i w p. ground (
      arith,
      lookup-insert (id v) i v items,
      text_eq_iff (id v) i,
      h.to_index i w,
      h.to_index (id v) old,
    );
    from_index = λ k i p.
        ground (arith, lookup-insert (id v) i v items, text_eq_iff (id v) i, h.from_index k i);
  }

  -- Another value under the same id, with a key that no other value has.
  pub IsIndexed-rename :
      (v old : V) (items : Map V) (index : Map Text)
      → lookup (id v) items ≡ some old
      → ((i : Text) → lookup (key v) index ≡ some i → i ≡ id v)
      → IsIndexed id key items index
      → IsIndexed id key (insert (id v) v items) (insert (key v) (id v) (delete (key old) index))
  IsIndexed-rename v old items index present free h = record {
    to_index = λ i w p. ground (
      arith,
      lookup-insert (id v) i v items,
      lookup-insert (key v) (key w) (id v) (delete (key old) index),
      lookup-delete (key old) (key w) index,
      text_eq_iff (id v) i,
      text_eq_iff (key v) (key w),
      text_eq_iff (key old) (key w),
      h.to_index i w,
      h.to_index (id v) old,
      free i,
    );
    from_index = λ k i p. ground (
      arith,
      lookup-insert (id v) i v items,
      lookup-insert (key v) k (id v) (delete (key old) index),
      lookup-delete (key old) k index,
      text_eq_iff (id v) i,
      text_eq_iff (key v) k,
      text_eq_iff (key old) k,
      h.from_index k i,
      h.to_index (id v) old,
    );
  }

  -- Two values with one key are one value.
  pub IsIndexed-unique :
      (i j : Text) (v w : V) (items : Map V) (index : Map Text)
      → IsIndexed id key items index
      → lookup i items ≡ some v
      → lookup j items ≡ some w
      → key v ≡ key w
      → (i ≡ j) × (v ≡ w)
  IsIndexed-unique i j v w items index h p q e = ground (arith, h.to_index i v, h.to_index j w)
