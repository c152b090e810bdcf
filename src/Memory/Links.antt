-- ===== src/Memory/Links.antt =====
-- References between the maps of the store, and names that no two values share.
use account_manager.Prelude.{
  ◌≡◌, some, true, [], Text, text_eq_iff, Map, lookup, insert, has, lookup-insert, has-insert,
  arith,
}

-- Every value refers to a key of the other map.
abbrev pub IsAttached : {V W : Type 0} → (V → Text) → Map V → Map W → Type 0
IsAttached {V} ref items targets =
    (i : Text) (v : V) → lookup i items ≡ some v → has (ref v) targets ≡ true

-- Two values with one name have one id.
abbrev pub HasUniqueNames : {V : Type 0} → (V → Text) → Map V → Type 0
HasUniqueNames {V} name items =
    (i j : Text) (v w : V)
    → lookup i items ≡ some v
    → lookup j items ≡ some w
    → name v ≡ name w
    → i ≡ j

module _ {V W : Type 0} (ref : V → Text) where
  pub IsAttached-empty : (targets : Map W) → IsAttached ref [] targets
  unfolding lookup
  IsAttached-empty targets i v p = cc

  pub IsAttached-insert :
      (k : Text) (v : V) (items : Map V) (targets : Map W)
      → has (ref v) targets ≡ true
      → IsAttached ref items targets
      → IsAttached ref (insert k v items) targets
  IsAttached-insert k v items targets there h i w p =
      ground (arith, lookup-insert k i v items, h i w)

  pub IsAttached-grow :
      (k : Text) (w : W) (items : Map V) (targets : Map W)
      → IsAttached ref items targets
      → IsAttached ref items (insert k w targets)
  IsAttached-grow k w items targets h i v p =
      ground (arith, has-insert k (ref v) w targets, h i v p)

module _ {V : Type 0} (name : V → Text) where
  pub HasUniqueNames-empty : HasUniqueNames name []
  unfolding lookup
  HasUniqueNames-empty i j v w p q e = cc

  -- A value whose name no other entry has.
  pub HasUniqueNames-insert :
      (k : Text) (v : V) (items : Map V)
      → ((i : Text) (w : V) → lookup i items ≡ some w → name w ≡ name v → i ≡ k)
      → HasUniqueNames name items
      → HasUniqueNames name (insert k v items)
  HasUniqueNames-insert k v items free h i j u w p q e = ground (
    arith,
    lookup-insert k i v items,
    lookup-insert k j v items,
    text_eq_iff k i,
    text_eq_iff k j,
    h i j u w,
    free i u,
    free j w,
  )
