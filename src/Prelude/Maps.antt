-- ===== src/Prelude/Maps.antt =====
-- Go maps with string keys as association lists. The order of the entries stands for the order in
-- which a `range` loop meets them.
use Prim.Native.Nat.{suc}
use mathlib.Core.Path.{◌≡◌, refl, ap, subst}
use mathlib.Core.Logic.{inl, inr}
use mathlib.Core.Bool.{Bool, true, false, ◌||◌}
use mathlib.Core.Option.{Option, none, some}
use mathlib.Core.List.{List, [], ◌∷◌}
use native.Mathlib.Omega.{arith}
use account_manager.Prelude.Tests.{some-inj, if◌then◌else◌, Bool-cases}
use account_manager.Prelude.Lists.{All, All-map, length}
use account_manager.Prelude.Texts.{Text, text_eq, text_eq_iff}

abbrev pub Map {ℓ} : Type ℓ → Type ℓ
Map V = List (Text × V)

module _ {ℓ} {V : Type ℓ} where
  -- v, ok := m[k]
  unfoldable pub lookup : Text → Map V → Option V
  lookup k [] = none
  lookup k ((j, v) ∷ m) = if text_eq j k then some v else lookup k m

  -- _, ok := m[k]
  unfoldable pub has : Text → Map V → Bool
  has k [] = false
  has k ((j, v) ∷ m) = text_eq j k || has k m

  -- m[k] = v
  unfoldable pub insert : Text → V → Map V → Map V
  insert k v [] = (k, v) ∷ []
  insert k v ((j, w) ∷ m) =
      let rest = insert k v m in if text_eq j k then (j, v) ∷ m else (j, w) ∷ rest

  -- delete(m, k)
  unfoldable pub delete : Text → Map V → Map V
  delete k [] = []
  delete k ((j, w) ∷ m) = let rest = delete k m in if text_eq j k then rest else (j, w) ∷ rest

  -- a `range` loop that stops at a value that passes the test
  unfoldable pub any_value : (V → Bool) → Map V → Bool
  any_value p [] = false
  any_value p ((j, v) ∷ m) = p v || any_value p m

  -- the values in the order of a `range` loop
  unfoldable pub values : Map V → List V
  values [] = []
  values ((j, v) ∷ m) = v ∷ values m

  unfoldable pub keys : Map V → List Text
  keys [] = []
  keys ((j, v) ∷ m) = j ∷ keys m

module _ {ℓ} {V : Type ℓ} where
  pub lookup-insert :
      (k j : Text) (v : V) (m : Map V)
      → lookup j (insert k v m) ≡ (if text_eq k j then some v else lookup j m)
  unfolding lookup insert
  lookup-insert k j v [] = refl
  lookup-insert k j v ((i, w) ∷ m) =
      ground (arith, text_eq_iff k j, text_eq_iff i k, text_eq_iff i j, lookup-insert k j v m)

  pub lookup-delete :
      (k j : Text) (m : Map V) → lookup j (delete k m) ≡ (if text_eq k j then none else lookup j m)
  unfolding lookup delete
  lookup-delete k j [] = ground arith
  lookup-delete k j ((i, w) ∷ m) =
      ground (arith, text_eq_iff k j, text_eq_iff i k, text_eq_iff i j, lookup-delete k j m)

  pub has-lookup :
      (k : Text) (m : Map V) → has k m ≡ elim (lookup k m) [ none ↦ false | some v ↦ true ]
  unfolding has lookup
  has-lookup k [] = refl
  has-lookup k ((j, v) ∷ m) = ground (arith, has-lookup k m)

  pub lookup_of_absent : (k : Text) (m : Map V) → has k m ≡ false → lookup k m ≡ none
  unfolding has lookup
  lookup_of_absent k [] h = refl
  lookup_of_absent k ((j, v) ∷ m) h = ground (arith, lookup_of_absent k m)

  pub lookup_of_present : (k : Text) (m : Map V) → has k m ≡ true → (v : V) × (lookup k m ≡ some v)
  unfolding has lookup
  lookup_of_present k [] h = cc
  lookup_of_present k ((j, v) ∷ m) h = elim (Bool-cases (text_eq j k)) [
    | inl e ↦ rw e (v, refl)
    | inr e ↦ rw e (lookup_of_present k m (rw e at h))
  ]

  pub has_of_lookup : (k : Text) (v : V) (m : Map V) → lookup k m ≡ some v → has k m ≡ true
  unfolding has lookup
  has_of_lookup k v [] h = cc
  has_of_lookup k v ((j, w) ∷ m) h = ground (arith, has_of_lookup k v m)

  pub has-insert :
      (k j : Text) (v : V) (m : Map V) → has j (insert k v m) ≡ (text_eq k j || has j m)
  unfolding has insert
  has-insert k j v [] = refl
  has-insert k j v ((i, w) ∷ m) =
      ground (arith, text_eq_iff k j, text_eq_iff i k, text_eq_iff i j, has-insert k j v m)

  -- A test that no value of a `range` loop passes fails at every value that a read finds.
  pub any_value-lookup :
      (p : V → Bool) (k : Text) (v : V) (m : Map V)
      → any_value p m ≡ false
      → lookup k m ≡ some v
      → p v ≡ false
  unfolding any_value lookup
  any_value-lookup p k v [] h e = cc
  any_value-lookup p k v ((j, w) ∷ m) h e = ground (arith, any_value-lookup p k v m)

  pub any_value_of_lookup :
      (p : V → Bool) (k : Text) (v : V) (m : Map V)
      → lookup k m ≡ some v
      → p v ≡ true
      → any_value p m ≡ true
  unfolding any_value lookup
  any_value_of_lookup p k v [] h e = cc
  any_value_of_lookup p k v ((j, w) ∷ m) h e = ground (arith, any_value_of_lookup p k v m)

-- No key stands twice, as in every map of the program.
abbrev pub Distinct {ℓ} : {V : Type ℓ} → Map V → Type 0
Distinct [] = Unit
Distinct ((k, v) ∷ m) = (has k m ≡ false) × Distinct m

module _ {ℓ} {V : Type ℓ} where
  pub Distinct-insert : (k : Text) (v : V) (m : Map V) → Distinct m → Distinct (insert k v m)
  unfolding insert has
  Distinct-insert k v [] d = (refl, tt)
  Distinct-insert k v ((j, w) ∷ m) (fresh, d) = elim (Bool-cases (text_eq j k)) [
    | inl e ↦ rw e (fresh, d)
    | inr e ↦ rw e (
      ground (arith, has-insert k j v m, text_eq_iff k j, text_eq_iff j k),
      Distinct-insert k v m d,
    )
  ]

  -- In a map without double keys a `range` loop meets only values that a read finds.
  pub All-values :
      (m : Map V) → Distinct m → All (λ v. (k : Text) × (lookup k m ≡ some v)) (values m)
  unfolding values lookup
  All-values [] d = tt
  All-values ((j, w) ∷ m) (fresh, d) = (
    (j, ground (arith, text_eq_iff j j)),
    All-map (values m) (λ v (k, e). (k, ground (arith, text_eq_iff j k, has_of_lookup k v m e)))
        (All-values m d),
  )

  pub has-insert_self : (k : Text) (v : V) (m : Map V) → has k (insert k v m) ≡ true
  has-insert_self k v m = ground (arith, has-insert k k v m, text_eq_iff k k)

  pub lookup-insert_self : (k : Text) (v : V) (m : Map V) → lookup k (insert k v m) ≡ some v
  lookup-insert_self k v m = ground (arith, lookup-insert k k v m, text_eq_iff k k)

  -- A write under a new key adds an entry, and a write under a key that is there adds none.
  pub size-insert :
      (k : Text) (v : V) (m : Map V)
      → length (values (insert k v m))
        ≡ (if has k m then length (values m) else suc (length (values m)))
  unfolding values insert has
  size-insert k v [] = refl
  size-insert k v ((j, w) ∷ m) = elim (Bool-cases (text_eq j k)) [
    | inl e ↦ rw e refl
    | inr e ↦ rw e (elim (Bool-cases (has k m)) [
      | inl f ↦ rw f (ap suc (rw f at (size-insert k v m)))
      | inr f ↦ rw f (ap suc (rw f at (size-insert k v m)))
    ])
  ]

  -- What holds of every value of a `range` loop holds of what a read finds.
  pub All_values-lookup {κ} :
      (P : V → Type κ) (k : Text) (v : V) (m : Map V) → All P (values m) → lookup k m ≡ some v → P v
  unfolding values lookup
  All_values-lookup P k v [] h e = cc
  All_values-lookup P k v ((j, w) ∷ m) (p, h) e = elim (Bool-cases (text_eq j k)) [
    | inl same ↦ subst P (some-inj (rw same at e)) p
    | inr other ↦ All_values-lookup P k v m h (rw other at e)
  ]
