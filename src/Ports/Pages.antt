-- ===== src/Ports/Pages.antt =====
-- What a list query returns: the bounds of a page, and pages that follow one another.
use account_manager.Prelude.{
  ℤ, pos, negsuc, ℕ, zero, suc, ◌+◌, ◌≤◌, ◌≡◌, refl, List, length, take, drop, arith, Bool-cases,
  leb, ltb, length-take, length-drop, inl, inr, [], ◌-◌, ap, ◌∷◌, leb→le, ltb→lt, if◌then◌else◌,
}
use native.Mathlib.Nat.{suc-add, zero-add}
use account_manager.Prelude.{◌++◌, ◌<◌, false}
use account_manager.Ports.{ListOptions, Window, normalize, normalize_limit, page_of, paginate}

-- After `Normalize` the limit is at least 1 and at most the cap.
pub normalize_bounds :
    (o : ListOptions) (d m : ℕ)
    → 1 ≤ d
    → d ≤ m
    → (1 ≤ (normalize o d m).limit) × ((normalize o d m).limit ≤ m)
unfolding normalize
normalize_bounds o d m h k = ground arith

-- The same of the limit alone, for any default and cap.
pub normalize_limit_bounds :
    (given : ℤ) (d m : ℕ)
    → 1 ≤ d
    → d ≤ m
    → (1 ≤ normalize_limit given d m) × (normalize_limit given d m ≤ m)
unfolding normalize_limit
normalize_limit_bounds (pos n) d m h k = ground arith
normalize_limit_bounds (negsuc n) d m h k = ground arith

pub length-page_of {ℓ} :
    {A : Type ℓ} (items : List A) (w : Window) → length (page_of items w) ≤ w.limit
unfolding page_of
length-page_of items w = elim (Bool-cases (leb (length items) w.offset)) [
  | inl e ↦ rw e (omega arith)
  | inr e ↦ rw e (ground (arith, length-take (stop - w.offset) (drop w.offset items)))
]
  where
    stop : ℕ
    stop = if ltb (length items) (w.offset + w.limit) then length items else w.offset + w.limit

-- Two cuts past the end of a list are the same.
take_past {ℓ} :
    {A : Type ℓ} (m n : ℕ) (xs : List A) → length xs ≤ m → length xs ≤ n → take m xs ≡ take n xs
take_past zero zero xs h k = refl
take_past zero (suc n) [] h k = refl
take_past zero (suc n) (x ∷ xs) h k = absurd (omega arith)
take_past (suc m) zero [] h k = refl
take_past (suc m) zero (x ∷ xs) h k = absurd (omega arith)
take_past (suc m) (suc n) [] h k = refl
take_past (suc m) (suc n) (x ∷ xs) h k =
    ap (λ r. x ∷ r) (take_past m n xs (omega arith) (omega arith))

take-drop_past {ℓ} : {A : Type ℓ} (m n : ℕ) (xs : List A) → length xs ≤ m → [] ≡ take n (drop m xs)
take-drop_past zero zero xs h = refl
take-drop_past zero (suc n) [] h = refl
take-drop_past zero (suc n) (x ∷ xs) h = absurd (omega arith)
take-drop_past (suc m) zero xs h = refl
take-drop_past (suc m) (suc n) [] h = refl
take-drop_past (suc m) n (x ∷ xs) h = take-drop_past m n xs (omega arith)

-- A page is the window's cut of the list.
pub page_of_lem {ℓ} :
    {A : Type ℓ} (items : List A) (w : Window)
    → page_of items w ≡ take w.limit (drop w.offset items)
unfolding page_of
page_of_lem items w = elim (Bool-cases (leb (length items) w.offset)) [
  | inl e ↦ rw e (take-drop_past w.offset w.limit items (leb→le _ _ e))
  | inr e ↦ rw e (elim (Bool-cases (ltb (length items) (w.offset + w.limit))) [
    | inl over ↦ rw over (
        take_past (length items - w.offset) w.limit (drop w.offset items)
          (omega (arith, length-drop w.offset items))
          (omega (arith, length-drop w.offset items, ltb→lt _ _ over)))
    | inr under ↦ rw under (ap (λ k. take k (drop w.offset items)) (minus w.offset w.limit))
  ])
]
  where
    minus : (a b : ℕ) → a + b - a ≡ b
    minus a b = omega arith

-- A list query's page of a sorted list: from the offset (0 if it is negative), as many items as the
-- limit says, which is at least 1 and at most 500.
paginate_lem {ℓ} :
    {A : Type ℓ} (items : List A) (o : ListOptions)
    → let w = normalize o 100 500 in
      (paginate items o ≡ take w.limit (drop w.offset items))
      × (length (paginate items o) ≤ w.limit)
      × (1 ≤ w.limit)
      × (w.limit ≤ 500)
unfolding paginate
paginate_lem items o =
    let w = normalize o 100 500 in
    let (a, b) = normalize_bounds o 100 500 (omega arith) (omega arith) in
    (page_of_lem items w, length-page_of items w, a, b)

pub take-take {ℓ} :
    {A : Type ℓ} (m n : ℕ) (xs : List A) → take m xs ++ take n (drop m xs) ≡ take (m + n) xs
take-take zero n xs = rw zero-add refl
take-take (suc m) zero [] = rw suc-add refl
take-take (suc m) (suc n) [] = rw suc-add refl
take-take (suc m) n (x ∷ xs) = rw suc-add (ap (λ ys. x ∷ ys) (take-take m n xs))

pub take_all {ℓ} : {A : Type ℓ} (n : ℕ) (xs : List A) → length xs ≤ n → take n xs ≡ xs
take_all zero [] h = refl
take_all (suc n) [] h = refl
take_all zero (x ∷ xs) h = absurd (omega arith)
take_all (suc n) (x ∷ xs) h = ap (λ ys. x ∷ ys) (take_all n xs (omega arith))

not_ltb : (a b : ℕ) → ltb a b ≡ false → b ≤ a
not_ltb a b h = ground arith

-- A cut that is short reaches the end.
pub short {ℓ} :
    {A : Type ℓ} (size offset : ℕ) (xs : List A)
    → length (take size (drop offset xs)) < size
    → length xs ≤ offset + size
short size offset xs h = omega (arith, length-take size (drop offset xs), length-drop offset xs)

pub long {ℓ} :
    {A : Type ℓ} (size offset : ℕ) (xs : List A)
    → offset ≤ length xs
    → ltb (length (take size (drop offset xs))) size ≡ false
    → offset + size ≤ length xs
long size offset xs k h =
    omega (arith, not_ltb _ _ h, length-take size (drop offset xs), length-drop offset xs)
