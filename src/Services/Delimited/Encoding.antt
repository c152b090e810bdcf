-- ===== src/Services/Delimited/Encoding.antt =====
-- A line that was encoded is parsed back.
use mathlib.Core.Bool.{true≢false}
use mathlib.Core.List.{append_assoc, append-nil}
use account_manager.Prelude.{
  ℕ, ◌-◌, ◌==◌, true, false, List, [], ◌∷◌, ◌++◌, Text, length, is_empty, starts_with, contains,
  ◌≡◌, refl, sym, ◌∙◌, ap, arith, inl, inr, Bool-cases, All, ==_iff, ◌⊎◌, ◌≤◌, length-append,
}
use account_manager.Services.Delimited.{
  quote, quote_next, with_field, split_from, parse_delimited_line, double_quotes, has_special,
  is_quoted, encode_field, encode_delimited_line,
}

-- No quote in the text.
abbrev pub IsUnquoted : Text → Type 0
IsUnquoted s = All (λ c. c == quote ≡ false) s

-- The delimiter, put after the value, does not begin inside it.
abbrev pub IsSeparable : Text → Text → Type 0
IsSeparable delimiter [] = Unit
IsSeparable delimiter (c ∷ s) =
    (starts_with delimiter ((c ∷ s) ++ delimiter) ≡ false) × IsSeparable delimiter s

-- A value that the encoder quotes, or one that it may leave as it is.
abbrev pub IsEncodable : Text → Text → Type 0
IsEncodable delimiter value = (is_quoted delimiter value ≡ true) ⊎ IsSeparable delimiter value

starts_with_append : (p s t : Text) → starts_with p s ≡ true → starts_with p (s ++ t) ≡ true
unfolding starts_with
starts_with_append [] s t h = refl
starts_with_append (a ∷ p) [] t h = cc
starts_with_append (a ∷ p) (b ∷ s) t h = ground (arith, starts_with_append p s t)

starts_with_refl : (p s : Text) → starts_with p (p ++ s) ≡ true
unfolding starts_with
starts_with_refl [] s = refl
starts_with_refl (a ∷ p) s = ground (arith, starts_with_refl p s)

-- Whether the delimiter begins a text that is as long as it is is seen in that text.
starts_with_shorter :
    (p s t : Text) → length p ≤ length s → starts_with p (s ++ t) ≡ true → starts_with p s ≡ true
unfolding starts_with
starts_with_shorter [] s t le h = refl
starts_with_shorter (a ∷ p) [] t le h = absurd (omega arith)
starts_with_shorter (a ∷ p) (b ∷ s) t le h = ground (arith, starts_with_shorter p s t)

-- The delimiter begins nowhere in the value, `rest` after it.
abbrev IsClear : Text → Text → Text → Type 0
IsClear delimiter rest [] = Unit
IsClear delimiter rest (c ∷ s) =
    (starts_with delimiter ((c ∷ s) ++ rest) ≡ false) × IsClear delimiter rest s

IsClear-next : (d t v : Text) → IsSeparable d v → IsClear d (d ++ t) v
IsClear-next d t [] h = tt
IsClear-next d t (c ∷ s) (h, hs) = (not_begun, IsClear-next d t s hs)
  where
    not_begun : starts_with d ((c ∷ s) ++ (d ++ t)) ≡ false
    not_begun = elim (Bool-cases (starts_with d ((c ∷ s) ++ (d ++ t)))) [
      | inr e ↦ e
      | inl e ↦ absurd (
          true≢false (
            sym (
              starts_with_shorter d ((c ∷ s) ++ d) t (omega (arith, length-append {0} (c ∷ s) d))
                (ap (starts_with d) (append_assoc (c ∷ s) d t) ∙ e))
            ∙ h))
    ]

IsClear-end : (d v : Text) → contains d v ≡ false → IsClear d [] v
unfolding contains
IsClear-end d [] h = tt
IsClear-end d (c ∷ s) h =
    (ap (λ x. starts_with d x) (append-nil (c ∷ s)) ∙ ground arith, IsClear-end d s (ground arith))

-- The loop runs over a value without quotes in which the delimiter does not begin.
split_plain :
    (d field v rest : Text)
    → has_special v ≡ false
    → IsClear d rest v
    → split_from d 0 false field (v ++ rest) ≡ split_from d 0 false (field ++ v) rest
unfolding split_from has_special
split_plain d field [] rest h clear = ap (λ f. split_from d 0 false f rest) (sym (append-nil field))
split_plain d field (c ∷ s) rest h (no_begin, clear) =
    let plain : (c == quote ≡ false) = ground arith in
    rw (plain, no_begin)
      (split_plain d (field ++ c ∷ []) s rest (ground arith) clear
        ∙ ap (λ f. split_from d 0 false f rest) (append_assoc field (c ∷ []) s))

split_quoted_tail :
    (d field : Text) (c : ℕ) (s rest : Text)
    → split_from d 0 true (field ++ c ∷ []) (double_quotes s ++ quote ∷ rest)
      ≡ split_from d 0 false ((field ++ c ∷ []) ++ s) rest
    → split_from d 0 true (field ++ c ∷ []) (double_quotes s ++ quote ∷ rest)
      ≡ split_from d 0 false (field ++ c ∷ s) rest
split_quoted_tail d field c s rest h =
    h ∙ ap (λ f. split_from d 0 false f rest) (append_assoc field (c ∷ []) s)

separable : (d v : Text) → IsEncodable d v → is_quoted d v ≡ false → IsSeparable d v
separable d v (inl quoted) e = absurd (true≢false (sym quoted ∙ e))
separable d v (inr h) e = h

-- The delimiter, all of one code point, is seen one place early in `c` followed by it.
starts_with_shifted :
    (c : ℕ) (d s : Text) → All (λ a. a ≡ c) d → starts_with d (c ∷ (d ++ s)) ≡ true
unfolding starts_with
starts_with_shifted c [] s h = refl
starts_with_shifted c (a ∷ d) s (e, h) = ground (arith, starts_with_shifted c d s)

-- The loop runs over a quoted value up to its closing quote.
split_quoted :
    (d field v rest : Text)
    → quote_next rest ≡ false
    → split_from d 0 true field (double_quotes v ++ quote ∷ rest)
      ≡ split_from d 0 false (field ++ v) rest
unfolding split_from double_quotes
split_quoted d field [] rest h =
    rw h (ap (λ f. split_from d 0 false f rest) (sym (append-nil field)))
split_quoted d field (c ∷ s) rest h = elim (Bool-cases (c == quote)) [
  | inl e ↦
      rw (e, e)
        (ap (λ x. split_from d 0 true (field ++ x ∷ []) (double_quotes s ++ quote ∷ rest))
            (sym ((==_iff c quote).0 e))
          ∙ split_quoted_tail d field c s rest (split_quoted d (field ++ c ∷ []) s rest h))
  | inr e ↦
      rw (e, e) (split_quoted_tail d field c s rest (split_quoted d (field ++ c ∷ []) s rest h))
]

-- The loop passes the code points of the delimiter.
split_skipped :
    (d field s rest : Text)
    → split_from d (length s) false field (s ++ rest) ≡ split_from d 0 false field rest
unfolding split_from
split_skipped d field [] rest = refl
split_skipped d field (c ∷ s) rest = split_skipped d field s rest

module _ (a : ℕ) (d : Text) (unquoted : IsUnquoted (a ∷ d)) where
  -- The loop ends a field at the delimiter.
  split_delimiter :
      (field rest : Text)
      → split_from (a ∷ d) 0 false field ((a ∷ d) ++ rest)
        ≡ with_field field (split_from (a ∷ d) 0 false [] rest)
  unfolding split_from
  split_delimiter field rest =
      rw (unquoted.0, starts_with_refl (a ∷ d) rest)
        (ap (λ n. with_field field (split_from (a ∷ d) n false [] (d ++ rest))) (omega arith)
          ∙ ap (with_field field) (split_skipped (a ∷ d) [] d rest))

  -- The loop reads an encoded value back.
  split_value :
      (v rest : Text)
      → quote_next rest ≡ false
      → (is_quoted (a ∷ d) v ≡ false → IsClear (a ∷ d) rest v)
      → split_from (a ∷ d) 0 false [] (encode_field (a ∷ d) v ++ rest)
        ≡ split_from (a ∷ d) 0 false v rest
  unfolding encode_field split_from
  split_value v rest h clear = elim (Bool-cases (is_quoted (a ∷ d) v)) [
    | inl e ↦ rw e (
        ap (λ x. split_from (a ∷ d) 0 false [] (quote ∷ x))
          (append_assoc (double_quotes v) (quote ∷ []) rest)
        ∙ split_quoted (a ∷ d) [] v rest h)
    | inr e ↦ rw e (split_plain (a ∷ d) [] v rest (ground arith) (clear e))
  ]

  split_values :
      (v : Text) (values : List Text)
      → All (IsEncodable (a ∷ d)) (v ∷ values)
      → split_from (a ∷ d) 0 false [] (encode_delimited_line (v ∷ values) (a ∷ d))
        ≡ record { fields = v ∷ values; unclosed = false; no_delimiter = false }
  unfolding encode_delimited_line split_from
  split_values v [] (h, _) =
      ap (split_from (a ∷ d) 0 false []) (sym (append-nil (encode_field (a ∷ d) v)))
      ∙ split_value v [] refl (λ e. IsClear-end (a ∷ d) v (ground arith))
  split_values v (w ∷ values) (h, hs) =
      let rest = encode_delimited_line (w ∷ values) (a ∷ d) in
      split_value v ((a ∷ d) ++ rest) unquoted.0
        (λ e. IsClear-next (a ∷ d) rest v (separable (a ∷ d) v h e))
      ∙ split_delimiter v rest
      ∙ ap (with_field v) (split_values w values hs)

-- With a delimiter that is not empty and has no quote, a line that was encoded is parsed back into its
-- values, closed, when there is a value and every value either is one that the encoder quotes or has
-- no place where the delimiter put after it begins inside it.
pub parse-encode_delimited_line :
    (delimiter v : Text) (values : List Text)
    → is_empty delimiter ≡ false
    → IsUnquoted delimiter
    → All (IsEncodable delimiter) (v ∷ values)
    → parse_delimited_line (encode_delimited_line (v ∷ values) delimiter) delimiter
      ≡ record { fields = v ∷ values; unclosed = false; no_delimiter = false }
unfolding parse_delimited_line
parse-encode_delimited_line [] v values given unquoted h = absurd (true≢false given)
parse-encode_delimited_line (a ∷ d) v values given unquoted h = split_values a d unquoted v values h

-- A text begins with a shift of itself: `cc…c` is read one code point too early.
starts_with_repeated :
    (c : ℕ) (d s : Text) → All (λ a. a ≡ c) d → starts_with (c ∷ d) (c ∷ ((c ∷ d) ++ s)) ≡ true
unfolding starts_with
starts_with_repeated c d s h = ground (arith, starts_with_shifted c d s h)

encode_single :
    (c : ℕ) (d : Text)
    → has_special (c ∷ []) ≡ false
    → is_empty d ≡ false
    → encode_field (c ∷ d) (c ∷ []) ≡ c ∷ []
unfolding encode_field contains starts_with
encode_single c [] plain long = absurd (true≢false long)
encode_single c (a ∷ d) plain long = rw plain (ground arith)

split_ambiguous :
    (c : ℕ) (d s : Text)
    → has_special (c ∷ []) ≡ false
    → All (λ a. a ≡ c) d
    → (rest : List Text) × ((split_from (c ∷ d) 0 false [] (c ∷ ((c ∷ d) ++ s))).fields ≡ [] ∷ rest)
unfolding split_from
split_ambiguous c d s plain same =
    let no_quote : (c == quote ≡ false) = unfold has_special in ground arith in
    rw (no_quote, starts_with_repeated c d s same)
      ((split_from (c ∷ d) (length (c ∷ d) - 1) false [] ((c ∷ d) ++ s)).fields, refl)

-- With a delimiter of two or more equal code points, neither quotes nor line ends, a first value that
-- is that code point alone, with a second value after it, is not read back: the parsed line has an
-- empty first field in its place.
pub parse-encode_ambiguous :
    (c : ℕ) (d w : Text) (values : List Text)
    → has_special (c ∷ []) ≡ false
    → is_empty d ≡ false
    → All (λ a. a ≡ c) d
    → (rest : List Text) × ((parse_delimited_line
          (encode_delimited_line ((c ∷ []) ∷ (w ∷ values)) (c ∷ d))
          (c ∷ d)).fields
        ≡ [] ∷ rest)
unfolding parse_delimited_line encode_delimited_line
parse-encode_ambiguous c d w values plain long same =
    rw (encode_single c d plain long) (split_ambiguous c d _ plain same)
