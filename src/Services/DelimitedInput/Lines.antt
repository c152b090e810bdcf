-- ===== src/Services/DelimitedInput/Lines.antt =====
-- The lines of a file that was rendered are found again.
use account_manager.Prelude.{
  ◌==◌, false, List, [], ◌∷◌, ◌++◌, Text, ◌≡◌, refl, ◌∙◌, ap, inl, inr, Bool-cases, All, All-map,
}
use account_manager.Services.Delimited.{
  encode_delimited_line, join, encode_field, double_quotes, is_quoted, quote,
}
use account_manager.Services.DelimitedInput.{
  line_feed, carriage_return, join_crlf, split_lines, trim_return,
}

-- No line feed and no carriage return.
abbrev pub IsBreakless : Text → Type 0
IsBreakless s = All (λ c. (c == line_feed ≡ false) × (c == carriage_return ≡ false)) s

abbrev pub IsReturnless : Text → Type 0
IsReturnless s = All (λ c. c == carriage_return ≡ false) s

All-append {ℓ κ} :
    {A : Type ℓ} (P : A → Type κ) (xs ys : List A) → All P xs → All P ys → All P (xs ++ ys)
All-append P [] ys h k = k
All-append P (x ∷ xs) ys (h, hs) k = (h, All-append P xs ys hs k)

pub join_crlf_plain : (s : Text) → IsReturnless s → join_crlf s ≡ s
unfolding join_crlf
join_crlf_plain [] h = refl
join_crlf_plain (c ∷ s) (h, hs) = rw h (ap (λ r. c ∷ r) (join_crlf_plain s hs))

split_lines_end : (s : Text) → IsBreakless s → split_lines s ≡ s ∷ []
unfolding split_lines
split_lines_end [] h = refl
split_lines_end (c ∷ s) ((h, _), hs) = rw (h, split_lines_end s hs) refl

split_lines_feed :
    (s t : Text) → IsBreakless s → split_lines (s ++ (line_feed ∷ t)) ≡ s ∷ split_lines t
unfolding split_lines
split_lines_feed [] t h = refl
split_lines_feed (c ∷ s) t ((h, _), hs) = rw (h, split_lines_feed s t hs) refl

pub split_lines-join :
    (line : Text) (lines : List Text)
    → All IsBreakless (line ∷ lines)
    → split_lines (join (line_feed ∷ []) (line ∷ lines)) ≡ line ∷ lines
unfolding join
split_lines-join line [] (h, _) = split_lines_end line h
split_lines-join line (next ∷ lines) (h, hs) =
    split_lines_feed line (join (line_feed ∷ []) (next ∷ lines)) h
    ∙ ap (λ r. line ∷ r) (split_lines-join next lines hs)

pub join-IsReturnless :
    (lines : List Text) → All IsBreakless lines → IsReturnless (join (line_feed ∷ []) lines)
unfolding join
join-IsReturnless [] h = tt
join-IsReturnless (line ∷ []) (h, _) = All-map line (λ c p. p.1) h
join-IsReturnless (line ∷ (next ∷ lines)) (h, hs) =
    All-append _ line (line_feed ∷ join (line_feed ∷ []) (next ∷ lines))
      (All-map line (λ c p. p.1) h) (refl, join-IsReturnless (next ∷ lines) hs)

pub trim_return_plain : (s : Text) → IsBreakless s → trim_return s ≡ s
unfolding trim_return
trim_return_plain [] h = refl
trim_return_plain (c ∷ []) (h, _) = rw (h.1) refl
trim_return_plain (c ∷ (a ∷ s)) (h, hs) = ap (λ r. c ∷ r) (trim_return_plain (a ∷ s) hs)

double_quotes-IsBreakless : (s : Text) → IsBreakless s → IsBreakless (double_quotes s)
unfolding double_quotes
double_quotes-IsBreakless [] h = tt
double_quotes-IsBreakless (c ∷ s) (h, hs) = elim (Bool-cases (c == quote)) [
  | inl e ↦ rw e (h, (h, double_quotes-IsBreakless s hs))
  | inr e ↦ rw e (h, double_quotes-IsBreakless s hs)
]

encode_field-IsBreakless : (d v : Text) → IsBreakless v → IsBreakless (encode_field d v)
unfolding encode_field
encode_field-IsBreakless d v h = elim (Bool-cases (is_quoted d v)) [
  | inl e ↦ rw e (
    (refl, refl),
    All-append _ (double_quotes v) (quote ∷ []) (double_quotes-IsBreakless v h) ((refl, refl), tt),
  )
  | inr e ↦ rw e h
]

pub encode-IsBreakless :
    (d : Text) (values : List Text)
    → IsBreakless d
    → All IsBreakless values
    → IsBreakless (encode_delimited_line values d)
unfolding encode_delimited_line join
encode-IsBreakless d [] hd h = tt
encode-IsBreakless d (v ∷ []) hd (h, _) = encode_field-IsBreakless d v h
encode-IsBreakless d (v ∷ (w ∷ values)) hd (h, hs) =
    All-append _ (encode_field d v) (d ++ encode_delimited_line (w ∷ values) d)
      (encode_field-IsBreakless d v h)
      (All-append _ d (encode_delimited_line (w ∷ values) d) hd
        (encode-IsBreakless d (w ∷ values) hd hs))
