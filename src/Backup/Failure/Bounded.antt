-- ===== src/Backup/Failure/Bounded.antt =====
-- The message of a failed run fits in a thousand bytes and stands on one line.
use account_manager.Prelude.{
  ℕ, ◌≤◌, ◌-◌, ◌≡◌, refl, arith, Bool, Option, none, some, inl, inr, Bool-cases, [], ◌∷◌, Text,
  Error, ltb, leb, true, false, All, is_space,
}
use account_manager.Backup.Failure.{byte_len, cut, join_fields, bounded_run_error, utf8_len}

cut-le : (budget : ℕ) (s : Text) → byte_len (cut budget s) ≤ budget
unfolding cut byte_len
cut-le budget [] = omega arith
cut-le budget (c ∷ s) = ground (arith, cut-le (budget - utf8_len c) s)

-- No white space but U+0020.
abbrev pub IsPlain : Text → Type 0
IsPlain s = All (λ c. is_space c ≡ true → c ≡ 0x20) s

cut-IsPlain : (budget : ℕ) (s : Text) → IsPlain s → IsPlain (cut budget s)
unfolding cut
cut-IsPlain budget [] h = tt
cut-IsPlain budget (c ∷ s) (h, hs) = elim (Bool-cases (leb (utf8_len c) budget)) [
  | inl fits ↦ rw fits (h, cut-IsPlain (budget - utf8_len c) s hs)
  | inr over ↦ rw over tt
]

join_fields-IsPlain : (begun gap : Bool) (s : Text) → IsPlain (join_fields begun gap s)
unfolding join_fields
join_fields-IsPlain begun gap [] = tt
join_fields-IsPlain begun true (c ∷ s) = elim (Bool-cases (is_space c)) [
  | inl space ↦ rw space (join_fields-IsPlain begun begun s)
  | inr other ↦ rw other ((λ _. refl), ((λ h. cc), join_fields-IsPlain true false s))
]
join_fields-IsPlain begun false (c ∷ s) = elim (Bool-cases (is_space c)) [
  | inl space ↦ rw space (join_fields-IsPlain begun begun s)
  | inr other ↦ rw other ((λ h. cc), join_fields-IsPlain true false s)
]

-- The message kept with a failed run, whatever the error says, has at most 1000 bytes in UTF-8 and no
-- white space but U+0020: no line break, no tab.
pub bounded_run_error-le :
    (message : Error → Text) (cause : Option Error)
    → (byte_len (bounded_run_error message cause) ≤ 1000)
      × IsPlain (bounded_run_error message cause)
unfolding bounded_run_error
bounded_run_error-le message none =
    ((unfold byte_len utf8_len in omega arith), (unfold is_space in ground arith))
bounded_run_error-le message (some e) =
    let value = join_fields false false (message e) in
    elim (Bool-cases (ltb 1000 (byte_len value))) [
      | inl long ↦
          rw long (
            cut-le 1000 value,
            cut-IsPlain 1000 value (join_fields-IsPlain false false (message e)),
          )
      | inr short ↦ rw short (ground arith, join_fields-IsPlain false false (message e))
    ]
