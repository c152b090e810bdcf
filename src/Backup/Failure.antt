-- ===== src/Backup/Failure.antt =====
-- boundedRunError of backend/internal/backup/worker.go: the message kept with a failed run, on the
-- code points of a valid text.
pub mod Bounded
use account_manager.Prelude.{
  ℕ, ◌+◌, ◌-◌, ltb, leb, Bool, true, false, Option, none, some, [], ◌∷◌, ◌++◌, List, Text, Error,
  codes, is_space, if◌then◌else◌,
}

-- the bytes of a code point in UTF-8
unfoldable pub utf8_len : ℕ → ℕ
utf8_len c = if ltb c 0x80 then 1 else if ltb c 0x800 then 2 else if ltb c 0x10000 then 3 else 4

-- len(s)
unfoldable pub byte_len : Text → ℕ
byte_len [] = 0
byte_len (c ∷ s) = utf8_len c + byte_len s

-- `s[:budget]` without the bytes of a code point that the cut splits
unfoldable pub cut : ℕ → Text → Text
unfolding utf8_len
cut budget [] = []
cut budget (c ∷ s) =
    let rest = cut (budget - utf8_len c) s in if leb (utf8_len c) budget then c ∷ rest else []

-- `strings.Join(strings.Fields(s), " ")`, with `gap` when a space is due before the next field and
-- `begun` when a field was written
unfoldable pub join_fields : Bool → Bool → Text → Text
unfolding is_space
join_fields begun gap [] = []
join_fields begun gap (c ∷ s) =
    let skipped = join_fields begun begun s in
    let kept = c ∷ join_fields true false s in
    if is_space c then skipped else if gap then 0x20 ∷ kept else kept

-- boundedRunError, with what `Error()` returns
unfoldable pub bounded_run_error : (Error → Text) → Option Error → Text
unfolding cut join_fields byte_len
bounded_run_error message none = codes "backup failed"
bounded_run_error message (some e) =
    let value = join_fields false false (message e) in
    if ltb 1000 (byte_len value) then cut 1000 value else value
