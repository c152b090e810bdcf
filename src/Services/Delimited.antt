-- ===== src/Services/Delimited.antt =====
-- backend/internal/service/importexport.go: the lines of a delimited file, on the code points of valid
-- texts: parseDelimitedLine and encodeDelimitedLine.
pub mod Encoding
use account_manager.Prelude.{
  ℕ, zero, suc, ◌-◌, ◌==◌, Bool, true, false, ◌||◌, ◌&&◌, not, List, [], ◌∷◌, ◌++◌, Text, length,
  map, is_empty, starts_with, contains, if◌then◌else◌,
}

abbrev pub quote : ℕ
quote = 0x22

-- The fields of a line, and whether a quoted field is not closed; with an empty delimiter there are no
-- fields.
pub record Line : Type 0 where
  pub fields : List Text
  pub unclosed : Bool
  pub no_delimiter : Bool

-- `index+1 < len(line) && line[index+1] == '"'`
abbrev pub quote_next : Text → Bool
quote_next [] = false
quote_next (c ∷ s) = c == quote

abbrev pub with_field : Text → Line → Line
with_field field line = record line { fields = field ∷ line.fields }

-- The loop of parseDelimitedLine from an index on: `skipped` code points were read already, `quoted`
-- is inQuotes, `field` what was written of the current field.
unfoldable pub split_from : Text → ℕ → Bool → Text → Text → Line
split_from delimiter skipped quoted field [] = record {
  fields = field ∷ [];
  unclosed = quoted;
  no_delimiter = false;
}
split_from delimiter (suc skipped) quoted field (c ∷ s) =
    split_from delimiter skipped quoted field s
split_from delimiter zero quoted field (c ∷ s) =
    let escaped = split_from delimiter 1 quoted (field ++ quote ∷ []) s in
    let toggled = split_from delimiter 0 (not quoted) field s in
    let next = with_field field (split_from delimiter (length delimiter - 1) quoted [] s) in
    let written = split_from delimiter 0 quoted (field ++ c ∷ []) s in
    if c == quote
    then (if quoted && quote_next s then escaped else toggled)
    else if not quoted && starts_with delimiter (c ∷ s)
    then next
    else written

-- parseDelimitedLine
unfoldable pub parse_delimited_line : Text → Text → Line
unfolding split_from
parse_delimited_line line delimiter =
    if is_empty delimiter
    then record { fields = []; unclosed = false; no_delimiter = true }
    else split_from delimiter 0 false [] line

-- `strings.ReplaceAll(value, "\"", "\"\"")`
unfoldable pub double_quotes : Text → Text
double_quotes [] = []
double_quotes (c ∷ s) = let rest = double_quotes s in if c == quote then c ∷ c ∷ rest else c ∷ rest

-- `strings.ContainsAny(value, "\"\r\n")`
unfoldable pub has_special : Text → Bool
has_special [] = false
has_special (c ∷ s) = (c == quote || c == 0x0D || c == 0x0A) || has_special s

abbrev pub is_quoted : Text → Text → Bool
is_quoted delimiter value = contains delimiter value || has_special value

unfoldable pub encode_field : Text → Text → Text
unfolding double_quotes has_special
encode_field delimiter value =
    if is_quoted delimiter value then quote ∷ (double_quotes value ++ quote ∷ []) else value

-- strings.Join
unfoldable pub join : Text → List Text → Text
join separator [] = []
join separator (value ∷ []) = value
join separator (value ∷ (next ∷ values)) = value ++ (separator ++ join separator (next ∷ values))

-- encodeDelimitedLine
unfoldable pub encode_delimited_line : List Text → Text → Text
unfolding encode_field join
encode_delimited_line values delimiter = join delimiter (map (encode_field delimiter) values)
