-- ===== src/Services/DelimitedInput.antt =====
-- backend/internal/service/importexport.go: a delimited file, parseDelimitedInput and the delimited
-- part of renderExport. strings.ToLower is a parameter.
pub mod RoundTrip
pub mod Lines
use account_manager.Prelude.{
  ok, err, Result, ◌>>=◌, invalid, found, ℕ, zero, suc, ◌==◌, Bool, true, false, ◌&&◌, ◌||◌, not,
  Option, none, some, get_or, List, [], ◌∷◌, ◌++◌, map, length, Text, trim_space, is_blank,
  is_empty, Map, lookup, insert, if◌then◌else◌,
}
use account_manager.Domain.{MailboxFormat, MailboxFormatField}
use account_manager.Services.Formats.{canonical_format_target}
use account_manager.Services.Delimited.{Line, parse_delimited_line, encode_delimited_line, join}

-- A message of a row.
pub data RowProblem : Type 0 where
  no_delimiter unclosed : RowProblem
  wrong_count : ℕ → ℕ → RowProblem
  required : Text → RowProblem

pub record RawMappedRow : Type 0 where
  pub line : ℕ
  pub values : Map Text
  pub errors : List RowProblem

abbrev pub line_feed : ℕ
line_feed = 10

abbrev pub carriage_return : ℕ
carriage_return = 13

abbrev pub feed_next : Text → Bool
feed_next [] = false
feed_next (c ∷ s) = c == line_feed

-- `strings.ReplaceAll(data, "\r\n", "\n")`
unfoldable pub join_crlf : Text → Text
join_crlf [] = []
join_crlf (c ∷ s) =
    let rest = join_crlf s in if c == carriage_return && feed_next s then rest else c ∷ rest

abbrev pub with_first : ℕ → List Text → List Text
with_first c [] = (c ∷ []) ∷ []
with_first c (line ∷ lines) = (c ∷ line) ∷ lines

-- `strings.Split(s, "\n")`
unfoldable pub split_lines : Text → List Text
split_lines [] = [] ∷ []
split_lines (c ∷ s) =
    let rest = split_lines s in if c == line_feed then [] ∷ rest else with_first c rest

-- `strings.TrimPrefix(data, "\ufeff")`
unfoldable pub trim_mark : Text → Text
trim_mark [] = []
trim_mark (c ∷ s) = if c == 0xFEFF then s else c ∷ s

-- `strings.TrimSuffix(line, "\r")`
unfoldable pub trim_return : Text → Text
trim_return [] = []
trim_return (c ∷ []) = if c == carriage_return then [] else c ∷ []
trim_return (c ∷ (a ∷ s)) = c ∷ trim_return (a ∷ s)

abbrev pub get_elem? {ℓ} : {A : Type ℓ} → List A → ℕ → Option A
get_elem? [] i = none
get_elem? (x ∷ xs) zero = some x
get_elem? (x ∷ xs) (suc i) = get_elem? xs i

-- The header read: the column of each field, and the number of columns.
pub record Header : Type 0 where
  pub indices : List ℕ
  pub expected : ℕ

abbrev pub problem_if : Bool → RowProblem → List RowProblem
problem_if true problem = problem ∷ []
problem_if false problem = []

-- the column's text without its spaces, or the default
unfoldable pub cell : Option Text → Text → Text
cell none default = default
cell (some value) default = if is_blank value then default else trim_space value

module _ (lower : Text → Text) where
  -- the columns by name; a later column of the same name wins
  unfoldable pub header_index : ℕ → List Text → Map ℕ → Map ℕ
  header_index index [] columns = columns
  header_index index (value ∷ values) columns =
      header_index (suc index) values (insert (lower (trim_space value)) index columns)

  abbrev pub named_column : Option ℕ → Result ℕ
  named_column none = err invalid
  named_column (some column) = ok column

  unfoldable pub field_columns : Map ℕ → List MailboxFormatField → Result (List ℕ)
  field_columns columns [] = ok []
  field_columns columns (field ∷ fields) = do
    column ← named_column (lookup (lower field.column) columns)
    rest ← field_columns columns fields
    ok (column ∷ rest)

  -- the `!headerReady` block
  unfoldable pub read_header : MailboxFormat → Line → Result Header
  unfolding header_index field_columns
  read_header f line = if line.unclosed || line.no_delimiter then err invalid else do
    indices ← field_columns (header_index 0 line.fields []) f.fields
    ok (record { indices = indices; expected = length line.fields })

  -- the loop over the fields, from the index of a field on
  unfoldable pub fill_row :
      List ℕ → List Text → ℕ → List MailboxFormatField → RawMappedRow → RawMappedRow
  unfolding cell canonical_format_target
  fill_row indices values index [] row = row
  fill_row indices values index (field ∷ fields) row =
      let column = get_or (get_elem? indices index) index in
      let value = cell (get_elem? values column) field.default in
      fill_row indices values (suc index) fields (record row {
        values = insert (canonical_format_target lower field.target) value row.values;
        errors =
            row.errors ++ problem_if (field.required && is_empty value) (required field.column);
      })

  -- a line below the header
  unfoldable pub read_row : MailboxFormat → Header → ℕ → Line → RawMappedRow
  unfolding fill_row
  read_row f header number line = fill_row header.indices line.fields 0 f.fields (record {
    line = number;
    values = [];
    errors =
        problem_if line.no_delimiter no_delimiter
        ++ (problem_if line.unclosed unclosed
            ++ problem_if (not (length line.fields == header.expected))
                (wrong_count header.expected (length line.fields)));
  })

  -- The loop over the lines; `header` is none as long as it is not read.
  unfoldable pub line_step :
      MailboxFormat → Option Header → ℕ → Text → Result (Header × List RawMappedRow)
  unfolding read_header read_row trim_return
  line_step f none number text = do
    header ← read_header f (parse_delimited_line (trim_return text) f.delimiter)
    ok (header, [])
  line_step f (some header) number text =
      ok (
        header,
        read_row f header number (parse_delimited_line (trim_return text) f.delimiter) ∷ [],
      )

  unfoldable pub read_lines :
      MailboxFormat → Option Header → ℕ → List Text → Result (List RawMappedRow)
  unfolding line_step
  read_lines f none number [] = err invalid
  read_lines f (some header) number [] = ok []
  read_lines f header number (text ∷ lines) =
      let skipped = read_lines f header (suc number) lines in
      if is_blank text then skipped else do
        step ← line_step f header number text
        rest ← read_lines f (some (step.0)) (suc number) lines
        ok (step.1 ++ rest)

  -- parseDelimitedInput
  unfoldable pub parse_delimited_input : MailboxFormat → Text → Result (List RawMappedRow)
  unfolding read_lines trim_mark join_crlf split_lines
  parse_delimited_input f given =
      read_lines f
        (if f.has_header then none else some (record { indices = []; expected = length f.fields }))
        1 (split_lines (join_crlf (trim_mark given)))

  -- `record[canonicalFormatTarget(field.Target)]`
  unfoldable pub value_of : Map Text → MailboxFormatField → Text
  unfolding canonical_format_target
  value_of values field = get_or (lookup (canonical_format_target lower field.target) values) []

  -- the delimited case of renderExport
  unfoldable pub render_delimited : MailboxFormat → List (Map Text) → Text
  unfolding value_of join encode_delimited_line
  render_delimited f records =
      let lines =
        map (λ r. encode_delimited_line (map (value_of r) f.fields) f.delimiter) records in
      let header =
        encode_delimited_line (map (λ (g : MailboxFormatField). g.column) f.fields) f.delimiter in
      join (line_feed ∷ []) (if f.has_header then header ∷ lines else lines)
