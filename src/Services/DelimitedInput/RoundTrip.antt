-- ===== src/Services/DelimitedInput/RoundTrip.antt =====
-- A delimited file without a header that was exported is imported.
use mathlib.Core.List.{append_assoc, append-nil}
use account_manager.Prelude.{
  ok, ℕ, suc, ◌==◌, Bool, true, false, ◌&&◌, some, List, [], ◌∷◌, ◌++◌, map, length, Text,
  trim_space, is_blank, is_empty, Map, insert, ◌≡◌, refl, sym, ◌∙◌, ap, arith, All, starts_with,
  length-append, ◌<◌, drop_space,
}
use account_manager.Domain.{MailboxFormat, MailboxFormatField}
use account_manager.Services.Formats.{canonical_format_target}
use account_manager.Services.Delimited.{parse_delimited_line, encode_delimited_line, join}
use account_manager.Services.Delimited.Encoding.{
  IsUnquoted, IsEncodable, parse-encode_delimited_line,
}
use account_manager.Services.DelimitedInput.{
  RawMappedRow, line_feed, split_lines, trim_mark, get_elem?, Header, problem_if, cell, fill_row,
  read_row, line_step, read_lines, parse_delimited_input, value_of, render_delimited, required,
}
use account_manager.Services.DelimitedInput.Lines.{
  IsBreakless, split_lines-join, join-IsReturnless, trim_return_plain, encode-IsBreakless,
  join_crlf_plain,
}

get_elem?-append : (xs ys : List Text) (y : Text) → get_elem? (xs ++ (y ∷ ys)) (length xs) ≡ some y
get_elem?-append [] ys y = refl
get_elem?-append (x ∷ xs) ys y = get_elem?-append xs ys y

-- A text without spaces around it that is not empty.
abbrev pub IsCell : Text → Type 0
IsCell v = (trim_space v ≡ v) × (is_blank v ≡ false)

cell_plain : (v default : Text) → IsCell v → cell (some v) default ≡ v
unfolding cell
cell_plain v default (trimmed, seen) = rw seen trimmed

IsCell-given : (v : Text) → IsCell v → is_empty v ≡ false
unfolding is_blank
IsCell-given v (trimmed, seen) = ap is_empty (sym trimmed) ∙ seen

no_problem : (b : Bool) (column : Text) → problem_if (b && false) (required column) ≡ []
no_problem true column = refl
no_problem false column = refl

equal_lengths : (n : ℕ) → n == n ≡ true
equal_lengths n = ground arith

module _ (lower : Text → Text) where
  -- What a record gives to the targets of the fields.
  unfoldable pub row_values : List MailboxFormatField → Map Text → Map Text → Map Text
  row_values [] r values = values
  row_values (field ∷ fields) r values =
      row_values fields r
        (insert (canonical_format_target lower field.target) (value_of lower r field) values)

  fill_row-plain :
      (r : Map Text) (before : List Text) (fields : List MailboxFormatField) (row : RawMappedRow)
      → All (λ g. IsCell (value_of lower r g)) fields
      → fill_row lower [] (before ++ map (value_of lower r) fields) (length before) fields row
        ≡ record row { values = row_values fields r row.values }
  unfolding fill_row row_values
  fill_row-plain r before [] row h = refl
  fill_row-plain r before (field ∷ fields) row (h, hs) =
      let v = value_of lower r field in
      let rest = map (value_of lower r) fields in
      let next : RawMappedRow = record row {
        values = insert (canonical_format_target lower field.target) v row.values;
      } in
      rw
        (
          get_elem?-append before rest v,
          cell_plain v field.default h,
          IsCell-given v h,
          no_problem field.required field.column,
          append-nil row.errors,
        )
        (ap (λ vs. fill_row lower [] vs (suc (length before)) fields next)
            (sym (append_assoc before (v ∷ []) rest))
          ∙ ap (λ n. fill_row lower [] ((before ++ v ∷ []) ++ rest) n fields next)
              (omega (arith, length-append {0} before (v ∷ [])))
          ∙ fill_row-plain r (before ++ v ∷ []) fields next hs)

  -- A record that the file shows as it is: every value of a field is a cell on one line, and is quoted
  -- or separable from the delimiter; and its line is not blank.
  pub record IsPlainRecord (f : MailboxFormat) (r : Map Text) : Type 0 where
    pub cells : All (λ g. IsCell (value_of lower r g)) f.fields
    pub breakless : All IsBreakless (map (value_of lower r) f.fields)
    pub encodable : All (IsEncodable f.delimiter) (map (value_of lower r) f.fields)
    pub visible :
        is_blank (encode_delimited_line (map (value_of lower r) f.fields) f.delimiter) ≡ false

  -- The rows of the records, on the lines from `number` on.
  unfoldable pub rows_of : MailboxFormat → ℕ → List (Map Text) → List RawMappedRow
  rows_of f number [] = []
  rows_of f number (r ∷ records) =
      record { line = number; values = row_values f.fields r []; errors = [] }
      ∷ rows_of f (suc number) records

  abbrev line_of : MailboxFormat → Map Text → Text
  line_of f r = encode_delimited_line (map (value_of lower r) f.fields) f.delimiter

  abbrev whole : MailboxFormat → Header
  whole f = record { indices = []; expected = length f.fields }

  length-values :
      (r : Map Text) (fields : List MailboxFormatField)
      → length (map (value_of lower r) fields) ≡ length fields
  length-values r [] = refl
  length-values r (field ∷ fields) = ap suc (length-values r fields)

  read_row-plain :
      (f : MailboxFormat) (r : Map Text) (number : ℕ)
      → IsPlainRecord f r
      → read_row lower f (whole f) number (record {
        fields = map (value_of lower r) f.fields;
        unclosed = false;
        no_delimiter = false;
      })
        ≡ record { line = number; values = row_values f.fields r []; errors = [] }
  unfolding read_row
  read_row-plain f r number h =
      rw (length-values r f.fields, equal_lengths (length f.fields))
        (fill_row-plain r [] f.fields (record { line = number; values = []; errors = [] }) h.cells)

  -- A delimited format without a header, with a field, and with a delimiter that the encoding bears.
  pub record IsPlainFormat (f : MailboxFormat) : Type 0 where
    pub headless : f.has_header ≡ false
    pub given : is_empty f.delimiter ≡ false
    pub unquoted : IsUnquoted f.delimiter
    pub on_line : IsBreakless f.delimiter
    pub inhabited : 0 < length f.fields

  parse_line_of :
      (f : MailboxFormat) (values : List Text)
      → IsPlainFormat f
      → 0 < length values
      → All (IsEncodable f.delimiter) values
      → parse_delimited_line (encode_delimited_line values f.delimiter) f.delimiter
        ≡ record { fields = values; unclosed = false; no_delimiter = false }
  parse_line_of f [] h some_value e = absurd (omega arith)
  parse_line_of f (v ∷ values) h some_value e =
      parse-encode_delimited_line f.delimiter v values h.given h.unquoted e

  line_of-IsBreakless :
      (f : MailboxFormat) (records : List (Map Text))
      → IsPlainFormat f
      → All (IsPlainRecord f) records
      → All IsBreakless (map (line_of f) records)
  line_of-IsBreakless f [] h hs = tt
  line_of-IsBreakless f (r ∷ records) h (hr, hs) = (
    encode-IsBreakless f.delimiter (map (value_of lower r) f.fields) h.on_line hr.breakless,
    line_of-IsBreakless f records h hs,
  )

  read_lines-plain :
      (f : MailboxFormat) (number : ℕ) (records : List (Map Text))
      → IsPlainFormat f
      → All (IsPlainRecord f) records
      → read_lines lower f (some (whole f)) number (map (line_of f) records)
        ≡ ok (rows_of f number records)
  unfolding read_lines line_step rows_of
  read_lines-plain f number [] h hs = refl
  read_lines-plain f number (r ∷ records) h (hr, hs) =
      let values = map (value_of lower r) f.fields in
      rw
        (
          hr.visible,
          trim_return_plain (line_of f r)
              (encode-IsBreakless f.delimiter values h.on_line hr.breakless),
          parse_line_of f values h (omega (arith, length-values r f.fields, h.inhabited))
              hr.encodable,
          read_row-plain f r number hr,
          read_lines-plain f (suc number) records h hs,
        )
        refl

  trim_mark_plain : (s : Text) → starts_with (0xFEFF ∷ []) s ≡ false → trim_mark s ≡ s
  unfolding trim_mark starts_with
  trim_mark_plain [] h = refl
  trim_mark_plain (c ∷ s) h = ground arith

  split_rendered :
      (f : MailboxFormat) (records : List (Map Text)) (number : ℕ)
      → IsPlainFormat f
      → All (IsPlainRecord f) records
      → read_lines lower f
          (some (whole f))
          number
          (split_lines (join (line_feed ∷ []) (map (line_of f) records)))
        ≡ ok (rows_of f number records)
  split_rendered f [] number h hs =
      unfold join split_lines read_lines rows_of is_blank trim_space drop_space in refl
  split_rendered f (r ∷ records) number h hs =
      ap (read_lines lower f (some (whole f)) number) (
        split_lines-join (line_of f r) (map (line_of f) records)
          (line_of-IsBreakless f (r ∷ records) h hs))
      ∙ read_lines-plain f number (r ∷ records) h hs

  -- A file that the export renders in a delimited format without a header is imported without problems
  -- into the records it came from, in their order: the row on line n holds, for the targets of the
  -- fields, the values of the n-th record. The delimiter is given, has no quote and no line end; every
  -- value of a field is trimmed, not empty, on one line, and quoted or separable from the delimiter; no
  -- line is blank, and the file does not begin with a byte order mark.
  pub parse-render_delimited :
      (f : MailboxFormat) (records : List (Map Text))
      → IsPlainFormat f
      → All (IsPlainRecord f) records
      → starts_with (0xFEFF ∷ []) (render_delimited lower f records) ≡ false
      → parse_delimited_input lower f (render_delimited lower f records) ≡ ok (rows_of f 1 records)
  unfolding parse_delimited_input render_delimited
  parse-render_delimited f records h hs unmarked =
      let content = join (line_feed ∷ []) (map (line_of f) records) in
      let unmarked' : (starts_with (0xFEFF ∷ []) content ≡ false) = rw h.headless at unmarked in
      simp
        (
          h.headless,
          trim_mark_plain content unmarked',
          join_crlf_plain content
              (join-IsReturnless (map (line_of f) records) (line_of-IsBreakless f records h hs)),
        )
        (split_rendered f records 1 h hs)
