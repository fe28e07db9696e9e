-- ===== src/Api/Upload.antt =====
-- An uploaded file before it is stored: its bounded read (api/simulation/service.py), and its
-- columns and data rows, counted without parsing it (api/simulation/upload_shape.py).
pub mod Bounds
pub mod Columns
use allocation_key_simulatio.Base.{
  ℕ, ◌+◌, ◌-◌, ◌*◌, Text, codes, List, [], ◌∷◌, ◌++◌, reverse, Option, none, some, Bool, true,
  false, ◌||◌, ltb, leb, ◌==◌, same_text, length, is_empty, if◌then◌else◌, Result, ok, raised,
}
use allocation_key_simulatio.Shared.Errors.{Error, ErrorException}
use allocation_key_simulatio.Shared.Loading.{Bytes, extension}

-- `UPLOAD_MAX_BODY_BYTES`
unfoldable pub upload_max_body_bytes : ℕ
upload_max_body_bytes = 50 * 1024 * 1024

-- `_read_within_cap`: the chunks as `file.read` returns them; an empty one is the end of the file.
unfoldable pub read_within_cap : List Bytes → ℕ → Bytes → Result ErrorException Bytes
read_within_cap [] max_bytes buffer = ok buffer
read_within_cap ([] ∷ rest) max_bytes buffer = ok buffer
read_within_cap ((c ∷ chunk) ∷ rest) max_bytes buffer =
    let more = read_within_cap rest max_bytes (buffer ++ c ∷ chunk) in
    if ltb max_bytes (length buffer + length (c ∷ chunk))
    then raised (record { error = Error.file_too_large; status_code = 413 })
    else more

-- The library calls of the counts: `decode("utf-8", errors="replace")`, the fields of one line by
-- `csv.reader`, and the last column and row that the first worksheet's dimension record names;
-- each `none` where it raises or finds nothing.
pub record Formats : Type 0 where
  pub decode_text : Bytes → Text
  pub csv_fields : Text → Option ℕ
  pub dimension : Bytes → Option (Text × ℕ)

pub record Shape : Type 0 where
  pub columns : ℕ
  pub data_rows : ℕ

abbrev pub newline : ℕ
newline = 10

abbrev pub is_line_end : ℕ → Bool
is_line_end c = c == newline || c == 13

unfoldable pub lstrip_lines : Bytes → Bytes
lstrip_lines [] = []
lstrip_lines (c ∷ rest) = if is_line_end c then lstrip_lines rest else c ∷ rest

-- `content.split(b"\n", 1)[0]`
unfoldable pub first_line : Bytes → Bytes
first_line [] = []
first_line (c ∷ rest) = let line = first_line rest in if c == newline then [] else c ∷ line

unfoldable pub count_newlines : Bytes → ℕ
count_newlines [] = 0
count_newlines (c ∷ rest) = let n = count_newlines rest in if c == newline then n + 1 else n

unfoldable pub ends_with_newline : Bytes → Bool
ends_with_newline [] = false
ends_with_newline (c ∷ []) = c == newline
ends_with_newline (c ∷ d ∷ rest) = ends_with_newline (d ∷ rest)

-- `rstrip("\r")`, on the reversed text.
unfoldable pub drop_returns : Text → Text
drop_returns [] = []
drop_returns (c ∷ rest) = if c == 13 then drop_returns rest else c ∷ rest

unfoldable pub count_lines : Bytes → ℕ
unfolding count_newlines ends_with_newline
count_lines content = count_newlines content + (if ends_with_newline content then 0 else 1)

module _ (formats : Formats) where
  abbrev pub shape_of : ℕ → Option ℕ → Option Shape
  shape_of rows none = none
  shape_of rows (some columns) = some (record { columns = columns; data_rows = rows })

  -- Behind the strip.
  unfoldable pub measure_stripped : Bytes → Option Shape
  unfolding first_line drop_returns count_lines
  measure_stripped [] = none
  measure_stripped (c ∷ content) =
      let header =
        reverse (drop_returns (reverse (formats.decode_text (first_line (c ∷ content))))) in
      shape_of (count_lines (c ∷ content) - 1) (formats.csv_fields header)

  -- `_measure_csv`
  unfoldable pub measure_csv : Bytes → Option Shape
  unfolding measure_stripped lstrip_lines
  measure_csv content = measure_stripped (lstrip_lines content)

-- `letters.upper()`, on the ASCII letters that the expression lets through.
unfoldable pub upper : ℕ → ℕ
upper c = if leb b'a' c then c - 32 else c

unfoldable pub column_from : ℕ → Text → ℕ
unfolding upper
column_from number [] = number
column_from number (letter ∷ letters) =
    column_from (number * 26 + (upper letter - b'A' + 1)) letters

-- `_column_number`
unfoldable pub column_number : Text → ℕ
unfolding column_from
column_number letters = column_from 0 letters

module _ (formats : Formats) where
  abbrev pub sheet_shape : Option (Text × ℕ) → Option Shape
  sheet_shape none = none
  sheet_shape (some (last_column, last_row)) =
      some (record { columns = column_number last_column; data_rows = last_row - 1 })

  -- `_measure_xlsx`
  unfoldable pub measure_xlsx : Bytes → Option Shape
  unfolding column_number
  measure_xlsx content = sheet_shape (formats.dimension content)

  unfoldable pub measure : Bytes → Text → Option Shape
  measure content file_name =
      let ext = extension file_name in
      if same_text ext (codes "csv")
      then measure_csv formats content
      else if same_text ext (codes "xlsx") || same_text ext (codes "xls")
      then measure_xlsx content
      else none
