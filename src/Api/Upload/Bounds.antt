-- ===== src/Api/Upload/Bounds.antt =====
-- What the bounded read returns, and that the counted rows err on the high side.
use allocation_key_simulatio.Base.{
  ℕ, ◌+◌, ◌≤◌, ◌≡◌, refl, sym, ◌∙◌, List, [], ◌∷◌, ◌++◌, append-nil, append_assoc, join, Option,
  none, some, Bool, true, false, not, ◌||◌, inl, inr, Bool-cases, le→leb, ltb, leb, ◌==◌, length,
  length-append, is_empty, all, if◌then◌else◌, ok, raised, arith,
}
use allocation_key_simulatio.Shared.Errors.{Error}
use allocation_key_simulatio.Shared.Loading.{Bytes}
use allocation_key_simulatio.Api.Upload.{
  read_within_cap, Formats, Shape, measure_csv, measure_stripped, lstrip_lines, newline,
  count_newlines, ends_with_newline, count_lines, shape_of,
}

ltb-false : (a b : ℕ) → ltb a b ≡ false → b ≤ a
ltb-false a b h = ground arith

leb_of_over :
    (max_bytes : ℕ) (buffer chunk rest : Bytes)
    → ltb max_bytes (length buffer + length chunk) ≡ true
    → leb (length (buffer ++ (chunk ++ rest))) max_bytes ≡ false
leb_of_over max_bytes buffer chunk rest h =
    ground (arith, length-append buffer (chunk ++ rest), length-append chunk rest)

read-from :
    (chunks : List Bytes) (max_bytes : ℕ) (buffer : Bytes)
    → all (λ (c : Bytes). not (is_empty c)) chunks ≡ true
    → length buffer ≤ max_bytes
    → read_within_cap chunks max_bytes buffer ≡ (
        if leb (length (buffer ++ join chunks)) max_bytes
        then ok (buffer ++ join chunks)
        else raised (record { error = Error.file_too_large; status_code = 413 }))
unfolding read_within_cap
read-from [] max_bytes buffer h l = rw (append-nil buffer, le→leb (length buffer) max_bytes l) refl
read-from ([] ∷ rest) max_bytes buffer h l = cc
read-from ((c ∷ chunk) ∷ rest) max_bytes buffer h l =
    elim (Bool-cases (ltb max_bytes (length buffer + length (c ∷ chunk)))) [
      | inl q ↦ rw (q, leb_of_over max_bytes buffer (c ∷ chunk) (join rest) q) refl
      | inr q ↦ rw q (
          read-from rest max_bytes (buffer ++ c ∷ chunk) h (
            omega (
              arith,
              ltb-false max_bytes (length buffer + length (c ∷ chunk)) q,
              length-append {0} buffer (c ∷ chunk),
            ))
          ∙ rw (append_assoc buffer (c ∷ chunk) (join rest)) refl)
    ]

-- A file of at most the cap is read whole, however it arrives in chunks; the first byte over the
-- cap is refused with FILE_TOO_LARGE and 413.
pub read_within_cap-join :
    (chunks : List Bytes) (max_bytes : ℕ)
    → all (λ (c : Bytes). not (is_empty c)) chunks ≡ true
    → read_within_cap chunks max_bytes [] ≡ (
        if leb (length (join chunks)) max_bytes
        then ok (join chunks)
        else raised (record { error = Error.file_too_large; status_code = 413 }))
read_within_cap-join chunks max_bytes h = read-from chunks max_bytes [] h (omega arith)

-- The lines with something else than a carriage return on them, which pandas takes for rows.
unfoldable pub nonblank : Bool → Bytes → ℕ
nonblank open_line [] = if open_line then 1 else 0
nonblank open_line (c ∷ rest) =
    let more = nonblank (if c == newline then false else open_line || not (c == 13)) rest in
    if c == newline then (if open_line then 1 else 0) + more else more

nonblank-step :
    (b : Bool) (c : ℕ) (rest : Bytes) (k : ℕ)
    → nonblank (if c == newline then false else b || not (c == 13)) rest ≤ count_newlines rest + k
    → nonblank b (c ∷ rest) ≤ count_newlines (c ∷ rest) + k
unfolding nonblank count_newlines
nonblank-step b c rest k h = ground arith

nonblank-le :
    (b : Bool) (content : Bytes)
    → nonblank b content ≤ count_newlines content + (if ends_with_newline content then 0 else 1)
unfolding nonblank count_newlines ends_with_newline
nonblank-le true [] = omega arith
nonblank-le false [] = omega arith
nonblank-le b (c ∷ []) = ground arith
nonblank-le b (c ∷ d ∷ rest) =
    nonblank-step b c (d ∷ rest) (if ends_with_newline (d ∷ rest) then 0 else 1)
      (nonblank-le (if c == newline then false else b || not (c == 13)) (d ∷ rest))

nonblank-lstrip_lines :
    (content : Bytes) → nonblank false (lstrip_lines content) ≡ nonblank false content
unfolding nonblank lstrip_lines
nonblank-lstrip_lines [] = refl
nonblank-lstrip_lines (c ∷ rest) = let ih = nonblank-lstrip_lines rest in ground (arith, ih)

shape_of-rows :
    (formats : Formats) (rows : ℕ) (o : Option ℕ) (s : Shape)
    → shape_of formats rows o ≡ some s
    → s.data_rows ≡ rows
shape_of-rows formats rows none s h = cc
shape_of-rows formats rows (some k) s h = cc

measured :
    (formats : Formats) (content : Bytes) (s : Shape)
    → measure_stripped formats content ≡ some s
    → nonblank false content ≤ s.data_rows + 1
unfolding measure_stripped
measured formats [] s h = cc
measured formats (c ∷ content) s h =
    let rows = shape_of-rows formats _ _ s h in
    let l : nonblank false (c ∷ content) ≤ count_lines (c ∷ content) =
      unfold count_lines in nonblank-le false (c ∷ content) in
    omega (arith, rows, l)

-- The data rows counted for a CSV file are at least the lines that hold something, the header
-- aside.
pub measure_csv-nonblank :
    (formats : Formats) (content : Bytes) (s : Shape)
    → measure_csv formats content ≡ some s
    → nonblank false content ≤ s.data_rows + 1
unfolding measure_csv
measure_csv-nonblank formats content s h =
    rw (sym (nonblank-lstrip_lines content)) (measured formats (lstrip_lines content) s h)
