-- ===== src/Scrape/Csv.antt =====
-- `next(csv.reader([row]))` and `str.splitlines` of the ASCII characters.
use memsafedb.Prelude.{
  ℕ, Bool, true, false, ◌||◌, List, [], ◌∷◌, ◌++◌, ◌==◌, leb, ◌&&◌, if◌then◌else◌,
}
use memsafedb.Text.{Text}

-- The states of the reader inside a row.
pub data CsvState : Type 0 where
  start_field in_field in_quoted quote_in_quoted : CsvState

abbrev quote : ℕ
quote = b'"'

-- The field so far and the character; the fields before are kept by the caller.
unfoldable pub csv_fields : CsvState → Text → Text → List Text
csv_fields state field [] = field ∷ []
csv_fields start_field field (c ∷ s) =
    let quoted = csv_fields in_quoted field s in
    let next = csv_fields start_field [] s in
    let more = csv_fields in_field (field ++ (c ∷ [])) s in
    if c == quote then quoted else if c == b',' then field ∷ next else more
csv_fields in_field field (c ∷ s) =
    let next = csv_fields start_field [] s in
    let more = csv_fields in_field (field ++ (c ∷ [])) s in if c == b',' then field ∷ next else more
csv_fields in_quoted field (c ∷ s) =
    let closed = csv_fields quote_in_quoted field s in
    let more = csv_fields in_quoted (field ++ (c ∷ [])) s in if c == quote then closed else more
csv_fields quote_in_quoted field (c ∷ s) =
    let again = csv_fields in_quoted (field ++ (c ∷ [])) s in
    let next = csv_fields start_field [] s in
    let more = csv_fields in_field (field ++ (c ∷ [])) s in
    if c == quote then again else if c == b',' then field ∷ next else more

unfoldable pub csv_row : Text → List Text
unfolding csv_fields
csv_row row = csv_fields start_field [] row

abbrev is_break : ℕ → Bool
is_break c = (leb 10 c && leb c 13) || (leb 28 c && leb c 30)

abbrev onto_first : ℕ → List Text → List Text
onto_first c [] = (c ∷ []) ∷ []
onto_first c (l ∷ ls) = (c ∷ l) ∷ ls

-- `after_return` tells that the last character was a carriage return, with which a line feed is one
-- break.
unfoldable pub lines_from : Bool → Text → List Text
lines_from after_return [] = []
lines_from true (c ∷ s) =
    let rest = lines_from false s in
    let broken = lines_from (c == 13) s in
    if c == 10 then rest else if is_break c then [] ∷ broken else onto_first c rest
lines_from false (c ∷ s) =
    let rest = lines_from false s in
    let broken = lines_from (c == 13) s in if is_break c then [] ∷ broken else onto_first c rest

unfoldable pub splitlines : Text → List Text
unfolding lines_from
splitlines s = lines_from false s
