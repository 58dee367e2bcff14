-- ===== src/BugStudy/Years.antt =====
-- The year of a report: `extract_year_from_bug` of export_bug_results_to_csv.py and
-- `extract_year_from_cve_path` of export_cve_results_to_csv.py.
use memsafedb.Prelude.{ℕ, Option, none, some, [], ◌∷◌, ◌==◌, if◌then◌else◌}
use memsafedb.Text.{Text, codes, int}
use memsafedb.Regex.{
  Re, char, seq, group, plus, lit, eps, optional, is, digit, Match, search_in, match_at, group_text,
}
use memsafedb.Parsers.Classes.{spaces, maybe_spaces, is_word_char}
use memsafedb.BugStudy.Json.{Json, str, object, Fields, get}

abbrev pub four_digits : Re
four_digits = seq digit (seq digit (seq digit digit))

-- `(\d{4})-`
pub iso_year : Re
iso_year = seq (group 1 four_digits) (lit (codes "-") eps)

-- `\d{1,2}\s+\w+\s+` before the rest
abbrev day_and_month : Re → Re
day_and_month r =
    seq digit (seq (optional digit) (spaces (seq (plus (char is_word_char)) (spaces r))))

-- `\[?\d{1,2}\s+\w+\s+(\d{4})`
dated_year : Re
dated_year = seq (optional (is b'[')) (day_and_month (group 1 four_digits))

-- `Submitted:\s*</th>\s*<td>(\d{1,2}\s+\w+\s+\d{4})`
submitted_date : Re
submitted_date = lit (codes "Submitted:") (
    maybe_spaces (
      lit (codes "</th>")
        (maybe_spaces (lit (codes "<td>") (group 1 (day_and_month four_digits))))))

-- `CVE-(\d{4})-`
cve_year : Re
cve_year = lit (codes "CVE-") (seq (group 1 four_digits) (lit (codes "-") eps))

abbrev pub year_of : Option Match → Option ℕ
year_of none = none
year_of (some m) = some (int (group_text 1 m))

-- The outcome of one of the three tries: nothing found, a year, or an exception, after which the
-- handler returns `None`.
pub data Try : Type 0 where
  next : Try
  year : ℕ → Try
  raised : Try

abbrev try_of : Option ℕ → Try
try_of none = next
try_of (some y) = year y

-- `if key in data: match = re.match(…, data[key]) …`: `re` raises at a value that is no text
unfoldable pub iso_try : Option Json → Try
unfolding match_at iso_year group_text int
iso_try none = next
iso_try (some (str s)) = try_of (year_of (match_at iso_year s))
iso_try (some _) = raised

unfoldable pub html_try : Option Json → Try
unfolding search_in submitted_date group_text int
html_try none = next
html_try (some (str html)) = elim (search_in submitted_date html) [
  | none ↦ next
  | some m ↦ try_of (year_of (search_in (group 1 four_digits) (group_text 1 m)))
]
html_try (some _) = raised

unfoldable pub description_try : Option Json → Option Json → Try
unfolding search_in dated_year group_text int html_try
description_try none html = next
description_try (some (str description)) html = elim (search_in dated_year description) [
  | none ↦ html_try html
  | some m ↦ year (int (group_text 1 m))
]
description_try (some _) html = raised

abbrev pub or_next : Try → Try → Try
or_next next t = t
or_next (year y) t = year y
or_next raised t = raised

abbrev pub result : Try → Option ℕ
result next = none
result (year y) = some y
result raised = none

unfoldable pub year_of_fields : Fields → Option ℕ
unfolding iso_try description_try get
year_of_fields data' = result (
    or_next (iso_try (get (codes "created_at") data')) (
      or_next (iso_try (get (codes "created") data'))
        (description_try (get (codes "description") data') (get (codes "html_content") data'))))

abbrev fields_of : Option Json → Option Fields
fields_of (some (object fs)) = some fs
fields_of _ = none

-- The argument is what the file holds, `none` where opening or parsing raises.
unfoldable pub extract_year_from_bug : Option Json → Option ℕ
unfolding year_of_fields
extract_year_from_bug content = elim (fields_of content) [
  | none ↦ none
  | some fs ↦ year_of_fields fs
]

-- What follows the last `/`.
unfoldable pub basename_from : Text → Text → Text
basename_from last [] = last
basename_from last (c ∷ t) = basename_from (if c == b'/' then t else last) t

unfoldable pub basename : Text → Text
unfolding basename_from
basename path = basename_from path path

unfoldable pub extract_year_from_cve_path : Text → Option ℕ
unfolding search_in cve_year group_text int basename
extract_year_from_cve_path path = year_of (search_in cve_year (basename path))
