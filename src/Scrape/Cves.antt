-- ===== src/Scrape/Cves.antt =====
-- scrape_cves.py. A file is its name, the path that is listed, and its content, `none` where it does
-- not parse. Messages are left out.
pub mod Years
use memsafedb.Prelude.{
  ℕ, ◌+◌, ◌-◌, ◌*◌, Bool, true, false, not, ◌&&◌, ◌||◌, Option, none, some, List, [], ◌∷◌, ◌++◌,
  ◌==◌, ltb, if◌then◌else◌,
}
use memsafedb.Text.{Text, codes, strip, lower, starts_with, contains, split_on, is_digit, newline}
use memsafedb.BugStudy.Json.{Json, str, array, object, Items, nil, item, Fields, end, get_or}
use memsafedb.BugStudy.Reports.Entries.{py_str}
use memsafedb.BugStudy.Reports.Cumulative.{databases}
use memsafedb.Instructions.Table.{text_leb}
use memsafedb.Sorting.{sort_by}

pub record CveFile : Type 0 where
  pub name : Text
  pub path : Text
  pub content : Option Json

-- The digits of `int(s)`, between which single underscores may stand.
unfoldable pub int_digits : Bool → ℕ → Text → Option ℕ
int_digits after_digit n [] = if after_digit then some n else none
int_digits after_digit n (c ∷ s) =
    let digit = int_digits true (n * 10 + (c - b'0')) s in
    let underscore = int_digits false n s in
    if is_digit c then digit else if c == b'_' && after_digit then underscore else none

abbrev pub unsigned : Text → Text
unsigned [] = []
unsigned (c ∷ s) = if c == b'+' then s else c ∷ s

abbrev year_in : Option ℕ → Bool
year_in none = false
year_in (some year) = not (ltb year 2015)

-- The second of the parts that stand between dashes, which hold no minus sign.
abbrev pub year_of_parts : List Text → Bool
year_of_parts (p ∷ q ∷ ps) = year_in (int_digits false 0 (unsigned (strip q)))
year_of_parts ps = false

-- Is a file of that name looked into?
unfoldable pub recent : Text → Bool
unfolding starts_with split_on int_digits strip
recent name = if starts_with name (codes "CVE-") then year_of_parts (split_on b'-' name) else true

-- What is on the disk before, and the options.
pub record Setting : Type 0 where
  pub zip_there : Bool
  pub directory_there : Bool
  pub force : Bool
  pub skip_download : Bool

-- What is done before the search: which of the two steps are taken, or the exit with the status 1.
pub data Prepared : Type 0 where
  ready : Bool → Bool → Prepared
  exit_1 : Prepared

-- Is the zip file downloaded?
unfoldable pub download_cve_list : Setting → Bool
download_cve_list s = not (s.zip_there && not s.force)

-- Is it extracted?
unfoldable pub extract_cve_list : Setting → Bool
extract_cve_list s = not (s.directory_there && not s.force)

unfoldable pub prepare : Setting → Prepared
unfolding download_cve_list extract_cve_list
prepare s =
    if s.skip_download
    then (if s.directory_there then ready false false else exit_1)
    else ready (download_cve_list s) (extract_cve_list s)

module _ (repr : Json → Text) where
  -- `str(item.get(key, '')).lower()`
  abbrev lowered : Text → Fields → Text
  lowered key fs = lower (py_str repr (get_or key (str []) fs))

  unfoldable pub names_database : Text → Fields → Bool
  unfolding contains lower py_str get_or
  names_database database fs =
      contains (lower database) (lowered (codes "product") fs)
      || contains (lower database) (lowered (codes "packageName") fs)

  -- The loop over the affected items: an item that is no dict raises, and the file is passed over.
  unfoldable pub affected : Text → Items → Bool
  unfolding names_database
  affected database nil = false
  affected database (item (object fs) more) =
      let rest = affected database more in if names_database database fs then true else rest
  affected database (item v more) = false

  abbrev in_affected : Text → Json → Bool
  in_affected database (array vs) = affected database vs
  in_affected database v = false

  abbrev in_cna : Text → Json → Bool
  in_cna database (object fs) = in_affected database (get_or (codes "affected") (array nil) fs)
  in_cna database v = false

  abbrev in_containers : Text → Json → Bool
  in_containers database (object fs) = in_cna database (get_or (codes "cna") (object end) fs)
  in_containers database v = false

  unfoldable pub found : Text → Option Json → Bool
  unfolding affected get_or
  found database (some (object fs)) =
      in_containers database (get_or (codes "containers") (object end) fs)
  found database v = false

  -- The argument is the files of the directory `cves`, if it is there.
  unfoldable pub search_files : Text → List CveFile → List Text
  unfolding recent found
  search_files database [] = []
  search_files database (f ∷ files) =
      let rest = search_files database files in
      if recent f.name && found database f.content then f.path ∷ rest else rest

  unfoldable pub search_cves_for_database : Text → Option (List CveFile) → List Text
  unfolding search_files
  search_cves_for_database database none = []
  search_cves_for_database database (some files) = search_files database files

  abbrev match_lines : List Text → Text
  match_lines [] = []
  match_lines (m ∷ ms) = codes "./" ++ (m ++ (newline ∷ match_lines ms))

  -- The name of the file that is written, and its text.
  unfoldable pub save_cve_list : List Text → Text → Text × Text
  unfolding sort_by text_leb
  save_cve_list matches database =
      (database ++ codes "_cves", match_lines (sort_by text_leb (λ m. m) matches))

  -- The files that are written, one for each database. `files` says what is in the directory after
  -- the two steps; `none` is the exit before them.
  unfoldable pub write_lists : Option (List CveFile) → List Text → List (Text × Text)
  unfolding search_cves_for_database save_cve_list
  write_lists files [] = []
  write_lists files (db ∷ dbs) =
      save_cve_list (search_cves_for_database db files) db ∷ write_lists files dbs

  abbrev chosen : Option (List Text) → List Text
  chosen none = databases
  chosen (some dbs) = dbs

  unfoldable pub scrape_cves :
      Setting
      → Option (List Text)
      → (Bool → Bool → Option (List CveFile))
      → Option (List (Text × Text))
  unfolding prepare write_lists
  scrape_cves s dbs files = elim (prepare s) [
    | exit_1 ↦ none
    | ready downloaded extracted ↦ some (write_lists (files downloaded extracted) (chosen dbs))
  ]
