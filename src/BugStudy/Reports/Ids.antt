-- ===== src/BugStudy/Reports/Ids.antt =====
-- `get_id` and `get_cve_id`, and the lists sorted by what they return.
pub mod Comparable
use memsafedb.Prelude.{
  ℕ, Bool, true, false, ◌&&◌, ◌||◌, Option, none, some, List, [], ◌∷◌, map, leb, ◌==◌,
  if◌then◌else◌,
}
use memsafedb.Text.{Text, is_digit, is_empty, int}
use memsafedb.BugStudy.Years.{basename}
use memsafedb.Instructions.Table.{text_leb}
use memsafedb.Sorting.{sort_by}

unfoldable pub before_dot : Text → Option Text
before_dot [] = none
before_dot (c ∷ t) = elim (before_dot t) [
  | some p ↦ some (c ∷ p)
  | none ↦ if c == b'.' then some [] else none
]

abbrev pub all_dots : Text → Bool
all_dots [] = true
all_dots (c ∷ t) = c == b'.' && all_dots t

-- `os.path.splitext(name)[0]` of a name without `/`: dots that lead it end no stem
unfoldable pub stem : Text → Text
unfolding before_dot
stem name = elim (before_dot name) [ none ↦ name | some p ↦ if all_dots p then name else p ]

unfoldable pub get_id : Text → Text
unfolding stem basename
get_id path = stem (basename path)

unfoldable pub get_cve_id : Text → Text
unfolding stem basename
get_cve_id path = stem (basename path)

-- What the bugs are sorted by.
pub data BugId : Type 0 where
  number : ℕ → BugId
  word : Text → BugId

abbrev all_digits : Text → Bool
all_digits [] = true
all_digits (c ∷ t) = is_digit c && all_digits t

-- `int(x) if x.isdigit() else x`
unfoldable pub key_of : Text → BugId
unfolding is_digit int
key_of x = if is_empty x then word x else if all_digits x then number (int x) else word x

-- `<=` of two keys. `sorted` raises where it compares a number with a text, so the answer that is
-- chosen for those is never asked for.
unfoldable pub id_leb : BugId → BugId → Bool
unfolding text_leb
id_leb (number m) (number n) = leb m n
id_leb (number m) (word t) = true
id_leb (word s) (number n) = false
id_leb (word s) (word t) = text_leb s t

abbrev pub is_number : BugId → Bool
is_number (number n) = true
is_number (word t) = false

abbrev pub is_word : BugId → Bool
is_word (number n) = false
is_word (word t) = true

abbrev pub all_of : (BugId → Bool) → List BugId → Bool
all_of p [] = true
all_of p (x ∷ ids) = p x && all_of p ids

-- A sort has to compare a number with a text somewhere, if there are both.
unfoldable pub comparable : List BugId → Bool
comparable ids = all_of is_number ids || all_of is_word ids

-- `sorted(xs, key=…)`; `none` where it raises `TypeError`
unfoldable pub sorted_by_id {ℓ} : {A : Type ℓ} → (A → BugId) → List A → Option (List A)
unfolding comparable id_leb sort_by
sorted_by_id key xs = if comparable (map key xs) then some (sort_by id_leb key xs) else none

-- `sorted([get_id(bug) for bug in s], key=…)`
unfoldable pub sorted_ids : List Text → Option (List Text)
unfolding sorted_by_id key_of get_id
sorted_ids s = sorted_by_id key_of (map get_id s)

-- `sorted(list(all_flagged), key=…)`
unfoldable pub sorted_bugs : List Text → Option (List Text)
unfolding sorted_by_id key_of get_id
sorted_bugs flagged = sorted_by_id (λ x. key_of (get_id x)) flagged

-- `sorted([get_cve_id(cve) for cve in s])`
unfoldable pub sorted_cve_ids : List Text → List Text
unfolding sort_by text_leb get_cve_id
sorted_cve_ids s = sort_by text_leb (λ x. x) (map get_cve_id s)

-- `sorted(list(all_flagged), key=lambda x: get_cve_id(x))`
unfoldable pub sorted_cves : List Text → List Text
unfolding sort_by text_leb get_cve_id
sorted_cves flagged = sort_by text_leb get_cve_id flagged
