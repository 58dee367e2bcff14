-- ===== src/BugStudy/Yearly/Table.antt =====
-- What both scripts keep by year, and the summary of a database.
use memsafedb.Prelude.{ℕ, Bool, List, [], ◌==◌, map, length}
use memsafedb.Text.{Text, text_eq}
use memsafedb.BugStudy.Json.{Json}
use memsafedb.Dict.{Counter, add, update}

-- The sets of one year.
pub record YearSets : Type 0 where
  pub total : List Text
  pub llm_memsafe : List Text
  pub keyword_memsafe : List Text

abbrev pub no_sets : YearSets
no_sets = record { total = []; llm_memsafe = []; keyword_memsafe = [] }

abbrev pub Yearly : Type 0
Yearly = List (ℕ × YearSets)

unfoldable pub add_total : Text → YearSets → YearSets
unfolding add text_eq
add_total path s = record s { total = add text_eq path s.total }

unfoldable pub add_llm : Text → YearSets → YearSets
unfolding add text_eq
add_llm path s = record s { llm_memsafe = add text_eq path s.llm_memsafe }

unfoldable pub add_keyword : Text → YearSets → YearSets
unfolding add text_eq
add_keyword path s = record s { keyword_memsafe = add text_eq path s.keyword_memsafe }

abbrev pub year_eq : ℕ → ℕ → Bool
year_eq a b = a == b

-- `yearly_stats[year][…].add(…)`
unfoldable pub in_year : ℕ → (YearSets → YearSets) → Yearly → Yearly
unfolding update
in_year year f y = update year_eq no_sets year f y

pub record YearCounts : Type 0 where
  pub total : ℕ
  pub llm_memsafe : ℕ
  pub keyword_memsafe : ℕ

abbrev pub counts : YearSets → YearCounts
counts s = record {
  total = length s.total;
  llm_memsafe = length s.llm_memsafe;
  keyword_memsafe = length s.keyword_memsafe;
}

-- What the loop over the reports keeps.
pub record Stats : Type 0 where
  pub yearly : Yearly
  pub db_memsafe : ℕ
  pub implications : Counter Json

abbrev pub no_stats : Stats
no_stats = record { yearly = []; db_memsafe = 0; implications = [] }

pub record Summary : Type 0 where
  pub total : ℕ
  pub llm_memsafe : ℕ
  pub implications_unanimous : Counter Json

abbrev pub Report : Type 0
Report = List (ℕ × YearCounts) × Summary

unfoldable pub yearly_counts : Yearly → List (ℕ × YearCounts)
yearly_counts = map (λ (year, s). (year, counts s))
