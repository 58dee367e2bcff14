-- ===== src/Tests/Tables.antt =====
-- The two tables at concrete rows.
use memsafedb.Prelude.{◌≡◌, refl, none, some, List, [], ◌∷◌}
use memsafedb.Text.{codes, is_digit}
use memsafedb.Tables.BugClasses.{
  Config, mte, CaseRow, Cell, c_trap, c_libc, aggregate, classify_case,
}
use memsafedb.Tables.BugClasses.Meaning.{Promise, aggregate-Promise}
use memsafedb.Tables.Breakdown.{BreakdownRow, Section, aggregate_section, grouped, parse_top}
use memsafedb.Tables.Breakdown.Kept.{row_sum, selected_sum, IsWithinTop, aggregate_section-total}

abbrev trapped : CaseRow
trapped = record {
  bug = codes "heap_overflow";
  cls = codes "Heap buffer overflow";
  outcome = codes "hw_trap";
  timing = codes "access";
  detail = codes "segv_mteserr";
  count = 10;
  runs = 10;
}

abbrev aborted : CaseRow
aborted = record trapped { outcome = codes "runtime_abort"; timing = codes "none" }

all_aborted :
    aggregate mte (codes "Heap buffer overflow") ((aborted ∷ []) ∷ (aborted ∷ []) ∷ [])
    ≡ some (c_libc, [])
unfolding aggregate
all_aborted = refl

aggregate-Promise_example : Promise c_libc ((aborted ∷ []) ∷ (aborted ∷ []) ∷ [])
aggregate-Promise_example =
    aggregate-Promise mte (codes "Heap buffer overflow") ((aborted ∷ []) ∷ (aborted ∷ []) ∷ [])
      all_aborted

-- Three of eight runs: 37.5 is rounded to the even 38.
three_of_eight :
    classify_case (record trapped { count = 3; runs = 8 } ∷ [])
    ≡ some (memsafedb.Tables.BugClasses.prob, 38)
unfolding classify_case
three_of_eight = refl

abbrev mte_section : Section
mte_section = record {
  mechanism = codes "mte";
  components = codes "binary" ∷ codes "glibc" ∷ [];
  category = codes "new-instruction";
  title = codes "MTE instructions";
  color = codes "good";
}

abbrev irg : BreakdownRow
irg = record {
  mechanism = codes "mte";
  component = codes "binary";
  category = codes "new-instruction";
  mnemonic = codes "irg";
  count = 5;
}

abbrev breakdown_rows : List BreakdownRow
breakdown_rows =
    irg
    ∷ record irg { mnemonic = codes "stg"; count = 7 }
    ∷ record irg { component = codes "glibc" }
    ∷ record irg { mnemonic = codes "ldg"; count = 1 }
    ∷ record irg { mechanism = codes "cheri" }
    ∷ []

aggregate_section-total_example :
    ((aggregate_section breakdown_rows mte_section (some 1)).1
      ≡ selected_sum mte_section breakdown_rows)
    × ((row_sum (aggregate_section breakdown_rows mte_section (some 1)).0
          ≡ (aggregate_section breakdown_rows mte_section (some 1)).1)
        × IsWithinTop (some 1) (aggregate_section breakdown_rows mte_section (some 1)).0)
aggregate_section-total_example = aggregate_section-total breakdown_rows mte_section (some 1)

total_18 : (aggregate_section breakdown_rows mte_section (some 1)).1 ≡ 18
unfolding aggregate_section
total_18 = refl

millions : grouped 4 1_002_030 ≡ codes "1,002,030"
unfolding grouped
millions = refl

no_top : parse_top (codes "0") ≡ none
unfolding parse_top is_digit
no_top = refl
