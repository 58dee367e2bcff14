-- ===== src/BugStudy/Export/Rows.antt =====
-- The rows of the CSV file.
use mathlib.Core.List.{Perm}
use mathlib.Core.Path.{subst}
use memsafedb.Prelude.{ℕ, ◌≡◌, refl, Option, some, List, [], ◌∷◌, >>=-eq-some, map, leb}
use memsafedb.Text.{Text}
use memsafedb.Sorting.Order.{IsSorted, sort_by-Perm, sort_by-IsSorted, leb-IsTotalOrder}
use memsafedb.BugStudy.Yearly.{YearCounts, Summary, Report}
use memsafedb.BugStudy.Export.{CsvRow, Exported, csv_row, year_of, sorted_years, onto, export_rows}

-- The rows and the summary of a database.
pub record IsBlock (db_name : Text → Text) (analyze : Text → Option Report) (dbms : Text)
    (rows : List CsvRow) (summary : Text × Summary) : Type 0 where
  pub report : Report
  pub analyzed : analyze dbms ≡ some report
  pub named : summary ≡ (dbms, report.1)
  pub years : List (ℕ × YearCounts)
  pub all : Perm years report.0
  pub sorted : IsSorted leb year_of years
  pub written : rows ≡ map (csv_row (db_name dbms)) years

-- The blocks of the databases, one behind the other.
pub data AreBlocks (db_name : Text → Text) (analyze : Text → Option Report)
    : List Text → Exported → Type 0 where
  no_block : AreBlocks db_name analyze [] ([], [])
  block :
      {dbms : Text} {dbs : List Text} {rows : List CsvRow} {summary : Text × Summary}
      {rest : Exported}
      → IsBlock db_name analyze dbms rows summary
      → AreBlocks db_name analyze dbs rest
      → AreBlocks db_name analyze (dbms ∷ dbs) (onto rows summary rest)

some_inj {ℓ} : {A : Type ℓ} (x y : A) → some x ≡ some y → x ≡ y
some_inj x y e = cc

-- Whatever the analyses return: if none of them raises, the rows that are exported are those of the
-- databases in their order, and the rows of a database are one for each of its years, sorted by
-- year, with the counts of that year. The summaries are those of the databases.
pub export_rows-AreBlocks :
    (db_name : Text → Text) (analyze : Text → Option Report) (dbs : List Text) {out : Exported}
    → export_rows db_name analyze dbs ≡ some out
    → AreBlocks db_name analyze dbs out
unfolding export_rows sorted_years
export_rows-AreBlocks db_name analyze [] {out} e =
    subst (λ o. AreBlocks db_name analyze [] o) (some_inj ([], []) out e) no_block
export_rows-AreBlocks db_name analyze (dbms ∷ dbs) {out} e =
    let (report, (analyzed, e1)) = >>=-eq-some (analyze dbms) _ e in
    let (rest, (exported, e2)) = >>=-eq-some (export_rows db_name analyze dbs) _ e1 in
    subst (λ o. AreBlocks db_name analyze (dbms ∷ dbs) o)
      (some_inj (onto (map (csv_row (db_name dbms)) (sorted_years report.0)) (dbms, report.1) rest)
        out e2)
      (block
        (record {
          report = report;
          analyzed = analyzed;
          named = refl;
          years = sorted_years report.0;
          all = sort_by-Perm leb year_of report.0;
          sorted = sort_by-IsSorted leb year_of leb-IsTotalOrder report.0;
          written = refl;
        })
        (export_rows-AreBlocks db_name analyze dbs exported))
