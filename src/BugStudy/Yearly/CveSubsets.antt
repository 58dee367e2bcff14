-- ===== src/BugStudy/Yearly/CveSubsets.antt =====
-- The sets of a year, and the counts of a database, under the loop over the CVEs.
use memsafedb.Prelude.{ℕ, ◌≡◌, refl, sym, none, some, [], ◌∷◌, ◌==◌, arith, Bool-cases, inl, inr}
use memsafedb.Text.{Text}
use memsafedb.BugStudy.Loading.{Reps, Results}
use memsafedb.BugStudy.Years.{extract_year_from_cve_path}
use memsafedb.BugStudy.Votes.{Tally, tally, unanimous_implication}
use memsafedb.BugStudy.Votes.Unanimous.{IsUnanimous, tally-IsUnanimous}
use memsafedb.BugStudy.Yearly.Table.{Stats, no_stats, add_total, add_llm, in_year}
use memsafedb.BugStudy.Yearly.Cves.{in_range, count_total_cve, count_memsafe_cve, count_cves}
use memsafedb.BugStudy.Yearly.Subsets.{
  IsStats, AreYears, in_year-AreYears, IsYear-both, IsYear-total, in_year-twice, memsafe_three,
  add_implication-sum,
}

both-AreYears :
    (year : ℕ) (path : Text) (s : Stats)
    → IsStats s
    → AreYears (in_year year (add_llm path) (in_year year (add_total path) s.yearly))
both-AreYears year path s h = rw (in_year-twice year (add_total path) (add_llm path) s.yearly) (
    in_year-AreYears year (λ x. add_llm path (add_total path x)) (IsYear-both path) s.yearly
      h.years)

count_cve-IsStats :
    (year : ℕ) (path : Text) (r : Reps) (t : Tally) (s : Stats)
    → IsUnanimous r t
    → IsStats s
    → IsStats (count_memsafe_cve year path t (count_total_cve year path t s))
unfolding count_memsafe_cve count_total_cve
count_cve-IsStats year path r t s u h = elim (Bool-cases (t.memsafe_count == 3)) [
  | inl all ↦ rw all (
      rw (memsafe_three r t u all) (elim (Bool-cases (in_range year)) [
        | inl inside ↦ rw inside (record {
          years = both-AreYears year path s h;
          implications =
              add_implication-sum (unanimous_implication t.implication_votes) s.implications
                h.implications;
        })
        | inr outside ↦
            rw outside
              (record { years = both-AreYears year path s h; implications = h.implications })
      ]))
  | inr some_not ↦ rw some_not (elim (Bool-cases (t.bug_count == 3)) [
    | inl bug ↦ rw bug (record {
      years = in_year-AreYears year (add_total path) (IsYear-total path) s.yearly h.years;
      implications = h.implications;
    })
    | inr no_bug ↦ rw no_bug h
  ])
]

cves-IsStats :
    (results : Results) (s : Stats) {s' : Stats}
    → IsStats s
    → count_cves results s ≡ some s'
    → IsStats s'
unfolding count_cves
cves-IsStats [] s {s'} h e = let same : s ≡ s' = cc in rw (sym same) h
cves-IsStats ((path, reps) ∷ more) s {s'} h e =
    (elim (extract_year_from_cve_path path)
        as (λ y.
          elim y [
            | none ↦ count_cves more s
            | some year ↦ elim (tally reps) [
              | none ↦ none
              | some t ↦
                  count_cves more (count_memsafe_cve year path t (count_total_cve year path t s))
            ]
          ]
            ≡ some s'
          → IsStats s') [
            | none ↦ λ f. cves-IsStats more s h f
            | some year ↦ λ f.
                (elim (tally reps)
                    as (λ o.
                      tally reps ≡ o
                      → elim o [
                        | none ↦ none
                        | some t ↦
                            count_cves more
                              (count_memsafe_cve year path t (count_total_cve year path t s))
                      ]
                        ≡ some s'
                      → IsStats s') [
                        | none ↦ λ q g. (cc)
                        | some t ↦ λ q g.
                            cves-IsStats more
                              (count_memsafe_cve year path t (count_total_cve year path t s))
                              (count_cve-IsStats year path reps t s (tally-IsUnanimous reps q) h) g
                      ])
                  refl f
          ])
      e

-- Whenever no vote raises: after the loop over all CVEs of a database, each path that a year's
-- `llm_memsafe` holds is in that year's `total_cves`, and the unanimous implications that are
-- counted are no more than the memory-safety CVEs that are counted, those of the years in range.
pub count_cves-IsStats :
    (results : Results) {s : Stats} → count_cves results no_stats ≡ some s → IsStats s
count_cves-IsStats results e =
    cves-IsStats results no_stats (record { years = tt; implications = omega arith }) e
