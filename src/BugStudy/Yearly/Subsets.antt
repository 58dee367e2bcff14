-- ===== src/BugStudy/Yearly/Subsets.antt =====
-- The sets of a year, and the counts of a database, under the loop over the reports.
use memsafedb.Prelude.{
  ℕ, suc, ◌≤◌, ◌≡◌, refl, sym, ◌∙◌, Bool, true, false, ◌&&◌, Option, none, some, List, [], ◌∷◌,
  ◌==◌, All, arith, Bool-cases, inl, inr, ◌⊎◌,
}
use memsafedb.Text.{Text, text_eq}
use memsafedb.Text.Laws.{text_eq_refl}
use memsafedb.Dict.{Counter, add, member, update}
use memsafedb.Dict.Counters.{counter_sum, counter_sum-bump}
use memsafedb.BugStudy.Json.{Json, Fields, key_eq}
use memsafedb.BugStudy.Loading.{Reps, Results}
use memsafedb.BugStudy.Votes.{Tally, tally, unanimous_implication}
use memsafedb.BugStudy.Votes.Unanimous.{IsUnanimous, says_bug, says_memsafe, tally-IsUnanimous}
use memsafedb.BugStudy.Yearly.Table.{
  YearSets, no_sets, Yearly, Stats, no_stats, add_total, add_llm, in_year, year_eq,
}
use memsafedb.BugStudy.Yearly.Bugs.{count_bug, count_memsafe, count_reports, add_implication}

module _ {K : Type 0} (eq : K → K → Bool) (eq_refl : (k : K) → eq k k ≡ true) where
  member-add : (k : K) (ks : List K) → member eq k (add eq k ks) ≡ true
  unfolding member add
  member-add k [] = rw (eq_refl k)
  member-add k (j ∷ ks) = let e = eq_refl k in ground (arith, member-add k ks)

  member-add_other :
      (k j : K) (ks : List K) → member eq k ks ≡ true → member eq k (add eq j ks) ≡ true
  unfolding member add
  member-add_other k j [] h = cc
  member-add_other k j (i ∷ ks) h = ground (arith, member-add_other k j ks)

  All-add : (P : K → Type 0) (k : K) (ks : List K) → P k → All P ks → All P (add eq k ks)
  unfolding add
  All-add P k [] p h = (p, tt)
  All-add P k (j ∷ ks) p (q, h) = elim (Bool-cases (eq j k)) [
    | inl same ↦ rw same (q, h)
    | inr other ↦ rw other (q, All-add P k ks p h)
  ]

-- The classified bugs of a year that all three call a memory-safety bug are among its bugs.
abbrev Within : List Text → Text → Type 0
Within total path = member text_eq path total ≡ true

abbrev pub IsYear : YearSets → Type 0
IsYear s = All (Within s.total) s.llm_memsafe

abbrev pub AreYears : Yearly → Type 0
AreYears = All (λ (year, s). IsYear s)

pub record IsStats (s : Stats) : Type 0 where
  pub years : AreYears s.yearly
  pub implications : counter_sum s.implications ≤ s.db_memsafe

Within-All-add :
    (path : Text) (total llm : List Text)
    → All (Within total) llm
    → All (Within (add text_eq path total)) llm
Within-All-add path total [] h = tt
Within-All-add path total (p ∷ llm) (h, hs) =
    (member-add_other text_eq text_eq_refl p path total h, Within-All-add path total llm hs)

pub IsYear-total : (path : Text) (s : YearSets) → IsYear s → IsYear (add_total path s)
unfolding add_total
IsYear-total path s h = Within-All-add path s.total s.llm_memsafe h

pub IsYear-both : (path : Text) (s : YearSets) → IsYear s → IsYear (add_llm path (add_total path s))
unfolding add_total add_llm
IsYear-both path s h =
    All-add text_eq text_eq_refl (Within (add text_eq path s.total)) path s.llm_memsafe
      (member-add text_eq text_eq_refl path s.total) (Within-All-add path s.total s.llm_memsafe h)

pub in_year-AreYears :
    (year : ℕ) (f : YearSets → YearSets)
    → ((s : YearSets) → IsYear s → IsYear (f s))
    → (y : Yearly) → AreYears y
    → AreYears (in_year year f y)
unfolding in_year update
in_year-AreYears year f p [] h = (p no_sets tt, tt)
in_year-AreYears year f p ((k, s) ∷ y) (h, hs) = elim (Bool-cases (year_eq k year)) [
  | inl same ↦ rw same (p s h, hs)
  | inr other ↦ rw other (h, in_year-AreYears year f p y hs)
]

pub in_year-twice :
    (year : ℕ) (f g : YearSets → YearSets) (y : Yearly)
    → in_year year g (in_year year f y) ≡ in_year year (λ s. g (f s)) y
unfolding in_year update
in_year-twice year f g [] = let e : (year == year) ≡ true = ground arith in rw e
in_year-twice year f g ((k, s) ∷ y) = elim (Bool-cases (year_eq k year)) [
  | inl same ↦ rw same (rw same)
  | inr other ↦ rw other (rw other (rw (in_year-twice year f g y)))
]

-- Three that say "memory safety" also say "bug".
memsafe_all_bug :
    (a b c : Option Fields)
    → (says_memsafe a && says_memsafe b && says_memsafe c) ≡ true
    → (says_bug a && says_bug b && says_bug c) ≡ true
memsafe_all_bug a b c h =
    let x = memsafe_bug a in
    let y = memsafe_bug b in let z = memsafe_bug c in all_three _ _ _ _ _ _ x y z h
  where
    memsafe_bug : (d : Option Fields) → (says_memsafe d ≡ false) ⊎ (says_bug d ≡ true)
    memsafe_bug none = inl refl
    memsafe_bug (some d) = ground arith

    all_three :
        (p q r p' q' r' : Bool)
        → ((p ≡ false) ⊎ (p' ≡ true))
        → ((q ≡ false) ⊎ (q' ≡ true))
        → ((r ≡ false) ⊎ (r' ≡ true))
        → (p && q && r) ≡ true
        → (p' && q' && r') ≡ true
    all_three p q r p' q' r' f g h k = ground arith

pub memsafe_three :
    (r : Reps) (t : Tally)
    → IsUnanimous r t
    → (t.memsafe_count == 3) ≡ true
    → (t.bug_count == 3) ≡ true
memsafe_three r t u h = u.all_bug ∙ memsafe_all_bug r.first r.second r.third (sym u.all_memsafe ∙ h)

pub add_implication-sum :
    (o : Option Json) (c : Counter Json) {n : ℕ}
    → counter_sum c ≤ n
    → counter_sum (add_implication o c) ≤ suc n
add_implication-sum none c h = omega arith
add_implication-sum (some v) c h = omega (arith, counter_sum-bump key_eq v c)

count-IsStats :
    (year : Option ℕ) (path : Text) (r : Reps) (t : Tally) (s : Stats)
    → IsUnanimous r t
    → IsStats s
    → IsStats (count_memsafe year path t (count_bug year path t s))
unfolding count_memsafe count_bug
count-IsStats none path r t s u h = elim (Bool-cases (t.memsafe_count == 3)) [
  | inl all ↦ rw all (record {
    years = h.years;
    implications =
        add_implication-sum (unanimous_implication t.implication_votes) s.implications
          h.implications;
  })
  | inr some_not ↦ rw some_not h
]
count-IsStats (some year) path r t s u h = elim (Bool-cases (t.memsafe_count == 3)) [
  | inl all ↦ rw all (
      rw (memsafe_three r t u all) (record {
        years = rw (in_year-twice year (add_total path) (add_llm path) s.yearly) (
            in_year-AreYears year (λ x. add_llm path (add_total path x)) (IsYear-both path) s.yearly
              h.years);
        implications =
            add_implication-sum (unanimous_implication t.implication_votes) s.implications
              h.implications;
      }))
  | inr some_not ↦ rw some_not (elim (Bool-cases (t.bug_count == 3)) [
    | inl bug ↦ rw bug (record {
      years = in_year-AreYears year (add_total path) (IsYear-total path) s.yearly h.years;
      implications = h.implications;
    })
    | inr no_bug ↦ rw no_bug h
  ])
]

module _ (year_of : Text → Option ℕ) where
  reports-IsStats :
      (results : Results) (s : Stats) {s' : Stats}
      → IsStats s
      → count_reports year_of results s ≡ some s'
      → IsStats s'
  unfolding count_reports
  reports-IsStats [] s {s'} h e = let same : s ≡ s' = cc in rw (sym same) h
  reports-IsStats ((path, reps) ∷ more) s {s'} h e =
      (elim (tally reps)
          as (λ o.
            tally reps ≡ o
            → elim o [
              | none ↦ none
              | some t ↦
                  count_reports year_of more
                    (count_memsafe (year_of path) path t (count_bug (year_of path) path t s))
            ]
              ≡ some s'
            → IsStats s') [
              | none ↦ λ q f. (cc)
              | some t ↦ λ q f.
                  reports-IsStats more
                    (count_memsafe (year_of path) path t (count_bug (year_of path) path t s))
                    (count-IsStats (year_of path) path reps t s (tally-IsUnanimous reps q) h) f
            ])
        refl e

  -- Whatever year a report is given, and whenever no vote raises: after the loop over all reports,
  -- each path that a year's `llm_memsafe` holds is in that year's `total_bugs`, and the unanimous
  -- implications that are counted are no more than the reports that all three call a memory-safety
  -- bug.
  pub count_reports-IsStats :
      (results : Results) {s : Stats} → count_reports year_of results no_stats ≡ some s → IsStats s
  count_reports-IsStats results e =
      reports-IsStats results no_stats (record { years = tt; implications = omega arith }) e
