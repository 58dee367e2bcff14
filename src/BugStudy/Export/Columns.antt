-- ===== src/BugStudy/Export/Columns.antt =====
-- The columns of the second table leave out no count.
use memsafedb.Prelude.{
  ℕ, ◌+◌, ◌<◌, ◌≡◌, refl, Bool, true, false, Sublist, empty, taken, left_out, List, [], ◌∷◌, keep,
  Bool-cases, inl, inr, arith, All,
}
use memsafedb.Text.{Text}
use memsafedb.BugStudy.Json.{Json}
use memsafedb.Dict.{Counter}
use memsafedb.BugStudy.Yearly.{Summary}
use memsafedb.BugStudy.Export.{
  Category, Summaries, implication_categories, count_in, appears, active_cats,
}

-- The sum of a counter's counts over categories.
abbrev sum_in : Counter Json → List Category → ℕ
sum_in impl [] = 0
sum_in impl (c ∷ cats) = count_in c impl + sum_in impl cats

-- The columns keep each database's sum.
abbrev KeepsSum : List Category → List Category → Text × Summary → Type 0
KeepsSum cats all (dbms, s) =
    sum_in s.implications_unanimous cats ≡ sum_in s.implications_unanimous all

abbrev NotCounted : Category → Text × Summary → Type 0
NotCounted c (dbms, s) = count_in c s.implications_unanimous ≡ 0

appears-NotCounted :
    (summaries : Summaries) (c : Category)
    → appears summaries c ≡ false
    → All (NotCounted c) summaries
unfolding appears
appears-NotCounted [] c h = tt
appears-NotCounted ((dbms, s) ∷ more) c h = (ground arith, appears-NotCounted more c (ground arith))

All-KeepsSum_refl :
    (summaries : Summaries) (cats : List Category) → All (KeepsSum cats cats) summaries
All-KeepsSum_refl [] cats = tt
All-KeepsSum_refl ((dbms, s) ∷ more) cats = (refl, All-KeepsSum_refl more cats)

KeepsSum-kept :
    (c : Category) (cats all : List Category) (summaries : Summaries)
    → All (KeepsSum cats all) summaries
    → All (KeepsSum (c ∷ cats) (c ∷ all)) summaries
KeepsSum-kept c cats all [] h = tt
KeepsSum-kept c cats all ((dbms, s) ∷ more) (p, h) = (omega arith, KeepsSum-kept c cats all more h)

KeepsSum-left_out :
    (c : Category) (cats all : List Category) (summaries : Summaries)
    → All (NotCounted c) summaries
    → All (KeepsSum cats all) summaries
    → All (KeepsSum cats (c ∷ all)) summaries
KeepsSum-left_out c cats all [] n h = tt
KeepsSum-left_out c cats all ((dbms, s) ∷ more) (z, n) (p, h) =
    (omega arith, KeepsSum-left_out c cats all more n h)

keep-KeepsSum :
    (summaries : Summaries) (all : List Category)
    → All (KeepsSum (keep (appears summaries) all) all) summaries
keep-KeepsSum summaries [] = All-KeepsSum_refl summaries []
keep-KeepsSum summaries (c ∷ all) = elim (Bool-cases (appears summaries c)) [
  | inl active ↦ rw active (KeepsSum-kept c _ all summaries (keep-KeepsSum summaries all))
  | inr not_active ↦ rw not_active (
      KeepsSum-left_out c _ all summaries (appears-NotCounted summaries c not_active)
        (keep-KeepsSum summaries all))
]

-- The sum of a category's counts over the databases.
abbrev pub over_all : Category → Summaries → ℕ
over_all c [] = 0
over_all c ((dbms, s) ∷ more) = count_in c s.implications_unanimous + over_all c more

-- The columns of the table.
pub record AreColumns (summaries : Summaries) (cats : List Category) : Type 0 where
  pub of_all : Sublist cats implication_categories
  pub each_counted : All (λ c. 0 < over_all c summaries) cats
  pub keeps : All (KeepsSum cats implication_categories) summaries

appears-over_all :
    (summaries : Summaries) (c : Category) → appears summaries c ≡ true → 0 < over_all c summaries
unfolding appears
appears-over_all [] c h = cc
appears-over_all ((dbms, s) ∷ more) c h = ground (arith, appears-over_all more c)

keep-each_counted :
    (summaries : Summaries) (all : List Category)
    → All (λ c. 0 < over_all c summaries) (keep (appears summaries) all)
keep-each_counted summaries [] = tt
keep-each_counted summaries (c ∷ all) = elim (Bool-cases (appears summaries c)) [
  | inl active ↦ rw active (appears-over_all summaries c active, keep-each_counted summaries all)
  | inr not_active ↦ rw not_active (keep-each_counted summaries all)
]

keep-Sublist : (p : Category → Bool) (all : List Category) → Sublist (keep p all) all
keep-Sublist p [] = empty
keep-Sublist p (c ∷ all) = elim (Bool-cases (p c)) [
  | inl kept ↦ rw kept (taken c (keep-Sublist p all))
  | inr left ↦ rw left (left_out c (keep-Sublist p all))
]

-- The columns of the table of implications are some of the known categories, in their order. Each
-- of them counts a report of some database, and they leave out no count: for each database, the
-- counts in the columns shown add up to its counts of all known categories.
pub active_cats-AreColumns : (summaries : Summaries) → AreColumns summaries (active_cats summaries)
unfolding active_cats
active_cats-AreColumns summaries = record {
  of_all = keep-Sublist (appears summaries) implication_categories;
  each_counted = keep-each_counted summaries implication_categories;
  keeps = keep-KeepsSum summaries implication_categories;
}
