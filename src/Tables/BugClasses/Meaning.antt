-- ===== src/Tables/BugClasses/Meaning.antt =====
-- What a cell of the table says of the runs of its cases.
use mathlib.Core.Path.{subst}
use memsafedb.Prelude.{
  ℕ, ◌≡◌, refl, ◌*◌, Bool, true, false, not, ◌&&◌, Option, none, some, List, [], ◌∷◌, All, ltb, leb,
  ◌==◌, >>=-eq-some, ==_iff, arith, if◌then◌else◌,
}
use memsafedb.Text.{Text}
use memsafedb.Tables.BugClasses.{
  Config, CaseRow, Kind, trap, late, prob, libc, os, crash, miss, total, is_trap, is_access_trap,
  runs_of, rounded, bucket_of, classify_case, Cell, c_trap, c_partial, c_libc, c_os, c_crash,
  c_miss, c_noos, all_kinds, any_kind, k_trap, k_trap_prob, k_detected, cell_of, aggregate,
  libc_total, os_total, crash_total, miss_total, largest, needs_revocation, outcomes, k_libc, k_os,
  k_crash,
}

-- No run of the case was trapped.
abbrev pub IsUndetected : List CaseRow → Type 0
IsUndetected rows = total is_trap rows ≡ 0

-- All runs of the case were trapped at the access.
abbrev pub IsTrapped : List CaseRow → Type 0
IsTrapped rows = total is_access_trap rows ≡ runs_of rows

-- What each cell promises of all cases.
abbrev pub Promise : Cell → List (List CaseRow) → Type 0
Promise c_trap cases = All IsTrapped cases
Promise c_partial cases = Unit
Promise c_noos cases = Unit
Promise _ cases = All IsUndetected cases

-- What the outcome of a case says of its runs.
abbrev Means : Kind → List CaseRow → Type 0
Means trap rows = IsTrapped rows
Means late rows = Unit
Means prob rows = Unit
Means _ rows = IsUndetected rows

-- The outcomes of the cases, one by one.
data AllMean : List (Kind × ℕ) → List (List CaseRow) → Type 0 where
  no_case : AllMean [] []
  one_case :
      {k : Kind} {n : ℕ} {c : List CaseRow} {ks : List (Kind × ℕ)} {cases : List (List CaseRow)}
      → Means k c
      → AllMean ks cases
      → AllMean ((k, n) ∷ ks) (c ∷ cases)

largest-Means :
    (a b c d : ℕ) (rows : List CaseRow) → IsUndetected rows → Means (largest a b c d) rows
unfolding largest
largest-Means a b c d rows h = pick (leb b a && (leb c a && leb d a)) (leb c b && leb d b) (leb d c)
  where
    pick :
        (x y z : Bool)
        → Means (if x then libc else if y then os else if z then crash else miss) rows
    pick true y z = h
    pick false true z = h
    pick false false true = h
    pick false false false = h

classify_case-Means :
    (rows : List CaseRow) (k : Kind) (n : ℕ) → classify_case rows ≡ some (k, n) → Means k rows
unfolding classify_case bucket_of
classify_case-Means rows k n e =
    tests (total is_trap rows == runs_of rows) (total is_access_trap rows == runs_of rows)
      (ltb 0 (total is_trap rows)) (runs_of rows == 0) refl refl refl e
  where
    same :
        {o : Kind} {m : ℕ}
        → ◌≡◌ {A = Option (Kind × ℕ)} (some (o, m)) (some (k, n))
        → Means o rows
        → Means k rows
    same {o} {m} f h = let q : o ≡ k = cc in subst (λ o. Means o rows) q h

    judged : Bool → Bool → Bool → Bool → Option (Kind × ℕ)
    judged all access any no_run =
        if all
        then (if access then some (trap, 100) else some (late, 100))
        else if any
        then (if no_run
            then none
            else some (prob, rounded (100 * total is_trap rows) (runs_of rows)))
        else some (bucket_of rows, 0)

    tests :
        (all access any no_run : Bool)
        → (total is_trap rows == runs_of rows) ≡ all
        → (total is_access_trap rows == runs_of rows) ≡ access
        → ltb 0 (total is_trap rows) ≡ any
        → judged all access any no_run ≡ some (k, n)
        → Means k rows
    tests true true any no_run p q r f = same f ((==_iff _ _).0 q)
    tests true false any no_run p q r f = same f tt
    tests false access true true p q r f = cc
    tests false access true false p q r f = same f tt
    tests false access false no_run p q r f = same f (
        largest-Means (libc_total rows) (os_total rows) (crash_total rows) (miss_total rows) rows
          (ground arith))

outcomes-AllMean :
    (cases : List (List CaseRow)) {ks : List (Kind × ℕ)}
    → outcomes cases ≡ some ks
    → AllMean ks cases
unfolding outcomes
outcomes-AllMean [] {ks} e =
    let q : [] ≡ ks = cc in subst (λ (ks : List (Kind × ℕ)). AllMean ks []) q no_case
outcomes-AllMean (c ∷ cases) {ks} e =
    let ((k, n), (f, e1)) = >>=-eq-some (classify_case c) _ e in
    let (more, (g, e2)) = >>=-eq-some (outcomes cases) _ e1 in
    let q : (k, n) ∷ more ≡ ks = cc in
    subst (λ (ks : List (Kind × ℕ)). AllMean ks (c ∷ cases)) q
      (one_case (classify_case-Means c k n f) (outcomes-AllMean cases g))

trap-IsTrapped : (k : Kind) (rows : List CaseRow) → Means k rows → k_trap k ≡ true → IsTrapped rows
trap-IsTrapped trap rows m h = m
trap-IsTrapped late rows m h = cc
trap-IsTrapped prob rows m h = cc
trap-IsTrapped libc rows m h = cc
trap-IsTrapped os rows m h = cc
trap-IsTrapped crash rows m h = cc
trap-IsTrapped miss rows m h = cc

not_detected-IsUndetected :
    (k : Kind) (rows : List CaseRow) → Means k rows → k_detected k ≡ false → IsUndetected rows
not_detected-IsUndetected trap rows m h = cc
not_detected-IsUndetected late rows m h = cc
not_detected-IsUndetected prob rows m h = cc
not_detected-IsUndetected libc rows m h = m
not_detected-IsUndetected os rows m h = m
not_detected-IsUndetected crash rows m h = m
not_detected-IsUndetected miss rows m h = m

all_kinds-IsTrapped :
    {ks : List (Kind × ℕ)} {cases : List (List CaseRow)}
    → AllMean ks cases
    → all_kinds k_trap ks ≡ true
    → All IsTrapped cases
all_kinds-IsTrapped no_case h = tt
all_kinds-IsTrapped (one_case {k} {n} {c} {ks} {cases} p m) h =
    (trap-IsTrapped k c p (ground arith), all_kinds-IsTrapped m (ground arith))

any_kind-IsUndetected :
    {ks : List (Kind × ℕ)} {cases : List (List CaseRow)}
    → AllMean ks cases
    → any_kind k_detected ks ≡ false
    → All IsUndetected cases
any_kind-IsUndetected no_case h = tt
any_kind-IsUndetected (one_case {k} {n} {c} {ks} {cases} p m) h =
    (not_detected-IsUndetected k c p (ground arith), any_kind-IsUndetected m (ground arith))

cell_of-Promise :
    (config : Config) (cls : Text) (ks : List (Kind × ℕ)) (cases : List (List CaseRow))
    → AllMean ks cases
    → Promise (cell_of config cls ks) cases
unfolding cell_of
cell_of-Promise config cls ks cases m =
    tests (all_kinds k_trap ks) (needs_revocation config cls && not (any_kind k_trap_prob ks))
      (any_kind k_detected ks) (all_kinds k_libc ks) (all_kinds k_os ks) (all_kinds k_crash ks) refl
      refl
  where
    tests :
        (t r d l o c : Bool)
        → all_kinds k_trap ks ≡ t
        → any_kind k_detected ks ≡ d
        → Promise
            (if t
              then c_trap
              else if r
              then c_noos
              else if d
              then c_partial
              else if l
              then c_libc
              else if o
              then c_os
              else if c
              then c_crash
              else c_miss)
            cases
    tests true r d l o c p q = all_kinds-IsTrapped m p
    tests false true d l o c p q = tt
    tests false false true l o c p q = tt
    tests false false false true o c p q = any_kind-IsUndetected m q
    tests false false false false true c p q = any_kind-IsUndetected m q
    tests false false false false false true p q = any_kind-IsUndetected m q
    tests false false false false false false p q = any_kind-IsUndetected m q

-- Where a class has cases and no percentage raises: a cell that says "detected" means that all runs
-- of all cases were trapped at the access, and a cell that says "libc", "OS", "crash" or "missed"
-- means that no run of any case was trapped.
pub aggregate-Promise :
    (config : Config) (cls : Text) (cases : List (List CaseRow)) {cell : Cell} {probs : List ℕ}
    → aggregate config cls cases ≡ some (cell, probs)
    → Promise cell cases
unfolding aggregate
aggregate-Promise config cls [] e = cc
aggregate-Promise config cls (c ∷ cases) {cell} {probs} e =
    let (ks, (f, e1)) = >>=-eq-some (outcomes (c ∷ cases)) _ e in
    let q : cell_of config cls ks ≡ cell = cc in
    subst (λ cell. Promise cell (c ∷ cases)) q
      (cell_of-Promise config cls ks (c ∷ cases) (outcomes-AllMean (c ∷ cases) f))
