-- ===== src/Tables/BugClasses.antt =====
-- plots/bug_classes_table.py. A row of a CSV file has its numbers read; the text of the macros and
-- the arguments are left out.
pub mod Meaning
pub mod Latex
use memsafedb.Prelude.{
  ℕ, zero, suc, ◌+◌, ◌*◌, ◌/◌, ◌%◌, Bool, true, false, not, ◌&&◌, ◌||◌, Option, none, some, List,
  [], ◌∷◌, ◌++◌, ◌>>=◌, map, ltb, leb, ◌==◌, if◌then◌else◌,
}
use memsafedb.Text.{Text, codes, text_eq}
use memsafedb.Dict.{update, lookup, member, add}
use memsafedb.Sorting.{sort_by}

pub data Config : Type 0 where
  baseline mte cheri : Config

pub record CaseRow : Type 0 where
  pub bug : Text
  pub cls : Text
  pub outcome : Text
  pub timing : Text
  pub detail : Text
  pub count : ℕ
  pub runs : ℕ

-- The cases of a class by their names, and the classes.
abbrev pub Cases : Type 0
Cases = List (Text × List CaseRow)

abbrev pub Classes : Type 0
Classes = List (Text × Cases)

-- `(config, bug) in EXCLUDED`
unfoldable pub excluded : Config → Text → Bool
unfolding text_eq
excluded cheri bug = text_eq bug (codes "heap_overflow_large")
excluded _ bug = false

-- `data[(config, row["class"])][row["bug"]].append(row)`
unfoldable pub add_row : CaseRow → Classes → Classes
unfolding update text_eq
add_row r classes =
    update text_eq [] r.cls (update text_eq [] r.bug (λ rows. rows ++ (r ∷ []))) classes

unfoldable pub load_rows : Config → List CaseRow → Classes → Classes
unfolding excluded add_row
load_rows config [] classes = classes
load_rows config (r ∷ rows) classes =
    load_rows config rows (if excluded config r.bug then classes else add_row r classes)

abbrev or_no_rows : Option (List CaseRow) → List CaseRow
or_no_rows none = []
or_no_rows (some rows) = rows

-- The classes of a configuration; a file that is not there gives none.
unfoldable pub load : (Config → Option (List CaseRow)) → Config → Classes
unfolding load_rows
load files config = load_rows config (or_no_rows (files config)) []

abbrev cases_rows : Cases → List (List CaseRow)
cases_rows = map (λ (bug, rows). rows)

-- `data.get((config, cls), [])`
unfoldable pub cases_of : (Config → Classes) → Config → Text → List (List CaseRow)
unfolding lookup text_eq
cases_of data_of config cls = elim (lookup text_eq cls (data_of config)) [
  | none ↦ []
  | some cases ↦ cases_rows cases
]

pub data Kind : Type 0 where
  trap late prob libc os crash miss : Kind

abbrev pub total : (CaseRow → Bool) → List CaseRow → ℕ
total p [] = 0
total p (r ∷ rows) = let rest = total p rows in if p r then r.count + rest else rest

abbrev pub is_trap : CaseRow → Bool
is_trap r = text_eq r.outcome (codes "hw_trap")

abbrev pub is_access_trap : CaseRow → Bool
is_access_trap r = is_trap r && text_eq r.timing (codes "access")

abbrev unmapped : CaseRow → Bool
unmapped r = text_eq r.detail (codes "segv_maperr")

abbrev ended_badly : CaseRow → Bool
ended_badly r =
    text_eq r.outcome (codes "crash")
    || (text_eq r.outcome (codes "hang")
        || (text_eq r.outcome (codes "exit") || text_eq r.outcome (codes "unknown")))

-- `round(a / b)`, to the even number at a half
unfoldable pub rounded : ℕ → ℕ → ℕ
rounded a b =
    let q = a / b in
    let r = 2 * (a % b) in
    if ltb r b then q else if ltb b r then suc q else if q % 2 == 0 then q else suc q

-- The first of the buckets that is the largest.
unfoldable pub largest : ℕ → ℕ → ℕ → ℕ → Kind
largest a b c d =
    if leb b a && (leb c a && leb d a)
    then libc
    else if leb c b && leb d b
    then os
    else if leb d c
    then crash
    else miss

abbrev pub libc_total : List CaseRow → ℕ
libc_total = total (λ r. text_eq r.outcome (codes "runtime_abort"))

abbrev pub os_total : List CaseRow → ℕ
os_total = total (λ r. text_eq r.outcome (codes "crash") && unmapped r)

abbrev pub crash_total : List CaseRow → ℕ
crash_total = total (λ r. ended_badly r && not (unmapped r))

abbrev pub miss_total : List CaseRow → ℕ
miss_total = total (λ r. text_eq r.outcome (codes "silent"))

unfoldable pub bucket_of : List CaseRow → Kind
unfolding largest text_eq
bucket_of rows = largest (libc_total rows) (os_total rows) (crash_total rows) (miss_total rows)

abbrev pub runs_of : List CaseRow → ℕ
runs_of [] = 0
runs_of (r ∷ rows) = r.runs

-- The outcome of a case and its percentage; `none` at the division by no runs, which raises. Every
-- case has a row.
unfoldable pub classify_case : List CaseRow → Option (Kind × ℕ)
unfolding rounded bucket_of text_eq
classify_case rows =
    let runs = runs_of rows in
    let detected = total is_trap rows in
    let at_access = total is_access_trap rows in
    if detected == runs
    then (if at_access == runs then some (trap, 100) else some (late, 100))
    else if ltb 0 detected
    then (if runs == 0 then none else some (prob, rounded (100 * detected) runs))
    else some (bucket_of rows, 0)

-- `[classify_case(rows) for rows in cases]`
unfoldable pub outcomes : List (List CaseRow) → Option (List (Kind × ℕ))
unfolding classify_case
outcomes [] = some []
outcomes (c ∷ cases) = do k ← classify_case c; ks ← outcomes cases; some (k ∷ ks)

pub data Cell : Type 0 where
  c_trap c_partial c_libc c_os c_crash c_miss c_noos : Cell

abbrev pub all_kinds : (Kind → Bool) → List (Kind × ℕ) → Bool
all_kinds p [] = true
all_kinds p ((k, n) ∷ ks) = p k && all_kinds p ks

abbrev pub any_kind : (Kind → Bool) → List (Kind × ℕ) → Bool
any_kind p [] = false
any_kind p ((k, n) ∷ ks) = p k || any_kind p ks

abbrev pub k_trap : Kind → Bool
k_trap trap = true
k_trap _ = false

abbrev pub k_trap_prob : Kind → Bool
k_trap_prob trap = true
k_trap_prob prob = true
k_trap_prob _ = false

abbrev pub k_detected : Kind → Bool
k_detected trap = true
k_detected late = true
k_detected prob = true
k_detected _ = false

abbrev pub k_libc : Kind → Bool
k_libc libc = true
k_libc _ = false

abbrev pub k_os : Kind → Bool
k_os os = true
k_os _ = false

abbrev pub k_crash : Kind → Bool
k_crash crash = true
k_crash _ = false

-- The percentages of the cases that are detected in some runs, each once.
unfoldable pub probabilities : List (Kind × ℕ) → List ℕ
unfolding add
probabilities [] = []
probabilities ((prob, p) ∷ ks) = add (λ a b. a == b) p (probabilities ks)
probabilities ((k, p) ∷ ks) = probabilities ks

-- `config == "cheri" and cls in CHERI_NEEDS_REVOCATION`
unfoldable pub needs_revocation : Config → Text → Bool
unfolding text_eq
needs_revocation cheri cls = text_eq cls (codes "Use-after-free")
needs_revocation _ cls = false

unfoldable pub cell_of : Config → Text → List (Kind × ℕ) → Cell
unfolding needs_revocation
cell_of config cls ks =
    if all_kinds k_trap ks
    then c_trap
    else if needs_revocation config cls && not (any_kind k_trap_prob ks)
    then c_noos
    else if any_kind k_detected ks
    then c_partial
    else if all_kinds k_libc ks
    then c_libc
    else if all_kinds k_os ks
    then c_os
    else if all_kinds k_crash ks
    then c_crash
    else c_miss

-- The cell and the percentages, in order; `none` where the script exits, as there are no cases, or
-- raises.
unfoldable pub aggregate : Config → Text → List (List CaseRow) → Option (Cell × List ℕ)
unfolding outcomes cell_of probabilities sort_by
aggregate config cls [] = none
aggregate config cls (c ∷ cases) = do
  ks ← outcomes (c ∷ cases)
  some (cell_of config cls ks, sort_by leb (λ p. p) (probabilities ks))
