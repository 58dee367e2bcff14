-- ===== src/Structs/Commands.antt =====
-- `get_taskset`, `get_host`, and the commands of a `Configuration`. A number of threads is a text of
-- digits; `user` is what `getpass.getuser` returns, and the rows are those of nb_ops.csv.
pub mod Bounds
use memsafedb.Prelude.{
  ℕ, zero, suc, ◌-◌, ◌/◌, Bool, true, false, not, ◌&&◌, ◌||◌, Option, none, some, List, [], ◌∷◌,
  ◌++◌, ◌==◌, leb, if◌then◌else◌,
}
use memsafedb.Text.{Text, codes, contains, text_eq, show, int}

-- `str(n - 1)`
abbrev minus_one : ℕ → Text
minus_one zero = codes "-1"
minus_one (suc n) = show n

unfoldable pub get_taskset : Text → Text
unfolding text_eq show int
get_taskset nthreads =
    if text_eq nthreads (codes "1")
    then codes "taskset -c 0"
    else codes "taskset -c 0-" ++ (minus_one (int nthreads) ++ codes " ")

unfoldable pub get_host : Text → Option Text
unfolding text_eq
get_host arch =
    if text_eq arch (codes "mte")
    then some (codes "eliza")
    else if text_eq arch (codes "cheri")
    then some (codes "ace")
    else none

pub record Configuration : Type 0 where
  pub system : Text
  pub name : Text
  pub type_bench : Text
  pub host : Text
  pub arch : Text
  pub nthreads : Text
  pub args : List Text

-- A row of nb_ops.csv.
pub record NbOpsRow : Type 0 where
  pub host : Text
  pub system : Text
  pub name : Text
  pub nthreads : ℕ
  pub nb_ops : ℕ

abbrev pub is_row : Configuration → ℕ → NbOpsRow → Bool
is_row c nthreads r =
    text_eq r.host c.host
    && (text_eq r.system c.system && (text_eq r.name c.name && r.nthreads == nthreads))

-- The first of the rows that `_nbops_row` selects.
unfoldable pub nbops_row : Configuration → ℕ → List NbOpsRow → Option ℕ
unfolding text_eq
nbops_row c nthreads [] = none
nbops_row c nthreads (r ∷ rows) =
    let rest = nbops_row c nthreads rows in if is_row c nthreads r then some r.nb_ops else rest

abbrev pub nbops_mt_cap : ℕ
nbops_mt_cap = 50_000_000

abbrev capped : ℕ → ℕ
capped n = if leb n nbops_mt_cap then n else nbops_mt_cap

abbrev pub or_capped : Option ℕ → Option ℕ → Option ℕ
or_capped (some n) base = some n
or_capped none none = none
or_capped none (some n) = some (capped n)

unfoldable pub get_conf : List NbOpsRow → Configuration → Option ℕ
unfolding nbops_row int
get_conf rows c = or_capped (nbops_row c (int c.nthreads) rows) (nbops_row c 1 rows)

abbrev is_phase : Text → Bool
is_phase x = contains (codes "load") x || contains (codes "run") x

abbrev argument : Text → Text
argument x = (if is_phase x then codes " " else codes " -p ") ++ x

-- `reduce(lambda x, y: x+y, map(…))`, which raises at no arguments
unfoldable pub joined_arguments : List Text → Option Text
unfolding contains
joined_arguments [] = none
joined_arguments (x ∷ []) = some (argument x)
joined_arguments (x ∷ y ∷ xs) = elim (joined_arguments (y ∷ xs)) [
  | none ↦ none
  | some t ↦ some (argument x ++ t)
]

abbrev with_phases : Text → Text
with_phases args = if not (is_phase args) then args ++ codes " -load -run" else args

module _ (user : Text) where
  abbrev binary : Text → Text → Text
  binary bench arch =
      codes "/scratch/" ++ (user ++ (codes "/memsafedb_bin/" ++ (bench ++ (codes "_" ++ arch))))

  abbrev counted_arguments : ℕ → Text → Text
  counted_arguments nb_ops args =
      args
      ++ (codes " -p recordcount="
          ++ (show nb_ops ++ (codes " -p operationcount=" ++ (show nb_ops ++ codes " "))))

  unfoldable pub ycsb_command : Configuration → ℕ → Option Text
  unfolding get_taskset joined_arguments contains show
  ycsb_command c nb_ops = elim (joined_arguments c.args) [
    | none ↦ none
    | some args ↦ some (
        codes " "
        ++ (get_taskset c.nthreads
            ++ (codes " "
                ++ (binary (codes "ycsb") c.arch
                    ++ (codes " -db "
                        ++ (c.system
                            ++ (codes " -s -p threadcount="
                                ++ (c.nthreads
                                    ++ (codes " -p workload=com.yahoo.ycsb.workloads.CoreWorkload "
                                        ++ with_phases (counted_arguments nb_ops args))))))))))
  ]

  -- A queue has a producer and a consumer at least.
  abbrev queue_threads : Text → Text
  queue_threads nthreads = if text_eq nthreads (codes "1") then codes "2" else nthreads

  unfoldable pub queue_command : Configuration → ℕ → Text
  unfolding get_taskset text_eq show int
  queue_command c nb_ops =
      let nthreads = queue_threads c.nthreads in
      codes " "
      ++ (get_taskset nthreads
          ++ (codes " "
              ++ (binary (codes "queue_bench") c.arch
                  ++ (codes " " ++ (show nb_ops ++ (codes " " ++ show (int nthreads / 2)))))))

  abbrev tagged : Text → Text → Text
  tagged arch cmd =
      if text_eq arch (codes "mte")
      then codes "GLIBC_TUNABLES='glibc.mem.tagging=3'" ++ cmd
      else cmd

  abbrev or_tagged : Text → Option Text → Option Text
  or_tagged arch none = none
  or_tagged arch (some cmd) = some (tagged arch cmd)

  -- `none` where it raises.
  unfoldable pub get_command : Configuration → ℕ → Option Text
  unfolding ycsb_command queue_command text_eq
  get_command c nb_ops = or_tagged c.arch (
      if text_eq c.type_bench (codes "ycsb")
      then ycsb_command c nb_ops
      else if text_eq c.type_bench (codes "queue_bench")
      then some (queue_command c nb_ops)
      else some [])
