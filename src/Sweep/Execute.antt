-- ===== src/Sweep/Execute.antt =====
-- The part of `execute_run` that runs a recipe: its command, its output, and the tags of its rows.
use memsafedb.Prelude.{ℕ, Bool, Option, none, some, List, [], ◌∷◌, ◌++◌, map, if◌then◌else◌}
use memsafedb.Prelude.Gen.{Gen, done, value_error, yield}
use memsafedb.Text.{Text, codes, show, is_empty}
use memsafedb.Rows.{Floats, Row}
use memsafedb.Parsers.Duckdb.{parse_duckdb_output}
use memsafedb.Parsers.Leveldb.{parse_leveldb_output}
use memsafedb.Parsers.LeveldbBench.{parse_leveldb_bench_output}
use memsafedb.Parsers.Redis.{parse_redis_output}
use memsafedb.Parsers.Sqlite.{parse_sqlite_output}
use memsafedb.Parsers.Mysql.{parse_mysql_output}
use memsafedb.Parsers.Ladybug.{parse_ladybug_output}
use memsafedb.Sweep.Specs.{
  Database, duckdb, leveldb, leveldb_motiv, redis, sqlite, mysql, ladybug, Arg, num, word,
}
use memsafedb.Sweep.Plan.{Tags, RecipeRun}

-- `list(…)` of a generator: `none` if it raises
unfoldable pub list_of {ℓ} : {A : Type ℓ} → Gen A → Option (List A)
list_of done = some []
list_of value_error = none
list_of (yield a g) = elim (list_of g) [ none ↦ none | some rows ↦ some (a ∷ rows) ]

abbrev arg_text : Arg → Text
arg_text (num n) = show n
arg_text (word t) = t

-- `" ".join(shlex.quote(str(a)) for a in args)`
unfoldable pub args_text : (Text → Text) → List Arg → Text
args_text quote [] = []
args_text quote (a ∷ []) = quote (arg_text a)
args_text quote (a ∷ (b ∷ as')) = quote (arg_text a) ++ (codes " " ++ args_text quote (b ∷ as'))

unfoldable pub command : (Text → Text) → RecipeRun → Text
command quote run =
    codes "just dbms::"
    ++ (run.recipe
        ++ (let args = args_text quote run.args in if is_empty args then [] else codes " " ++ args))

module _ (fl : Floats) where
  -- `DB_TO_PARSER`
  unfoldable pub parser_of : Database → Text → ℕ → Gen (Row fl.Float)
  parser_of duckdb output rep = parse_duckdb_output fl output rep
  parser_of leveldb output rep = parse_leveldb_output fl rep output
  parser_of leveldb_motiv output rep = parse_leveldb_bench_output fl rep output
  parser_of redis output rep = parse_redis_output fl rep output
  parser_of sqlite output rep = parse_sqlite_output fl rep output
  parser_of mysql output rep = parse_mysql_output fl rep output
  parser_of ladybug output rep = parse_ladybug_output fl rep output

  -- `row.update(run['tags'])`
  pub record SweepRow : Type 0 where
    pub row : Row fl.Float
    pub tags : Tags

  abbrev tagged : RecipeRun → List (Row fl.Float) → List SweepRow
  tagged run = map (λ row. record { row = row; tags = run.tags })

  -- The rows and whether the shell returns 0, over the shell and `shlex.quote`; `none` if the
  -- parser raises.
  unfoldable pub execute_recipe :
      (Text → Text) → (Text → Text × Bool) → RecipeRun → ℕ → Option (List SweepRow × Bool)
  execute_recipe quote shell run rep =
      let (output, ok) = shell (command quote run) in
      elim (list_of (parser_of run.parser output rep)) [
        | none ↦ none
        | some rows ↦ some (tagged run rows, ok)
      ]
