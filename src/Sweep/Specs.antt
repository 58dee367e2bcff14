-- ===== src/Sweep/Specs.antt =====
-- The tables of run_benchmarks.py: databases, hosts, and what is swept over.
use memsafedb.Prelude.{ℕ, Option, none, some, List, [], ◌∷◌}
use memsafedb.Text.{Text, codes}

pub data Database : Type 0 where
  duckdb leveldb leveldb_motiv redis sqlite mysql ladybug : Database

abbrev pub name : Database → Text
name duckdb = codes "duckdb"
name leveldb = codes "leveldb"
name leveldb_motiv = codes "leveldb_motiv"
name redis = codes "redis"
name sqlite = codes "sqlite"
name mysql = codes "mysql"
name ladybug = codes "ladybug"

-- `DATABASES`
abbrev pub databases : List Database
databases = duckdb ∷ leveldb ∷ leveldb_motiv ∷ redis ∷ sqlite ∷ mysql ∷ ladybug ∷ []

-- `DB_TO_TARGET`
abbrev pub target : Database → Text
target duckdb = codes "run_duckdb"
target leveldb = codes "run_leveldb"
target leveldb_motiv = codes "run_leveldb_bench"
target redis = codes "run_redis"
target sqlite = codes "run_sqlite"
target mysql = codes "run_mysql"
target ladybug = codes "run_ladybug"

-- An argument of a recipe, as `str` writes it.
pub data Arg : Type 0 where
  num : ℕ → Arg
  word : Text → Arg

-- `host.get('ws_values', …)` and `host.get('ws_pivot', …)` may find nothing.
pub record Host : Type 0 where
  pub name : Text
  pub recipe : Text
  pub threads : List ℕ
  pub thread_pivot : ℕ
  pub ws_values : Option (List ℕ)
  pub ws_pivot : Option ℕ

abbrev pub Persistence : Type 0
Persistence = Option Text

pub record SweepSpec : Type 0 where
  pub parser : Database
  pub hosts : List Host
  pub ws_values : List ℕ
  pub ws_pivot : ℕ
  pub persistence : List Persistence
  pub make_args : ℕ → ℕ → Persistence → List Arg

abbrev pub eliza : Text → Host
eliza recipe = record {
  name = codes "eliza";
  recipe = recipe;
  threads = 1 ∷ 8 ∷ 64 ∷ [];
  thread_pivot = 64;
  ws_values = none;
  ws_pivot = none;
}

abbrev pub ace : Text → Host
ace recipe = record {
  name = codes "ace";
  recipe = recipe;
  threads = 1 ∷ 2 ∷ 4 ∷ [];
  thread_pivot = 4;
  ws_values = none;
  ws_pivot = none;
}

abbrev pub single : Host → Host
single h = record h { threads = 1 ∷ []; thread_pivot = 1 }

abbrev pub sqlite_duration : ℕ
sqlite_duration = 60

abbrev pub leveldb_op_count : ℕ
leveldb_op_count = 1_000_000

abbrev pub leveldb_ws_pivot : ℕ
leveldb_ws_pivot = 1_000_000

-- `SWEEP_SPECS`; a table with no `persistence` has `[None]`.
abbrev pub sweep_spec : Database → Option SweepSpec
sweep_spec duckdb = some (record {
  parser = duckdb;
  hosts = eliza (codes "run_duckdb") ∷ [];
  ws_values = 1 ∷ 10 ∷ 100 ∷ [];
  ws_pivot = 10;
  persistence = none ∷ [];
  make_args = λ ws t p. num ws ∷ num t ∷ word (codes "false") ∷ [];
})
sweep_spec sqlite = some (record {
  parser = sqlite;
  hosts =
      single (eliza (codes "run_sqlite_eliza")) ∷ single (ace (codes "run_sqlite_ace_remote")) ∷ [];
  ws_values = 1 ∷ 10 ∷ 50 ∷ [];
  ws_pivot = 10;
  persistence = none ∷ [];
  make_args = λ ws t p. num ws ∷ num sqlite_duration ∷ num t ∷ word (codes "false") ∷ [];
})
sweep_spec mysql = some (record {
  parser = mysql;
  hosts = eliza (codes "run_mysql") ∷ [];
  ws_values = 10_000 ∷ 1_000_000 ∷ 10_000_000 ∷ [];
  ws_pivot = 1_000_000;
  persistence = none ∷ [];
  make_args = λ ws t p. num t ∷ num ws ∷ word (codes "false") ∷ [];
})
sweep_spec ladybug = some (record {
  parser = ladybug;
  hosts =
      eliza (codes "run_ladybug_eliza")
      ∷ record (ace (codes "run_ladybug_ace_remote")) { ws_values = some (10 ∷ []) }
      ∷ [];
  ws_values = 10 ∷ 100 ∷ [];
  ws_pivot = 10;
  persistence = none ∷ [];
  make_args = λ ws t p. num t ∷ num ws ∷ word (codes "false") ∷ [];
})
sweep_spec leveldb = none
sweep_spec leveldb_motiv = none
sweep_spec redis = none

-- A build variant, with its nix devshell on the CHERI host.
abbrev pub Variant : Type 0
Variant = Text × Option Text

pub record YcsbHost : Type 0 where
  pub name : Text
  pub variants : List Variant
  pub threads : List ℕ
  pub thread_pivot : ℕ
  pub ws_values : Option (List ℕ)

pub record YcsbSpec : Type 0 where
  pub op_count : ℕ
  pub ws_values : List ℕ
  pub ws_pivot : ℕ
  pub persistence : List Persistence
  pub hosts : List YcsbHost

abbrev pub eliza_variants : List Variant
eliza_variants = (codes "dynamic", none) ∷ (codes "mte", none) ∷ []

abbrev pub ace_variants : List Variant
ace_variants =
    (codes "static", some (codes "ace-aarch64")) ∷ (codes "cheri", some (codes "ace-cheri")) ∷ []

abbrev ycsb_host : Text → List Variant → List ℕ → ℕ → Option (List ℕ) → YcsbHost
ycsb_host n vs ts pivot ws = record {
  name = n;
  variants = vs;
  threads = ts;
  thread_pivot = pivot;
  ws_values = ws;
}

-- `YCSB_SPECS`
abbrev pub ycsb_spec : Database → Option YcsbSpec
ycsb_spec leveldb = some (record {
  op_count = leveldb_op_count;
  ws_values = 100_000 ∷ 1_000_000 ∷ 10_000_000 ∷ [];
  ws_pivot = leveldb_ws_pivot;
  persistence = some (codes "memory") ∷ some (codes "disk") ∷ [];
  hosts =
      ycsb_host (codes "eliza") eliza_variants (1 ∷ 8 ∷ 64 ∷ []) 64 none
      ∷ ycsb_host (codes "ace") ace_variants (1 ∷ 2 ∷ 4 ∷ []) 4 (some (100_000 ∷ 1_000_000 ∷ []))
      ∷ [];
})
ycsb_spec redis = some (record {
  op_count = 100_000;
  ws_values = 10_000 ∷ 100_000 ∷ 1_000_000 ∷ [];
  ws_pivot = 1_000_000;
  persistence = none ∷ [];
  hosts =
      ycsb_host (codes "eliza") eliza_variants (1 ∷ []) 1 none
      ∷ ycsb_host (codes "ace") ace_variants (1 ∷ []) 1 none
      ∷ [];
})
ycsb_spec _ = none
