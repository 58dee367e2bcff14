-- ===== src/Sweep/Plan.antt =====
-- `build_sweep_runs`, `build_ycsb_runs`, `build_baseline_run` and `build_runs`, and the plan that
-- `main` makes of them.
mod Fresh
pub mod Keys
use memsafedb.Prelude.{
  ℕ, zero, suc, Bool, true, false, not, ◌&&◌, Option, none, some, List, [], ◌∷◌, ◌++◌, ◌==◌, leb,
  keep, map, if◌then◌else◌,
}
use memsafedb.Text.{Text, codes, show, text_eq}
use memsafedb.Sweep.Specs
use memsafedb.Sweep.Specs.{
  Database, duckdb, leveldb, leveldb_motiv, redis, sqlite, mysql, ladybug, Arg, num, word, Host,
  Persistence, SweepSpec, Variant, YcsbHost, YcsbSpec, sweep_spec, ycsb_spec, target,
  leveldb_ws_pivot, leveldb_op_count,
}

-- A tag of a row: a number, or a word such as `baseline`.
pub record Tags : Type 0 where
  pub persistence : Text
  pub working_set : Arg
  pub threads : Arg

pub record RecipeRun : Type 0 where
  pub recipe : Text
  pub args : List Arg
  pub parser : Database
  pub tags : Tags

-- What `ycsb_runner.make_exec` is given.
pub record YcsbRun : Type 0 where
  pub database : Database
  pub variants : List Variant
  pub working_set : ℕ
  pub persistence : Persistence
  pub thread_set : List ℕ
  pub op_count : ℕ

pub data Action : Type 0 where
  recipe : RecipeRun → Action
  py_exec : YcsbRun → Action

-- A config point; `persistence` is `run.get('persistence')`.
pub record Run : Type 0 where
  pub host : Text
  pub label : Text
  pub persistence : Persistence
  pub action : Action

-- What `seen` holds.
pub record Key : Type 0 where
  pub recipe : Text
  pub persistence : Persistence
  pub working_set : ℕ
  pub threads : ℕ

unfoldable pub persistence_eq : Persistence → Persistence → Bool
unfolding text_eq
persistence_eq none none = true
persistence_eq (some s) (some t) = text_eq s t
persistence_eq _ _ = false

unfoldable pub key_eq : Key → Key → Bool
unfolding persistence_eq text_eq
key_eq k j =
    text_eq k.recipe j.recipe
    && persistence_eq k.persistence j.persistence
    && k.working_set == j.working_set
    && k.threads == j.threads

unfoldable pub seen_in : Key → List Key → Bool
unfolding key_eq
seen_in k [] = false
seen_in k (j ∷ js) = if key_eq j k then true else seen_in k js

-- `f"_{persistence}" if persistence is not None else ""`
abbrev pub persistence_label : Persistence → Text
persistence_label none = []
persistence_label (some p) = codes "_" ++ p

-- `persistence if persistence is not None else 'na'`
abbrev pub persistence_tag : Persistence → Text
persistence_tag none = codes "na"
persistence_tag (some p) = p

pub record Planned : Type 0 where
  pub runs : List Run
  pub seen : List Key

abbrev pub get_or_default {ℓ} : {A : Type ℓ} → A → Option A → A
get_or_default d none = d
get_or_default d (some a) = a

abbrev pub key_of : Host → ℕ → ℕ → Persistence → Key
key_of host threads ws p = record {
  recipe = host.recipe;
  persistence = p;
  working_set = ws;
  threads = threads;
}

module _ (db : Database) (spec : SweepSpec) where
  unfoldable pub sweep_run : Host → ℕ → ℕ → Persistence → Run
  unfolding show
  sweep_run host threads ws p = record {
    host = host.name;
    label =
        Specs.name db
        ++ (codes "_"
            ++ (host.name
                ++ (codes "_ws"
                    ++ (show ws ++ (codes "_t" ++ (show threads ++ persistence_label p))))));
    persistence = none;
    action = recipe (record {
      recipe = host.recipe;
      args = spec.make_args ws threads p;
      parser = spec.parser;
      tags = record {
        persistence = persistence_tag p;
        working_set = num ws;
        threads = num threads;
      };
    });
  }

  -- `add`: nothing if the key has been seen
  unfoldable pub add : Host → ℕ → ℕ → Persistence → Planned → Planned
  add host threads ws p s = if seen_in (key_of host threads ws p) s.seen then s else record {
    runs = s.runs ++ (sweep_run host threads ws p ∷ []);
    seen = key_of host threads ws p ∷ s.seen;
  }

  -- `for threads in host['threads']: add(host, threads, ws_pivot, persistence)`
  unfoldable pub add_threads : Host → ℕ → Persistence → List ℕ → Planned → Planned
  unfolding add
  add_threads host pivot p [] s = s
  add_threads host pivot p (t ∷ ts) s = add_threads host pivot p ts (add host t pivot p s)

  -- `for working_set in ws_values: add(host, host['thread_pivot'], working_set, persistence)`
  unfoldable pub add_working_sets : Host → Persistence → List ℕ → Planned → Planned
  unfolding add
  add_working_sets host p [] s = s
  add_working_sets host p (ws ∷ wss) s =
      add_working_sets host p wss (add host host.thread_pivot ws p s)

  unfoldable pub add_hosts : Persistence → List Host → Planned → Planned
  unfolding add_threads add_working_sets
  add_hosts p [] s = s
  add_hosts p (host ∷ hosts) s = add_hosts p hosts (
      add_working_sets host p (get_or_default spec.ws_values host.ws_values)
        (add_threads host (get_or_default spec.ws_pivot host.ws_pivot) p host.threads s))

  unfoldable pub add_persistences : List Persistence → Planned → Planned
  unfolding add_hosts
  add_persistences [] s = s
  add_persistences (p ∷ ps) s = add_persistences ps (add_hosts p spec.hosts s)

  unfoldable pub build_sweep_runs : List Run
  unfolding add_persistences
  build_sweep_runs = (add_persistences spec.persistence (record { runs = []; seen = [] })).runs

-- `sorted(…)` of numbers
unfoldable pub insert : ℕ → List ℕ → List ℕ
insert n [] = n ∷ []
insert n (m ∷ ms) = if leb n m then n ∷ (m ∷ ms) else m ∷ insert n ms

unfoldable pub sorted : List ℕ → List ℕ
unfolding insert
sorted [] = []
sorted (n ∷ ns) = insert n (sorted ns)

module _ (db : Database) (spec : YcsbSpec) where
  -- The full thread list at the pivot working set, the pivot elsewhere.
  unfoldable pub thread_set : YcsbHost → ℕ → List ℕ
  unfolding sorted
  thread_set host ws = if ws == spec.ws_pivot then sorted host.threads else host.thread_pivot ∷ []

  unfoldable pub ycsb_run : Persistence → YcsbHost → ℕ → Run
  unfolding show thread_set
  ycsb_run p host ws = record {
    host = host.name;
    label =
        Specs.name db
        ++ (codes "_" ++ (host.name ++ (codes "_ws" ++ (show ws ++ persistence_label p))));
    persistence = p;
    action = py_exec (record {
      database = db;
      variants = host.variants;
      working_set = ws;
      persistence = p;
      thread_set = thread_set host ws;
      op_count = spec.op_count;
    });
  }

  unfoldable pub ycsb_host_runs : Persistence → List YcsbHost → List Run
  unfolding ycsb_run
  ycsb_host_runs p [] = []
  ycsb_host_runs p (host ∷ hosts) =
      map (ycsb_run p host) (get_or_default spec.ws_values host.ws_values) ++ ycsb_host_runs p hosts

  unfoldable pub ycsb_persistence_runs : List Persistence → List Run
  unfolding ycsb_host_runs
  ycsb_persistence_runs [] = []
  ycsb_persistence_runs (p ∷ ps) = ycsb_host_runs p spec.hosts ++ ycsb_persistence_runs ps

  unfoldable pub build_ycsb_runs : List Run
  unfolding ycsb_persistence_runs
  build_ycsb_runs = ycsb_persistence_runs spec.persistence

abbrev leveldb_baseline : RecipeRun
leveldb_baseline = record {
  recipe = target leveldb;
  args =
      num leveldb_ws_pivot
      ∷ num leveldb_op_count
      ∷ num 1
      ∷ word (codes "memory")
      ∷ word (codes "false")
      ∷ [];
  parser = leveldb;
  tags = record {
    persistence = codes "memory";
    working_set = num leveldb_ws_pivot;
    threads = num 1;
  };
}

abbrev baseline : Database → RecipeRun
baseline leveldb = leveldb_baseline
baseline db = record {
  recipe = target db;
  args = [];
  parser = db;
  tags = record {
    persistence = codes "baseline";
    working_set = word (codes "baseline");
    threads = word (codes "baseline");
  };
}

unfoldable pub build_baseline_run : Database → Run
build_baseline_run db = record {
  host = codes "both";
  label = Specs.name db;
  persistence = none;
  action = recipe (baseline db);
}

abbrev full_runs : Database → Option YcsbSpec → Option SweepSpec → List Run
full_runs db (some spec) s = build_ycsb_runs db spec
full_runs db none (some spec) = build_sweep_runs db spec
full_runs db none none = build_baseline_run db ∷ []

-- `sweep` is true for `'full'`.
unfoldable pub build_runs : Database → Bool → List Run
unfolding build_ycsb_runs build_sweep_runs build_baseline_run
build_runs db false = build_baseline_run db ∷ []
build_runs db true = full_runs db (ycsb_spec db) (sweep_spec db)
