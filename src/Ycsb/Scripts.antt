-- ===== src/Ycsb/Scripts.antt =====
-- `_cpus`, `_mte_env` and `_leveldb_script`
use memsafedb.Prelude.{
  ℕ, ◌-◌, ◌*◌, Bool, false, none, some, List, [], ◌∷◌, ◌++◌, ◌==◌, leb, if◌then◌else◌,
}
use mathlib.Core.List.{flatten, flat_map}
use memsafedb.Text.{Text, codes, show, text_eq, join_lines}
use memsafedb.Sweep.Specs.{Persistence}

-- Where the machine keeps things, and `int(n * 0.01)`, which goes through a float.
pub record Machine : Type 0 where
  pub dbms_base : Text
  pub data_dir : Text
  pub hundredth : ℕ → ℕ

abbrev pub ro_workloads : List Text
ro_workloads = codes "a" ∷ codes "b" ∷ codes "c" ∷ codes "f" ∷ []

abbrev pub ins_workloads : List Text
ins_workloads = codes "d" ∷ codes "e" ∷ []

abbrev pub all_workloads : List Text
all_workloads = ro_workloads ++ ins_workloads

unfoldable pub cpus : ℕ → Text
unfolding show
cpus t = if t == 1 then codes "0" else codes "0-" ++ show (t - 1)

unfoldable pub mte_env : Text → Text
unfolding text_eq
mte_env variant =
    if text_eq variant (codes "mte") then codes "GLIBC_TUNABLES=glibc.mem.tagging=3 " else []

-- `max(thread_set)`; a thread set is never empty
unfoldable pub max_of : List ℕ → ℕ
max_of [] = 0
max_of (t ∷ ts) = let m = max_of ts in if leb m t then t else m

-- `{DB} workload={w} threads={t} variant={variant}` as the marker that the parsers look for
unfoldable pub marker : Text → Text → ℕ → Text → Text
marker db w t variant =
    codes "=== "
    ++ (db
        ++ (codes " workload="
            ++ (w
                ++ (codes " threads="
                    ++ (show t ++ (codes " variant=" ++ (variant ++ codes " ===")))))))

unfoldable pub echo : Text → Text
echo line = codes "echo \"" ++ (line ++ codes "\"")

abbrev is_disk : Persistence → Bool
is_disk none = false
is_disk (some p) = text_eq p (codes "disk")

-- What the lines of a LevelDB script share.
pub record LevelDbScript : Type 0 where
  pub variant : Text
  pub env : Text
  pub ycsb : Text
  pub wl : Text
  pub props : Text
  pub db : Text
  pub cache_opt : Text
  pub load_t : ℕ
  pub ws : ℕ
  pub op_count : ℕ

unfoldable pub leveldb_load : LevelDbScript → Text → Text
unfolding show
leveldb_load s w = flatten (
    s.env
    ∷ s.ycsb
    ∷ codes " -load -db leveldb -P "
    ∷ s.wl
    ∷ codes "/workload"
    ∷ w
    ∷ codes " -P "
    ∷ s.props
    ∷ codes " "
    ∷ s.cache_opt
    ∷ codes " -p threadcount="
    ∷ show s.load_t
    ∷ codes " -p recordcount="
    ∷ show s.ws
    ∷ codes " -p leveldb.dbname="
    ∷ s.db
    ∷ codes " -p leveldb.destroy=true -s"
    ∷ [])

unfoldable pub leveldb_run : LevelDbScript → Text → ℕ → Text
unfolding show cpus
leveldb_run s w t = flatten (
    s.env
    ∷ codes "taskset -c "
    ∷ cpus t
    ∷ codes " "
    ∷ s.ycsb
    ∷ codes " -run -db leveldb -P "
    ∷ s.wl
    ∷ codes "/workload"
    ∷ w
    ∷ codes " -P "
    ∷ s.props
    ∷ codes " "
    ∷ s.cache_opt
    ∷ codes " -p threadcount="
    ∷ show t
    ∷ codes " -p recordcount="
    ∷ show s.ws
    ∷ codes " -p operationcount="
    ∷ show s.op_count
    ∷ codes " -p leveldb.dbname="
    ∷ s.db
    ∷ codes " -p leveldb.destroy=false -s"
    ∷ [])

unfoldable pub remove_db : Text → Text
remove_db db = codes "rm -rf \"" ++ (db ++ codes "\"")

unfoldable pub leveldb_measure : LevelDbScript → Text → ℕ → List Text
unfolding echo marker leveldb_run
leveldb_measure s w t = echo (marker (codes "LDB") w t s.variant) ∷ leveldb_run s w t ∷ []

-- The bodies of the two loops: a workload that inserts is loaded anew for each run.
unfoldable pub leveldb_ro : LevelDbScript → Text → ℕ → List Text
unfolding leveldb_measure
leveldb_ro s w t = leveldb_measure s w t

unfoldable pub leveldb_ins : LevelDbScript → Text → ℕ → List Text
unfolding remove_db leveldb_load leveldb_measure
leveldb_ins s w t = remove_db s.db ∷ leveldb_load s w ∷ leveldb_measure s w t

-- `for w in workloads: for t in thread_set: …`
unfoldable pub for_each : (Text → ℕ → List Text) → List Text → List ℕ → List Text
for_each body [] ts = []
for_each body (w ∷ ws) ts = flat_map (body w) ts ++ for_each body ws ts

unfoldable pub leveldb_lines : Text → LevelDbScript → List ℕ → List Text
unfolding remove_db leveldb_load for_each leveldb_ro leveldb_ins
leveldb_lines db_dir s ts =
    codes "set -uo pipefail"
    ∷ (codes "mkdir -p \"" ++ (db_dir ++ codes "\""))
    ∷ remove_db s.db
    ∷ leveldb_load s (codes "a")
    ∷ (for_each (leveldb_ro s) ro_workloads ts
        ++ (for_each (leveldb_ins s) ins_workloads ts ++ (remove_db s.db ∷ [])))

module _ (m : Machine) where
  abbrev db_dir : Persistence → Text
  db_dir p = if is_disk p then m.data_dir ++ codes "/leveldb" else codes "/tmp"

  unfoldable pub leveldb_parts : Text → ℕ → Persistence → List ℕ → ℕ → LevelDbScript
  unfolding mte_env max_of show text_eq
  leveldb_parts variant ws p ts op_count = record {
    variant = variant;
    env = mte_env variant;
    ycsb = m.dbms_base ++ (codes "/ycsb-cpp/build/release-" ++ (variant ++ codes "/ycsb"));
    wl = m.dbms_base ++ codes "/ycsb-cpp/workloads";
    props = m.dbms_base ++ codes "/ycsb-cpp/leveldb/leveldb.properties";
    db = db_dir p ++ (codes "/ycsb-leveldb-" ++ variant);
    cache_opt =
        codes "-p leveldb.cache_size="
        ++ show (if is_disk p then m.hundredth (ws * 1024) else ws * 1024);
    load_t = max_of ts;
    ws = ws;
    op_count = op_count;
  }

  unfoldable pub leveldb_script : Text → ℕ → Persistence → List ℕ → ℕ → Text
  unfolding leveldb_parts leveldb_lines join_lines
  leveldb_script variant ws p ts op_count =
      join_lines (leveldb_lines (db_dir p) (leveldb_parts variant ws p ts op_count) ts)
