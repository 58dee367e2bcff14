-- ===== src/Ycsb/RedisScripts.antt =====
-- `_redis_script`
use memsafedb.Prelude.{ℕ, Option, none, some, List, [], ◌∷◌, ◌++◌}
use mathlib.Core.List.{flatten}
use memsafedb.Text.{Text, codes, show, text_eq, join_lines}
use memsafedb.Dict.{lookup}
use memsafedb.Ycsb.Scripts.{
  Machine, ro_workloads, ins_workloads, cpus, mte_env, max_of, marker, echo, for_each,
}

-- `_REDIS_SUFFIX`
abbrev pub redis_suffixes : List (Text × Text)
redis_suffixes =
    (codes "dynamic", [])
    ∷ (codes "mte", codes "-mte")
    ∷ (codes "static", codes "-static")
    ∷ (codes "cheri", codes "-cheri")
    ∷ []

abbrev redis_connection : Text
redis_connection = codes "redis -s -p redis.host=127.0.0.1 -p redis.port=6379"

pub record RedisScript : Type 0 where
  pub variant : Text
  pub suffix : Text
  pub data_dir : Text
  pub env : Text
  pub server : Text
  pub cli : Text
  pub wl : Text
  pub load_t : ℕ
  pub ws : ℕ
  pub op_count : ℕ

unfoldable pub redis_load : RedisScript → Text → Text
unfolding show cpus
redis_load s w = flatten (
    codes "taskset -c "
    ∷ cpus s.load_t
    ∷ codes " ycsb.sh load "
    ∷ redis_connection
    ∷ codes " -P "
    ∷ s.wl
    ∷ codes "/workload"
    ∷ w
    ∷ codes " -p recordcount="
    ∷ show s.ws
    ∷ codes " -p threadcount="
    ∷ show s.load_t
    ∷ [])

unfoldable pub redis_measure : RedisScript → Text → ℕ → List Text
unfolding show cpus echo marker
redis_measure s w t =
    echo (marker (codes "REDIS") w t s.variant)
    ∷ flatten (
        codes "taskset -c "
        ∷ cpus t
        ∷ codes " ycsb.sh run "
        ∷ redis_connection
        ∷ codes " -P "
        ∷ s.wl
        ∷ codes "/workload"
        ∷ w
        ∷ codes " -p recordcount="
        ∷ show s.ws
        ∷ codes " -p operationcount="
        ∷ show s.op_count
        ∷ codes " -p threadcount="
        ∷ show t
        ∷ [])
    ∷ []

unfoldable pub redis_ins : RedisScript → Text → ℕ → List Text
unfolding redis_load redis_measure
redis_ins s w t =
    flatten (codes "timeout 60 " ∷ s.cli ∷ codes " -p 6379 flushall >/dev/null 2>&1 || true" ∷ [])
    ∷ redis_load s w
    ∷ redis_measure s w t

unfoldable pub redis_ro : RedisScript → Text → ℕ → List Text
unfolding redis_measure
redis_ro s w t = redis_measure s w t

-- The lines that end a server which matches, but not this shell.
unfoldable pub reap : Text → Text
reap pattern = flatten (
    codes "for p in $(pgrep -f \""
    ∷ pattern
    ∷ codes "\" 2>/dev/null); do "
    ∷ codes "[ \"$p\" = \"$$\" ] || kill -9 \"$p\" 2>/dev/null; done"
    ∷ [])

unfoldable pub remove_dump : RedisScript → Text
remove_dump s = codes "rm -f " ++ (s.data_dir ++ codes "/dump.rdb")

unfoldable pub redis_start : RedisScript → List Text
unfolding reap remove_dump redis_load
redis_start s =
    codes "set -uo pipefail"
    ∷ reap (codes "redis-server.*--dir " ++ s.data_dir)
    ∷ remove_dump s
    ∷ flatten (
        s.env
        ∷ s.server
        ∷ codes " --dir "
        ∷ s.data_dir
        ∷ codes " --save \"\" --appendonly no"
        ∷ codes " --ignore-warnings ARM64-COW-BUG &>/dev/null &"
        ∷ [])
    ∷ codes "SPID=$!"
    ∷ flatten (
        codes "for i in $(seq 1 60); do timeout 3 "
        ∷ s.cli
        ∷ codes " -p 6379 ping 2>/dev/null | grep -q PONG && break; sleep 0.5; done"
        ∷ [])
    ∷ redis_load s (codes "a")
    ∷ []

unfoldable pub redis_stop : RedisScript → List Text
unfolding reap remove_dump
redis_stop s =
    flatten (codes "timeout 5 " ∷ s.cli ∷ codes " shutdown nosave >/dev/null 2>&1 || true" ∷ [])
    ∷ codes "kill -9 $SPID >/dev/null 2>&1 || true"
    ∷ reap (codes "redis-server" ++ (s.suffix ++ (codes " --dir " ++ s.data_dir)))
    ∷ remove_dump s
    ∷ codes "wait $SPID 2>/dev/null || true"
    ∷ []

unfoldable pub redis_lines : RedisScript → List ℕ → List Text
unfolding redis_start redis_stop for_each redis_ro redis_ins
redis_lines s ts =
    redis_start s
    ++ (for_each (redis_ro s) ro_workloads ts
        ++ (for_each (redis_ins s) ins_workloads ts ++ redis_stop s))

module _ (m : Machine) where
  unfoldable pub redis_parts : Text → Text → ℕ → List ℕ → ℕ → RedisScript
  unfolding mte_env max_of
  redis_parts variant suffix ws ts op_count = record {
    variant = variant;
    suffix = suffix;
    data_dir = m.data_dir;
    env = mte_env variant;
    server = m.dbms_base ++ (codes "/redis/src/redis-server" ++ suffix);
    cli = m.dbms_base ++ (codes "/redis/src/redis-cli" ++ suffix);
    wl = m.data_dir ++ codes "/workloads/YCSB";
    load_t = max_of ts;
    ws = ws;
    op_count = op_count;
  }

  -- `none` for the `KeyError` of a variant without a suffix.
  unfoldable pub redis_script : Text → ℕ → List ℕ → ℕ → Option Text
  unfolding lookup text_eq redis_parts redis_lines join_lines
  redis_script variant ws ts op_count = elim (lookup text_eq variant redis_suffixes) [
    | none ↦ none
    | some suffix ↦ some (join_lines (redis_lines (redis_parts variant suffix ws ts op_count) ts))
  ]
