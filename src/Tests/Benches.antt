-- ===== src/Tests/Benches.antt =====
-- The data structures' benchmarks at concrete definitions.
use memsafedb.Prelude.{◌≡◌, refl, true, none, some, List, [], ◌∷◌, ◌++◌, inr, length}
use memsafedb.Text.{Text, codes, int}
use memsafedb.Structs.Latency.{target_line}
use memsafedb.Structs.Latency.Summary.{target_line-status}
use memsafedb.Structs.Commands.{Configuration, NbOpsRow, get_conf, get_command}
use memsafedb.Structs.Commands.Bounds.{IsTuned, get_conf-IsTuned}
use memsafedb.Structs.Confs.{
  Definitions, Arguments, make_confs, SystemDef, WorkloadDef, ExtensionDef,
}
use memsafedb.Structs.Runs.{header, result_file}
use memsafedb.Structs.Runs.Appended.{after_runs, all_lines, result_file-all_lines}

abbrev status : Text
status = codes "5 sec: 10 operations; [READ: Count=10 Avg=2.5]"

target_line-status_example :
    target_line
      ((codes "start" ∷ status ∷ codes "end" ∷ []) ++ (codes "Run runtime(sec): 5" ∷ status ∷ []))
    ≡ some status
unfolding target_line
target_line-status_example =
    target_line-status (codes "start" ∷ []) status (codes "end" ∷ []) (codes "Run runtime(sec): 5")
      (status ∷ []) (refl, (refl, (refl, tt))) refl refl (refl, tt)

abbrev four_threads : Configuration
four_threads = record {
  system = codes "btree";
  name = codes "read";
  type_bench = codes "ycsb";
  host = codes "ace";
  arch = codes "cheri";
  nthreads = codes "4";
  args = codes "-run" ∷ [];
}

abbrev tuned : List NbOpsRow
tuned =
    record {
      host = codes "ace";
      system = codes "btree";
      name = codes "read";
      nthreads = 1;
      nb_ops = 60_000_000;
    }
    ∷ []

get_conf-IsTuned_example : IsTuned four_threads tuned (some 50_000_000)
unfolding get_conf int
get_conf-IsTuned_example = get_conf-IsTuned four_threads tuned

abbrev btree : SystemDef
btree = record {
  name = codes "btree";
  capabilities = codes "can_read" ∷ codes "can_multithread" ∷ [];
  to_evaluate = codes "ycsb" ∷ [];
  extra_args = [];
}

abbrev read : WorkloadDef
read = record {
  name = codes "read";
  type = codes "ycsb";
  requires = codes "can_read" ∷ [];
  args = codes "-run" ∷ [];
}

abbrev cheri : ExtensionDef
cheri = record {
  name = codes "cheri";
  host = codes "ace";
  archs = codes "cheri" ∷ codes "aarch64" ∷ [];
  max_threads = 4;
}

abbrev small : Definitions
small = record {
  systems = btree ∷ [];
  workloads =
      read ∷ record { name = codes "YCSB-A"; type = codes "ycsb"; requires = []; args = [] } ∷ [];
  extensions = cheri ∷ [];
}

abbrev everything : Arguments
everything = record {
  systems = codes "all" ∷ [];
  workloads = codes "all" ∷ [];
  extensions = codes "cheri" ∷ [];
  threads = codes "1" ∷ codes "4" ∷ codes "8" ∷ [];
}

four_confs : length (make_confs everything small) ≡ 4
unfolding make_confs
four_confs = refl

queue_runs :
    get_command (codes "u") (record four_threads { type_bench = codes "queue_bench" }) 9
    ≡ some (codes " taskset -c 0-3  /scratch/u/memsafedb_bin/queue_bench_cheri 9 2")
unfolding get_command
queue_runs = refl

result_file-all_lines_example :
    after_runs (result_file true none (codes "a\n")) (codes "b\n" ∷ codes "c\n" ∷ [])
    ≡ header ++ all_lines (codes "a\n" ∷ codes "b\n" ∷ codes "c\n" ∷ [])
result_file-all_lines_example =
    result_file-all_lines true none (codes "a\n") (codes "b\n" ∷ codes "c\n" ∷ []) (inr refl)
