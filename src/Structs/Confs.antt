-- ===== src/Structs/Confs.antt =====
-- `ExpeEngine.make_confs`, over the definitions of benchmarks.yaml and the arguments.
pub mod Complete
pub mod Sound
use memsafedb.Prelude.{
  ℕ, Bool, true, false, not, ◌&&◌, ◌||◌, List, [], ◌∷◌, ◌++◌, ◌==◌, leb, if◌then◌else◌,
}
use memsafedb.Text.{Text, codes, starts_with, text_eq, int}
use memsafedb.Dict.{member}
use memsafedb.Structs.Commands.{Configuration}

pub record SystemDef : Type 0 where
  pub name : Text
  pub capabilities : List Text
  pub to_evaluate : List Text
  -- empty where the key is not there
  pub extra_args : List Text

pub record WorkloadDef : Type 0 where
  pub name : Text
  pub type : Text
  pub requires : List Text
  pub args : List Text

pub record ExtensionDef : Type 0 where
  pub name : Text
  pub host : Text
  pub archs : List Text
  pub max_threads : ℕ

pub record Definitions : Type 0 where
  pub systems : List SystemDef
  pub workloads : List WorkloadDef
  pub extensions : List ExtensionDef

-- The arguments, split at their commas.
pub record Arguments : Type 0 where
  pub systems : List Text
  pub workloads : List Text
  pub extensions : List Text
  pub threads : List Text

-- `"all" in wanted or name in wanted`
unfoldable pub chosen : Text → List Text → Bool
unfolding member text_eq
chosen name wanted = member text_eq (codes "all") wanted || member text_eq name wanted

-- `set(xs).issubset(ys)`
unfoldable pub is_subset : List Text → List Text → Bool
unfolding member text_eq
is_subset [] ys = true
is_subset (x ∷ xs) ys = member text_eq x ys && is_subset xs ys

abbrev pub parallelizable : SystemDef → Bool
parallelizable ds = member text_eq (codes "can_multithread") ds.capabilities

-- `int(t) == 1 or (parallelizable and int(t) <= ext['max_threads'])`
abbrev pub allowed : SystemDef → ExtensionDef → Text → Bool
allowed ds ext t = int t == 1 || (parallelizable ds && leb (int t) ext.max_threads)

-- A workload for a system: it is none of the combined ones, of a type that the system is evaluated
-- with, and asks for no more than the system's capabilities.
abbrev pub suits : SystemDef → WorkloadDef → Bool
suits ds wl =
    not (starts_with wl.name (codes "YCSB-"))
    && (member text_eq wl.type ds.to_evaluate && is_subset wl.requires ds.capabilities)

abbrev pub conf_of : SystemDef → WorkloadDef → ExtensionDef → Text → Text → Configuration
conf_of ds wl ext arch t = record {
  system = ds.name;
  name = wl.name;
  type_bench = wl.type;
  host = ext.host;
  arch = arch;
  nthreads = t;
  args = wl.args ++ ds.extra_args;
}

-- The loops, from the inmost.
module _ (args : Arguments) where
  unfoldable pub thread_confs :
      SystemDef → WorkloadDef → ExtensionDef → Text → List Text → List Configuration
  unfolding int member text_eq
  thread_confs ds wl ext arch [] = []
  thread_confs ds wl ext arch (t ∷ ts) =
      let rest = thread_confs ds wl ext arch ts in
      if allowed ds ext t then conf_of ds wl ext arch t ∷ rest else rest

  unfoldable pub arch_confs :
      SystemDef → WorkloadDef → ExtensionDef → List Text → List Configuration
  unfolding thread_confs
  arch_confs ds wl ext [] = []
  arch_confs ds wl ext (arch ∷ archs) =
      thread_confs ds wl ext arch args.threads ++ arch_confs ds wl ext archs

  unfoldable pub extension_confs : SystemDef → WorkloadDef → List ExtensionDef → List Configuration
  unfolding arch_confs chosen
  extension_confs ds wl [] = []
  extension_confs ds wl (ext ∷ exts) =
      (if chosen ext.name args.extensions then arch_confs ds wl ext ext.archs else [])
      ++ extension_confs ds wl exts

  unfoldable pub workload_confs :
      List ExtensionDef → SystemDef → List WorkloadDef → List Configuration
  unfolding extension_confs chosen starts_with is_subset member text_eq
  workload_confs exts ds [] = []
  workload_confs exts ds (wl ∷ wls) =
      (if suits ds wl && (chosen ds.name args.systems && chosen wl.name args.workloads)
        then extension_confs ds wl exts
        else [])
      ++ workload_confs exts ds wls

  unfoldable pub system_confs :
      List ExtensionDef → List WorkloadDef → List SystemDef → List Configuration
  unfolding workload_confs
  system_confs exts wls [] = []
  system_confs exts wls (ds ∷ dss) = workload_confs exts ds wls ++ system_confs exts wls dss

  unfoldable pub make_confs : Definitions → List Configuration
  unfolding system_confs
  make_confs d = system_confs d.extensions d.workloads d.systems
