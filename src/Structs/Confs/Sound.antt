-- ===== src/Structs/Confs/Sound.antt =====
-- The configurations are those of pairs that suit each other, and no others.
use mathlib.Core.List.{Memᴰ}
use memsafedb.Prelude.{◌≡◌, true, List}
use memsafedb.Text.{Text}
use memsafedb.Structs.Commands.{Configuration}
use memsafedb.Structs.Confs.{
  SystemDef, WorkloadDef, ExtensionDef, Definitions, Arguments, chosen, suits, allowed, conf_of,
}

module _ (args : Arguments) (d : Definitions) where
  -- A configuration made of a system, a workload and an extension of the definitions.
  pub record IsConf (c : Configuration) : Type 0 where
    pub ds : SystemDef
    pub wl : WorkloadDef
    pub ext : ExtensionDef
    pub system_there : Memᴰ ds d.systems
    pub workload_there : Memᴰ wl d.workloads
    pub extension_there : Memᴰ ext d.extensions
    pub arch_there : Memᴰ c.arch ext.archs
    pub thread_there : Memᴰ c.nthreads args.threads
    pub made : c ≡ conf_of ds wl ext c.arch c.nthreads
    pub suiting : suits ds wl ≡ true
    pub threads : allowed ds ext c.nthreads ≡ true
    pub systems : chosen ds.name args.systems ≡ true
    pub workloads : chosen wl.name args.workloads ≡ true
    pub extensions : chosen ext.name args.extensions ≡ true

  -- What the outer loops have come to.
  record Wanted (ds : SystemDef) (wl : WorkloadDef) (ext : ExtensionDef) : Type 0 where
    system_there : Memᴰ ds d.systems
    workload_there : Memᴰ wl d.workloads
    extension_there : Memᴰ ext d.extensions
    suiting : suits ds wl ≡ true
    systems : chosen ds.name args.systems ≡ true
    workloads : chosen wl.name args.workloads ≡ true
    extensions : chosen ext.name args.extensions ≡ true
