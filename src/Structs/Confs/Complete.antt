-- ===== src/Structs/Confs/Complete.antt =====
-- Every pair that suits each other is among the configurations.
use mathlib.Core.List.{Memᴰ}
use mathlib.Core.List.Memᴰ
use memsafedb.Prelude.{List}
use memsafedb.Text.{Text}
