-- ===== src/Instructions/Targets.antt =====
-- `candidate_paths`, `disassemble`, `resolve_glibc_path` and `count_mte_in_shared_runtime`. What
-- the machine answers is a parameter.
use memsafedb.Prelude.{
  ℕ, suc, Bool, not, Option, none, some, List, [], ◌∷◌, ◌++◌, ◌==◌, ◌⊎◌, inl, inr, length, take,
  drop, if◌then◌else◌,
}
use memsafedb.Text.{Text, codes, is_space}
use memsafedb.Dict.{Counter}
use memsafedb.Regex.{Re, char, group, plus, lit, Match, search_in, group_text}
use memsafedb.Instructions.Patterns.{Mechanism, mte, cheri}
use memsafedb.Instructions.Counting.{Counts, split_lines, count_instructions}

pub record BinaryTarget : Type 0 where
  pub database : Text
  pub mechanism : Mechanism
  pub variant : Text
  pub path : Text

-- What `subprocess.run` returns: is the code 0, the code as it is printed, and the output.
pub record Completed : Type 0 where
  pub ok : Bool
  pub code : Text
  pub stdout : Text

-- The machine: `PROJECT_ROOT`, `Path.exists`, `str(Path(s))`, the tool that `detect_objdump` finds
-- or its error, the runs of `objdump` and of `ldd`, `f"{100.0 * a / b:.6f}"` of a `b` that is not 0,
-- and `json.dumps` of a dict with its items in order.
pub record World : Type 0 where
  pub root : Text
  pub exists : Text → Bool
  pub path_text : Text → Text
  pub detect_objdump : Mechanism → Text ⊎ Text
  pub objdump : Mechanism → Text → Completed
  pub ldd : Text → Completed
  pub percent : ℕ → ℕ → Text
  pub dumps : Counter Text → Text

-- `libc\.so\.6 => (\S+)`
pub glibc_pattern : Re
glibc_pattern = lit (codes "libc.so.6 => ") (group 1 (plus (char (λ c. not (is_space c)))))

module _ (w : World) where
  abbrev dbms_path : Text → Text
  dbms_path rest = w.root ++ (codes "/dbms/" ++ rest)

  abbrev binary : Text → Mechanism → Text → Text → BinaryTarget
  binary database mechanism variant rest = record {
    database = database;
    mechanism = mechanism;
    variant = variant;
    path = dbms_path rest;
  }

  abbrev both : Text → Text → Text → List BinaryTarget
  both database mte_rest cheri_rest =
      binary database mte (codes "release-mte") mte_rest
      ∷ binary database cheri (codes "release-cheri") cheri_rest
      ∷ []

  unfoldable pub candidate_paths : List (Text × List BinaryTarget)
  candidate_paths =
      (
        codes "duckdb",
        both (codes "duckdb") (codes "duckdb/build/release-mte/duckdb")
            (codes "duckdb/build/release-cheri/duckdb"),
      )
      ∷ (
        codes "leveldb",
        both (codes "leveldb") (codes "leveldb/build/release-mte/db_bench")
            (codes "leveldb/build/release-cheri/db_bench"),
      )
      ∷ (
        codes "redis",
        both (codes "redis") (codes "redis/src/redis-server-mte")
            (codes "redis/src/redis-server-cheri"),
      )
      ∷ (
        codes "sqlite",
        both (codes "sqlite") (codes "sqlite/build/release-mte/sqlite3")
            (codes "sqlite/build/release-cheri/sqlite3"),
      )
      ∷ (
        codes "mysql",
        binary (codes "mysql") mte (codes "release-mte")
              (codes "mysql/build/release-mte/bin/mysqld")
            ∷ [],
      )
      ∷ (
        codes "ladybug",
        binary (codes "ladybug") mte (codes "release-mte")
              (codes "ladybug/build-mte/release/tools/shell/lbug")
            ∷ [],
      )
      ∷ []

  -- The error's text, or the disassembly and the name of the tool.
  unfoldable pub disassemble : BinaryTarget → Text ⊎ (Text × Text)
  disassemble target = elim (w.detect_objdump target.mechanism) [
    | inl error ↦ inl error
    | inr tool ↦
        let result = w.objdump target.mechanism target.path in
        if result.ok
        then inr (result.stdout, tool)
        else inl (
            codes "disassembly failed with exit code "
            ++ (result.code ++ (codes ": " ++ take 400 result.stdout)))
  ]

  abbrev existing : Option Match → Option Text
  existing none = none
  existing (some m) =
      let candidate = w.path_text (group_text 1 m) in
      if w.exists candidate then some candidate else none

  abbrev or_else : Option Text → Option Text → Option Text
  or_else (some t) rest = some t
  or_else none rest = rest

  unfoldable pub find_glibc : List Text → Option Text
  find_glibc [] = none
  find_glibc (line ∷ lines) = or_else (existing (search_in glibc_pattern line)) (find_glibc lines)

  unfoldable pub resolve_glibc_path : Text → Option Text
  resolve_glibc_path path =
      let result = w.ldd path in if result.ok then find_glibc (split_lines result.stdout) else none

  -- `(100.0 * a / total) if total else 0.0`, as it is printed
  unfoldable pub percent_of : ℕ → ℕ → Text
  percent_of a total = if total == 0 then codes "0.000000" else w.percent a total

  pub record Shared : Type 0 where
    pub count : ℕ
    pub pct : Text
    pub path : Text
    pub mnemonic_counts : Counter Text

  abbrev pub not_shared : Shared
  not_shared = record { count = 0; pct = codes "0.000000"; path = []; mnemonic_counts = [] }

  unfoldable pub shared_counts : Text → Counts → Shared
  shared_counts path counts = record {
    count = counts.manip_count;
    pct = percent_of counts.manip_count counts.total;
    path = path;
    mnemonic_counts = counts.manip_mnemonic_counts;
  }

  -- The disassembly of the library at that path.
  unfoldable pub shared_of : Text → Text ⊎ (Text × Text) → Text ⊎ Shared
  shared_of path (inl error) = inl error
  shared_of path (inr (disassembly, tool)) =
      inr (shared_counts path (count_instructions disassembly mte))

  unfoldable pub shared_at : Option Text → Text ⊎ Shared
  shared_at none = inr not_shared
  shared_at (some path) = shared_of path (
      disassemble (record {
        database = codes "glibc";
        mechanism = mte;
        variant = codes "shared";
        path = path;
      }))

  unfoldable pub count_mte_in_shared_runtime : Text → Text ⊎ Shared
  count_mte_in_shared_runtime binary_path = shared_at (resolve_glibc_path binary_path)

  -- `str(path.relative_to(PROJECT_ROOT))`
  unfoldable pub relative_path : Text → Text
  relative_path path = drop (suc (length w.root)) path
