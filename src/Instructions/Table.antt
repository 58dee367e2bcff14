-- ===== src/Instructions/Table.antt =====
-- `breakdown_rows_for_target` and `rows_for_database`
pub mod Totals
use memsafedb.Prelude.{
  ℕ, zero, suc, ◌+◌, Bool, true, false, not, ◌&&◌, ◌||◌, Option, none, some, List, [], ◌∷◌, ◌++◌,
  ◌==◌, ltb, ◌⊎◌, inl, inr, map, if◌then◌else◌,
}
use memsafedb.Text.{Text, codes, text_eq}
use memsafedb.Dict.{Counter, update, lookup}
use memsafedb.Instructions.Patterns.{Mechanism, mte, cheri}
use memsafedb.Instructions.Counting.{Counts, count_instructions}
use memsafedb.Instructions.Targets.{
  BinaryTarget, World, Shared, not_shared, candidate_paths, disassemble, percent_of,
  count_mte_in_shared_runtime, relative_path,
}

-- `s <= t` of texts
unfoldable pub text_leb : Text → Text → Bool
text_leb [] t = true
text_leb (c ∷ s) [] = false
text_leb (c ∷ s) (d ∷ t) = ltb c d || (c == d && text_leb s t)

unfoldable pub insert_item : Text × ℕ → Counter Text → Counter Text
insert_item (k, n) [] = (k, n) ∷ []
insert_item (k, n) ((j, m) ∷ c) =
    if text_leb k j then (k, n) ∷ ((j, m) ∷ c) else (j, m) ∷ insert_item (k, n) c

-- `sorted(counts.items())`, by the mnemonics, of which no two are the same
unfoldable pub sorted_items : Counter Text → Counter Text
sorted_items [] = []
sorted_items (e ∷ c) = insert_item e (sorted_items c)

-- `a | b`
unfoldable pub merge : Counter Text → Counter Text → Counter Text
merge a [] = a
merge a ((k, n) ∷ b) = merge (update text_eq 0 k (λ old. n) a) b

pub data Component : Type 0 where
  binary glibc : Component

pub data Category : Type 0 where
  capability_operand new_instruction : Category

pub record Breakdown : Type 0 where
  pub database : Text
  pub mechanism : Mechanism
  pub variant : Text
  pub component : Component
  pub category : Category
  pub mnemonic : Text
  pub count : ℕ

pub data Status : Type 0 where
  missing_binary ok : Status
  error : Text → Status

-- The counts and texts that the three ways of filling a row set.
pub record Filled : Type 0 where
  pub status : Status
  pub disassembler : Text
  pub total_instructions : ℕ
  pub new_instruction_count : ℕ
  pub new_instruction_pct : Text
  pub cap_operand_instruction_count : ℕ
  pub cap_operand_instruction_pct : Text
  pub cap_manip_instruction_count : ℕ
  pub cap_manip_instruction_pct : Text
  pub glibc_instruction_count : ℕ
  pub glibc_instruction_pct : Text
  pub glibc_path : Text
  pub unknown_instruction_count : ℕ
  pub mnemonic_counts : Text
  pub operand_mnemonic_counts : Text
  pub manip_mnemonic_counts : Text

pub record TargetRow : Type 0 where
  pub database : Text
  pub mechanism : Mechanism
  pub variant : Text
  pub binary_path : Text
  pub filled : Filled

-- The row of a target that is missing or fails.
abbrev pub no_instructions : Status → Filled
no_instructions status = record {
  status = status;
  disassembler = [];
  total_instructions = 0;
  new_instruction_count = 0;
  new_instruction_pct = [];
  cap_operand_instruction_count = 0;
  cap_operand_instruction_pct = [];
  cap_manip_instruction_count = 0;
  cap_manip_instruction_pct = [];
  glibc_instruction_count = 0;
  glibc_instruction_pct = [];
  glibc_path = [];
  unknown_instruction_count = 0;
  mnemonic_counts = codes "{}";
  operand_mnemonic_counts = codes "{}";
  manip_mnemonic_counts = codes "{}";
}

abbrev pub breakdown : BinaryTarget → Component → Category → Text × ℕ → Breakdown
breakdown t component category (mnemonic, count) = record {
  database = t.database;
  mechanism = t.mechanism;
  variant = t.variant;
  component = component;
  category = category;
  mnemonic = mnemonic;
  count = count;
}

unfoldable pub breakdown_rows_for_target :
    BinaryTarget → Counter Text → Counter Text → Counter Text → List Breakdown
breakdown_rows_for_target t operand manip shared =
    map (breakdown t binary capability_operand) (sorted_items operand)
    ++ (map (breakdown t binary new_instruction) (sorted_items manip)
        ++ map (breakdown t glibc new_instruction) (sorted_items shared))

module _ (w : World) where
  unfoldable pub counted_row : Text → Counts → Shared w → Filled
  counted_row tool c s = record {
    status = ok;
    disassembler = tool;
    total_instructions = c.total;
    new_instruction_count = c.operand_count + c.manip_count;
    new_instruction_pct = percent_of w (c.operand_count + c.manip_count) c.total;
    cap_operand_instruction_count = c.operand_count;
    cap_operand_instruction_pct = percent_of w c.operand_count c.total;
    cap_manip_instruction_count = c.manip_count;
    cap_manip_instruction_pct = percent_of w c.manip_count c.total;
    glibc_instruction_count = s.count;
    glibc_instruction_pct = s.pct;
    glibc_path = s.path;
    unknown_instruction_count = c.unknown_count;
    mnemonic_counts =
        w.dumps (sorted_items (merge c.operand_mnemonic_counts c.manip_mnemonic_counts));
    operand_mnemonic_counts = w.dumps (sorted_items c.operand_mnemonic_counts);
    manip_mnemonic_counts = w.dumps (sorted_items c.manip_mnemonic_counts);
  }

  -- `if target.mechanism == "mte"`
  unfoldable pub runtime_counts : BinaryTarget → Mechanism → Text ⊎ Shared w
  runtime_counts target mte = count_mte_in_shared_runtime w target.path
  runtime_counts target cheri = inr (not_shared w)

  unfoldable pub counted_target :
      BinaryTarget → Text → Counts → Text ⊎ Shared w → Filled × List Breakdown
  counted_target target tool counts (inl e) = (no_instructions (error e), [])
  counted_target target tool counts (inr s) = (
    counted_row tool counts s,
    breakdown_rows_for_target target counts.operand_mnemonic_counts counts.manip_mnemonic_counts
        s.mnemonic_counts,
  )

  -- The `try`, over what `disassemble` returns.
  unfoldable pub try_target : BinaryTarget → Text ⊎ (Text × Text) → Filled × List Breakdown
  try_target target (inl e) = (no_instructions (error e), [])
  try_target target (inr (disassembly, tool)) =
      counted_target target tool (count_instructions disassembly target.mechanism)
        (runtime_counts target target.mechanism)

  unfoldable pub fill_target : BinaryTarget → Filled × List Breakdown
  fill_target target =
      if not (w.exists target.path)
      then (no_instructions missing_binary, [])
      else try_target target (disassemble w target)

  unfoldable pub rows_for_targets : List BinaryTarget → List TargetRow × List Breakdown
  rows_for_targets [] = ([], [])
  rows_for_targets (target ∷ targets) =
      let (filled, broken) = fill_target target in
      let (rows, more) = rows_for_targets targets in
      (
        record {
          database = target.database;
          mechanism = target.mechanism;
          variant = target.variant;
          binary_path = relative_path w target.path;
          filled = filled;
        }
            ∷ rows,
        broken ++ more,
      )

  -- `none` for the `KeyError` of a database that is not there.
  unfoldable pub rows_for_database : Text → Option (List TargetRow × List Breakdown)
  rows_for_database database = elim (lookup text_eq database (candidate_paths w)) [
    | none ↦ none
    | some targets ↦ some (rows_for_targets targets)
  ]
