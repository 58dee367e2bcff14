-- ===== src/Instructions/Counting/Sums.antt =====
-- What the counts of `count_instructions` have to do with each other.
use memsafedb.Prelude.{
  ◌+◌, ◌≤◌, ◌≡◌, refl, true, false, Option, none, some, List, [], ◌∷◌, arith, ◌⊎◌, inr,
}
use memsafedb.Text.{Text, text_eq, lower}
use memsafedb.Dict.Counters.{counter_sum, AllKeys, counter_sum-bump, AllKeys-bump}
use memsafedb.Regex.{Match, match_at, group?, group_text}
use memsafedb.Instructions.Patterns.{Mechanism, disasm_line, is_new_mnemonic}
use memsafedb.Instructions.Counting.{
  Counts, no_counts, split_lines, is_cheri, count_unknown, count_instruction, count_line,
  count_lines, count_instructions, count_instructions_lem,
}

abbrev pub IsNew : Mechanism → Text → Type 0
IsNew mechanism mnemonic = is_new_mnemonic mechanism mnemonic ≡ true

abbrev pub IsOld : Mechanism → Text → Type 0
IsOld mechanism mnemonic = is_new_mnemonic mechanism mnemonic ≡ false

pub record IsCounted (mechanism : Mechanism) (s : Counts) : Type 0 where
  pub within_total : s.operand_count + s.manip_count ≤ s.total
  pub unknown_within_total : s.unknown_count ≤ s.total
  pub operand_sum : counter_sum s.operand_mnemonic_counts ≡ s.operand_count
  pub manip_sum : counter_sum s.manip_mnemonic_counts ≡ s.manip_count
  pub manip_new : AllKeys (IsNew mechanism) s.manip_mnemonic_counts
  pub operand_old : AllKeys (IsOld mechanism) s.operand_mnemonic_counts
  pub operands_cheri : (is_cheri mechanism ≡ true) ⊎ (s.operand_count ≡ 0)

module _ (mechanism : Mechanism) where
  count_instruction-IsCounted :
      (mnemonic : Text) (operands : Option Text) (s : Counts)
      → IsCounted mechanism s
      → IsCounted mechanism (count_instruction mechanism mnemonic operands s)
  unfolding count_instruction count_unknown
  count_instruction-IsCounted mnemonic operands s h = ground (
    arith,
    counter_sum-bump text_eq mnemonic s.manip_mnemonic_counts,
    counter_sum-bump text_eq mnemonic s.operand_mnemonic_counts,
    AllKeys-bump text_eq mnemonic (IsNew mechanism) s.manip_mnemonic_counts,
    AllKeys-bump text_eq mnemonic (IsOld mechanism) s.operand_mnemonic_counts,
  )

  count_line-IsCounted :
      (m : Option Match) (s : Counts)
      → IsCounted mechanism s
      → IsCounted mechanism (count_line mechanism m s)
  unfolding count_line
  count_line-IsCounted none s h = h
  count_line-IsCounted (some m) s h =
      count_instruction-IsCounted (lower (group_text 1 m)) (group? 2 m) s h

  count_lines-IsCounted :
      (lines : List Text) (s : Counts)
      → IsCounted mechanism s
      → IsCounted mechanism (count_lines mechanism lines s)
  unfolding count_lines
  count_lines-IsCounted [] s h = h
  count_lines-IsCounted (line ∷ lines) s h =
      count_lines-IsCounted lines (count_line mechanism (match_at disasm_line line) s)
        (count_line-IsCounted (match_at disasm_line line) s h)

-- Of any disassembly: no instruction is counted both as new and for its operands, and none is
-- counted that is not in the total; the mnemonics of each kind add up to its count; the mnemonics
-- counted as new are new, and those counted for their operands are not; and operands are counted
-- only for CHERI.
pub count_instructions-IsCounted :
    (disassembly : Text) (mechanism : Mechanism)
    → IsCounted mechanism (count_instructions disassembly mechanism)
count_instructions-IsCounted disassembly mechanism =
    rw (count_instructions_lem disassembly mechanism) (
      count_lines-IsCounted mechanism (split_lines disassembly) no_counts (record {
        within_total = omega arith;
        unknown_within_total = omega arith;
        operand_sum = refl;
        manip_sum = refl;
        manip_new = tt;
        operand_old = tt;
        operands_cheri = inr refl;
      }))
