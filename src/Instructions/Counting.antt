-- ===== src/Instructions/Counting.antt =====
-- `count_instructions`
pub mod Sums
use memsafedb.Prelude.{
  ℕ, suc, ◌≡◌, refl, Bool, true, false, not, ◌&&◌, ◌||◌, Option, none, some, List, [], ◌∷◌, ◌==◌,
  leb, if◌then◌else◌,
}
use memsafedb.Text.{Text, codes, text_eq, lower, is_empty}
use memsafedb.Dict.{Counter, bump}
use memsafedb.Regex.{Match, match_at, group?, group_text}
use memsafedb.Instructions.Patterns.{
  Mechanism, mte, cheri, disasm_line, is_new_mnemonic, has_capability_operands,
}

-- The ends of lines that `str.splitlines` knows besides `\r\n`.
abbrev is_line_end : ℕ → Bool
is_line_end c = (leb 10 c && leb c 13) || (leb 28 c && leb c 30)

abbrev onto_first : ℕ → List Text → List Text
onto_first c [] = (c ∷ []) ∷ []
onto_first c (l ∷ ls) = (c ∷ l) ∷ ls

-- After a `\r`, the `\n` that belongs to it begins no line.
split_lines_after : Bool → Text → List Text
split_lines_after cr [] = []
split_lines_after cr (c ∷ t) =
    let rest = split_lines_after (c == 13) t in
    if cr && c == 10 then rest else if is_line_end c then [] ∷ rest else onto_first c rest

-- `s.splitlines()`
unfoldable pub split_lines : Text → List Text
unfolding split_lines_after
split_lines t = split_lines_after false t

pub record Counts : Type 0 where
  pub total : ℕ
  pub operand_count : ℕ
  pub manip_count : ℕ
  pub operand_mnemonic_counts : Counter Text
  pub manip_mnemonic_counts : Counter Text
  pub unknown_count : ℕ

abbrev pub no_counts : Counts
no_counts = record {
  total = 0;
  operand_count = 0;
  manip_count = 0;
  operand_mnemonic_counts = [];
  manip_mnemonic_counts = [];
  unknown_count = 0;
}

unfoldable pub count_unknown : Text → Counts → Counts
count_unknown mnemonic s =
    if text_eq mnemonic (codes ".inst") then record s { unknown_count = suc s.unknown_count } else s

abbrev is_cheri : Mechanism → Bool
is_cheri mte = false
is_cheri cheri = true

-- The body of the loop at a line with an instruction.
unfoldable pub count_instruction : Mechanism → Text → Option Text → Counts → Counts
count_instruction mechanism mnemonic operands before =
    let s = count_unknown mnemonic (record before { total = suc before.total }) in
    if is_new_mnemonic mechanism mnemonic
    then record s {
      manip_count = suc s.manip_count;
      manip_mnemonic_counts = bump text_eq mnemonic s.manip_mnemonic_counts;
    }
    else if is_cheri mechanism && has_capability_operands operands
    then record s {
      operand_count = suc s.operand_count;
      operand_mnemonic_counts = bump text_eq mnemonic s.operand_mnemonic_counts;
    }
    else s

unfoldable pub count_line : Mechanism → Option Match → Counts → Counts
count_line mechanism none s = s
count_line mechanism (some m) s =
    count_instruction mechanism (lower (group_text 1 m)) (group? 2 m) s

unfoldable pub count_lines : Mechanism → List Text → Counts → Counts
count_lines mechanism [] s = s
count_lines mechanism (line ∷ lines) s =
    count_lines mechanism lines (count_line mechanism (match_at disasm_line line) s)

unfoldable pub count_instructions : Text → Mechanism → Counts
unfolding split_lines count_lines match_at disasm_line count_line lower group? group_text
    count_instruction text_eq bump count_unknown is_new_mnemonic has_capability_operands
count_instructions disassembly mechanism = count_lines mechanism (split_lines disassembly) no_counts

pub count_instructions_lem :
    (disassembly : Text) (mechanism : Mechanism)
    → count_instructions disassembly mechanism
      ≡ count_lines mechanism (split_lines disassembly) no_counts
unfolding count_instructions
count_instructions_lem disassembly mechanism = refl
