-- ===== src/Tests/Counts.antt =====
-- The rows of `rows_for_database` on a machine with one binary.
use memsafedb.Prelude.{true, false, ◌≡◌, refl, some, [], ◌∷◌, inr}
use memsafedb.Text.{codes, show, text_eq}
use memsafedb.Dict.{lookup}
use memsafedb.Instructions.Patterns.{mte}
use memsafedb.Instructions.Counting.{count_instructions}
use memsafedb.Instructions.Targets.{
  World, candidate_paths, disassemble, resolve_glibc_path, count_mte_in_shared_runtime, shared_at,
  percent_of, relative_path,
}
use memsafedb.Instructions.Table.{
  TargetRow, Breakdown, ok, binary, new_instruction, insert_item, sorted_items, merge, text_leb,
  breakdown_rows_for_target, counted_row, runtime_counts, counted_target, try_target, fill_target,
  rows_for_targets, rows_for_database,
}
use memsafedb.Instructions.Table.Totals.{AreTotals, rows_for_database-AreTotals}

abbrev machine : World
machine = record {
  root = codes "/r";
  exists = λ path. true;
  path_text = λ s. s;
  detect_objdump = λ mechanism. inr (codes "objdump");
  objdump = λ mechanism path. record {
    ok = true;
    code = codes "0";
    stdout = codes "  10:\taa bb irg x0, x1\n  14:\taa bb ret\n  18:\taa bb irg\n";
  };
  ldd = λ path. record { ok = false; code = codes "1"; stdout = [] };
  percent = λ a b. show a;
  dumps = λ counts. codes "{}";
}

abbrev mysql_row : TargetRow
mysql_row = record {
  database = codes "mysql";
  mechanism = mte;
  variant = codes "release-mte";
  binary_path = codes "dbms/mysql/build/release-mte/bin/mysqld";
  filled = record {
    status = ok;
    disassembler = codes "objdump";
    total_instructions = 3;
    new_instruction_count = 2;
    new_instruction_pct = codes "2";
    cap_operand_instruction_count = 0;
    cap_operand_instruction_pct = codes "0";
    cap_manip_instruction_count = 2;
    cap_manip_instruction_pct = codes "2";
    glibc_instruction_count = 0;
    glibc_instruction_pct = codes "0.000000";
    glibc_path = [];
    unknown_instruction_count = 0;
    mnemonic_counts = codes "{}";
    operand_mnemonic_counts = codes "{}";
    manip_mnemonic_counts = codes "{}";
  };
}

abbrev mysql_breakdown : Breakdown
mysql_breakdown = record {
  database = codes "mysql";
  mechanism = mte;
  variant = codes "release-mte";
  component = binary;
  category = new_instruction;
  mnemonic = codes "irg";
  count = 2;
}

mysql_rows : rows_for_database machine (codes "mysql") ≡ some (mysql_row ∷ [], mysql_breakdown ∷ [])
unfolding rows_for_database lookup text_eq candidate_paths rows_for_targets fill_target try_target
    counted_target counted_row runtime_counts count_mte_in_shared_runtime shared_at
    resolve_glibc_path disassemble percent_of relative_path count_instructions sorted_items
    insert_item merge text_leb breakdown_rows_for_target show
mysql_rows = refl

rows_for_database-AreTotals_example : AreTotals (mysql_row ∷ []) (mysql_breakdown ∷ [])
rows_for_database-AreTotals_example = rows_for_database-AreTotals machine (codes "mysql") mysql_rows
