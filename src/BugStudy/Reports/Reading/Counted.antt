-- ===== src/BugStudy/Reports/Reading/Counted.antt =====
-- The statistics of a repetition against the lines that were examined.
use memsafedb.Prelude.{
  suc, ◌+◌, if◌then◌else◌, ◌≤◌, ◌≡◌, refl, true, false, Option, none, some, List, [], ◌∷◌, length,
  Bool-cases, inl, inr, arith,
}
use memsafedb.Text.{Text, codes, text_eq}
use memsafedb.Text.Laws.{text_eq_iff}
use memsafedb.Dict.{Counter, add, bump, lookup}
use memsafedb.Dict.Counters.{counter_sum, counter_sum-bump}
use memsafedb.BugStudy.Json.{
  Json, null, bool, num, str, array, object, Fields, key_eq, get_or, truthy, hashable,
}
use memsafedb.BugStudy.Loading.{Rep, NamedResults, read_entry}
use memsafedb.BugStudy.Reports.Reading.{
  RepState, CveRepState, RepStats, Console, store, flag, issue_type_of, count_entry,
  count_cve_entry, count_of, count_cve_lines, rep_stats, read_cve_rep,
}

length-add : (x : Json) (s : List Json) → length (add key_eq x s) ≤ suc (length s)
unfolding add
length-add x [] = omega arith
length-add x (y ∷ s) = ground (arith, length-add x s)

-- A key that equals two texts makes them equal.
one_key :
    (j : Json) (s t : Text)
    → key_eq j (str s) ≡ true
    → text_eq s t ≡ false
    → key_eq j (str t) ≡ false
unfolding key_eq
one_key null s t p q = cc
one_key (bool b) s t p q = cc
one_key (num n m i) s t p q = cc
one_key (str u) s t p q = let e : u ≡ s = (text_eq_iff u s).0 p in rw e q
one_key (array vs) s t p q = cc
one_key (object fs) s t p q = cc

-- Three counts of different types are no more than all counts.
three_counts :
    (s t u : Text)
    → text_eq s t ≡ false
    → text_eq s u ≡ false
    → text_eq t u ≡ false
    → (c : Counter Json) → count_of s c + count_of t c + count_of u c ≤ counter_sum c
unfolding lookup
three_counts s t u p q r [] = omega arith
three_counts s t u p q r ((j, n) ∷ c) =
    ground (arith, three_counts s t u p q r c, one_key j s t, one_key j s u, one_key j t u)

-- Of the lines that hold a classification, those whose type can be counted, and of those the
-- flagged reports.
pub record IsCounted (s : CveRepState) : Type 0 where
  pub flagged : length s.rep.mem_safety ≤ counter_sum s.rep.stats
  pub typed : counter_sum s.rep.stats ≤ s.total_examined

flag-length :
    (name : Json) (c : Fields) (s : RepState)
    → length (flag name c s).mem_safety ≤ suc (length s.mem_safety)
unfolding flag
flag-length name c s =
    elim (Bool-cases (truthy (get_or (codes "is_memory_safety") (bool false) c))) [
      | inl mem ↦ rw mem (length-add name s.mem_safety)
      | inr no_mem ↦ rw no_mem (omega arith)
    ]

flag-stats : (name : Json) (c : Fields) (s : RepState) → (flag name c s).stats ≡ s.stats
unfolding flag
flag-stats name c s =
    elim (Bool-cases (truthy (get_or (codes "is_memory_safety") (bool false) c))) [
      | inl mem ↦ rw mem refl
      | inr no_mem ↦ rw no_mem refl
    ]

-- The same behind the test of the name.
count_named-IsCounted :
    (rep : Rep) (name : Json) (c : Fields) (s : CveRepState)
    → IsCounted s
    → IsCounted (record {
      total_examined = suc s.total_examined;
      rep =
          if hashable (issue_type_of c)
          then flag name c (record (store rep name c s.rep) {
            stats = bump key_eq (issue_type_of c) s.rep.stats;
          })
          else store rep name c s.rep;
    })
unfolding store
count_named-IsCounted rep name c s h = elim (Bool-cases (hashable (issue_type_of c))) [
  | inl counted ↦ rw counted (record {
    flagged = rw (flag-stats name c _) (
        omega (
          arith,
          h.flagged,
          flag-length name c _,
          counter_sum-bump key_eq (issue_type_of c) s.rep.stats,
        ));
    typed =
        rw (flag-stats name c _)
          (omega (arith, h.typed, counter_sum-bump key_eq (issue_type_of c) s.rep.stats));
  })
  | inr not_counted ↦
      rw not_counted (record { flagged = h.flagged; typed = omega (arith, h.typed) })
]

pub count_cve_entry-IsCounted :
    (rep : Rep) (name : Json) (c : Fields) (s : CveRepState)
    → IsCounted s
    → IsCounted (count_cve_entry rep name c s)
unfolding count_cve_entry count_entry store
count_cve_entry-IsCounted rep name c s h = elim (Bool-cases (hashable name)) [
  | inr no_name ↦ rw no_name (record { flagged = h.flagged; typed = omega (arith, h.typed) })
  | inl named ↦ rw named (count_named-IsCounted rep name c s h)
]

count_cve_lines-IsCounted :
    (con : Console) (rep : Rep) (lines : List Text) (s : CveRepState)
    → IsCounted s
    → IsCounted (count_cve_lines con rep lines s)
unfolding count_cve_lines
count_cve_lines-IsCounted con rep [] s h = h
count_cve_lines-IsCounted con rep (line ∷ lines) s h =
    count_cve_lines-IsCounted con rep lines _ (after (read_entry con.loads line))
  where
    after :
        (o : Option (Json × Fields))
        → IsCounted (elim o [ none ↦ s | some (name, c) ↦ count_cve_entry rep name c s ])
    after none = h
    after (some (name, c)) = count_cve_entry-IsCounted rep name c s h

-- The statistics of a repetition, or sums of them.
pub record IsRepStats (r : RepStats) : Type 0 where
  pub typed : r.bugs + r.programmer_error + r.other ≤ r.total
  pub flagged : r.memory_safety ≤ r.total

rep_stats-IsRepStats : (s : CveRepState) → IsCounted s → IsRepStats (rep_stats s)
unfolding rep_stats text_eq
rep_stats-IsRepStats s h = record {
  typed = omega (
    arith,
    h.typed,
    three_counts (codes "bug") (codes "programmer_error") (codes "other") refl refl refl
        s.rep.stats,
  );
  flagged = omega (arith, h.typed, h.flagged);
}

pub read_cve_rep-IsRepStats :
    (con : Console) (filename : Text) (rep : Rep) (file : Option (List Text))
    (results : NamedResults)
    → IsRepStats (read_cve_rep con filename rep file results).stats
unfolding read_cve_rep
read_cve_rep-IsRepStats con filename rep none results = record {
  typed = omega arith;
  flagged = omega arith;
}
read_cve_rep-IsRepStats con filename rep (some lines) results = rep_stats-IsRepStats _ (
    count_cve_lines-IsCounted con rep lines
      (record {
        total_examined = 0;
        rep = record { results = results; stats = []; mem_safety = [] };
      })
      (record { flagged = omega arith; typed = omega arith }))
