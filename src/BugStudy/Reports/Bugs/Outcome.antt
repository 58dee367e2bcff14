-- ===== src/BugStudy/Reports/Bugs/Outcome.antt =====
-- What the parts of the report hold, and when `main` raises.
use mathlib.Core.List.{Perm}
use mathlib.Core.List.Perm
use memsafedb.Prelude.{
  ℕ, suc, ◌≤◌, ◌≡◌, refl, sym, ap, ◌∙◌, true, Option, none, some, List, [], ◌∷◌, ◌++◌, map,
  append_assoc, length, arith, Bool-cases, inl, inr,
}
use memsafedb.Text.{Text, codes, join_lines}
use memsafedb.Sorting.{sort_by}
use memsafedb.Sorting.Order.{IsSorted, sort_by-Perm, sort_by-IsSorted}
use memsafedb.BugStudy.Reports.Ids.{
  BugId, sorted_ids, get_id, key_of, id_leb, comparable, sorted_bugs, sorted_by_id,
}
use memsafedb.BugStudy.Reports.Ids.Comparable.{id_leb-IsTotalOrder}
use memsafedb.BugStudy.Reports.Entries.{bug_lines, bug_of}
use memsafedb.BugStudy.Reports.Parts.{chunks}
use memsafedb.BugStudy.Reports.Parts.Whole.{flatten, chunks-AreParts}
use memsafedb.BugStudy.Reports.Regions.{regions_lines, combos_down}
use memsafedb.BugStudy.Reports.Bugs.{
  Files, Output, Loaded, chunk_lines, report_lines, write_parts, report, report_after, all_flagged,
  load, sets_of, before_report, after, analyse_bugs, analyse_texts, all_texts, names_of, texts_in,
}

abbrev pub bug_key : Text → BugId
bug_key x = key_of (get_id x)

abbrev nothing_flagged : Output
nothing_flagged = record {
  printed = codes "No memory safety issues found to report." ∷ [];
  written = [];
}

some_inj {ℓ} : {A : Type ℓ} (x y : A) → some x ≡ some y → x ≡ y
some_inj x y e = cc

none-some {ℓ} : {A : Type ℓ} {x : A} → none ≡ some x → ⊥
none-some e = cc

sorted_bugs-IsSorted :
    (xs ys : List Text) → sorted_bugs xs ≡ some ys → Perm ys xs × IsSorted id_leb bug_key ys
unfolding sorted_bugs sorted_by_id
sorted_bugs-IsSorted xs ys e = elim (Bool-cases (comparable (map bug_key xs))) [
  | inl one_kind ↦
      rw (sym (some_inj (sort_by id_leb bug_key xs) ys (sym (rw one_kind refl) ∙ e)))
        (sort_by-Perm id_leb bug_key xs, sort_by-IsSorted id_leb bug_key id_leb-IsTotalOrder xs)
  | inr mixed ↦ absurd (none-some (sym (rw mixed refl) ∙ e))
]

module _ (files : Files) (dbms : Text) (l : Loaded) where
  abbrev texts : List (Text × Text) → List Text
  texts [] = []
  texts ((name, t) ∷ more) = t ∷ texts more

  write_parts-texts :
      (i : ℕ) (parts : List (List Text))
      → texts (write_parts files dbms l i parts).written
        ≡ map (λ part. join_lines (chunk_lines files dbms l part)) parts
  unfolding write_parts
  write_parts-texts i [] = refl
  write_parts-texts i (part ∷ parts) =
      ap (λ r. join_lines (chunk_lines files dbms l part) ∷ r) (write_parts-texts (suc i) parts)

  chunk_lines-report_lines :
      (bugs : List Text) → chunk_lines files dbms l bugs ≡ report_lines files dbms l bugs
  unfolding chunk_lines report_lines
  chunk_lines-report_lines [] = refl
  chunk_lines-report_lines (b ∷ bugs) = rw (chunk_lines-report_lines bugs) refl

  report_lines-append :
      (xs ys : List Text)
      → report_lines files dbms l (xs ++ ys)
        ≡ report_lines files dbms l xs ++ report_lines files dbms l ys
  unfolding report_lines
  report_lines-append [] ys = refl
  report_lines-append (x ∷ xs) ys = rw (report_lines-append xs ys) (
      sym (
        append_assoc
          (bug_lines files.repr (texts_in l.matches) l.third.results x (bug_of (files.content x)))
          (report_lines files dbms l xs) (report_lines files dbms l ys)))

  report_lines-parts :
      (parts : List (List Text))
      → flatten (map (chunk_lines files dbms l) parts) ≡ report_lines files dbms l (flatten parts)
  unfolding report_lines
  report_lines-parts [] = refl
  report_lines-parts (part ∷ parts) =
      rw
        (
          report_lines-append part (flatten parts),
          chunk_lines-report_lines part,
          report_lines-parts parts,
        )
        refl

  -- What was written for the flagged reports.
  pub record IsReport (flagged : List Text) (written : List (Text × Text)) : Type 0 where
    pub parts : List (List Text)
    pub few : length parts ≤ 3
    pub all : Perm (flatten parts) flagged
    pub sorted : IsSorted id_leb bug_key (flatten parts)
    pub written_texts :
        texts written ≡ map (λ part. join_lines (chunk_lines files dbms l part)) parts
    pub whole :
        flatten (map (chunk_lines files dbms l) parts) ≡ report_lines files dbms l (flatten parts)

  write_parts-IsReport :
      (flagged bugs : List Text)
      → Perm bugs flagged
      → IsSorted id_leb bug_key bugs
      → IsReport flagged (write_parts files dbms l 1 (chunks bugs)).written
  write_parts-IsReport flagged bugs p s =
      let c = chunks-AreParts bugs in
      record {
        parts = chunks bugs;
        few = c.three;
        all = rw c.whole p;
        sorted = rw c.whole s;
        written_texts = write_parts-texts 1 (chunks bugs);
        whole = report_lines-parts (chunks bugs);
      }

  report-IsReport :
      (flagged : List Text) (out : Output)
      → report files dbms l flagged ≡ some out
      → IsReport flagged out.written
  unfolding report
  report-IsReport [] out e = rw (sym (some_inj nothing_flagged out e)) (record {
    parts = [];
    few = omega arith;
    all = Perm.refl [];
    sorted = tt;
    written_texts = refl;
    whole = report_lines-parts [];
  })
  report-IsReport (x ∷ flagged) out e = sorted (sorted_bugs (x ∷ flagged)) refl e
    where
      sorted :
          (o : Option (List Text))
          → sorted_bugs (x ∷ flagged) ≡ o
          → elim o [ none ↦ none | some bugs ↦ some (write_parts files dbms l 1 (chunks bugs)) ]
            ≡ some out
          → IsReport (x ∷ flagged) out.written
      sorted none q f = absurd (none-some f)
      sorted (some bugs) q f =
          let (perm, order) = sorted_bugs-IsSorted (x ∷ flagged) bugs q in
          rw (sym (some_inj (write_parts files dbms l 1 (chunks bugs)) out f))
            (write_parts-IsReport (x ∷ flagged) bugs perm order)

  report_after-IsReport :
      (lines : List Text) (out : Output)
      → report_after files dbms lines l ≡ some out
      → IsReport (all_flagged l) out.written
  report_after-IsReport lines out e = reported (report files dbms l (all_flagged l)) refl e
    where
      reported :
          (o : Option Output)
          → report files dbms l (all_flagged l) ≡ o
          → elim o [ none ↦ none | some r ↦ some (after files dbms lines r) ] ≡ some out
          → IsReport (all_flagged l) out.written
      reported none q f = absurd (none-some f)
      reported (some r) q f =
          rw (sym (some_inj (after files dbms lines r) out f)) (report-IsReport (all_flagged l) r q)

analyse_texts-IsReport :
    (files : Files) (dbms : Text) (l : Loaded) (out : Output)
    → analyse_texts files dbms l ≡ some out
    → IsReport files dbms l (all_flagged l) out.written
unfolding analyse_texts
analyse_texts-IsReport files dbms l out e =
    printed (regions_lines sorted_ids (sets_of l) (combos_down 4)) e
  where
    printed :
        (o : Option (List Text))
        → elim o [
          | none ↦ none
          | some lines ↦ report_after files dbms (before_report files dbms l lines) l
        ]
          ≡ some out
        → IsReport files dbms l (all_flagged l) out.written
    printed none f = absurd (none-some f)
    printed (some lines) f =
        report_after-IsReport files dbms l (before_report files dbms l lines) out f

-- Whatever the result files hold, and whenever `main` returns: all names that were flagged are texts,
-- and there is a division of the flagged reports into at most three parts, which together hold each
-- of them once, sorted by their ids; the texts written are the lines of the parts, in their order,
-- and these lines together are the lines of the whole report.
pub analyse_bugs-IsReport :
    (files : Files) (dbms : Text) {out : Output}
    → analyse_bugs files dbms ≡ some out
    → (all_texts (names_of (load files dbms)) ≡ true)
      × IsReport files dbms (load files dbms) (all_flagged (load files dbms)) out.written
unfolding analyse_bugs
analyse_bugs-IsReport files dbms {out} e =
    elim (Bool-cases (all_texts (names_of (load files dbms)))) [
      | inl all_named ↦ (
        all_named,
        analyse_texts-IsReport files dbms (load files dbms) out (sym (rw all_named refl) ∙ e),
      )
      | inr others ↦ absurd (none-some (sym (rw others refl) ∙ e))
    ]
