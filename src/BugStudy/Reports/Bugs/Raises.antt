-- ===== src/BugStudy/Reports/Bugs/Raises.antt =====
-- `main` raises where the ids of the flagged reports mix numbers and words, and nowhere else.
use mathlib.Core.List.{map-map}
use memsafedb.Prelude.{
  ◌≡◌, refl, sym, ap, ◌∙◌, ◌↔◌, Bool, true, false, ◌&&◌, ◌||◌, Option, none, some, List, [], ◌∷◌,
  map, arith, Bool-cases, inl, inr,
}
use memsafedb.Text.{Text, text_eq}
use memsafedb.Dict.{member}
use memsafedb.BugStudy.Reports.Ids.{
  get_id, key_of, comparable, sorted_ids, sorted_bugs, sorted_by_id,
}
use memsafedb.BugStudy.Reports.Ids.Comparable.{IsWithin, comparable-within}
use memsafedb.BugStudy.Reports.Regions.{
  Key, keywords, llm_rep1, llm_rep2, llm_rep3, exclusive_intersection, intersection_line,
  region_lines, regions_lines, combos_down,
}
use memsafedb.BugStudy.Reports.Regions.Exclusive.{
  in_any, where_in, in_region, member-exclusive_intersection, member-union,
}
use memsafedb.BugStudy.Reports.Bugs.{
  Files, Output, Loaded, sets_of, all_flagged, load, report, report_after, before_report,
  analyse_bugs, analyse_texts, all_texts, names_of,
}
use memsafedb.BugStudy.Reports.Bugs.Outcome.{bug_key}

-- A computation that returns.
abbrev Returns {ℓ} : {A : Type ℓ} → Option A → Type ℓ
Returns {A = A} o = (a : A) × (o ≡ some a)

Returns-bind {ℓ κ} :
    {A : Type ℓ} {B : Type κ} (o : Option A) (f : A → Option B)
    → Returns o
    → ((a : A) → Returns (f a))
    → Returns (elim o [ none ↦ none | some a ↦ f a ])
Returns-bind none f (a, e) g = cc
Returns-bind (some a) f r g = g a

none-bind {ℓ κ} :
    {A : Type ℓ} {B : Type κ} (o : Option A) (f : A → Option B)
    → o ≡ none
    → elim o [ none ↦ none | some a ↦ f a ] ≡ none
none-bind none f e = refl
none-bind (some a) f e = cc

member_flagged :
    (l : Loaded) (x : Text)
    → member text_eq x (all_flagged l) ≡ (
        member text_eq x (sets_of l keywords)
        || in_any x (sets_of l llm_rep1 ∷ sets_of l llm_rep2 ∷ sets_of l llm_rep3 ∷ []))
unfolding all_flagged
member_flagged l x =
    member-union x (sets_of l keywords)
      (sets_of l llm_rep1 ∷ sets_of l llm_rep2 ∷ sets_of l llm_rep3 ∷ [])

every-flagged :
    (l : Loaded) (x : Text) (k : Key)
    → where_in (sets_of l) x k ≡ true
    → member text_eq x (all_flagged l) ≡ true
every-flagged l x keywords h = member_flagged l x ∙ ground arith
every-flagged l x llm_rep1 h = member_flagged l x ∙ ground arith
every-flagged l x llm_rep2 h = member_flagged l x ∙ ground arith
every-flagged l x llm_rep3 h = member_flagged l x ∙ ground arith

region-IsWithin :
    (l : Loaded) (combo : List Key)
    → IsWithin (exclusive_intersection (sets_of l) combo) (all_flagged l)
region-IsWithin l combo x m =
    placed combo (sym (member-exclusive_intersection (sets_of l) x combo) ∙ m)
  where
    placed :
        (combo : List Key)
        → in_region (where_in (sets_of l) x) combo ≡ true
        → member text_eq x (all_flagged l) ≡ true
    placed [] h = cc
    placed (k ∷ ks) h = every-flagged l x k (ground arith)

sorted_ids-Returns : (s : List Text) → comparable (map bug_key s) ≡ true → Returns (sorted_ids s)
unfolding sorted_ids sorted_by_id
sorted_ids-Returns s c =
    let e : comparable (map key_of (map get_id s)) ≡ true =
      ap comparable (map-map key_of get_id s) ∙ c in
    rw e (_, refl)

region_lines-Returns :
    (combo : List Key) (s : List Text)
    → comparable (map bug_key s) ≡ true
    → Returns (region_lines sorted_ids combo s)
unfolding intersection_line
region_lines-Returns combo [] c = (_, refl)
region_lines-Returns combo (x ∷ s) c =
    Returns-bind (intersection_line sorted_ids (x ∷ s)) _
      (Returns-bind (sorted_ids (x ∷ s)) _ (sorted_ids-Returns (x ∷ s) c) (λ ids. (_, refl)))
      (λ line. (_, refl))

regions_lines-Returns :
    (l : Loaded) (combos : List (List Key))
    → comparable (map bug_key (all_flagged l)) ≡ true
    → Returns (regions_lines sorted_ids (sets_of l) combos)
unfolding regions_lines
regions_lines-Returns l [] c = (_, refl)
regions_lines-Returns l (combo ∷ more) c =
    Returns-bind (region_lines sorted_ids combo (exclusive_intersection (sets_of l) combo)) _
      (region_lines-Returns combo (exclusive_intersection (sets_of l) combo)
        (comparable-within bug_key _ (all_flagged l) (region-IsWithin l combo) c))
      (λ lines.
        Returns-bind (regions_lines sorted_ids (sets_of l) more) _ (regions_lines-Returns l more c)
          (λ rest. (_, refl)))

sorted_bugs-Returns : (s : List Text) → comparable (map bug_key s) ≡ true → Returns (sorted_bugs s)
unfolding sorted_bugs sorted_by_id
sorted_bugs-Returns s c = rw c (_, refl)

sorted_bugs_raises : (s : List Text) → comparable (map bug_key s) ≡ false → sorted_bugs s ≡ none
unfolding sorted_bugs sorted_by_id
sorted_bugs_raises s c = rw c refl

module _ (files : Files) (dbms : Text) where
  report-Returns :
      (l : Loaded) (flagged : List Text)
      → comparable (map bug_key flagged) ≡ true
      → Returns (report files dbms l flagged)
  unfolding report
  report-Returns l [] c = (_, refl)
  report-Returns l (x ∷ flagged) c =
      Returns-bind (sorted_bugs (x ∷ flagged)) _ (sorted_bugs-Returns (x ∷ flagged) c)
        (λ bugs. (_, refl))

  analyse_texts-Returns :
      (l : Loaded)
      → comparable (map bug_key (all_flagged l)) ≡ true
      → Returns (analyse_texts files dbms l)
  unfolding analyse_texts
  analyse_texts-Returns l c =
      Returns-bind (regions_lines sorted_ids (sets_of l) (combos_down 4)) _
        (regions_lines-Returns l (combos_down 4) c)
        (λ lines.
          Returns-bind (report files dbms l (all_flagged l)) _ (report-Returns l (all_flagged l) c)
            (λ out. (_, refl)))

  -- Two kinds of ids, so that the sort of all flagged reports raises.
  report_raises :
      (l : Loaded) (flagged : List Text)
      → comparable (map bug_key flagged) ≡ false
      → report files dbms l flagged ≡ none
  unfolding report comparable
  report_raises l [] c = cc
  report_raises l (x ∷ flagged) c =
      none-bind (sorted_bugs (x ∷ flagged)) _ (sorted_bugs_raises (x ∷ flagged) c)

  analyse_texts_raises :
      (l : Loaded)
      → comparable (map bug_key (all_flagged l)) ≡ false
      → analyse_texts files dbms l ≡ none
  unfolding analyse_texts
  analyse_texts_raises l c = printed (regions_lines sorted_ids (sets_of l) (combos_down 4))
    where
      raises : (o : Option (List Text)) → Option Output
      raises o = elim o [
        | none ↦ none
        | some lines ↦ report_after files dbms (before_report files dbms l lines) l
      ]

      printed : (o : Option (List Text)) → raises o ≡ none
      printed none = refl
      printed (some lines) =
          none-bind (report files dbms l (all_flagged l)) _ (report_raises l (all_flagged l) c)

  -- Can `main` sort what was flagged?
  abbrev pub sortable : Loaded → Bool
  sortable l = all_texts (names_of l) && comparable (map bug_key (all_flagged l))

  analyse_bugs-Returns : sortable (load files dbms) ≡ true → Returns (analyse_bugs files dbms)
  unfolding analyse_bugs
  analyse_bugs-Returns c =
      let texts : all_texts (names_of (load files dbms)) ≡ true = ground arith in
      rw texts (analyse_texts-Returns (load files dbms) (ground arith))

  analyse_bugs_raises : sortable (load files dbms) ≡ false → analyse_bugs files dbms ≡ none
  unfolding analyse_bugs
  analyse_bugs_raises c = elim (Bool-cases (all_texts (names_of (load files dbms)))) [
    | inl texts ↦ rw texts (analyse_texts_raises (load files dbms) (ground arith))
    | inr others ↦ rw others refl
  ]

-- Whatever the files hold, where the parts of the report can be written: `main` of
-- analyse_bug_results.py raises exactly if a name that was flagged is no text, or the ids of the
-- flagged reports mix numbers and other texts. In all other cases it returns, the sorts of the single
-- regions included.
pub analyse_bugs-none_iff :
    (files : Files) (dbms : Text)
    → (analyse_bugs files dbms ≡ none) ↔ (
        (all_texts (names_of (load files dbms))
          && comparable (map bug_key (all_flagged (load files dbms))))
        ≡ false)
analyse_bugs-none_iff files dbms = (
  λ e. elim (Bool-cases (sortable files dbms (load files dbms))) [
    | inl fits ↦ let (out, f) = analyse_bugs-Returns files dbms fits in cc
    | inr raises ↦ raises
  ],
  analyse_bugs_raises files dbms,
)
