-- ===== src/BugStudy/Reports/Entries.antt =====
-- The lines of the detailed reports. A file's content is `none` where it is not there or does not
-- parse. `repr` is Python's text of a number, a list or a dict.
use memsafedb.Prelude.{true, false, Option, none, some, List, [], ◌∷◌, ◌++◌, if◌then◌else◌}
use memsafedb.Text.{Text, codes, show, newline, text_eq}
use memsafedb.Dict.{lookup, member}
use memsafedb.BugStudy.Json.{
  Json, key_eq, null, bool, str, array, object, nil, item, Fields, end, get_or, truthy,
}
use memsafedb.BugStudy.Loading.{Rep, rep1, rep2, rep3, Reps, NamedResults}
use memsafedb.BugStudy.Reports.Ids.{get_id}
use memsafedb.BugStudy.Reports.Reading.{rep_number}

abbrev pub of_rep : Rep → Reps → Option Fields
of_rep rep1 r = r.first
of_rep rep2 r = r.second
of_rep rep3 r = r.third

-- `results[file][f"rep{rep}"]`, if it is there
unfoldable pub result_of : NamedResults → Text → Rep → Option Fields
unfolding lookup key_eq
result_of results file rep = elim (lookup key_eq (str file) results) [
  | none ↦ none
  | some r ↦ of_rep rep r
]

abbrev pub not_there : Json
not_there = str (codes "N/A")

abbrev double_rule : Text
double_rule =
    codes "================================================================================"

abbrev single_rule : Text
single_rule = codes "----------------------------------------"

-- The title and the body of a bug: both are read, or both stay as they are set first.
pub record Bug : Type 0 where
  pub title : Json
  pub body : Json

unfoldable pub bug_of : Option Json → Bug
unfolding get_or
bug_of (some (object fs)) = record {
  title = get_or (codes "title") not_there fs;
  body = get_or (codes "body") not_there fs;
}
bug_of _ = record { title = not_there; body = not_there }

-- What a CVE's file holds.
pub record Cve : Type 0 where
  pub cve_id : Json
  pub description : Json
  pub title : Json

abbrev no_cve : Cve
no_cve = record { cve_id = not_there; description = not_there; title = str [] }

-- `.get('value', 'N/A')` of the first description
abbrev described : Cve → Json → Cve
described c (array (item (object fs) more)) = record c {
  description = get_or (codes "value") not_there fs;
}
described c _ = c

abbrev with_cna : Cve → Json → Cve
with_cna c (object cna) =
    described (record c { title = get_or (codes "title") (str []) cna })
      (get_or (codes "descriptions") (array nil) cna)
with_cna c _ = c

abbrev with_containers : Cve → Json → Cve
with_containers c (object fs) = with_cna c (get_or (codes "cna") (object end) fs)
with_containers c _ = c

-- Each exception leaves what was read before it.
unfoldable pub cve_of : Option Json → Cve
unfolding get_or
cve_of (some (object fs)) = elim (get_or (codes "cveMetadata") (object end) fs) [
  | object meta ↦
      with_containers (record no_cve { cve_id = get_or (codes "cveId") not_there meta })
        (get_or (codes "containers") (object end) fs)
  | _ ↦ no_cve
]
cve_of _ = no_cve

module _ (repr : Json → Text) where
  -- `f"{v}"`
  unfoldable pub py_str : Json → Text
  py_str null = codes "None"
  py_str (bool true) = codes "True"
  py_str (bool false) = codes "False"
  py_str (str t) = t
  py_str v = repr v

  abbrev detail : Text → Text → Fields → Text
  detail label key r = codes "    " ++ (label ++ (codes ": " ++ py_str (get_or key not_there r)))

  abbrev result_lines : Option Fields → List Text
  result_lines none = codes "    (No result found)" ∷ []
  result_lines (some r) =
      detail (codes "Issue Type") (codes "issue_type") r
      ∷ detail (codes "Is Memory Safety") (codes "is_memory_safety") r
      ∷ detail (codes "Confidence") (codes "confidence") r
      ∷ detail (codes "Reason") (codes "reason") r
      ∷ []

  unfoldable pub rep_lines : NamedResults → Text → Rep → List Text
  unfolding result_of py_str get_or show
  rep_lines results file rep =
      (codes "  [Repetition " ++ (show (rep_number rep) ++ codes "]"))
      ∷ (result_lines (result_of results file rep) ++ ([] ∷ []))

  unfoldable pub classification_lines : NamedResults → Text → List Text
  unfolding rep_lines
  classification_lines results file =
      rep_lines results file rep1
      ++ (rep_lines results file rep2 ++ (rep_lines results file rep3 ++ ((newline ∷ []) ∷ [])))

  abbrev match_line : List Text → Text → Text
  match_line keyword_matches file =
      codes "Keyword Match: " ++ py_str (bool (member text_eq file keyword_matches))

  -- The lines of one bug.
  unfoldable pub bug_lines : List Text → NamedResults → Text → Bug → List Text
  unfolding classification_lines py_str member text_eq get_id
  bug_lines keyword_matches results bug_file b =
      double_rule
      ∷ (codes "BUG ID: " ++ get_id bug_file)
      ∷ (codes "File: " ++ bug_file)
      ∷ match_line keyword_matches bug_file
      ∷ single_rule
      ∷ (codes "TITLE: " ++ py_str b.title)
      ∷ single_rule
      ∷ (codes "DESCRIPTION:\n" ++ py_str b.body)
      ∷ single_rule
      ∷ codes "LLM CLASSIFICATIONS:"
      ∷ classification_lines results bug_file

  -- The lines of one CVE: a title only if there is one.
  unfoldable pub cve_lines : List Text → NamedResults → Text → Cve → List Text
  unfolding classification_lines py_str member text_eq truthy
  cve_lines keyword_matches results cve_file c =
      double_rule
      ∷ (codes "CVE ID: " ++ py_str c.cve_id)
      ∷ (codes "File: " ++ cve_file)
      ∷ match_line keyword_matches cve_file
      ∷ single_rule
      ∷ ((if truthy c.title then (codes "TITLE: " ++ py_str c.title) ∷ single_rule ∷ [] else [])
          ++ ((codes "DESCRIPTION:\n" ++ py_str c.description)
              ∷ single_rule
              ∷ codes "LLM CLASSIFICATIONS:"
              ∷ classification_lines results cve_file))
