-- ===== src/BugStudy/Votes.antt =====
-- The loop `for rep_num in [1, 2, 3]` of `analyze_dbms_by_year`, in both export scripts: what the
-- three classifications of a report say together.
pub mod Unanimous
use memsafedb.Prelude.{
  ◌≡◌, refl, ℕ, zero, suc, Bool, true, false, not, ◌&&◌, Option, none, some, List, [], ◌∷◌, ◌==◌,
  ltb, if◌then◌else◌,
}
use memsafedb.Text.{codes}
use memsafedb.BugStudy.Json.{Json, bool, str, Fields, truthy, hashable, key_eq, get_or}
use memsafedb.Dict.{Counter, bump}
use memsafedb.BugStudy.Loading.{Reps}

-- What the loop reads of one classification.
pub record Verdict : Type 0 where
  pub is_bug : Bool
  pub is_memsafe : Bool
  pub implication : Json

unfoldable pub verdict : Fields → Verdict
verdict c = record {
  is_bug = key_eq (get_or (codes "issue_type") (str []) c) (str (codes "bug"));
  is_memsafe = truthy (get_or (codes "is_memory_safety") (bool false) c);
  implication = get_or (codes "implication") (str (codes "none")) c;
}

pub record Tally : Type 0 where
  pub bug_count : ℕ
  pub memsafe_count : ℕ
  pub implication_votes : Counter Json

abbrev pub no_votes : Tally
no_votes = record { bug_count = 0; memsafe_count = 0; implication_votes = [] }

-- `if implication: implication_votes[implication] += 1`; `none` for the `TypeError` of a value that
-- cannot be hashed.
unfoldable pub vote_for : Json → Counter Json → Option (Counter Json)
vote_for v votes =
    if not (truthy v) then some votes else if hashable v then some (bump key_eq v votes) else none

unfoldable pub count_verdict : Verdict → Tally → Option Tally
count_verdict v t = elim (vote_for v.implication t.implication_votes) [
  | none ↦ none
  | some votes ↦ some (record {
    bug_count = if v.is_bug then suc t.bug_count else t.bug_count;
    memsafe_count =
        if v.is_bug
        then (if v.is_memsafe then suc t.memsafe_count else t.memsafe_count)
        else t.memsafe_count;
    implication_votes = votes;
  })
]

-- A repetition that has no classification counts nothing.
unfoldable pub count_rep : Option Fields → Option Tally → Option Tally
count_rep none t = t
count_rep (some c) none = none
count_rep (some c) (some t) = count_verdict (verdict c) t

unfoldable pub tally : Reps → Option Tally
unfolding count_rep count_verdict verdict key_eq truthy get_or vote_for bump
tally r = count_rep r.third (count_rep r.second (count_rep r.first (some no_votes)))

-- `most_common(1)`: the first of the entries with the greatest count
unfoldable pub best_from : Json × ℕ → Counter Json → Json × ℕ
best_from best [] = best
best_from (v, n) ((w, m) ∷ c) = best_from (if ltb n m then (w, m) else (v, n)) c

unfoldable pub most_common : Counter Json → Option (Json × ℕ)
most_common [] = none
most_common (e ∷ c) = some (best_from e c)

abbrev when_three : Option (Json × ℕ) → Option Json
when_three none = none
when_three (some (v, n)) = if n == 3 then some v else none

-- `if top_count == 3: …[top_implication]`
unfoldable pub unanimous_implication : Counter Json → Option Json
unfolding most_common best_from
unanimous_implication votes = when_three (most_common votes)

pub tally_lem :
    (r : Reps)
    → tally r ≡ count_rep r.third (count_rep r.second (count_rep r.first (some no_votes)))
unfolding tally
tally_lem r = refl
