-- ===== src/Scrape/Jira.antt =====
-- `JiraScraper`. An issue is what the response's JSON holds; messages are left out.
pub mod Paging
pub mod Complete
use memsafedb.Prelude.{
  ℕ, zero, suc, ◌+◌, Bool, true, false, Option, none, some, List, [], ◌∷◌, ◌++◌, ◌>>=◌, length, leb,
  if◌then◌else◌,
}
use memsafedb.Text.{Text, codes}
use memsafedb.BugStudy.Json.{
  Json, null, bool, num, str, array, object, Items, nil, item, Fields, end, get, get_or, truthy,
}
use memsafedb.BugStudy.Reports.Entries.{py_str}
use memsafedb.BugStudy.Reports.Regions.{join}
use memsafedb.Scrape.Saving.{Config, Store, empty_store, save_bug}

-- `bug_data`
pub record JiraBug : Type 0 where
  pub id : Json
  pub title : Json
  pub status : Json
  pub description : Text
  pub created : Json
  pub priority : Json
  pub raw : Fields

abbrev or_null : Option Json → Json
or_null none = null
or_null (some v) = v

-- A text, or what is false. A description and a comment's body are texts, as the API documents;
-- what else is there counts as an exception.
abbrev text_or_empty : Json → Option Text
text_or_empty (str t) = some t
text_or_empty v = if truthy v then none else some []

abbrev body_onto : Text → List Text → List Text
body_onto [] rest = rest
body_onto (c ∷ t) rest = (c ∷ t) ∷ rest

-- The bodies of the comments that have one; each has to be a text, as they are joined.
unfoldable pub bodies : Items → Option (List Text)
unfolding get
bodies nil = some []
bodies (item (object c) cs) = do
  body ← text_or_empty (or_null (get (codes "body") c))
  rest ← bodies cs
  some (body_onto body rest)
bodies (item v cs) = none

abbrev comment_items : Json → Option Items
comment_items (array vs) = some vs
comment_items (str []) = some nil
comment_items (object end) = some nil
comment_items v = none

-- `if 'comment' in fields and fields['comment']: …`
abbrev comments_of : Option Json → Option (List Text)
comments_of none = some []
comments_of (some (object fs)) =
    if truthy (object fs)
    then (comment_items (get_or (codes "comments") (array nil) fs) >>= bodies)
    else some []
comments_of (some v) = if truthy v then none else some []

abbrev full_text : Text → List Text → Text
full_text description [] = description
full_text description (c ∷ cs) =
    description ++ (codes "\n\n--- Comments ---\n\n" ++ join (codes "\n\n") (c ∷ cs))

-- `(fields.get(key) or {}).get('name')`
abbrev name_of : Option Json → Option Json
name_of none = some null
name_of (some (object fs)) = some (or_null (get (codes "name") fs))
name_of (some v) = if truthy v then none else some null

abbrev fields_of : Json → Option Fields
fields_of (object fs) = some fs
fields_of v = none

-- The data of an issue; `none` where it raises.
unfoldable pub jira_data : Fields → Option JiraBug
unfolding get get_or truthy bodies join
jira_data issue = do
  key ← get (codes "key") issue
  value ← get (codes "fields") issue
  fields ← fields_of value
  description ← text_or_empty (or_null (get (codes "description") fields))
  comments ← comments_of (get (codes "comment") fields)
  status ← name_of (get (codes "status") fields)
  priority ← name_of (get (codes "priority") fields)
  some (record {
    id = key;
    title = or_null (get (codes "summary") fields);
    status = status;
    description = full_text description comments;
    created = or_null (get (codes "created") fields);
    priority = priority;
    raw = issue;
  })

-- The issues of an answer and the total that it states, or an exception.
pub data Answer : Type 0 where
  answer : List Fields → ℕ → Answer
  failed : Answer

pub record JiraState : Type 0 where
  pub start_at : ℕ
  pub store : Store JiraBug

-- The end of a round: the next one, or the end of the loop, `limited` at the dry run's limit, and
-- `caught` behind the handler of exceptions.
pub data Turn : Type 0 where
  again : JiraState → Turn
  done : JiraState → Turn
  limited : JiraState → Turn
  caught : JiraState → Turn

-- The outcome of the issues of an answer.
pub data Kept : Type 0 where
  all_kept : Store JiraBug → Kept
  limit_reached : Store JiraBug → Kept
  raised : Store JiraBug → Kept

-- A run of `scrape`.
pub record Jira : Type 0 where
  pub finished : Bool
  pub state : JiraState

module _ (repr : Json → Text) (cfg : Config) where
  abbrev pub kept : Store JiraBug → Option (Store JiraBug) → Kept
  kept s none = limit_reached s
  kept s (some s') = all_kept s'

  abbrev pub keep_bug : Store JiraBug → Option JiraBug → Kept
  keep_bug s none = raised s
  keep_bug s (some bug) = kept s (save_bug cfg (py_str repr bug.id) bug s)

  unfoldable pub save_jira : List Fields → Store JiraBug → Kept
  unfolding jira_data save_bug py_str
  save_jira [] s = all_kept s
  save_jira (issue ∷ issues) s = elim (keep_bug s (jira_data issue)) [
    | all_kept s' ↦ save_jira issues s'
    | limit_reached s' ↦ limit_reached s'
    | raised s' ↦ raised s'
  ]

  abbrev pub after_issues : ℕ → ℕ → ℕ → Kept → Turn
  after_issues start_at count total (all_kept s) =
      if leb total (start_at + count)
      then done (record { start_at = start_at + count; store = s })
      else again (record { start_at = start_at + count; store = s })
  after_issues start_at count total (limit_reached s) =
      limited (record { start_at = start_at; store = s })
  after_issues start_at count total (raised s) = caught (record { start_at = start_at; store = s })

  abbrev pub turn_of : JiraState → Answer → Turn
  turn_of s failed = caught s
  turn_of s (answer [] total) = done s
  turn_of s (answer (issue ∷ issues) total) =
      after_issues s.start_at (length (issue ∷ issues)) total (save_jira (issue ∷ issues) s.store)

  -- A round of `while True`; the server is asked with `startAt`.
  unfoldable pub jira_round : (ℕ → Answer) → JiraState → Turn
  unfolding save_jira
  jira_round server s = turn_of s (server s.start_at)

  -- `scrape`, for `fuel` rounds; the server's answers may depend on the number of rounds before.
  unfoldable pub jira_rounds : ℕ → (ℕ → ℕ → Answer) → ℕ → JiraState → Jira
  unfolding jira_round
  jira_rounds zero server n s = record { finished = false; state = s }
  jira_rounds (suc fuel) server n s = elim (jira_round (server n) s) [
    | again s' ↦ jira_rounds fuel server (suc n) s'
    | done s' ↦ record { finished = true; state = s' }
    | limited s' ↦ record { finished = true; state = s' }
    | caught s' ↦ record { finished = true; state = s' }
  ]

  unfoldable pub scrape_jira : ℕ → (ℕ → ℕ → Answer) → Jira
  unfolding jira_rounds
  scrape_jira fuel server = jira_rounds fuel server 0 (record { start_at = 0; store = empty_store })

abbrev started : Option Text → List Text
started none = []
started (some day) = (codes "created >= \"" ++ (day ++ codes "\"")) ∷ []

abbrev ended : Option Text → List Text
ended none = []
ended (some day) = (codes "created <= \"" ++ (day ++ codes "\"")) ∷ []

-- The query; the dates are given as `strftime("%Y-%m-%d")` writes them.
unfoldable pub jql : Text → Option Text → Option Text → Text
unfolding join
jql project_key start_date end_date =
    join (codes " AND ")
      ((codes "project=" ++ project_key) ∷ (started start_date ++ ended end_date))
    ++ codes " ORDER BY created DESC"
