-- ===== src/Scrape/Github.antt =====
-- `GitHubScraper`. An issue is what the response's JSON holds; headers and messages are left out.
pub mod Issues
pub mod Pages
use memsafedb.Prelude.{
  ℕ, zero, suc, ◌+◌, Bool, true, false, not, Option, none, some, List, [], ◌∷◌, ◌>>=◌, leb,
  if◌then◌else◌,
}
use memsafedb.Text.{Text, codes, contains, is_empty}
use memsafedb.BugStudy.Json.{
  Json, null, bool, num, str, array, object, Items, nil, item, Fields, get, get_or, truthy,
}
use memsafedb.BugStudy.Reports.Entries.{py_str}
use memsafedb.Scrape.Saving.{Moment, parse_iso, Config, in_date_range, Store, save_bug}

-- `bug_data`
pub record GithubBug : Type 0 where
  pub id : Json
  pub title : Json
  pub status : Json
  pub created_at : Json
  pub body : Json
  pub labels : Items
  pub author : Json
  pub url : Json
  pub raw : Fields

-- `v[key]` of a parsed value; `none` where it raises.
unfoldable pub value_at : Text → Json → Option Json
unfolding get
value_at key (object fs) = get key fs
value_at key v = none

-- `[l['name'] for l in labels]`
unfoldable pub label_names : Items → Option Items
unfolding value_at
label_names nil = some nil
label_names (item l ls) = do
  name ← value_at (codes "name") l
  names ← label_names ls
  some (item name names)

abbrev items_of : Json → Option Items
items_of (array vs) = some vs
items_of v = none

-- `issue['user']['login'] if issue['user'] else None`
abbrev author_of : Json → Option Json
author_of user = if truthy user then value_at (codes "login") user else some null

unfoldable pub bug_data : Fields → Option GithubBug
unfolding get label_names value_at truthy
bug_data issue = do
  id ← get (codes "number") issue
  title ← get (codes "title") issue
  status ← get (codes "state") issue
  created_at ← get (codes "created_at") issue
  body ← get (codes "body") issue
  label_list ← get (codes "labels") issue
  label_items ← items_of label_list
  labels ← label_names label_items
  user ← get (codes "user") issue
  author ← author_of user
  url ← get (codes "html_url") issue
  some (record {
    id = id;
    title = title;
    status = status;
    created_at = created_at;
    body = body;
    labels = labels;
    author = author;
    url = url;
    raw = issue;
  })

abbrev pub is_there : Option Json → Bool
is_there none = false
is_there (some v) = true

-- `'pull_request' in issue`
unfoldable pub is_pull_request : Fields → Bool
unfolding get
is_pull_request issue = is_there (get (codes "pull_request") issue)

-- The variables of `scrape`: `params['page']`, `params['since']`, and the two windows' times.
pub record Window : Type 0 where
  pub page : ℕ
  pub since : Option Text
  pub current_since : Option Text
  pub batch_last_updated : Option Json
  pub store : Store GithubBug

-- A response: its issues and whether it links to a next page, or an exception and its text.
pub data Response : Type 0 where
  page_of : List Fields → Bool → Response
  failed : Text → Response

-- What a request asks for.
pub record Request : Type 0 where
  pub page : ℕ
  pub since : Option Text

-- The outcome of the issues of a page: the loop goes on, the dry run's limit is reached, or a
-- value is missing or of the wrong type.
pub data Saved : Type 0 where
  all_saved : Window → Saved
  limit_reached : Window → Saved
  raised : Window → Saved

-- The outcome of a round: the next round, or the end, `crashed` where an exception leaves `scrape`.
pub data Round : Type 0 where
  again : Window → Round
  ended : Window → Round
  crashed : Window → Round

-- A run of `scrape`: the requests, whether it came to its end, and the variables.
pub record Github : Type 0 where
  pub requests : List Request
  pub finished : Bool
  pub window : Window

module _ (fromisoformat : Text → Option Moment) (strftime : ℕ → Text) (repr : Json → Text) where
  -- `self.parse_iso(v)` of what `get` returns; the outer `none` is the exception at a value that is
  -- neither false nor a text.
  unfoldable pub parse_iso_value : Option Json → Option (Option ℕ)
  unfolding parse_iso truthy
  parse_iso_value none = some none
  parse_iso_value (some (str s)) = some (parse_iso fromisoformat s)
  parse_iso_value (some v) = if truthy v then none else some none

  abbrev pub save_in : Config → Fields → Window → GithubBug → Saved
  save_in cfg issue w bug = elim (save_bug cfg (py_str repr bug.id) bug w.store) [
    | none ↦ limit_reached w
    | some s ↦ all_saved (record w { store = s })
  ]

  abbrev pub or_raised : Window → Option GithubBug → (GithubBug → Saved) → Saved
  or_raised w none f = raised w
  or_raised w (some bug) f = f bug

  abbrev pub save_dated : Config → Fields → Window → Option (Option ℕ) → Saved
  save_dated cfg issue w none = raised w
  save_dated cfg issue w (some created_at) =
      if in_date_range cfg created_at
      then or_raised w (bug_data issue) (save_in cfg issue w)
      else all_saved w

  -- `updated_at` is kept before the dates are tested.
  abbrev pub save_updated : Config → Fields → Window → Option Json → Saved
  save_updated cfg issue w none = raised w
  save_updated cfg issue w (some updated_at) =
      save_dated cfg issue (record w { batch_last_updated = some updated_at })
        (parse_iso_value (get (codes "created_at") issue))

  unfoldable pub save_issue : Config → Fields → Window → Saved
  unfolding is_pull_request get parse_iso_value in_date_range bug_data save_bug py_str
  save_issue cfg issue w =
      if is_pull_request issue
      then all_saved w
      else save_updated cfg issue w (get (codes "updated_at") issue)

  unfoldable pub save_issues : Config → List Fields → Window → Saved
  save_issues cfg [] w = all_saved w
  save_issues cfg (issue ∷ issues) w = elim (save_issue cfg issue w) [
    | all_saved w' ↦ save_issues cfg issues w'
    | limit_reached w' ↦ limit_reached w'
    | raised w' ↦ raised w'
  ]

  abbrev pub first_page : Window → Window
  first_page w = record w { page = 1 }

  -- One second behind the last update; `none` where its time is missing or no time.
  abbrev pub next_since : Json → Option Text
  next_since v = elim (parse_iso_value (some v)) [
    | none ↦ none
    | some none ↦ none
    | some (some dt) ↦ some (strftime (dt + 1))
  ]

  abbrev pub with_since : Window → Option Text → Option Window
  with_since w none = none
  with_since w (some t) = some (record w { current_since = some t })

  -- Back to the first page, and to a later window if an issue was seen; `none` where it raises.
  unfoldable pub reset_window : Window → Option Window
  unfolding parse_iso_value truthy
  reset_window w = elim w.batch_last_updated [
    | none ↦ some (first_page w)
    | some v ↦ if truthy v then with_since (first_page w) (next_since v) else some (first_page w)
  ]

  -- The handler: at a text with "422" the window is reset, and an exception there leaves `scrape`.
  unfoldable pub handle : Text → Window → Round
  unfolding contains reset_window
  handle message w =
      if contains (codes "422") message
      then elim (reset_window w) [ none ↦ crashed (first_page w) | some w' ↦ again w' ]
      else ended w

  -- Behind the issues of a page that has a next one. An exception of the reset goes to the handler,
  -- whose message does not hold "422".
  unfoldable pub next_page : Window → Round
  unfolding reset_window
  next_page w =
      let w' = record w { page = w.page + 1 } in
      if leb 90 w'.page
      then elim (reset_window w') [ none ↦ ended (first_page w') | some w'' ↦ again w'' ]
      else again w'

  abbrev pub after_page : Bool → Saved → Round
  after_page has_next (all_saved w) = if has_next then next_page w else ended w
  after_page has_next (limit_reached w) = ended w
  after_page has_next (raised w) = ended w

  abbrev pub round_of : Config → Window → Response → Round
  round_of cfg w (failed message) = handle message w
  round_of cfg w (page_of [] has_next) = ended w
  round_of cfg w (page_of (issue ∷ issues) has_next) =
      after_page has_next (save_issues cfg (issue ∷ issues) w)

  abbrev given : Option Text → Bool
  given none = false
  given (some t) = not (is_empty t)

  -- `if current_since: params['since'] = current_since`
  abbrev pub with_params : Window → Window
  with_params w = if given w.current_since then record w { since = w.current_since } else w

  abbrev pub request_of : Window → Request
  request_of w = record { page = w.page; since = w.since }

  -- A round of `while True`: what it asks for, and its outcome.
  unfoldable pub github_round : Config → (Request → Response) → Window → Round
  unfolding save_issues handle next_page
  github_round cfg server w = round_of cfg (with_params w) (server (request_of (with_params w)))

  abbrev start_since : Config → Option Text
  start_since cfg = elim cfg.start_date [ none ↦ none | some d ↦ some (strftime d) ]

  unfoldable pub start_window : Config → Window
  start_window cfg = record {
    page = 1;
    since = start_since cfg;
    current_since = start_since cfg;
    batch_last_updated = none;
    store = record { bugs_saved = 0; files = [] };
  }

  abbrev pub asked : Request → Github → Github
  asked r g = record g { requests = r ∷ g.requests }

  -- `scrape`, for `fuel` rounds; the server's answers may depend on the number of requests before.
  unfoldable pub github_rounds : ℕ → Config → (ℕ → Request → Response) → ℕ → Window → Github
  unfolding github_round
  github_rounds zero cfg server n w = record { requests = []; finished = false; window = w }
  github_rounds (suc fuel) cfg server n w = elim (github_round cfg (server n) w) [
    | again w' ↦ asked (request_of (with_params w)) (github_rounds fuel cfg server (suc n) w')
    | ended w' ↦ record { requests = request_of (with_params w) ∷ []; finished = true; window = w' }
    | crashed w' ↦ record {
      requests = request_of (with_params w) ∷ [];
      finished = true;
      window = w';
    }
  ]

  unfoldable pub scrape_github : ℕ → Config → (ℕ → Request → Response) → Github
  unfolding github_rounds start_window
  scrape_github fuel cfg server = github_rounds fuel cfg server 0 (start_window cfg)
