-- ===== src/Scrape/Mysql.antt =====
-- `MySQLScraper`. A bug's page is what BeautifulSoup finds in it; what `strptime` reads from a text
-- is a parameter. Messages are left out.
pub mod Ending
use memsafedb.Prelude.{
  ℕ, zero, suc, ◌+◌, ◌-◌, ◌*◌, ◌/◌, Bool, true, false, Option, none, some, List, [], ◌∷◌, ◌++◌,
  drop, length, ltb, if◌then◌else◌,
}
use memsafedb.Text.{Text, codes, strip, is_empty, text_eq}
use memsafedb.BugStudy.Reports.Regions.{join}
use memsafedb.Scrape.Saving.{Config, Store, empty_store, save_bug}
use memsafedb.Scrape.Csv.{csv_row, splitlines}

-- What is found in a bug's page: the stripped text of the `td` in the row `title`, the text of the
-- tag `title`, the comments' texts, the status behind its heading, and the content's HTML.
pub record BugPage : Type 0 where
  pub title_td : Option Text
  pub title_tag : Option Text
  pub comments : List Text
  pub status_td : Option Text
  pub content : Text

pub record MysqlBug : Type 0 where
  pub id : Text
  pub title : Text
  pub status : Text
  pub url : Text
  pub description : Text
  pub html_content : Text
  pub created_at : Text

abbrev or_text : Text → Option Text → Text
or_text t none = t
or_text t (some s) = s

-- The tag's text replaces a title that is "Unknown", also one that the page gives.
unfoldable pub title_of : BugPage → Text
unfolding text_eq
title_of p =
    let title = or_text (codes "Unknown") p.title_td in
    if text_eq title (codes "Unknown") then or_text title p.title_tag else title

unfoldable pub mysql_data : Text → Text → BugPage → MysqlBug
unfolding title_of join
mysql_data bug_id created_at p = record {
  id = bug_id;
  title = title_of p;
  status = or_text (codes "Unknown") p.status_td;
  url = codes "https://bugs.mysql.com/bug.php?id=" ++ bug_id;
  description = join (codes "\n\n") p.comments;
  html_content = p.content;
  created_at = created_at;
}

-- The answer to a request for the index: its text, or an exception.
pub data Index : Type 0 where
  index : Text → Index
  failed : Index

-- What the date of a row decides: the row is passed over, the scrape ends, or the bug is fetched.
pub data Verdict : Type 0 where
  skip stop fetch_it : Verdict

-- What the rows of an index leave: all were gone through, or the scrape is over.
pub data Rows : Type 0 where
  through : Store MysqlBug → Rows
  over : Store MysqlBug → Rows

pub record Mysql : Type 0 where
  pub finished : Bool
  pub begin : ℕ
  pub store : Store MysqlBug

-- `bug_age`: the days from the start date to now and one, or ten years. A start date
-- that lies in the future counts as now.
unfoldable pub bug_age : ℕ → Config → ℕ
bug_age now cfg = elim cfg.start_date [ none ↦ 365 * 10 | some start ↦ (now - start) / 86400 + 1 ]

module _ (strptime : Text → Option ℕ) (fetch : Text → Option BugPage) (cfg : Config) where
  -- `fetch_bug_details`: `none` where it returns `False`. A page that cannot be fetched is passed
  -- over.
  unfoldable pub fetch_bug_details : Text → Text → Store MysqlBug → Option (Store MysqlBug)
  unfolding mysql_data save_bug
  fetch_bug_details bug_id created_at s = elim (fetch bug_id) [
    | none ↦ some s
    | some p ↦ save_bug cfg bug_id (mysql_data bug_id created_at p) s
  ]

  abbrev pub before_start : ℕ → Bool
  before_start dt = elim cfg.start_date [ none ↦ false | some start ↦ ltb dt start ]

  abbrev pub after_end : ℕ → Bool
  after_end dt = elim cfg.end_date [ none ↦ false | some last ↦ ltb last dt ]

  abbrev pub dated : Option ℕ → Verdict
  dated none = fetch_it
  dated (some dt) = if before_start dt then skip else if after_end dt then stop else fetch_it

  -- A row without a date that can be read is fetched.
  unfoldable pub verdict : Text → Verdict
  verdict entered = if is_empty entered then fetch_it else dated (strptime entered)

  abbrev first_part : List Text → Text
  first_part [] = []
  first_part (p ∷ ps) = strip p

  abbrev second_part : List Text → Text
  second_part (p ∷ q ∷ ps) = strip q
  second_part ps = []

  -- What a fetched row leaves: the scrape is over at the limit of a dry run.
  abbrev pub fetched : Store MysqlBug → Option (Store MysqlBug) → Rows
  fetched s none = over s
  fetched s (some s') = through s'

  abbrev pub row_step : Verdict → Text → Text → Store MysqlBug → Rows
  row_step skip bug_id entered s = through s
  row_step stop bug_id entered s = over s
  row_step fetch_it bug_id entered s = fetched s (fetch_bug_details bug_id entered s)

  unfoldable pub index_row : Text → Store MysqlBug → Rows
  unfolding strip csv_row verdict fetch_bug_details
  index_row row s =
      let parts = csv_row row in
      let entered = second_part parts in
      if is_empty (strip row)
      then through s
      else row_step (verdict entered) (first_part parts) entered s

  unfoldable pub index_rows : List Text → Store MysqlBug → Rows
  unfolding index_row
  index_rows [] s = through s
  index_rows (row ∷ rows) s = elim (index_row row s) [
    | through s' ↦ index_rows rows s'
    | over s' ↦ over s'
  ]

  -- The rows of an index, without its header.
  abbrev pub rows_of : Index → List Text
  rows_of failed = []
  rows_of (index text) = drop 1 (splitlines text)

  -- `scrape`, for `fuel` rounds. The server is asked with `begin`, which advances by the rows that it
  -- returned, blank ones included; an exception ends the loop.
  unfoldable pub mysql_rounds : ℕ → (ℕ → ℕ → Index) → ℕ → ℕ → Store MysqlBug → Mysql
  unfolding index_rows splitlines
  mysql_rounds zero server n begin s = record { finished = false; begin = begin; store = s }
  mysql_rounds (suc fuel) server n begin s = elim (rows_of (server n begin)) [
    | [] ↦ record { finished = true; begin = begin; store = s }
    | row ∷ rows ↦ elim (index_rows (row ∷ rows) s) [
      | over s' ↦ record { finished = true; begin = begin; store = s' }
      | through s' ↦ mysql_rounds fuel server (suc n) (begin + length (row ∷ rows)) s'
    ]
  ]

  unfoldable pub scrape_mysql : ℕ → (ℕ → ℕ → Index) → Mysql
  unfolding mysql_rounds
  scrape_mysql fuel server = mysql_rounds fuel server 0 0 empty_store
