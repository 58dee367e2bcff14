-- ===== src/Scrape/Sqlite.antt =====
-- `SQLiteScraper`, which `main` does not run, and `main` of scrape_bugs.py.
use memsafedb.Prelude.{ℕ, Option, none, some, List, [], ◌∷◌, ◌++◌, get_last?, ltb, if◌then◌else◌}
use memsafedb.Text.{Text, codes, split_on}
use memsafedb.Scrape.Saving.{Config, Store, empty_store, save_bug}

-- A row of the table: the number of its columns, and the link in the first, with its `href`.
pub record TicketRow : Type 0 where
  pub columns : ℕ
  pub link : Option (Option Text)

-- What is found in a ticket's page: the text of its content, and the page itself.
pub record Ticket : Type 0 where
  pub content : Option Text
  pub text : Text

pub record SqliteBug : Type 0 where
  pub id : Text
  pub url : Text
  pub description : Text
  pub raw_html : Text

abbrev or_text : Text → Option Text → Text
or_text t none = t
or_text t (some s) = s

unfoldable pub sqlite_data : Text → Ticket → SqliteBug
sqlite_data uuid t = record {
  id = uuid;
  url = codes "https://sqlite.org/src/info/" ++ uuid;
  description = or_text t.text t.content;
  raw_html = t.text;
}

module _ (fetch : Text → Option Ticket) (cfg : Config) where
  -- `none` where it returns `False`; any exception is passed over.
  unfoldable pub fetch_ticket : Text → Store SqliteBug → Option (Store SqliteBug)
  unfolding sqlite_data save_bug
  fetch_ticket uuid s = elim (fetch uuid) [
    | none ↦ some s
    | some t ↦ save_bug cfg uuid (sqlite_data uuid t) s
  ]

  -- `href.split('/')[-1]`
  abbrev uuid_of : Text → Text
  uuid_of href = or_text [] (get_last? (split_on b'/' href))

  -- The loop over the rows: a link without a `href` raises, and the handler ends it.
  unfoldable pub ticket_rows : List TicketRow → Store SqliteBug → Store SqliteBug
  unfolding fetch_ticket split_on
  ticket_rows [] s = s
  ticket_rows (r ∷ rows) s =
      if ltb 2 r.columns
      then elim r.link [
        | none ↦ ticket_rows rows s
        | some none ↦ s
        | some (some href) ↦ elim (fetch_ticket (uuid_of href) s) [
          | none ↦ s
          | some s' ↦ ticket_rows rows s'
        ]
      ]
      else ticket_rows rows s

  -- The argument is the rows of the report, if it could be fetched.
  unfoldable pub scrape_sqlite : Option (List TicketRow) → Store SqliteBug
  unfolding ticket_rows
  scrape_sqlite none = empty_store
  scrape_sqlite (some rows) = ticket_rows rows empty_store

-- The systems that `main` scrapes, with what their scrapers are made with.
pub data System : Type 0 where
  github : Text → Text → Text → System
  jira : Text → Text → Text → System
  mysql : Text → System

abbrev pub system_name : System → Text
system_name (github name owner repo) = name
system_name (jira name url key) = name
system_name (mysql name) = name

unfoldable pub systems : List System
systems =
    github (codes "DuckDB") (codes "duckdb") (codes "duckdb")
    ∷ github (codes "RocksDB") (codes "facebook") (codes "rocksdb")
    ∷ github (codes "Redis") (codes "redis") (codes "redis")
    ∷ github (codes "LevelDB") (codes "google") (codes "leveldb")
    ∷ jira (codes "MongoDB") (codes "https://jira.mongodb.org") (codes "SERVER")
    ∷ jira (codes "MariaDB") (codes "https://jira.mariadb.org") (codes "MDEV")
    ∷ mysql (codes "MySQL")
    ∷ github (codes "CockroachDB") (codes "cockroachdb") (codes "cockroach")
    ∷ github (codes "ClickHouse") (codes "ClickHouse") (codes "ClickHouse")
    ∷ []

-- The loop over the scrapers: what each prints at its end. One that raises (`some` message) does not
-- keep the others from running.
unfoldable pub run_systems : (System → Option Text) → List System → List Text
run_systems scrape [] = []
run_systems scrape (s ∷ more) =
    (elim (scrape s) [
      | none ↦ []
      | some e ↦ codes "\nScraper " ++ (system_name s ++ (codes " failed: " ++ e))
    ])
    ∷ run_systems scrape more
