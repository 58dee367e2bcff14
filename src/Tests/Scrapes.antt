-- ===== src/Tests/Scrapes.antt =====
-- The scrapers at servers with a few issues.
use memsafedb.Prelude.{
  ℕ, ◌≡◌, refl, ◌≤◌, true, false, Option, none, some, List, [], ◌∷◌, arith, if◌then◌else◌, leb,
  Bool-cases, inl, inr,
}
use memsafedb.Text.{Text, text_eq, codes, show, is_digit}
use memsafedb.BugStudy.Json.{Json, null, str, array, object, nil, item, Fields, end, field}
use memsafedb.Scrape.Saving.{Moment, Config}
use memsafedb.Scrape.Saving.Limits.{IsStore}
use memsafedb.Scrape.Github.{save_issue, Request, Response, page_of, scrape_github}
use memsafedb.Scrape.Github.Pages.{IsRun, scrape_github-IsRun}
use memsafedb.Scrape.Jira.{JiraBug, jira_data, Answer, answer, scrape_jira}
use memsafedb.Scrape.Jira.Paging.{scrape_jira-finished}
use memsafedb.Scrape.Jira.Complete.{paged, bug_files, scrape_jira_complete}
use memsafedb.Scrape.Csv.{csv_row, splitlines}
use memsafedb.Scrape.Mysql.{BugPage, Index, index, rows_of, scrape_mysql}
use memsafedb.Scrape.Mysql.Ending.{IsDated, scrape_mysql-ends}
use memsafedb.Scrape.Cves.Years.{recent-year}
use memsafedb.Scrape.Cves.{CveFile, recent, save_cve_list, search_cves_for_database}

-- Times are written as digits, and any other value prints as nothing.
abbrev read_time : Text → Option Moment
read_time s = some (record { seconds = 5; offset = none })

abbrev no_text : Json → Text
no_text v = []

abbrev real_run : Config
real_run = record { dry_run = false; start_date = some 3; end_date = none }

abbrev dry_run : Config
dry_run = record { dry_run = true; start_date = some 3; end_date = none }

abbrev github_issue : Fields
github_issue = field (codes "number") (str (codes "7")) (
    field (codes "title") (str (codes "crash")) (
      field (codes "state") (str (codes "closed")) (
        field (codes "updated_at") (str (codes "t")) (
          field (codes "created_at") (str (codes "t")) (
            field (codes "body") null (
              field (codes "labels") (array nil)
                (field (codes "user") null (field (codes "html_url") (str (codes "u")) end))))))))

abbrev github_server : ℕ → Request → Response
github_server n r = page_of (github_issue ∷ []) (leb r.page 1)

scrape_github-IsRun_example :
    IsRun read_time show no_text dry_run
      (scrape_github read_time show no_text 3 dry_run github_server)
scrape_github-IsRun_example = scrape_github-IsRun read_time show no_text 3 dry_run github_server

github_two :
    (scrape_github read_time show no_text 3 dry_run github_server).window.store.bugs_saved ≡ 2
unfolding scrape_github save_issue show
github_two = refl

abbrev jira_issue : Text → Fields
jira_issue key = field (codes "key") (str key) (field (codes "fields") (object end) end)

abbrev jira_issues : List Fields
jira_issues = jira_issue (codes "SERVER-1") ∷ jira_issue (codes "SERVER-2") ∷ []

data_of : (key : Text) → (bug : JiraBug) × (jira_data (jira_issue key) ≡ some bug)
unfolding jira_data
data_of key = (_, refl)

scrape_jira_complete_example :
    ((scrape_jira no_text real_run 3 (paged jira_issues)).finished ≡ true)
    × ((scrape_jira no_text real_run 3 (paged jira_issues)).state.store
        ≡ record { bugs_saved = 2; files = bug_files no_text real_run jira_issues })
scrape_jira_complete_example =
    scrape_jira_complete no_text real_run jira_issues refl
      (data_of (codes "SERVER-1"), (data_of (codes "SERVER-2"), tt))

-- A server that always has one more issue than it was asked for, up to five.
abbrev short_pages : ℕ → ℕ → Answer
short_pages n at = answer (jira_issue (codes "SERVER-9") ∷ []) 5

scrape_jira-finished_example : (scrape_jira no_text real_run 6 short_pages).finished ≡ true
scrape_jira-finished_example =
    scrape_jira-finished no_text real_run 5 short_pages (λ n at. omega arith)

abbrev bug_page : Text → Option BugPage
bug_page bug_id = some (record {
  title_td = none;
  title_tag = some (codes "Bug");
  comments = [];
  status_td = none;
  content = [];
})

abbrev mysql_server : ℕ → ℕ → Index
mysql_server n begin =
    if leb 3 begin then index (codes "ID,Entered") else index (codes "ID,Entered\n1,x\n2,y\n3,z")

-- The first bug's date is in the range, the second one's is before it, and the third has none.
abbrev read_day : Text → Option ℕ
read_day s =
    if text_eq s (codes "x") then some 5 else if text_eq s (codes "y") then some 2 else none

no_rows_left :
    (n begin : ℕ) → 3 ≤ begin → rows_of read_day bug_page dry_run (mysql_server n begin) ≡ []
unfolding splitlines
no_rows_left n begin h = elim (Bool-cases (leb 3 begin)) [
  | inl behind ↦ rw behind refl
  | inr ahead ↦ absurd (ground arith)
]

scrape_mysql-ends_example :
    ((scrape_mysql read_day bug_page dry_run 4 mysql_server).finished ≡ true)
    × IsStore dry_run
        (IsDated read_day bug_page dry_run)
        (scrape_mysql read_day bug_page dry_run 4 mysql_server).store
scrape_mysql-ends_example = scrape_mysql-ends read_day bug_page dry_run 3 mysql_server no_rows_left

mysql_two : (scrape_mysql read_day bug_page dry_run 4 mysql_server).store.bugs_saved ≡ 2
unfolding scrape_mysql
mysql_two = refl

-- The reader of CSV rows.
quoted_row : csv_row (codes "1,\"a, \"\"b\"\"\",c") ≡ codes "1" ∷ codes "a, \"b\"" ∷ codes "c" ∷ []
unfolding csv_row
quoted_row = refl

abbrev cve_files : List CveFile
cve_files =
    record {
      name = codes "CVE-2016-1.json";
      path = codes "cves/2016/CVE-2016-1.json";
      content = some (
          object (
            field (codes "containers")
              (object (
                field (codes "cna")
                  (object (
                    field (codes "affected")
                      (array (
                        item (object (field (codes "product") (str (codes "MySQL Server")) end))
                          nil))
                      end))
                  end))
              end));
    }
    ∷ record { name = codes "CVE-2014-2.json"; path = codes "x"; content = none }
    ∷ []

recent-year_example : recent (codes "CVE-2014-0001.json") ≡ false
unfolding show
recent-year_example = recent-year 2014 (codes "0001.json")

mysql_listed :
    save_cve_list no_text
      (search_cves_for_database no_text (codes "mysql") (some cve_files))
      (codes "mysql")
    ≡ (codes "mysql_cves", codes "./cves/2016/CVE-2016-1.json\n")
unfolding save_cve_list search_cves_for_database is_digit
mysql_listed = refl
