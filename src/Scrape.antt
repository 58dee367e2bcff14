-- ===== src/Scrape.antt =====
-- bug_study/scrape_bugs.py and scrape_cves.py. What the servers answer is a parameter, also by the
-- number of requests before, as a server may answer the same request in different ways.
pub mod Saving
pub mod Github
pub mod Jira
pub mod Csv
pub mod Mysql
pub mod Sqlite
pub mod Cves
