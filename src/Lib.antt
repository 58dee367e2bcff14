-- ===== src/Lib.antt =====
-- The benchmark and bug-study scripts of memsafedb: how benchmark outputs are read, how a sweep is
-- planned and carried out, how the classifier's votes are counted, and how instructions are counted.
--
-- The program. dbms/benchmark/run_benchmarks.py plans the config points of a sweep (build_runs),
-- splits them into a queue per host, and lets two threads work the queues off; each job runs a
-- benchmark and hands its output to a parser of dbms/benchmark/parsers.py, or, for LevelDB and Redis,
-- to dbms/benchmark/ycsb_runner.py, which generates a script, runs it for each variant and parses
-- what it prints. dbms/benchmark/count_new_instructions.py counts instructions in disassemblies.
-- bug_study/export_bug_results_to_csv.py and bug_study/export_cve_results_to_csv.py load three
-- repetitions of a classification, count votes, make yearly statistics, and print and write them.
-- bug_study/analyse_bug_results.py and bug_study/analyse_cve_results.py compare the repetitions with
-- the matches of keywords and write reports. What they read comes from bug_study/scrape_bugs.py and
-- bug_study/scrape_cves.py, which collect bug reports and CVEs. datastructures/execute_bench.py runs
-- the benchmarks of the data structures. plots/bug_classes_table.py and
-- plots/compiler_instruction_breakdown_table.py write tables of the results.
--
-- The files.
--   Prelude (Tests, Lists, Options, Gen): names of the libraries, Boolean tests and lists over native
--     numbers, chains of Options, and generators: a run of one is the rows that it yields, ended or cut short by a ValueError.
--   Text (Laws, Digits): str as a list of code points, with split, join, strip, int and str(n).
--   Regex (Defs, Runs): the part of Python's re that the scripts use, as a backtracking matcher.
--   Sorting (Order): sorted with a key, as an insertion sort.
--   Dict (Counters, Members): dicts, sets and Counters as lists in the order of insertion.
--   Rows: the rows that the parsers yield, and floats as a parameter (Floats).
--   Parsers: parsers.py, one module for each parser: its state is the variables of its loop, its step
--     the loop's body. Blocks, Duckdb.Lines, Duckdb.RoundTrip, Duckdb.Quarters, Redis.Order,
--     Sqlite.Rates hold proofs.
--   Sweep: run_benchmarks.py. Specs has its tables, Plan the functions build_*, Queues the filters
--     and the queues of main, Workers the function run_queue on two threads, Execute the part of
--     execute_run that runs a recipe. Plan.Fresh, Plan.Keys, Queues.Split
--     and Workers.Invariant hold proofs.
--   Ycsb: ycsb_runner.py. Scripts and RedisScripts have the script generators, Output the parsers,
--     Exec make_exec; Headers and Transcript hold proofs.
--   BugStudy: the two export scripts. Years, Loading, Votes and Yearly follow them from the files to
--     the yearly tables; Json has the values that json.loads returns. Votes.Unanimous,
--     Yearly.Subsets and Yearly.CveSubsets hold proofs. Export has the tables and the CSV files.
--     Reports follows the two analyse scripts: Reading the loops over the result files, Ids the sorts,
--     Regions the exclusive intersections, Entries and Parts the detailed reports, Bugs and Cves the
--     scripts as a whole, Cumulative the report over all databases. Their children hold proofs.
--   Scrape: the two scrapers. Saving has what all scrapers share, Github, Jira, Mysql and Sqlite the
--     four of scrape_bugs.py as loops over the answers of a server, Csv the reader of rows, Cves
--     scrape_cves.py. The other children hold proofs.
--   Structs: execute_bench.py. Confs has make_confs, Commands the commands and the numbers of
--     operations, Latency the reading of an output, Runs a run and the result file. Their children
--     hold proofs.
--   Instructions: count_new_instructions.py. Patterns has its tables and patterns, Counting the loop,
--     Targets the binaries and what is asked of the machine, Table the rows; Counting.Sums and
--     Table.Totals hold proofs.
--   Tables: the two scripts of plots that write LaTeX tables. BugClasses and BugClasses.Latex,
--     Breakdown; Meaning and Kept hold proofs.
--   Tests: runs on short inputs, over exact fractions in the place of floats, and the theorems at
--     concrete data.
--
-- Choices. Texts are taken as ASCII: the character classes list the ASCII members. Floats are a
-- parameter: float(s), which may raise, and the operations that the scripts use. json.loads is a
-- parameter that returns a value or fails. What a command prints, and whether it succeeds, is a
-- parameter or an input. The threads interleave between their critical sections, which the lock makes
-- atomic; a thread that dies of an exception takes no further step. Sets that the scripts walk in no
-- certain order are walked in the order of insertion.
--
-- The answers of a server are a parameter, also by the number of requests before, and so are what
-- BeautifulSoup finds in a page, and the dates that datetime reads and writes; a date is its number of
-- seconds. Where a script raises and nothing catches it, the model returns none.
--
-- The name of a report may be any value that json.loads returns and that can be hashed, as in the
-- scripts, which do not ask for a text; get_id and get_cve_id raise at other values, so the two
-- analyse scripts go on with texts only. The yearly loops are modelled over names that are texts. A
-- file can be opened to be written, but for the reports of analyse_cve_results.py, where a parameter
-- says which can.
--
-- Bounds. A repetition of the matcher has one round for each character of the text that is left and
-- one more, and a round that takes no character ends it; a search for all matches has one round for
-- each character and one more; str(n) has n + 1 rounds, each for one digit. The parts of a report are
-- cut with a round for each report, of which each part takes at least one. The loops of the scrapers
-- run for as many rounds as they are given, since a server may keep them running: the theorems say
-- for which servers how many rounds are enough, or hold for any number. All other functions recurse on
-- their data, so that every run of a loop ends.
--
-- Not modelled. The other scripts of plots, which draw with matplotlib and pandas; terminal output of
-- the sweep, log files, argument parsing, the search for an objdump, the start of remote processes and
-- the debug mode of execute_bench.py, and messages that hold the text of an exception.
pub mod Prelude
pub mod Text
pub mod Regex
pub mod Dict
pub mod Rows
pub mod Sorting
pub mod Parsers
pub mod BugStudy
pub mod Scrape
pub mod Structs
pub mod Tables
pub mod Sweep
pub mod Instructions
pub mod Ycsb
mod Tests
