-- ===== src/Scrape/Mysql/Ending.antt =====
-- What the MySQL scraper has saved at any time, and that it ends behind the last row.
use memsafedb.Prelude.{
  ℕ, zero, suc, ◌+◌, ◌-◌, ◌≤◌, ◌<◌, ◌≡◌, refl, sym, ◌∙◌, ltb, true, false, Option, none, some, List,
  [], ◌∷◌, length, leb, leb→le, Bool-cases, inl, inr, arith,
}
use memsafedb.Text.{Text, strip, is_empty}
use memsafedb.Scrape.Saving.{Config, Store, save_bug}
use memsafedb.Scrape.Saving.Limits.{IsStore, empty_store-IsStore, save_bug-IsStore}
use memsafedb.Scrape.Mysql.{
  BugPage, MysqlBug, mysql_data, Index, Rows, through, over, Mysql, Verdict, skip, stop, fetch_it,
  before_start, after_end, dated, fetch_bug_details, verdict, fetched, row_step, index_row,
  index_rows, rows_of, mysql_rounds, scrape_mysql,
}

module _ (strptime : Text → Option ℕ) (fetch : Text → Option BugPage) (cfg : Config) where
  abbrev NoSooner : Option ℕ → ℕ → Type 0
  NoSooner none dt = Unit
  NoSooner (some start) dt = start ≤ dt

  abbrev NoLater : Option ℕ → ℕ → Type 0
  NoLater none dt = Unit
  NoLater (some last) dt = dt ≤ last

  -- A text without a date that can be read, or with one in the range.
  pub data IsDate (entered : Text) : Type 0 where
    no_text : is_empty entered ≡ true → IsDate entered
    no_date : strptime entered ≡ none → IsDate entered
    in_range :
        (dt : ℕ)
        → strptime entered ≡ some dt
        → NoSooner cfg.start_date dt
        → NoLater cfg.end_date dt
        → IsDate entered

  abbrev pub IsDated : MysqlBug → Type 0
  IsDated b = IsDate b.created_at

  before_start-NoSooner :
      (dt : ℕ) → before_start strptime fetch cfg dt ≡ false → NoSooner cfg.start_date dt
  before_start-NoSooner dt h = by_start cfg.start_date h
    where
      by_start :
          (o : Option ℕ)
          → elim o [ none ↦ false | some start ↦ ltb dt start ] ≡ false
          → NoSooner o dt
      by_start none f = tt
      by_start (some start) f = ground arith

  after_end-NoLater : (dt : ℕ) → after_end strptime fetch cfg dt ≡ false → NoLater cfg.end_date dt
  after_end-NoLater dt h = by_end cfg.end_date h
    where
      by_end :
          (o : Option ℕ) → elim o [ none ↦ false | some last ↦ ltb last dt ] ≡ false → NoLater o dt
      by_end none f = tt
      by_end (some last) f = ground arith

  skip-fetch_it : skip ≡ fetch_it → ⊥
  skip-fetch_it e = cc

  stop-fetch_it : stop ≡ fetch_it → ⊥
  stop-fetch_it e = cc

  dated-IsDate :
      (entered : Text) (o : Option ℕ)
      → strptime entered ≡ o
      → dated strptime fetch cfg o ≡ fetch_it
      → IsDate entered
  dated-IsDate entered none e v = no_date e
  dated-IsDate entered (some dt) e v = elim (Bool-cases (before_start strptime fetch cfg dt)) [
    | inl early ↦ absurd (skip-fetch_it (sym (rw early refl) ∙ v))
    | inr begun ↦ elim (Bool-cases (after_end strptime fetch cfg dt)) [
      | inl late ↦ absurd (stop-fetch_it (sym (rw begun (rw late refl)) ∙ v))
      | inr in_time ↦ in_range dt e (before_start-NoSooner dt begun) (after_end-NoLater dt in_time)
    ]
  ]

  verdict-IsDate : (entered : Text) → verdict strptime fetch cfg entered ≡ fetch_it → IsDate entered
  unfolding verdict
  verdict-IsDate entered v = elim (Bool-cases (is_empty entered)) [
    | inl blank ↦ no_text blank
    | inr filled ↦ dated-IsDate entered (strptime entered) refl (sym (rw filled refl) ∙ v)
  ]

  abbrev OfRows : Rows → Type 0
  OfRows (through s) = IsStore cfg IsDated s
  OfRows (over s) = IsStore cfg IsDated s

  fetch_bug_details-IsStore :
      (bug_id entered : Text) (s : Store MysqlBug)
      → verdict strptime fetch cfg entered ≡ fetch_it
      → IsStore cfg IsDated s
      → OfRows
          (fetched strptime fetch cfg s (fetch_bug_details strptime fetch cfg bug_id entered s))
  unfolding fetch_bug_details mysql_data
  fetch_bug_details-IsStore bug_id entered s v h = go (fetch bug_id)
    where
      saved :
          (p : BugPage) (o : Option (Store MysqlBug))
          → save_bug cfg bug_id (mysql_data bug_id entered p) s ≡ o
          → OfRows (fetched strptime fetch cfg s o)
      saved p none e = h
      saved p (some s') e = save_bug-IsStore cfg IsDated bug_id _ s e (verdict-IsDate entered v) h

      go :
          (o : Option BugPage)
          → OfRows (
              fetched strptime fetch cfg s (elim o [
                | none ↦ some s
                | some p ↦ save_bug cfg bug_id (mysql_data bug_id entered p) s
              ]))
      go none = h
      go (some p) = saved p (save_bug cfg bug_id (mysql_data bug_id entered p) s) refl

  row_step-IsStore :
      (v : Verdict) (bug_id entered : Text) (s : Store MysqlBug)
      → verdict strptime fetch cfg entered ≡ v
      → IsStore cfg IsDated s
      → OfRows (row_step strptime fetch cfg v bug_id entered s)
  row_step-IsStore skip bug_id entered s e h = h
  row_step-IsStore stop bug_id entered s e h = h
  row_step-IsStore fetch_it bug_id entered s e h = fetch_bug_details-IsStore bug_id entered s e h

  index_row-IsStore :
      (row : Text) (s : Store MysqlBug)
      → IsStore cfg IsDated s
      → OfRows (index_row strptime fetch cfg row s)
  unfolding index_row
  index_row-IsStore row s h = elim (Bool-cases (is_empty (strip row))) [
    | inl blank ↦ rw blank h
    | inr filled ↦ rw filled (row_step-IsStore _ _ _ s refl h)
  ]

  index_rows-IsStore :
      (rows : List Text) (s : Store MysqlBug)
      → IsStore cfg IsDated s
      → OfRows (index_rows strptime fetch cfg rows s)
  unfolding index_rows
  index_rows-IsStore [] s h = h
  index_rows-IsStore (row ∷ rows) s h =
      go (index_row strptime fetch cfg row s) (index_row-IsStore row s h) (index_rows-IsStore rows)
    where
      go :
          (o : Rows)
          → OfRows o
          → ((s' : Store MysqlBug)
              → IsStore cfg IsDated s'
              → OfRows (index_rows strptime fetch cfg rows s'))
          → OfRows
              (elim o [ through s' ↦ index_rows strptime fetch cfg rows s' | over s' ↦ over s' ])
      go (through s') k rest = rest s' k
      go (over s') k rest = k

  -- A server whose index has no row from `last` on.
  abbrev pub EndsAt : ℕ → (ℕ → ℕ → Index) → Type 0
  EndsAt last server =
      (n begin : ℕ) → last ≤ begin → rows_of strptime fetch cfg (server n begin) ≡ []

  abbrev Holds : Mysql → Type 0
  Holds m = IsStore cfg IsDated m.store

  abbrev Finished : Mysql → Type 0
  Finished m = m.finished ≡ true

  module _ (server : ℕ → ℕ → Index) where
    abbrev rounds : ℕ → ℕ → ℕ → Store MysqlBug → Mysql
    rounds fuel n begin s = mysql_rounds strptime fetch cfg fuel server n begin s

    mysql_rounds-IsStore :
        (fuel n begin : ℕ) (s : Store MysqlBug)
        → IsStore cfg IsDated s
        → Holds (rounds fuel n begin s)
    unfolding mysql_rounds
    mysql_rounds-IsStore zero n begin s h = h
    mysql_rounds-IsStore (suc fuel) n begin s h =
        go (rows_of strptime fetch cfg (server n begin)) (mysql_rounds-IsStore fuel (suc n))
      where
        onward :
            (rows : List Text) (o : Rows)
            → OfRows o
            → ((b : ℕ) (s' : Store MysqlBug)
                → IsStore cfg IsDated s'
                → Holds (rounds fuel (suc n) b s'))
            → Holds (elim o [
              | over s' ↦ record { finished = true; begin = begin; store = s' }
              | through s' ↦ rounds fuel (suc n) (begin + length rows) s'
            ])
        onward rows (over s') k rest = k
        onward rows (through s') k rest = rest (begin + length rows) s' k

        go :
            (rows : List Text)
            → ((b : ℕ) (s' : Store MysqlBug)
                → IsStore cfg IsDated s'
                → Holds (rounds fuel (suc n) b s'))
            → Holds (elim rows [
              | [] ↦ record { finished = true; begin = begin; store = s }
              | row ∷ more ↦ elim (index_rows strptime fetch cfg (row ∷ more) s) [
                | over s' ↦ record { finished = true; begin = begin; store = s' }
                | through s' ↦ rounds fuel (suc n) (begin + length (row ∷ more)) s'
              ]
            ])
        go [] rest = h
        go (row ∷ more) rest =
            onward (row ∷ more) (index_rows strptime fetch cfg (row ∷ more) s)
              (index_rows-IsStore (row ∷ more) s h) rest

    module _ (last : ℕ) (ends : EndsAt last server) where
      mysql_rounds-Finished :
          (fuel n begin : ℕ) (s : Store MysqlBug)
          → last - begin < fuel
          → Finished (rounds fuel n begin s)
      unfolding mysql_rounds
      mysql_rounds-Finished zero n begin s f = absurd (omega arith)
      mysql_rounds-Finished (suc fuel) n begin s f =
          go (rows_of strptime fetch cfg (server n begin)) refl (mysql_rounds-Finished fuel (suc n))
        where
          before :
              (row : Text) (more : List Text)
              → rows_of strptime fetch cfg (server n begin) ≡ row ∷ more
              → begin < last
          before row more e = elim (Bool-cases (leb last begin)) [
            | inl behind ↦ let none_left = ends n begin (leb→le last begin behind) in absurd (cc)
            | inr ahead ↦ ground arith
          ]

          onward :
              (row : Text) (more : List Text) (o : Rows)
              → begin < last
              → ((b : ℕ) (s' : Store MysqlBug)
                  → last - b < fuel
                  → Finished (rounds fuel (suc n) b s'))
              → Finished (elim o [
                | over s' ↦ record { finished = true; begin = begin; store = s' }
                | through s' ↦ rounds fuel (suc n) (begin + length (row ∷ more)) s'
              ])
          onward row more (over s') p rest = refl
          onward row more (through s') p rest = rest (begin + length (row ∷ more)) s' (omega arith)

          go :
              (rows : List Text)
              → rows_of strptime fetch cfg (server n begin) ≡ rows
              → ((b : ℕ) (s' : Store MysqlBug)
                  → last - b < fuel
                  → Finished (rounds fuel (suc n) b s'))
              → Finished (elim rows [
                | [] ↦ record { finished = true; begin = begin; store = s }
                | row ∷ more ↦ elim (index_rows strptime fetch cfg (row ∷ more) s) [
                  | over s' ↦ record { finished = true; begin = begin; store = s' }
                  | through s' ↦ rounds fuel (suc n) (begin + length (row ∷ more)) s'
                ]
              ])
          go [] e rest = refl
          go (row ∷ more) e rest =
              onward row more (index_rows strptime fetch cfg (row ∷ more) s) (before row more e)
                rest

  -- For a server whose index has no rows from some number on, also if its rows change from one
  -- request to the next: the MySQL scraper comes to its end in that many rounds and one. Its store
  -- holds as many files as it counts, at most fifty in a dry run, and each bug in it has no date, or
  -- one that cannot be read, or one that is neither before the start date nor after the end date.
  pub scrape_mysql-ends :
      (last : ℕ) (server : ℕ → ℕ → Index)
      → EndsAt last server
      → ((scrape_mysql strptime fetch cfg (suc last) server).finished ≡ true)
        × IsStore cfg IsDated (scrape_mysql strptime fetch cfg (suc last) server).store
  unfolding scrape_mysql
  scrape_mysql-ends last server ends = (
    mysql_rounds-Finished server last ends (suc last) 0 0 _ (omega arith),
    mysql_rounds-IsStore server (suc last) 0 0 _ (empty_store-IsStore cfg _),
  )
