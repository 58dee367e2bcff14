-- ===== src/Scrape/Github/Pages.antt =====
-- What is asked for, and what has been saved when the loop ends, or is stopped.
use memsafedb.Prelude.{
  ℕ, zero, suc, ◌+◌, ◌≤◌, refl, Bool, true, false, Option, none, some, [], ◌∷◌, All, Bool-cases,
  inl, inr, arith, leb, if◌then◌else◌,
}
use memsafedb.Text.{Text, codes, contains}
use memsafedb.BugStudy.Json.{Json, truthy}
use memsafedb.Scrape.Saving.{Moment, Config}
use memsafedb.Scrape.Saving.Limits.{IsStore, empty_store-IsStore}
use memsafedb.Scrape.Github.{
  GithubBug, Window, Saved, all_saved, limit_reached, raised, Round, again, ended, crashed, Request,
  Response, page_of, failed, Github, first_page, next_since, with_since, reset_window, handle,
  next_page, after_page, round_of, given, with_params, request_of, github_round, start_window,
  github_rounds, scrape_github,
}
use memsafedb.Scrape.Github.Issues.{IsWanted, Keeps, Outcome, save_issues-Keeps}

-- A page that the server gives out: the API refuses those behind the thousandth result.
abbrev pub IsPage : Request → Type 0
IsPage r = (1 ≤ r.page) × (r.page ≤ 89)

module _ (fromisoformat : Text → Option Moment) (strftime : ℕ → Text) (repr : Json → Text) where
  module _ (cfg : Config) where
    abbrev Wanted : GithubBug → Type 0
    Wanted b = IsWanted fromisoformat strftime repr cfg b.raw

    -- The variables at the top of the loop.
    record IsWindow (w : Window) : Type 0 where
      page : (1 ≤ w.page) × (w.page ≤ 89)
      store : IsStore cfg Wanted w.store

    abbrev OfRound : Round → Type 0
    OfRound (again w) = IsWindow w
    OfRound (ended w) = IsStore cfg Wanted w.store
    OfRound (crashed w) = IsStore cfg Wanted w.store

    abbrev OfReset : Option Window → Type 0
    OfReset none = Unit
    OfReset (some w) = IsWindow w

    reset_window-IsWindow :
        (w : Window)
        → IsStore cfg Wanted w.store
        → OfReset (reset_window fromisoformat strftime repr w)
    unfolding reset_window
    reset_window-IsWindow w h = reset w.batch_last_updated
      where
        first : IsWindow (first_page fromisoformat strftime repr w)
        first = record { page = (omega arith, omega arith); store = h }

        since :
            (o : Option Text)
            → OfReset (
                with_since fromisoformat strftime repr (first_page fromisoformat strftime repr w) o)
        since none = tt
        since (some t) = record { page = (omega arith, omega arith); store = h }

        reset :
            (o : Option Json)
            → OfReset (elim o [
              | none ↦ some (first_page fromisoformat strftime repr w)
              | some v ↦
                  if truthy v
                  then with_since fromisoformat strftime repr
                      (first_page fromisoformat strftime repr w)
                      (next_since fromisoformat strftime repr v)
                  else some (first_page fromisoformat strftime repr w)
            ])
        reset none = first
        reset (some v) = elim (Bool-cases (truthy v)) [
          | inl seen ↦ rw seen (since _)
          | inr empty ↦ rw empty first
        ]

    handle-IsWindow :
        (message : Text) (w : Window)
        → IsWindow w
        → OfRound (handle fromisoformat strftime repr message w)
    unfolding handle
    handle-IsWindow message w h = elim (Bool-cases (contains (codes "422") message)) [
      | inl too_deep ↦
          rw too_deep
            (go (reset_window fromisoformat strftime repr w) (reset_window-IsWindow w h.store))
      | inr other ↦ rw other h.store
    ]
      where
        go :
            (o : Option Window)
            → OfReset o
            → OfRound (elim o [
              | none ↦ crashed (first_page fromisoformat strftime repr w)
              | some w' ↦ again w'
            ])
        go none r = h.store
        go (some w') r = r

    next_page-IsWindow :
        (w : Window)
        → (1 ≤ w.page) × (w.page ≤ 89)
        → IsStore cfg Wanted w.store
        → OfRound (next_page fromisoformat strftime repr w)
    unfolding next_page
    next_page-IsWindow w p h = elim (Bool-cases (leb 90 (w.page + 1))) [
      | inl far ↦
          rw far (go (reset_window fromisoformat strftime repr w') (reset_window-IsWindow w' h))
      | inr near ↦ rw near (record { page = (omega arith, ground arith); store = h })
    ]
      where
        w' : Window
        w' = record w { page = w.page + 1 }

        go :
            (o : Option Window)
            → OfReset o
            → OfRound (elim o [
              | none ↦ ended (first_page fromisoformat strftime repr w')
              | some w'' ↦ again w''
            ])
        go none r = h
        go (some w'') r = r

    after_page-IsWindow :
        (has_next : Bool) (n : ℕ) (o : Saved)
        → (1 ≤ n) × (n ≤ 89)
        → Outcome fromisoformat strftime repr (Keeps fromisoformat strftime repr cfg n) o
        → OfRound (after_page fromisoformat strftime repr has_next o)
    after_page-IsWindow true n (all_saved w) p k = next_page-IsWindow w (rw k.page p) k.store
    after_page-IsWindow false n (all_saved w) p k = k.store
    after_page-IsWindow has_next n (limit_reached w) p k = k.store
    after_page-IsWindow has_next n (raised w) p k = k.store

    round_of-IsWindow :
        (w : Window) (r : Response)
        → IsWindow w
        → OfRound (round_of fromisoformat strftime repr cfg w r)
    round_of-IsWindow w (failed message) h = handle-IsWindow message w h
    round_of-IsWindow w (page_of [] has_next) h = h.store
    round_of-IsWindow w (page_of (issue ∷ issues) has_next) h =
        after_page-IsWindow has_next w.page _ h.page (
          save_issues-Keeps fromisoformat strftime repr cfg (issue ∷ issues) w w.page
            (record { store = h.store; page = refl }))

    with_params-IsWindow :
        (w : Window) → IsWindow w → IsWindow (with_params fromisoformat strftime repr w)
    with_params-IsWindow w h =
        elim (Bool-cases (given fromisoformat strftime repr w.current_since)) [
          | inl since ↦ rw since (record { page = h.page; store = h.store })
          | inr no_since ↦ rw no_since h
        ]

    -- A run: all that it has asked for, and what it has saved by the end.
    pub record IsRun (g : Github) : Type 0 where
      pub requests : All IsPage g.requests
      pub store : IsStore cfg Wanted g.window.store

    github_rounds-IsRun :
        (fuel : ℕ) (server : ℕ → Request → Response) (n : ℕ) (w : Window)
        → IsWindow w
        → IsRun (github_rounds fromisoformat strftime repr fuel cfg server n w)
    unfolding github_rounds github_round
    github_rounds-IsRun zero server n w h = record { requests = tt; store = h.store }
    github_rounds-IsRun (suc fuel) server n w h =
        go (github_round fromisoformat strftime repr cfg (server n) w)
          (round_of-IsWindow asked (server n (request_of fromisoformat strftime repr asked))
            (with_params-IsWindow w h))
          (github_rounds-IsRun fuel server (suc n))
      where
        asked : Window
        asked = with_params fromisoformat strftime repr w

        go :
            (o : Round)
            → OfRound o
            → ((w' : Window)
                → IsWindow w'
                → IsRun (github_rounds fromisoformat strftime repr fuel cfg server (suc n) w'))
            → IsRun (elim o [
              | again w' ↦
                  (let g = github_rounds fromisoformat strftime repr fuel cfg server (suc n) w' in
                    record g {
                      requests = request_of fromisoformat strftime repr asked ∷ g.requests;
                    })
              | ended w' ↦ record {
                requests = request_of fromisoformat strftime repr asked ∷ [];
                finished = true;
                window = w';
              }
              | crashed w' ↦ record {
                requests = request_of fromisoformat strftime repr asked ∷ [];
                finished = true;
                window = w';
              }
            ])
        go (again w') k rest = record {
          requests = ((with_params-IsWindow w h).page, (rest w' k).requests);
          store = (rest w' k).store;
        }
        go (ended w') k rest = record {
          requests = ((with_params-IsWindow w h).page, tt);
          store = k;
        }
        go (crashed w') k rest = record {
          requests = ((with_params-IsWindow w h).page, tt);
          store = k;
        }

  -- For every server, and however many rounds are run: `scrape` of the GitHub scraper asks only for
  -- the pages 1 to 89; it has written as many files as it counts, at most fifty in a dry run; and
  -- each of the issues that it has saved is no pull request, and is created in the range of dates or
  -- has no date that could be read.
  pub scrape_github-IsRun :
      (fuel : ℕ) (cfg : Config) (server : ℕ → Request → Response)
      → IsRun cfg (scrape_github fromisoformat strftime repr fuel cfg server)
  unfolding scrape_github start_window
  scrape_github-IsRun fuel cfg server =
      github_rounds-IsRun cfg fuel server 0 _
        (record { page = (omega arith, omega arith); store = empty_store-IsStore cfg _ })
