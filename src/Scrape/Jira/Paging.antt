-- ===== src/Scrape/Jira/Paging.antt =====
-- The loop ends on every server whose totals are bounded, and saves all issues of a server that
-- gives out its pages in order.
use memsafedb.Prelude.{
  ℕ, zero, suc, ◌+◌, ◌-◌, ◌≤◌, ◌<◌, ◌≡◌, refl, true, [], ◌∷◌, length, leb, Bool-cases, inl, inr,
  arith,
}
use memsafedb.Text.{Text}
use memsafedb.BugStudy.Json.{Json}
use memsafedb.Scrape.Saving.{Config}
use memsafedb.Scrape.Jira.{
  Answer, answer, failed, JiraState, Turn, again, done, limited, caught, Kept, all_kept,
  limit_reached, raised, Jira, save_jira, after_issues, turn_of, jira_round, jira_rounds,
  scrape_jira,
}

abbrev total_of : Answer → ℕ
total_of (answer issues total) = total
total_of failed = 0

module _ (repr : Json → Text) (cfg : Config) where
  abbrev Ends : Jira → Type 0
  Ends j = j.finished ≡ true

  -- The next round starts further on, and below the total.
  abbrev Advances : ℕ → ℕ → Turn → Type 0
  Advances start_at total (again s) = (start_at < s.start_at) × (s.start_at < total)
  Advances start_at total t = Unit

  after_issues-Advances :
      (start_at count total : ℕ) (k : Kept)
      → 0 < count
      → Advances start_at total (after_issues repr cfg start_at count total k)
  after_issues-Advances start_at count total (all_kept s) p =
      elim (Bool-cases (leb total (start_at + count))) [
        | inl last ↦ rw last tt
        | inr more ↦ rw more (omega arith, ground arith)
      ]
  after_issues-Advances start_at count total (limit_reached s) p = tt
  after_issues-Advances start_at count total (raised s) p = tt

  turn_of-Advances :
      (s : JiraState) (a : Answer) → Advances s.start_at (total_of a) (turn_of repr cfg s a)
  turn_of-Advances s failed = tt
  turn_of-Advances s (answer [] total) = tt
  turn_of-Advances s (answer (issue ∷ issues) total) =
      after_issues-Advances s.start_at (length (issue ∷ issues)) total
        (save_jira repr cfg (issue ∷ issues) s.store) (omega arith)

  jira_rounds-finished :
      (bound : ℕ) (server : ℕ → ℕ → Answer)
      → ((n at : ℕ) → total_of (server n at) ≤ bound)
      → (fuel n : ℕ) (s : JiraState) → bound - s.start_at < fuel
      → (jira_rounds repr cfg fuel server n s).finished ≡ true
  unfolding jira_rounds jira_round
  jira_rounds-finished bound server b zero n s h = absurd (omega arith)
  jira_rounds-finished bound server b (suc fuel) n s h =
      go (turn_of repr cfg s (server n s.start_at)) (turn_of-Advances s (server n s.start_at))
        (jira_rounds-finished bound server b fuel (suc n))
    where
      go :
          (t : Turn)
          → Advances s.start_at (total_of (server n s.start_at)) t
          → ((s' : JiraState)
              → bound - s'.start_at < fuel
              → (jira_rounds repr cfg fuel server (suc n) s').finished ≡ true)
          → Ends (elim t [
            | again s' ↦ jira_rounds repr cfg fuel server (suc n) s'
            | done s' ↦ record { finished = true; state = s' }
            | limited s' ↦ record { finished = true; state = s' }
            | caught s' ↦ record { finished = true; state = s' }
          ])
      go (again s') p rest = rest s' (omega (arith, b n s.start_at))
      go (done s') p rest = refl
      go (limited s') p rest = refl
      go (caught s') p rest = refl

  -- If no answer of the server states a total above `bound`, the Jira scraper's loop comes to its
  -- end in at most `bound + 1` rounds, whatever issues the answers hold and however they change.
  pub scrape_jira-finished :
      (bound : ℕ) (server : ℕ → ℕ → Answer)
      → ((n at : ℕ) → total_of (server n at) ≤ bound)
      → (scrape_jira repr cfg (suc bound) server).finished ≡ true
  unfolding scrape_jira
  scrape_jira-finished bound server b =
      jira_rounds-finished bound server b (suc bound) 0 _ (omega arith)
