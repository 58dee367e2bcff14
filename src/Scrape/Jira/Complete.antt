-- ===== src/Scrape/Jira/Complete.antt =====
-- What the loop saves from a server that gives out its issues by pages.
use mathlib.Core.Path.{subst}
use memsafedb.Prelude.{
  ℕ, zero, suc, ◌+◌, ◌≤◌, ◌<◌, ◌≡◌, refl, sym, ap, ◌∙◌, true, false, Option, none, some, List, [],
  ◌∷◌, ◌++◌, append_assoc, append-nil, All, take, drop, length, length-take, length-drop, drop-add,
  take-append-drop, leb, leb→le, Bool-cases, inl, inr, arith,
}
use memsafedb.Text.{Text, codes}
use memsafedb.BugStudy.Json.{Json, Fields}
use memsafedb.BugStudy.Reports.Entries.{py_str}
use memsafedb.Scrape.Saving.{Config, Store, empty_store, saved, save_bug}
use memsafedb.Scrape.Jira.{
  JiraBug, jira_data, Answer, answer, JiraState, Turn, again, done, limited, caught, Kept, all_kept,
  limit_reached, raised, Jira, keep_bug, save_jira, after_issues, turn_of, jira_round, jira_rounds,
  scrape_jira,
}

-- The server: pages of fifty issues from the one asked for, and the number of all.
abbrev pub paged : List Fields → ℕ → ℕ → Answer
paged all n at = answer (take 50 (drop at all)) (length all)

module _ (repr : Json → Text) (cfg : Config) where
  -- The files of issues whose data can be built.
  abbrev pub file_of : Option JiraBug → List (Text × JiraBug) → List (Text × JiraBug)
  file_of none rest = rest
  file_of (some bug) rest = (py_str repr bug.id ++ codes ".json", bug) ∷ rest

  abbrev pub bug_files : List Fields → List (Text × JiraBug)
  bug_files [] = []
  bug_files (issue ∷ issues) = file_of (jira_data issue) (bug_files issues)

  abbrev HasData : Fields → Type 0
  HasData issue = (bug : JiraBug) × (jira_data issue ≡ some bug)

  abbrev all_saved : List Fields → Store JiraBug → Store JiraBug
  all_saved issues s = record {
    bugs_saved = s.bugs_saved + length issues;
    files = s.files ++ bug_files issues;
  }

  bug_files-append :
      (xs ys : List Fields) → All HasData xs → bug_files (xs ++ ys) ≡ bug_files xs ++ bug_files ys
  bug_files-append [] ys h = refl
  bug_files-append (x ∷ xs) ys ((bug, e), h) =
      rw e (ap (λ r. (py_str repr bug.id ++ codes ".json", bug) ∷ r) (bug_files-append xs ys h))

  All-take : (n : ℕ) (xs : List Fields) → All HasData xs → All HasData (take n xs)
  All-take zero xs h = tt
  All-take (suc n) [] h = tt
  All-take (suc n) (x ∷ xs) (p, h) = (p, All-take n xs h)

  All-drop : (n : ℕ) (xs : List Fields) → All HasData xs → All HasData (drop n xs)
  All-drop zero xs h = h
  All-drop (suc n) [] h = tt
  All-drop (suc n) (x ∷ xs) (p, h) = All-drop n xs h

  Store-ext : (s t : Store JiraBug) → s.bugs_saved ≡ t.bugs_saved → s.files ≡ t.files → s ≡ t
  Store-ext s t p q = cc

  drop-length-take : (n : ℕ) (xs : List Fields) → drop (length (take n xs)) xs ≡ drop n xs
  drop-length-take zero xs = refl
  drop-length-take (suc n) [] = refl
  drop-length-take (suc n) (x ∷ xs) = drop-length-take n xs

  module _ (no_limit : cfg.dry_run ≡ false) where
    keep_bug-kept :
        (issue : Fields) (bug : JiraBug) (s : Store JiraBug)
        → jira_data issue ≡ some bug
        → keep_bug repr cfg s (jira_data issue) ≡ all_kept (saved (py_str repr bug.id) bug s)
    unfolding save_bug
    keep_bug-kept issue bug s e = rw e (rw no_limit refl)

    save_jira-all_saved :
        (issues : List Fields) (s : Store JiraBug)
        → All HasData issues
        → save_jira repr cfg issues s ≡ all_kept (all_saved issues s)
    unfolding save_jira
    save_jira-all_saved [] s h =
        ap all_kept (Store-ext s (all_saved [] s) (omega arith) (sym (append-nil s.files)))
    save_jira-all_saved (issue ∷ issues) s ((bug, e), h) =
        ap next (keep_bug-kept issue bug s e)
        ∙ save_jira-all_saved issues (saved (py_str repr bug.id) bug s) h
        ∙ ap all_kept (
            Store-ext (all_saved issues (saved (py_str repr bug.id) bug s))
              (all_saved (issue ∷ issues) s) (omega arith)
              (append_assoc s.files ((py_str repr bug.id ++ codes ".json", bug) ∷ [])
                  (bug_files issues)
                ∙ ap (λ r. s.files ++ r) (rw e refl)))
      where
        next : Kept → Kept
        next k = elim k [
          | all_kept s' ↦ save_jira repr cfg issues s'
          | limit_reached s' ↦ limit_reached s'
          | raised s' ↦ raised s'
        ]

    -- What the run from a state leaves: all issues from there on are saved.
    record Completes (all : List Fields) (s : JiraState) (j : Jira) : Type 0 where
      finished : j.finished ≡ true
      store : j.state.store ≡ all_saved (drop s.start_at all) s.store

    page_then_rest :
        (all : List Fields) (at : ℕ) (s : Store JiraBug)
        → All HasData all
        → all_saved
            (drop (at + length (take 50 (drop at all))) all)
            (all_saved (take 50 (drop at all)) s)
          ≡ all_saved (drop at all) s
    page_then_rest all at s h =
        Store-ext _ _
          (omega (
            arith,
            length-take 50 (drop at all),
            length-drop at all,
            length-drop (at + length (take 50 (drop at all))) all,
          ))
          (append_assoc s.files (bug_files (take 50 (drop at all))) (bug_files _)
            ∙ ap (λ r. s.files ++ r)
                (sym
                    (bug_files-append (take 50 (drop at all)) _ (All-take 50 _ (All-drop at all h)))
                  ∙ ap bug_files (
                      ap (λ r. take 50 (drop at all) ++ r) rest
                      ∙ take-append-drop 50 (drop at all))))
      where
        rest : drop (at + length (take 50 (drop at all))) all ≡ drop 50 (drop at all)
        rest = drop-add at (length (take 50 (drop at all))) all ∙ drop-length-take 50 (drop at all)

    nothing_left : (xs : List Fields) (s : Store JiraBug) → length xs ≡ 0 → s ≡ all_saved xs s
    nothing_left [] s e = Store-ext s (all_saved [] s) (omega arith) (sym (append-nil s.files))
    nothing_left (x ∷ xs) s e = absurd (omega arith)

    module _ (all : List Fields) (data_of : All HasData all) where
      abbrev rounds : ℕ → ℕ → JiraState → Jira
      rounds fuel n s = jira_rounds repr cfg fuel (paged all) n s

      abbrev end_of : ℕ → ℕ → Turn → Jira
      end_of fuel n t = elim t [
        | again s' ↦ rounds fuel n s'
        | done s' ↦ record { finished = true; state = s' }
        | limited s' ↦ record { finished = true; state = s' }
        | caught s' ↦ record { finished = true; state = s' }
      ]

      abbrev after : JiraState → List Fields → JiraState
      after s c = record { start_at = s.start_at + length c; store = all_saved c s.store }

      page_done :
          (fuel n : ℕ) (s : JiraState) (c : List Fields)
          → take 50 (drop s.start_at all) ≡ c
          → 0 < length c
          → length (drop s.start_at all) ≤ fuel
          → ((s' : JiraState)
              → length (drop s'.start_at all) < fuel
              → Completes all s' (rounds fuel n s'))
          → Completes all s (
              end_of fuel n (
                after_issues repr cfg s.start_at
                  (length c)
                  (length all)
                  (all_kept (all_saved c s.store))))
      page_done fuel n s c e p h rest =
          elim (Bool-cases (leb (length all) (s.start_at + length c))) [
            | inl last ↦ rw last (record {
              finished = refl;
              store =
                  nothing_left (drop (s.start_at + length c) all) (all_saved c s.store)
                    (omega (arith, length-drop (s.start_at + length c) all, leb→le))
                  ∙ whole;
            })
            | inr more ↦
                let below : s.start_at + length c < length all = ground arith in
                let k = rest (after s c) (
                  omega
                    (arith, length-drop (s.start_at + length c) all, length-drop s.start_at all)) in
                rw more (record { finished = k.finished; store = k.store ∙ whole })
          ]
        where
          whole :
              all_saved (drop (s.start_at + length c) all) (all_saved c s.store)
              ≡ all_saved (drop s.start_at all) s.store
          whole =
              subst
                (λ (c : List Fields).
                  all_saved (drop (s.start_at + length c) all) (all_saved c s.store)
                  ≡ all_saved (drop s.start_at all) s.store)
                e (page_then_rest all s.start_at s.store data_of)

      jira_rounds-Completes :
          (fuel n : ℕ) (s : JiraState)
          → length (drop s.start_at all) < fuel
          → Completes all s (rounds fuel n s)
      unfolding jira_rounds jira_round
      jira_rounds-Completes zero n s h = absurd (omega arith)
      jira_rounds-Completes (suc fuel) n s h =
          go (take 50 (drop s.start_at all)) refl (jira_rounds-Completes fuel (suc n))
        where
          go :
              (c : List Fields)
              → take 50 (drop s.start_at all) ≡ c
              → ((s' : JiraState)
                  → length (drop s'.start_at all) < fuel
                  → Completes all s' (rounds fuel (suc n) s'))
              → Completes all s (end_of fuel (suc n) (turn_of repr cfg s (answer c (length all))))
          go [] e rest = record {
            finished = refl;
            store = nothing_left (drop s.start_at all) s.store (
                let l : length (take 50 (drop s.start_at all)) ≡ 0 =
                  ap (λ (c : List Fields). length c) e in
                omega (arith, length-take 50 (drop s.start_at all)));
          }
          go (x ∷ xs) e rest =
              rw
                (save_jira-all_saved (x ∷ xs) s.store
                  (subst (λ c. All HasData c) e (All-take 50 _ (All-drop s.start_at all data_of))))
                (page_done fuel (suc n) s (x ∷ xs) e (omega arith) (omega arith) rest)

  -- A server that gives out its issues by pages of fifty, a scraper without the limit of a dry run,
  -- and issues whose data can be built: the Jira scraper ends, and has written exactly the files of
  -- all issues, each once, in the server's order, and counted them.
  pub scrape_jira_complete :
      (all : List Fields)
      → cfg.dry_run ≡ false
      → All HasData all
      → ((scrape_jira repr cfg (suc (length all)) (paged all)).finished ≡ true)
        × ((scrape_jira repr cfg (suc (length all)) (paged all)).state.store
            ≡ record { bugs_saved = length all; files = bug_files all })
  unfolding scrape_jira
  scrape_jira_complete all no_limit data_of =
      let k =
        jira_rounds-Completes no_limit all data_of (suc (length all)) 0
          (record { start_at = 0; store = empty_store }) (omega arith) in
      (
        k.finished,
        k.store
            ∙ Store-ext _ (record { bugs_saved = length all; files = bug_files all }) (omega arith)
                refl,
      )
