-- ===== src/Scrape/Github/Issues.antt =====
-- The issues that are saved: no pull requests, created in the range, and within the limit.
use memsafedb.Prelude.{
  ℕ, ◌≡◌, refl, sym, ap, ◌∙◌, true, false, Option, none, some, List, [], ◌∷◌, >>=-eq-some,
  Bool-cases, inl, inr,
}
use memsafedb.Text.{Text, codes}
use memsafedb.BugStudy.Json.{Json, Fields, get}
use memsafedb.BugStudy.Reports.Entries.{py_str}
use memsafedb.Scrape.Saving.{Moment, Config, Store, save_bug, in_date_range}
use memsafedb.Scrape.Saving.Limits.{IsStore, save_bug-IsStore}
use memsafedb.Scrape.Github.{
  GithubBug, Window, Saved, all_saved, limit_reached, raised, bug_data, items_of, label_names,
  author_of, is_pull_request, parse_iso_value, save_in, or_raised, save_dated, save_updated,
  save_issue, save_issues,
}

some_eq {ℓ} : {A : Type ℓ} (x y : A) → some x ≡ some y → x ≡ y
some_eq x y e = cc

-- The data of a bug keeps the issue itself.
bug_data-raw : (issue : Fields) (bug : GithubBug) → bug_data issue ≡ some bug → bug.raw ≡ issue
unfolding bug_data
bug_data-raw issue bug e =
    let (id, (_, e1)) = >>=-eq-some (get (codes "number") issue) _ e in
    let (title, (_, e2)) = >>=-eq-some (get (codes "title") issue) _ e1 in
    let (status, (_, e3)) = >>=-eq-some (get (codes "state") issue) _ e2 in
    let (created_at, (_, e4)) = >>=-eq-some (get (codes "created_at") issue) _ e3 in
    let (body, (_, e5)) = >>=-eq-some (get (codes "body") issue) _ e4 in
    let (label_list, (_, e6)) = >>=-eq-some (get (codes "labels") issue) _ e5 in
    let (label_items, (_, e7)) = >>=-eq-some (items_of label_list) _ e6 in
    let (labels, (_, e8)) = >>=-eq-some (label_names label_items) _ e7 in
    let (user, (_, e9)) = >>=-eq-some (get (codes "user") issue) _ e8 in
    let (author, (_, e10)) = >>=-eq-some (author_of user) _ e9 in
    let (url, (_, e11)) = >>=-eq-some (get (codes "html_url") issue) _ e10 in
    ap (λ b. b.raw) (sym (some_eq _ bug e11))

module _ (fromisoformat : Text → Option Moment) (strftime : ℕ → Text) (repr : Json → Text) where
  -- An issue that the scraper is to save.
  pub record IsWanted (cfg : Config) (issue : Fields) : Type 0 where
    pub no_pull_request : is_pull_request issue ≡ false
    pub created_at : Option ℕ
    pub created :
        parse_iso_value fromisoformat strftime repr (get (codes "created_at") issue)
        ≡ some created_at
    pub in_range : in_date_range cfg created_at ≡ true

  -- What is kept from one window to another by the issues of a page.
  pub record Keeps (cfg : Config) (n : ℕ) (w' : Window) : Type 0 where
    pub store : IsStore cfg (λ b. IsWanted cfg b.raw) w'.store
    pub page : w'.page ≡ n

  abbrev pub Outcome : (Window → Type 0) → Saved → Type 0
  Outcome P (all_saved w) = P w
  Outcome P (limit_reached w) = P w
  Outcome P (raised w) = P w

  module _ (cfg : Config) where
    save_in-Keeps :
        (issue : Fields) (w : Window) (bug : GithubBug)
        → IsWanted cfg bug.raw
        → IsStore cfg (λ b. IsWanted cfg b.raw) w.store
        → Outcome (Keeps cfg w.page) (save_in fromisoformat strftime repr cfg issue w bug)
    save_in-Keeps issue w bug p h = saved (save_bug cfg (py_str repr bug.id) bug w.store) refl
      where
        saved :
            (o : Option (Store GithubBug))
            → save_bug cfg (py_str repr bug.id) bug w.store ≡ o
            → Outcome
                (Keeps cfg w.page)
                (elim o [ none ↦ limit_reached w | some s ↦ all_saved (record w { store = s }) ])
        saved none e = record { store = h; page = refl }
        saved (some s) e = record {
          store = save_bug-IsStore cfg (λ b. IsWanted cfg b.raw) _ bug w.store e p h;
          page = refl;
        }

    save_dated-Keeps :
        (issue : Fields) (w : Window) (o : Option (Option ℕ))
        → is_pull_request issue ≡ false
        → parse_iso_value fromisoformat strftime repr (get (codes "created_at") issue) ≡ o
        → IsStore cfg (λ b. IsWanted cfg b.raw) w.store
        → Outcome (Keeps cfg w.page) (save_dated fromisoformat strftime repr cfg issue w o)
    save_dated-Keeps issue w none q e h = record { store = h; page = refl }
    save_dated-Keeps issue w (some created_at) q e h =
        elim (Bool-cases (in_date_range cfg created_at)) [
          | inr outside ↦ rw outside (record { store = h; page = refl })
          | inl inside ↦ rw inside (built inside (bug_data issue) refl)
        ]
      where
        built :
            in_date_range cfg created_at ≡ true
            → (b : Option GithubBug) → bug_data issue ≡ b
            → Outcome (Keeps cfg w.page) (
                or_raised fromisoformat strftime repr w b
                  (save_in fromisoformat strftime repr cfg issue w))
        built inside none f = record { store = h; page = refl }
        built inside (some bug) f =
            save_in-Keeps issue w bug
              (rw (bug_data-raw issue bug f) (record {
                no_pull_request = q;
                created_at = created_at;
                created = e;
                in_range = inside;
              }))
              h

    save_updated-Keeps :
        (issue : Fields) (w : Window) (o : Option Json)
        → is_pull_request issue ≡ false
        → IsStore cfg (λ b. IsWanted cfg b.raw) w.store
        → Outcome (Keeps cfg w.page) (save_updated fromisoformat strftime repr cfg issue w o)
    save_updated-Keeps issue w none q h = record { store = h; page = refl }
    save_updated-Keeps issue w (some v) q h =
        save_dated-Keeps issue (record w { batch_last_updated = some v }) _ q refl h

    save_issue-Keeps :
        (issue : Fields) (w : Window)
        → IsStore cfg (λ b. IsWanted cfg b.raw) w.store
        → Outcome (Keeps cfg w.page) (save_issue fromisoformat strftime repr cfg issue w)
    unfolding save_issue
    save_issue-Keeps issue w h = elim (Bool-cases (is_pull_request issue)) [
      | inl pull ↦ rw pull (record { store = h; page = refl })
      | inr no_pull ↦ rw no_pull (save_updated-Keeps issue w _ no_pull h)
    ]

    pub save_issues-Keeps :
        (issues : List Fields) (w : Window) (n : ℕ)
        → Keeps cfg n w
        → Outcome (Keeps cfg n) (save_issues fromisoformat strftime repr cfg issues w)
    unfolding save_issues
    save_issues-Keeps [] w n k = k
    save_issues-Keeps (issue ∷ issues) w n k =
        next (save_issue fromisoformat strftime repr cfg issue w) (save_issue-Keeps issue w k.store)
          (λ w' k'. save_issues-Keeps issues w' n (both w' k'))
      where
        both : (w' : Window) → Keeps cfg w.page w' → Keeps cfg n w'
        both w' k' = record { store = k'.store; page = k'.page ∙ k.page }

        next :
            (o : Saved)
            → Outcome (Keeps cfg w.page) o
            → ((w' : Window)
                → Keeps cfg w.page w'
                → Outcome (Keeps cfg n) (save_issues fromisoformat strftime repr cfg issues w'))
            → Outcome (Keeps cfg n) (elim o [
              | all_saved w' ↦ save_issues fromisoformat strftime repr cfg issues w'
              | limit_reached w' ↦ limit_reached w'
              | raised w' ↦ raised w'
            ])
        next (all_saved w') k' rest = rest w' k'
        next (limit_reached w') k' rest = both w' k'
        next (raised w') k' rest = both w' k'
