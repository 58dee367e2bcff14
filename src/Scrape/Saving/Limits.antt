-- ===== src/Scrape/Saving/Limits.antt =====
-- The limit of a dry run, and the range of dates.
use memsafedb.Prelude.{
  ◌≤◌, ◌≡◌, refl, sym, true, false, ◌&&◌, some, [], ◌∷◌, All, All-append, length, length-append,
  leb, Bool-cases, inl, inr, arith,
}
use memsafedb.Text.{Text}
use memsafedb.Scrape.Saving.{Config, Store, saved, save_bug, empty_store}

-- The counter is the number of the files written, and a dry run stops at fifty.
pub record IsStore {ℓ} {D : Type ℓ} (cfg : Config) (P : D → Type 0) (s : Store D) : Type ℓ where
  pub counted : length s.files ≡ s.bugs_saved
  pub limited : cfg.dry_run ≡ true → s.bugs_saved ≤ 50
  pub each : All (λ (name, d). P d) s.files

module _ {ℓ} {D : Type ℓ} (cfg : Config) (P : D → Type 0) where
  pub empty_store-IsStore : IsStore cfg P empty_store
  empty_store-IsStore = record { counted = refl; limited = λ d. omega arith; each = tt }

  saved-IsStore :
      (bug_id : Text) (d : D) (s : Store D)
      → (cfg.dry_run && leb 50 s.bugs_saved) ≡ false
      → P d
      → IsStore cfg P s
      → IsStore cfg P (saved bug_id d s)
  saved-IsStore bug_id d s room p h = record {
    counted = omega (arith, h.counted, length-append s.files (_ ∷ []));
    limited = λ dry. ground arith;
    each = All-append _ s.files _ h.each (p, tt);
  }

  pub save_bug-IsStore :
      (bug_id : Text) (d : D) (s : Store D) {s' : Store D}
      → save_bug cfg bug_id d s ≡ some s'
      → P d
      → IsStore cfg P s
      → IsStore cfg P s'
  unfolding save_bug
  save_bug-IsStore bug_id d s {s'} e p h = elim (Bool-cases (cfg.dry_run && leb 50 s.bugs_saved)) [
    | inl full ↦ cc
    | inr room ↦
        let same : saved bug_id d s ≡ s' = cc in rw (sym same) (saved-IsStore bug_id d s room p h)
  ]
