-- ===== src/Structs/Commands/Bounds.antt =====
-- The number of operations that a configuration runs.
use memsafedb.Prelude.{
  ℕ, ◌≤◌, ◌≡◌, refl, ap, true, false, Option, none, some, List, [], ◌∷◌, ◌++◌, All, leb, leb→le,
  Bool-cases, inl, inr, ◌⊎◌, arith,
}
use memsafedb.Text.{int}
use memsafedb.Structs.Commands.{
  Configuration, NbOpsRow, is_row, nbops_row, or_capped, nbops_mt_cap, get_conf,
}

module _ (c : Configuration) where
  -- No row is for the configuration and that number of threads.
  abbrev pub NoRow : ℕ → List NbOpsRow → Type 0
  NoRow nthreads rows = All (λ r. is_row c nthreads r ≡ false) rows

  -- The first of the rows for the configuration and that number of threads.
  pub record FirstRow (nthreads : ℕ) (rows : List NbOpsRow) : Type 0 where
    pub before : List NbOpsRow
    pub row : NbOpsRow
    pub behind : List NbOpsRow
    pub split : rows ≡ before ++ (row ∷ behind)
    pub none_before : NoRow nthreads before
    pub is_it : is_row c nthreads row ≡ true

  -- What is found.
  abbrev IsFound : ℕ → List NbOpsRow → Option ℕ → Type 0
  IsFound nthreads rows none = NoRow nthreads rows
  IsFound nthreads rows (some n) = (f : FirstRow nthreads rows) × (n ≡ f.row.nb_ops)

  IsFound-later :
      (nthreads : ℕ) (r : NbOpsRow) (rows : List NbOpsRow) (o : Option ℕ)
      → is_row c nthreads r ≡ false
      → IsFound nthreads rows o
      → IsFound nthreads (r ∷ rows) o
  IsFound-later nthreads r rows none e h = (e, h)
  IsFound-later nthreads r rows (some n) e (f, q) = (
    record {
      before = r ∷ f.before;
      row = f.row;
      behind = f.behind;
      split = ap (λ rs. r ∷ rs) f.split;
      none_before = (e, f.none_before);
      is_it = f.is_it;
    },
    q,
  )

  nbops_row-IsFound :
      (nthreads : ℕ) (rows : List NbOpsRow) → IsFound nthreads rows (nbops_row c nthreads rows)
  unfolding nbops_row
  nbops_row-IsFound nthreads [] = tt
  nbops_row-IsFound nthreads (r ∷ rows) = elim (Bool-cases (is_row c nthreads r)) [
    | inl found ↦
        let first : FirstRow nthreads (r ∷ rows) = record {
          before = [];
          row = r;
          behind = rows;
          split = refl;
          none_before = tt;
          is_it = found;
        } in
        rw found (first, refl)
    | inr other ↦ rw other (IsFound-later nthreads r rows _ other (nbops_row-IsFound nthreads rows))
  ]

  -- The number that stands in for that of the row for one thread.
  abbrev pub IsCapped : ℕ → ℕ → Type 0
  IsCapped m n = (n ≤ m) × ((n ≤ nbops_mt_cap) × ((n ≡ m) ⊎ (n ≡ nbops_mt_cap)))

  -- Where the number comes from.
  pub data IsTuned (rows : List NbOpsRow) : Option ℕ → Type 0 where
    exact : (f : FirstRow (int c.nthreads) rows) → IsTuned rows (some f.row.nb_ops)
    one_thread :
        {n : ℕ}
        → NoRow (int c.nthreads) rows
        → (f : FirstRow 1 rows) → IsCapped f.row.nb_ops n
        → IsTuned rows (some n)
    missing : NoRow (int c.nthreads) rows → NoRow 1 rows → IsTuned rows none

  or_capped-IsTuned :
      (rows : List NbOpsRow) (exactly base : Option ℕ)
      → IsFound (int c.nthreads) rows exactly
      → IsFound 1 rows base
      → IsTuned rows (or_capped exactly base)
  or_capped-IsTuned rows (some n) base (f, e) h = rw e (exact f)
  or_capped-IsTuned rows none none no_row no_base = missing no_row no_base
  or_capped-IsTuned rows none (some m) no_row (f, e) =
      one_thread no_row f (elim (Bool-cases (leb m nbops_mt_cap)) [
        | inl small ↦ rw small (omega (arith, e), (leb→le m nbops_mt_cap small, inl e))
        | inr large ↦ rw large (ground arith, (omega arith, inr refl))
      ])

  -- A configuration runs the number of operations of the first row for it and its number of threads.
  -- If there is none, it runs the number of the first row for it and one thread, but at most fifty
  -- million; that number is not scaled by the threads. It is given no number exactly if there is
  -- neither row.
  pub get_conf-IsTuned : (rows : List NbOpsRow) → IsTuned rows (get_conf rows c)
  unfolding get_conf
  get_conf-IsTuned rows =
      or_capped-IsTuned rows _ _ (nbops_row-IsFound (int c.nthreads) rows)
        (nbops_row-IsFound 1 rows)
