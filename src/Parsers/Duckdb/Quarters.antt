-- ===== src/Parsers/Duckdb/Quarters.antt =====
-- Four passes over the queries, read back.
use memsafedb.Prelude.{
  ℕ, ◌+◌, ◌-◌, ◌*◌, ◌/◌, ◌<◌, ◌≤◌, ◌≡◌, refl, ap, ◌∙◌, false, some, List, [], ◌∷◌, ◌++◌, map, arith,
  ltb, All, All-append, length, if◌then◌else◌, length-append, length-map, take-append_self,
  drop-append, drop-append_self,
}
use mathlib.Core.List.{map-append}
use memsafedb.Prelude.Gen.{done, ◌then◌, yield_all, yield_all-append}
use memsafedb.Text.{Text, codes, join_lines}
use memsafedb.Rows.{Floats, Row}
use memsafedb.Parsers.Duckdb.{
  query_lines, query_row, parse_queries, parse_quarters, parse_duckdb_output,
}
use memsafedb.Parsers.Duckdb.Lines.{Printed, IsPrinted, line, query_name, match_at-line}
use memsafedb.Parsers.Duckdb.RoundTrip.{query_lines-printed}

module _ (fl : Floats) (rep : ℕ) where
  -- The slices cut a list of four parts, the first three of them of one length, into its parts.
  parse_quarters-append :
      (a b c d : List Text)
      → length b ≡ length a
      → length c ≡ length a
      → parse_quarters fl rep (length a) (a ++ (b ++ (c ++ d))) ≡ (
          parse_queries fl (codes "release") rep a
          then parse_queries fl (codes "release-mte") rep b
          then parse_queries fl (codes "release-cold") rep c
          then parse_queries fl (codes "release-mte-cold") rep d)
  unfolding parse_quarters
  parse_quarters-append a b c d hb hc =
      rw (let e : length a * 2 - length a ≡ length b = omega arith in e) (
        rw (let e : length a * 3 - length a * 2 ≡ length c = omega arith in e) (
          rw (let e : length a * 3 ≡ length a + (length b + (length c + 0)) = omega arith in e) (
            rw (let e : length a * 2 ≡ length a + (length b + 0) = omega arith in e)
              (simp (take-append_self, drop-append_self, drop-append)))))

  length-parts :
      (a b c d : List Text)
      → length (a ++ (b ++ (c ++ d))) ≡ length a + (length b + (length c + length d))
  length-parts a b c d = simp length-append

  -- So does the parser, where the fourth part is as long, or up to three lines longer.
  quarters-append :
      (a b c d : List Text)
      → 0 < length a
      → length b ≡ length a
      → length c ≡ length a
      → length a ≤ length d
      → length d < length a + 4
      → (let ls = a ++ (b ++ (c ++ d)) in
          if ltb (length ls) 4 then done else parse_quarters fl rep (length ls / 4) ls)
        ≡ (parse_queries fl (codes "release") rep a
            then parse_queries fl (codes "release-mte") rep b
            then parse_queries fl (codes "release-cold") rep c
            then parse_queries fl (codes "release-mte-cold") rep d)
  quarters-append a b c d some_a hb hc low high =
      rw
        (let e : ltb (length (a ++ (b ++ (c ++ d)))) 4 ≡ false =
            ground (arith, length-parts a b c d) in
          e)
        (rw
          (let e : length (a ++ (b ++ (c ++ d))) / 4 ≡ length a =
              omega (arith, length-parts a b c d) in
            e)
          (parse_quarters-append a b c d hb hc))

-- A line with the number that `float` reads in it.
pub record Timed (F : Type 0) : Type 0 where
  pub printed : Printed
  pub value : F

module _ (fl : Floats) where
  pub record IsTimed (t : Timed fl.Float) : Type 0 where
    pub is_printed : IsPrinted t.printed
    pub is_float : fl.of_text t.printed.time ≡ some t.value

  abbrev pub timed_line : Timed fl.Float → Text
  timed_line t = line t.printed

  -- The row that a line stands for.
  abbrev pub timed_row : Text → ℕ → Timed fl.Float → Row fl.Float
  timed_row variant rep t = query_row fl variant rep (query_name t.printed) t.value

  parse_queries-lines :
      (variant : Text) (rep : ℕ) (ts : List (Timed fl.Float))
      → All IsTimed ts
      → parse_queries fl variant rep (map timed_line ts)
        ≡ yield_all (map (timed_row variant rep) ts)
  unfolding parse_queries
  parse_queries-lines variant rep [] h = refl
  parse_queries-lines variant rep (t ∷ ts) (h, hs) =
      let (m, matched, query, time) = match_at-line t.printed h.is_printed in
      rw matched (rw (time, query) (rw h.is_float (rw (parse_queries-lines variant rep ts hs))))

module _ (fl : Floats) (rep : ℕ) (warm mte cold mte_cold : List (Timed fl.Float)) where
  -- What `run_duckdb` prints of the four passes.
  abbrev pub duckdb_output : Text
  duckdb_output = join_lines (map (timed_line fl) (warm ++ (mte ++ (cold ++ mte_cold))))

  -- The rows that the four passes stand for.
  abbrev pub duckdb_rows : List (Row fl.Float)
  duckdb_rows =
      map (timed_row fl (codes "release") rep) warm
      ++ (map (timed_row fl (codes "release-mte") rep) mte
          ++ (map (timed_row fl (codes "release-cold") rep) cold
              ++ map (timed_row fl (codes "release-mte-cold") rep) mte_cold))

  parse_queries-duckdb :
      All (IsTimed fl) warm
      → All (IsTimed fl) mte
      → All (IsTimed fl) cold
      → All (IsTimed fl) mte_cold
      → (parse_queries fl (codes "release") rep (map (timed_line fl) warm)
          then parse_queries fl (codes "release-mte") rep (map (timed_line fl) mte)
          then parse_queries fl (codes "release-cold") rep (map (timed_line fl) cold)
          then parse_queries fl (codes "release-mte-cold") rep (map (timed_line fl) mte_cold))
        ≡ yield_all duckdb_rows
  parse_queries-duckdb a b c d = rw (parse_queries-lines fl _ rep warm a) (
      rw (parse_queries-lines fl _ rep mte b) (
        rw (parse_queries-lines fl _ rep cold c)
          (rw (parse_queries-lines fl _ rep mte_cold d) (simp yield_all-append))))

IsPrinted-All :
    (fl : Floats) (ts : List (Timed fl.Float))
    → All (IsTimed fl) ts
    → All IsPrinted (map (λ t. t.printed) ts)
IsPrinted-All fl [] h = tt
IsPrinted-All fl (t ∷ ts) (h, hs) = (h.is_printed, IsPrinted-All fl ts hs)

timed-printed :
    (fl : Floats) (ts : List (Timed fl.Float))
    → map line (map (λ t. t.printed) ts) ≡ map (timed_line fl) ts
timed-printed fl [] = refl
timed-printed fl (t ∷ ts) = ap (λ r. timed_line fl t ∷ r) (timed-printed fl ts)

query_lines-timed :
    (fl : Floats) (t : Timed fl.Float) (ts : List (Timed fl.Float))
    → All (IsTimed fl) (t ∷ ts)
    → query_lines (join_lines (map (timed_line fl) (t ∷ ts))) ≡ map (timed_line fl) (t ∷ ts)
query_lines-timed fl t ts h =
    rw (← timed-printed fl (t ∷ ts))
      (query_lines-printed t.printed (map (λ t. t.printed) ts) (IsPrinted-All fl (t ∷ ts) h))

module _ (fl : Floats) (rep : ℕ) (first : Timed fl.Float)
    (warm mte cold mte_cold : List (Timed fl.Float)) where
  abbrev all_warm : List (Timed fl.Float)
  all_warm = first ∷ warm

  abbrev all_lines : List Text
  all_lines =
      map (timed_line fl) all_warm
      ++ (map (timed_line fl) mte ++ (map (timed_line fl) cold ++ map (timed_line fl) mte_cold))

  lines-split : map (timed_line fl) (all_warm ++ (mte ++ (cold ++ mte_cold))) ≡ all_lines
  lines-split = simp map-append

  -- Four passes over the queries, of which the first three took as many queries each, and the last
  -- as many or up to three more, are read back from what was printed of them: each row has the
  -- variant of its pass, and the query and the time that were printed.
  pub parse_duckdb_output-duckdb_output :
      All (IsTimed fl) all_warm
      → All (IsTimed fl) mte
      → All (IsTimed fl) cold
      → All (IsTimed fl) mte_cold
      → length mte ≡ length all_warm
      → length cold ≡ length all_warm
      → length all_warm ≤ length mte_cold
      → length mte_cold < length all_warm + 4
      → parse_duckdb_output fl (duckdb_output fl rep all_warm mte cold mte_cold) rep
        ≡ yield_all (duckdb_rows fl rep all_warm mte cold mte_cold)
  unfolding parse_duckdb_output
  parse_duckdb_output-duckdb_output a b c d hm hc low high =
      ap (λ ls. if ltb (length ls) 4 then done else parse_quarters fl rep (length ls / 4) ls)
        (query_lines-timed fl first (warm ++ (mte ++ (cold ++ mte_cold)))
            (All-append _ all_warm _ a (All-append _ mte _ b (All-append _ cold _ c d)))
          ∙ lines-split)
      ∙ quarters-append fl rep (map (timed_line fl) all_warm) (map (timed_line fl) mte)
          (map (timed_line fl) cold) (map (timed_line fl) mte_cold) (omega arith)
          (simp length-map hm) (simp length-map hc) (simp length-map low) (simp length-map high)
      ∙ parse_queries-duckdb fl rep all_warm mte cold mte_cold a b c d
