-- ===== src/Parsers/Duckdb/RoundTrip.antt =====
-- What `run_duckdb` prints of four passes is read back as it was.
use memsafedb.Prelude.{
  ℕ, ◌≡◌, refl, Bool, true, false, not, List, [], ◌∷◌, map, arith, ◌==◌, keep, All, All-append,
}
use memsafedb.Text.{Text, is_space, is_digit, is_empty, strip, join_lines, newline}
use memsafedb.Text.Laws.{
  IsLine, EndsIn, EndsIn-append, EndsIn-AllIn, EndsIn-join_lines, strip_id, split_on-join_lines,
}
use memsafedb.Regex.{is_number_char, match_at}
use memsafedb.Regex.Runs.{AllIn}
use memsafedb.Parsers.Duckdb.{query_line, query_lines, is_match}
use memsafedb.Parsers.Duckdb.Lines.{Printed, IsPrinted, line, query_name, is_match-line}

number-no_space : (c : ℕ) → is_number_char c ≡ true → is_space c ≡ false
unfolding is_digit is_space
number-no_space c h = ground arith

number-no_newline : (c : ℕ) → is_number_char c ≡ true → (c == newline) ≡ false
unfolding is_digit
number-no_newline c h = ground arith

digit-no_newline : (c : ℕ) → is_digit c ≡ true → (c == newline) ≡ false
unfolding is_digit
digit-no_newline c h = ground arith

IsLine-AllIn :
    (p : ℕ → Bool)
    → ((c : ℕ) → p c ≡ true → (c == newline) ≡ false)
    → (s : Text) → AllIn p s
    → IsLine s
IsLine-AllIn p h [] all = tt
IsLine-AllIn p h (c ∷ s) (pc, all) = (h c pc, IsLine-AllIn p h s all)

EndsIn-line : (r : Printed) → IsPrinted r → EndsIn (line r)
EndsIn-line r h = EndsIn-append (query_name r) (b',' ∷ r.time) (
    EndsIn-append (b',' ∷ []) r.time
      (EndsIn-AllIn is_number_char number-no_space r.time h.time_number h.time_some))

IsLine-line : (r : Printed) → IsPrinted r → IsLine (line r)
IsLine-line r h = (
  refl,
  All-append _ r.query (b',' ∷ r.time)
      (IsLine-AllIn is_digit digit-no_newline r.query h.query_digits)
      (refl, IsLine-AllIn is_number_char number-no_newline r.time h.time_number),
)

abbrev printed_lines : List Printed → List Text
printed_lines = map line

starts_q :
    (r : Printed) (rs : List Printed)
    → (t : Text) × (join_lines (printed_lines (r ∷ rs)) ≡ b'q' ∷ t)
unfolding join_lines
starts_q r [] = (_, refl)
starts_q r (k ∷ rs) = (_, refl)

All-lines :
    (P : Text → Type 0)
    → ((r : Printed) → IsPrinted r → P (line r))
    → (rs : List Printed) → All IsPrinted rs
    → All P (printed_lines rs)
All-lines P f [] h = tt
All-lines P f (r ∷ rs) (h, hs) = (f r h, All-lines P f rs hs)

strip-line : (r : Printed) → IsPrinted r → strip (line r) ≡ line r
strip-line r h = strip_id (line r) (unfold is_space in refl) (EndsIn-line r h)

kept_lines :
    (rs : List Printed)
    → All IsPrinted rs
    → keep
        (λ l. is_match (match_at query_line l))
        (keep (λ l. not (is_empty l)) (map strip (printed_lines rs)))
      ≡ printed_lines rs
kept_lines [] h = refl
kept_lines (r ∷ rs) (h, hs) = rw (strip-line r h) (rw (is_match-line r h) (rw (kept_lines rs hs)))

strip-printed :
    (r : Printed) (rs : List Printed)
    → All IsPrinted (r ∷ rs)
    → strip (join_lines (printed_lines (r ∷ rs))) ≡ join_lines (printed_lines (r ∷ rs))
strip-printed r rs h =
    strip_id _ (rw (starts_q r rs).1 (unfold is_space in refl))
      (EndsIn-join_lines (line r) (printed_lines rs) (All-lines _ EndsIn-line (r ∷ rs) h))

-- The lines of the output that the parser keeps are those that were printed.
pub query_lines-printed :
    (r : Printed) (rs : List Printed)
    → All IsPrinted (r ∷ rs)
    → query_lines (join_lines (map line (r ∷ rs))) ≡ map line (r ∷ rs)
unfolding query_lines
query_lines-printed r rs h = rw (strip-printed r rs h) (
    rw (split_on-join_lines (line r) (printed_lines rs) (All-lines _ IsLine-line (r ∷ rs) h))
      (kept_lines (r ∷ rs) h))
