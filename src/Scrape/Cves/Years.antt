-- ===== src/Scrape/Cves/Years.antt =====
-- The year in the name of a CVE's file.
use memsafedb.Prelude.{
  ℕ, zero, suc, ◌+◌, ◌/◌, ◌%◌, ◌<◌, ◌≡◌, refl, ap, ◌∙◌, Bool, true, false, not, some, List, [], ◌∷◌,
  ◌++◌, leb, ltb, ◌==◌, Bool-cases, inl, inr, arith,
}
use memsafedb.Text.Laws.{Starts, EndsIn-AllIn, strip_id}
use memsafedb.Text.{
  Text, codes, is_space, is_digit, show, digits_onto, split_on, strip, starts_with,
}
use memsafedb.Text.Digits.{show-digits, show-some, AllDigits}
use memsafedb.Scrape.Cves.{int_digits, unsigned, year_of_parts, recent}

not_dash : (c : ℕ) → is_digit c ≡ true → (c == b'-') ≡ false
unfolding is_digit
not_dash c h = ground arith

not_plus : (c : ℕ) → is_digit c ≡ true → (c == b'+') ≡ false
unfolding is_digit
not_plus c h = ground arith

split_on-digits : (s t : Text) → AllDigits s → split_on b'-' (s ++ (b'-' ∷ t)) ≡ s ∷ split_on b'-' t
unfolding split_on
split_on-digits [] t h = refl
split_on-digits (c ∷ s) t (d, h) = rw (not_dash c d) (rw (split_on-digits s t h) refl)

digit_is : (m : ℕ) → m < 10 → is_digit (b'0' + m) ≡ true
unfolding is_digit
digit_is m h = ground arith

-- A number is read back, whatever stands behind it.
int_digits-digits_onto :
    (fuel n : ℕ) (acc : Text) (after_digit : Bool)
    → n < fuel
    → int_digits after_digit 0 (digits_onto fuel n acc) ≡ int_digits true n acc
unfolding int_digits digits_onto
int_digits-digits_onto zero n acc b h = absurd (omega arith)
int_digits-digits_onto (suc fuel) n acc b h =
    let rest = int_digits-digits_onto fuel (n / 10) ((b'0' + n % 10) ∷ acc) b in
    elim (Bool-cases (leb n 9)) [
      | inl small ↦
          rw small (rw (digit_is n (ground arith)) (ap (λ m. int_digits true m acc) (omega arith)))
      | inr large ↦ rw large (
          rest (ground arith)
          ∙ rw (digit_is (n % 10) (omega arith)) (ap (λ m. int_digits true m acc) (omega arith)))
    ]

int_digits-show : (n : ℕ) → int_digits false 0 (show n) ≡ some n
unfolding show int_digits
int_digits-show n = int_digits-digits_onto (suc n) n [] false (omega arith)

unsigned-digits : (s : Text) → AllDigits s → unsigned s ≡ s
unsigned-digits [] h = refl
unsigned-digits (c ∷ s) (d, h) = rw (not_plus c d) refl

digit-no_space : (c : ℕ) → is_digit c ≡ true → is_space c ≡ false
unfolding is_digit is_space
digit-no_space c h = ground arith

Starts-digits : (s : Text) → AllDigits s → Starts s
Starts-digits [] h = tt
Starts-digits (c ∷ s) (d, h) = digit-no_space c d

strip-show : (n : ℕ) → strip (show n) ≡ show n
strip-show n =
    strip_id (show n) (Starts-digits (show n) (show-digits n))
      (EndsIn-AllIn is_digit digit-no_space (show n) (show-digits n) (show-some n))

-- A text that the splitting does not end in nothing.
split_on-cve :
    (s t : Text)
    → AllDigits s
    → split_on b'-' (codes "CVE-" ++ (s ++ (b'-' ∷ t))) ≡ codes "CVE" ∷ s ∷ split_on b'-' t
unfolding split_on
split_on-cve s t h = rw (split_on-digits s t h) refl

year_of_parts-show :
    (n : ℕ) (ps : List Text) → year_of_parts (codes "CVE" ∷ show n ∷ ps) ≡ not (ltb n 2015)
year_of_parts-show n ps =
    rw (strip-show n, unsigned-digits (show n) (show-digits n), int_digits-show n) refl

-- A file whose name begins with `CVE-`, a year and a dash is looked into exactly if the year is not
-- before 2015, whatever stands behind the dash.
pub recent-year :
    (year : ℕ) (rest : Text)
    → recent (codes "CVE-" ++ (show year ++ (b'-' ∷ rest))) ≡ not (ltb year 2015)
unfolding recent starts_with
recent-year year rest =
    rw (split_on-cve (show year) rest (show-digits year))
      (year_of_parts-show year (split_on b'-' rest))
