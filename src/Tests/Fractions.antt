-- ===== src/Tests/Fractions.antt =====
-- Exact fractions in the place of floats, for tests.
use memsafedb.Prelude.{
  ℕ, ◌+◌, ◌-◌, ◌*◌, ◌/◌, ◌%◌, Bool, true, false, Option, none, some, [], ◌∷◌, ◌++◌, ◌==◌,
  if◌then◌else◌,
}
use memsafedb.Text.{Text, codes, show}
use memsafedb.Rows.{Floats}

pub record Fraction : Type 0 where
  pub numerator : ℕ
  pub denominator : ℕ

abbrev pub frac : ℕ → ℕ → Fraction
frac n d = record { numerator = n; denominator = d }

-- The digits after the point, at least one before or after it.
abbrev decimals : ℕ → ℕ → Bool → Text → Option Fraction
decimals n d seen [] = if seen then some (frac n d) else none
decimals n d seen (c ∷ t) =
    if c == b'.' then none else decimals (n * 10 + (c - b'0')) (d * 10) true t

abbrev decimal : ℕ → Bool → Text → Option Fraction
decimal n seen [] = if seen then some (frac n 1) else none
decimal n seen (c ∷ t) =
    let rest = decimal (n * 10 + (c - b'0')) true t in
    if c == b'.' then decimals n 1 seen t else rest

abbrev pub fractions : Floats
fractions = record {
  Float = Fraction;
  of_text = decimal 0 false;
  zero = frac 0 1;
  add = λ x y.
      frac (x.numerator * y.denominator + y.numerator * x.denominator)
        (x.denominator * y.denominator);
  times = λ n x. frac (n * x.numerator) x.denominator;
  over = λ x n. frac x.numerator (x.denominator * n);
  ratio = frac;
  fixed3 = λ x.
      let m = x.numerator * 1000 / x.denominator in
      show (m / 1000) ++ (codes "." ++ show (m % 1000));
}
