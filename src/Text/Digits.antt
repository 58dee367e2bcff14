-- ===== src/Text/Digits.antt =====
-- A printed number: digits, at least one.
use memsafedb.Prelude.{
  ℕ, zero, suc, ◌+◌, ◌/◌, ◌%◌, ◌<◌, ◌≤◌, ◌≡◌, true, [], ◌∷◌, arith, leb, Bool-cases, inl, inr, All,
  length,
}
use memsafedb.Text.{Text, is_digit, show, digits_onto}

abbrev pub AllDigits : Text → Type 0
AllDigits = All (λ c. is_digit c ≡ true)

digit_of : (n : ℕ) → n < 10 → is_digit (b'0' + n) ≡ true
unfolding is_digit
digit_of n h = ground arith

digits_onto-digits : (fuel n : ℕ) (acc : Text) → AllDigits acc → AllDigits (digits_onto fuel n acc)
unfolding digits_onto
digits_onto-digits zero n acc h = h
digits_onto-digits (suc fuel) n acc h =
    let more =
      digits_onto-digits fuel (n / 10) ((b'0' + n % 10) ∷ acc)
        (digit_of (n % 10) (omega arith), h) in
    elim (Bool-cases (leb n 9)) [
      | inl small ↦ rw small (digit_of n (ground arith), h)
      | inr large ↦ rw large more
    ]

digits_onto-length : (fuel n : ℕ) (acc : Text) → length acc ≤ length (digits_onto fuel n acc)
unfolding digits_onto
digits_onto-length zero n acc = omega arith
digits_onto-length (suc fuel) n acc =
    let more = digits_onto-length fuel (n / 10) ((b'0' + n % 10) ∷ acc) in
    elim (Bool-cases (leb n 9)) [
      | inl small ↦ rw small (omega arith)
      | inr large ↦ rw large (omega arith)
    ]

pub show-digits : (n : ℕ) → AllDigits (show n)
unfolding show
show-digits n = digits_onto-digits (suc n) n [] tt

pub show-some : (n : ℕ) → 0 < length (show n)
unfolding show digits_onto
show-some n =
    let more = digits_onto-length n (n / 10) ((b'0' + n % 10) ∷ []) in
    elim (Bool-cases (leb n 9)) [
      | inl small ↦ rw small (omega arith)
      | inr large ↦ rw large (omega arith)
    ]
