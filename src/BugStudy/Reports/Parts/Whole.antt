-- ===== src/BugStudy/Reports/Parts/Whole.antt =====
-- The parts hold the whole list, are none of them empty, and are at most three.
use memsafedb.Prelude.{
  ℕ, zero, suc, ◌+◌, ◌*◌, ◌≤◌, ◌<◌, ◌≡◌, refl, ap, ◌∙◌, List, [], ◌∷◌, ◌++◌, All, take, drop,
  length, length-take, length-drop, take-append-drop, arith,
}
use memsafedb.BugStudy.Reports.Parts.{slices, chunk_size, chunks}

module _ {ℓ} {A : Type ℓ} where
  abbrev pub flatten : List (List A) → List A
  flatten [] = []
  flatten (xs ∷ xss) = xs ++ flatten xss

  slices-flatten :
      (fuel n : ℕ) (xs : List A) → 0 < n → length xs ≤ fuel → flatten (slices fuel n xs) ≡ xs
  unfolding slices
  slices-flatten zero n [] p h = refl
  slices-flatten zero n (x ∷ xs) p h = absurd (omega arith)
  slices-flatten (suc fuel) n [] p h = refl
  slices-flatten (suc fuel) n (x ∷ xs) p h =
      ap (λ r. take n (x ∷ xs) ++ r)
        (slices-flatten fuel n (drop n (x ∷ xs)) p (omega (arith, length-drop n (x ∷ xs))))
      ∙ take-append-drop n (x ∷ xs)

  length-slices : (fuel n k : ℕ) (xs : List A) → length xs ≤ k * n → length (slices fuel n xs) ≤ k
  unfolding slices
  length-slices zero n k xs h = omega arith
  length-slices (suc fuel) n k [] h = omega arith
  length-slices (suc fuel) n zero (x ∷ xs) h =
      let z : 0 * n ≡ 0 = omega arith in absurd (omega arith)
  length-slices (suc fuel) n (suc k) (x ∷ xs) h =
      omega (arith, length-slices fuel n k (drop n (x ∷ xs)) (shorter))
    where
      shorter : length (drop n (x ∷ xs)) ≤ k * n
      shorter = let m : suc k * n ≡ n + k * n = grind arith in omega (arith, length-drop n (x ∷ xs))

  -- A part that is neither empty nor longer than the size.
  abbrev IsPart : ℕ → List A → Type 0
  IsPart n part = (0 < length part) × (length part ≤ n)

  slices-IsPart : (fuel n : ℕ) (xs : List A) → 0 < n → All (IsPart n) (slices fuel n xs)
  unfolding slices
  slices-IsPart zero n xs p = tt
  slices-IsPart (suc fuel) n [] p = tt
  slices-IsPart (suc fuel) n (x ∷ xs) p = (
    (omega (arith, length-take n (x ∷ xs)), omega (arith, length-take n (x ∷ xs))),
    slices-IsPart fuel n (drop n (x ∷ xs)) p,
  )

  -- The list cut in parts.
  pub record AreParts (xs : List A) (parts : List (List A)) : Type ℓ where
    pub whole : flatten parts ≡ xs
    pub three : length parts ≤ 3
    pub each : All (IsPart (chunk_size xs)) parts

  pub chunks-AreParts : (xs : List A) → AreParts xs (chunks xs)
  unfolding chunks slices chunk_size
  chunks-AreParts [] = record { whole = refl; three = omega arith; each = tt }
  chunks-AreParts (x ∷ xs) = record {
    whole = slices-flatten (length (x ∷ xs)) (chunk_size (x ∷ xs)) (x ∷ xs) positive (omega arith);
    three = length-slices (length (x ∷ xs)) (chunk_size (x ∷ xs)) 3 (x ∷ xs) enough;
    each = slices-IsPart (length (x ∷ xs)) (chunk_size (x ∷ xs)) (x ∷ xs) positive;
  }
    where
      positive : 0 < chunk_size (x ∷ xs)
      positive = omega arith

      enough : length (x ∷ xs) ≤ 3 * chunk_size (x ∷ xs)
      enough = omega arith
