-- ===== src/Prelude/Gen.antt =====
-- What a Python generator does when it is run to its end: it yields rows one after the other, and
-- it returns or raises. A `for` loop over lines that keeps variables and yields is `scan`.
use mathlib.Core.Path.{◌≡◌, refl, ap, ◌∙◌}
use mathlib.Core.List.{List, [], ◌∷◌, ◌++◌}
use memsafedb.Prelude.Lists.{All, length}
use Prim.Native.Nat.{◌+◌, ◌≤◌}
use native.Mathlib.Omega.{arith}

-- `ValueError` of `float`, the one exception that the parsers can meet.
pub data Gen {ℓ} (A : Type ℓ) : Type ℓ where
  done : Gen A
  value_error : Gen A
  yield : A → Gen A → Gen A

module _ {ℓ} {A : Type ℓ} where
  -- One piece of a generator's body, then the next.
  infixr 60 ◌then◌
  abbrev pub ◌then◌ : Gen A → Gen A → Gen A
  done then h = h
  value_error then h = value_error
  yield a g then h = yield a (g then h)

  abbrev pub yield_all : List A → Gen A
  yield_all [] = done
  yield_all (a ∷ as') = yield a (yield_all as')

  -- The rows that have been yielded by the end.
  abbrev pub rows : Gen A → List A
  rows done = []
  rows value_error = []
  rows (yield a g) = a ∷ rows g

  abbrev pub AllRows {κ} : (A → Type κ) → Gen A → Type κ
  AllRows P g = All P (rows g)

  pub then_assoc : (f g h : Gen A) → ((f then g) then h) ≡ (f then (g then h))
  then_assoc done g h = refl
  then_assoc value_error g h = refl
  then_assoc (yield a f) g h = ap (yield a) (then_assoc f g h)

  pub then-done : (g : Gen A) → (g then done) ≡ g
  then-done done = refl
  then-done value_error = refl
  then-done (yield a g) = ap (yield a) (then-done g)

-- The rows of the second part come only if the first returns.
pub rows-then-le {ℓ} :
    {A : Type ℓ} (g h : Gen A) → length (rows (g then h)) ≤ length (rows g) + length (rows h)
rows-then-le done h = omega arith
rows-then-le value_error h = omega arith
rows-then-le (yield a g) h = omega (arith, rows-then-le g h)

pub yield_all-append {ℓ} :
    {A : Type ℓ} (xs ys : List A) → (yield_all xs then yield_all ys) ≡ yield_all (xs ++ ys)
yield_all-append [] ys = refl
yield_all-append (x ∷ xs) ys = ap (yield x) (yield_all-append xs ys)

module _ {ℓ κ} {A : Type ℓ} (P : A → Type κ) where
  pub AllRows-then : (g h : Gen A) → AllRows P g → AllRows P h → AllRows P (g then h)
  AllRows-then done h p q = q
  AllRows-then value_error h p q = tt
  AllRows-then (yield a g) h (p, ps) q = (p, AllRows-then g h ps q)

-- The loop: `step` is the body, from the variables and a line to the new variables and the rows.
module _ {ℓ κ μ} {S : Type ℓ} {L : Type κ} {A : Type μ} (step : S → L → Gen A × S) where
  unfoldable pub scan : S → List L → Gen A
  scan s [] = done
  scan s (l ∷ ls) = (step s l).0 then scan (step s l).1 ls

  -- The variables after the loop.
  unfoldable pub scan_state : S → List L → S
  scan_state s [] = s
  scan_state s (l ∷ ls) = scan_state (step s l).1 ls

  pub scan-append :
      (s : S) (xs ys : List L) → scan s (xs ++ ys) ≡ (scan s xs then scan (scan_state s xs) ys)
  unfolding scan scan_state
  scan-append s [] ys = refl
  scan-append s (x ∷ xs) ys = rw (scan-append (step s x).1 xs ys) (rw then_assoc)

  pub scan_state-append :
      (s : S) (xs ys : List L) → scan_state s (xs ++ ys) ≡ scan_state (scan_state s xs) ys
  unfolding scan_state
  scan_state-append s [] ys = refl
  scan_state-append s (x ∷ xs) ys = scan_state-append (step s x).1 xs ys

  -- Where the first line sets every variable that matters, what came before it does not show.
  pub scan-restart :
      (s t : S) (xs : List L) (y : L) (ys : List L)
      → step (scan_state s xs) y ≡ step t y
      → scan s (xs ++ (y ∷ ys)) ≡ (scan s xs then scan t (y ∷ ys))
  unfolding scan scan_state
  scan-restart s t xs y ys e =
      scan-append s xs (y ∷ ys) ∙ ap (λ r. scan s xs then (r.0 then scan r.1 ys)) e
