-- ===== src/Regex/Runs.antt =====
-- A greedy run of one class that ends at a character outside of it: it takes the whole run.
use mathlib.Core.Path.{subst}
use memsafedb.Prelude.{
  append-nil, List, ℕ, zero, suc, ◌+◌, ◌-◌, ◌<◌, ◌≡◌, refl, ◌∙◌, ap, Bool, true, false, Option,
  none, some, if◌then◌else◌, [], ◌∷◌, ◌++◌, arith, ◌==◌, length, length-append, take-append_self,
  All,
}
use memsafedb.Text.{Text}
use memsafedb.Regex.Defs.{char, group, plus, State, eat, star_loop, run, between}

-- The class fails at the front of the text.
abbrev pub Stops : (ℕ → Bool) → Text → Type 0
Stops p [] = Unit
Stops p (c ∷ t) = p c ≡ false

abbrev pub AllIn : (ℕ → Bool) → Text → Type 0
AllIn p = All (λ c. p c ≡ true)

abbrev pub before_text : State → Text → State
before_text s t = record s { rest = t }

-- The state after a run of characters, at the text that follows them.
pub after : Text → Text → State → State
after [] t s = before_text s t
after (d ∷ ds) t s = after ds t (eat d (ds ++ t) s)

pub rest-after : (ds t : Text) (s : State) → (after ds t s).rest ≡ t
unfolding after
rest-after [] t s = refl
rest-after (d ∷ ds) t s = rest-after ds t _

pub groups-after : (ds t : Text) (s : State) → (after ds t s).groups ≡ s.groups
unfolding after
groups-after [] t s = refl
groups-after (d ∷ ds) t s = groups-after ds t _

suc-ne_self : (n : ℕ) → (suc n == n) ≡ false
suc-ne_self n = ground arith

star_loop-Stops :
    (p : ℕ → Bool) (n : ℕ) (t : Text) (s : State) (k : State → Option State)
    → Stops p t
    → star_loop (run (char p)) n (before_text s t) k ≡ k (before_text s t)
unfolding run
star_loop-Stops p zero t s k h = refl
star_loop-Stops p (suc n) [] s k h = refl
star_loop-Stops p (suc n) (c ∷ t) s k h = rw h

pub star_loop-run :
    (p : ℕ → Bool) (n : ℕ) (ds t : Text) (s : State) (k : State → Option State) {r : State}
    → AllIn p ds
    → Stops p t
    → length ds < n
    → k (after ds t s) ≡ some r
    → star_loop (run (char p)) n (before_text s (ds ++ t)) k ≡ some r
unfolding run after
star_loop-run p n [] t s k all stops h e = star_loop-Stops p n t s k stops ∙ e
star_loop-run p zero (d ∷ ds) t s k all stops h e = elim h [ ]
star_loop-run p (suc n) (d ∷ ds) t s k (pd, all) stops h e =
    rw pd
      (rw suc-ne_self (rw (star_loop-run p n ds t (eat d (ds ++ t) s) k all stops (omega arith) e)))

pub between-append : (ds t : Text) → between (ds ++ t) t ≡ ds
between-append ds t = rw (length-append ds t) (
    rw (let e : length ds + length t - length t ≡ length ds = omega arith in e)
      (take-append_self ds t))

-- The same state, with the fields that later parts of a pattern read written out.
abbrev pub moved : Text → Text → State → State
moved ds t s = record {
  at = (after ds t s).at;
  before = (after ds t s).before;
  rest = t;
  groups = s.groups;
}

after-eq-moved : (ds t : Text) (s : State) → after ds t s ≡ moved ds t s
after-eq-moved ds t s = λ i. record {
  at = (after ds t s).at;
  before = (after ds t s).before;
  rest = rest-after ds t s i;
  groups = groups-after ds t s i;
}

-- One or more: the first character of the class is there.
plus-run_at :
    (p : ℕ → Bool) (ds t : Text) (s : State) (k : State → Option State) {r : State}
    → AllIn p ds
    → 0 < length ds
    → Stops p t
    → k (moved ds t s) ≡ some r
    → run (plus (char p)) (before_text s (ds ++ t)) k ≡ some r
unfolding run
plus-run_at p [] t s k all h stops e = absurd (omega arith)
plus-run_at p (d ∷ ds) t s k (pd, all) h stops e = rw pd (
    star_loop-run p (suc (length (ds ++ t))) ds t (eat d (ds ++ t) s) k all stops
      (omega (arith, length-append ds t)) (unfold after in ap k (after-eq-moved (d ∷ ds) t s) ∙ e))

-- A state by its fields, for the lemmas that patterns apply.
abbrev pub point : ℕ → Option ℕ → List (ℕ × Text) → State
point at before gs = record { at = at; before = before; rest = []; groups = gs }

module _ (at : ℕ) (b : Option ℕ) (gs : List (ℕ × Text)) (p : ℕ → Bool) where
  pub plus-run :
      (ds t : Text) (k : State → Option State) {r : State}
      → AllIn p ds
      → 0 < length ds
      → Stops p t
      → k (moved ds t (point at b gs)) ≡ some r
      → run (plus (char p)) (before_text (point at b gs) (ds ++ t)) k ≡ some r
  plus-run ds t k all h stops e = plus-run_at p ds t (point at b gs) k all h stops e

  -- The same in a group, which then holds the run.
  pub group_plus-run :
      (n : ℕ) (ds t : Text) (k : State → Option State) {r : State}
      → AllIn p ds
      → 0 < length ds
      → Stops p t
      → k (record (moved ds t (point at b gs)) { groups = (n, ds) ∷ gs }) ≡ some r
      → run (group n (plus (char p))) (before_text (point at b gs) (ds ++ t)) k ≡ some r
  group_plus-run n ds t k all h stops e =
      unfold run in
      (plus-run ds t (λ s'. k (record s' { groups = (n, between (ds ++ t) s'.rest) ∷ s'.groups }))
        all h stops (rw (between-append ds t) e))

  -- A run up to the end of the text.
  pub plus-run_end :
      (ds : Text) (k : State → Option State) {r : State}
      → AllIn p ds
      → 0 < length ds
      → k (moved ds [] (point at b gs)) ≡ some r
      → run (plus (char p)) (before_text (point at b gs) ds) k ≡ some r
  plus-run_end ds k {r} all h e =
      subst (λ w. run (plus (char p)) (before_text (point at b gs) w) k ≡ some r) (append-nil ds)
        (plus-run ds [] k all h tt e)

  pub group_plus-run_end :
      (n : ℕ) (ds : Text) (k : State → Option State) {r : State}
      → AllIn p ds
      → 0 < length ds
      → k (record (moved ds [] (point at b gs)) { groups = (n, ds) ∷ gs }) ≡ some r
      → run (group n (plus (char p))) (before_text (point at b gs) ds) k ≡ some r
  group_plus-run_end n ds k {r} all h e =
      subst (λ w. run (group n (plus (char p))) (before_text (point at b gs) w) k ≡ some r)
        (append-nil ds) (group_plus-run n ds [] k all h tt e)

-- A character of the class, where the matcher has come to it.
pub when_true :
    {A : Type 0} (b : Bool) (x : Option A) {r : A}
    → b ≡ true
    → x ≡ some r
    → (if b then x else none) ≡ some r
when_true b x h e = rw h e
