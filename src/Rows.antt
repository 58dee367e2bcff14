-- ===== src/Rows.antt =====
-- The metric rows that the parsers of dbms/benchmark yield. Python's floats are a parameter: the
-- type, and the operations on it that the parsers use.
use memsafedb.Prelude.{ℕ, Option, none, some, [], ◌∷◌}
use memsafedb.Prelude.Gen.{Gen, value_error}
use memsafedb.Text.{Text}

pub record Floats : Type 1 where
  pub Float : Type 0
  -- `float(s)`, `none` where it raises `ValueError`
  pub of_text : Text → Option Float
  pub zero : Float
  pub add : Float → Float → Float
  -- `n * x`, `x / n` and `m / n` at integers
  pub times : ℕ → Float → Float
  pub over : Float → ℕ → Float
  pub ratio : ℕ → ℕ → Float
  -- `f"{x:.3f}"`
  pub fixed3 : Float → Text

pub data Value (F : Type 0) : Type 0 where
  number : F → Value F
  text : Text → Value F

pub record Row (F : Type 0) : Type 0 where
  pub database : Text
  pub variant : Text
  pub benchmark : Text
  pub workload : Text
  pub metric_name : Text
  pub metric_value : Value F
  pub unit : Text
  pub repetition : ℕ

-- A metric name with its unit.
pub record Metric : Type 0 where
  pub name : Text
  pub unit : Text

abbrev pub or_value_error {ℓ κ} : {F : Type ℓ} {A : Type κ} → Option F → (F → Gen A) → Gen A
or_value_error none body = value_error
or_value_error (some x) body = body x

-- A `float(s)` in a generator's body, and the rest of the body.
abbrev pub with_float {ℓ} : (fl : Floats) {A : Type ℓ} → Text → (fl.Float → Gen A) → Gen A
with_float fl s body = or_value_error (fl.of_text s) body

-- The truth of a `str` that may be `None`: there, and not empty.
abbrev pub given : Option Text → Option Text
given none = none
given (some []) = none
given (some (c ∷ t)) = some (c ∷ t)
