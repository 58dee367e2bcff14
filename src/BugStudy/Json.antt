-- ===== src/BugStudy/Json.antt =====
-- The values that `json.loads` returns, and what Python's `bool`, `==` and `get` say of them.
use memsafedb.Prelude.{
  ℕ, ◌*◌, ◌^◌, Bool, true, false, not, ◌&&◌, ◌||◌, Option, none, some, ◌==◌, if◌then◌else◌,
}
use memsafedb.Text.{Text, is_empty, text_eq}

mutual
  pub data Json : Type 0 where
    null : Json
    bool : Bool → Json
    -- a decimal: is it negative, its digits, and how many of them stand behind the point
    num : Bool → ℕ → ℕ → Json
    str : Text → Json
    array : Items → Json
    object : Fields → Json

  pub data Items : Type 0 where
    nil : Items
    item : Json → Items → Items

  pub data Fields : Type 0 where
    end : Fields
    field : Text → Json → Fields → Fields

-- `bool(v)`
unfoldable pub truthy : Json → Bool
truthy null = false
truthy (bool b) = b
truthy (num negative digits places) = not (digits == 0)
truthy (str t) = not (is_empty t)
truthy (array nil) = false
truthy (array (item v vs)) = true
truthy (object end) = false
truthy (object (field k v fs)) = true

abbrev num_eq : Bool → ℕ → ℕ → Bool → ℕ → ℕ → Bool
num_eq neg m i neg' n j = m * 10 ^ j == n * 10 ^ i && (m == 0 || (if neg then neg' else not neg'))

abbrev from_bool : Bool → ℕ
from_bool true = 1
from_bool false = 0

-- `v == w` of two hashable values: a `bool` is a number.
unfoldable pub key_eq : Json → Json → Bool
unfolding text_eq
key_eq null null = true
key_eq (bool a) (bool b) = num_eq false (from_bool a) 0 false (from_bool b) 0
key_eq (bool a) (num neg n j) = num_eq false (from_bool a) 0 neg n j
key_eq (num neg m i) (bool b) = num_eq neg m i false (from_bool b) 0
key_eq (num neg m i) (num neg' n j) = num_eq neg m i neg' n j
key_eq (str s) (str t) = text_eq s t
key_eq _ _ = false

abbrev pub hashable : Json → Bool
hashable (array vs) = false
hashable (object fs) = false
hashable _ = true

-- `d.get(k)`
unfoldable pub get : Text → Fields → Option Json
unfolding text_eq
get k end = none
get k (field j v fs) = if text_eq j k then some v else get k fs

abbrev or_default : Json → Option Json → Json
or_default d none = d
or_default d (some v) = v

-- `d.get(k, default)`
unfoldable pub get_or : Text → Json → Fields → Json
unfolding get
get_or k default fs = or_default default (get k fs)
