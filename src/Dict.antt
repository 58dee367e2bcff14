-- ===== src/Dict.antt =====
-- Python's dicts and sets as lists, in the order of insertion, over a Boolean equality of keys.
pub mod Counters
pub mod Members
use memsafedb.Prelude.{
  ℕ, zero, suc, Bool, true, false, ◌||◌, Option, none, some, List, [], ◌∷◌, if◌then◌else◌,
}

module _ {ℓ} {K : Type ℓ} (eq : K → K → Bool) where
  -- `k in s`
  unfoldable pub member : K → List K → Bool
  member k [] = false
  member k (j ∷ js) = eq j k || member k js

  -- `s.add(k)`
  unfoldable pub add : K → List K → List K
  add k [] = k ∷ []
  add k (j ∷ js) = if eq j k then j ∷ js else j ∷ add k js

module _ {ℓ κ} {K : Type ℓ} {V : Type κ} (eq : K → K → Bool) where
  -- `d.get(k)`
  unfoldable pub lookup : K → List (K × V) → Option V
  lookup k [] = none
  lookup k ((j, v) ∷ d) = if eq j k then some v else lookup k d

  -- `d[k] = f(d[k])` of a `defaultdict` with that default
  unfoldable pub update : V → K → (V → V) → List (K × V) → List (K × V)
  update default k f [] = (k, f default) ∷ []
  update default k f ((j, v) ∷ d) = if eq j k then (j, f v) ∷ d else (j, v) ∷ update default k f d

abbrev pub Counter {ℓ} : Type ℓ → Type ℓ
Counter K = List (K × ℕ)

-- `c[k] += 1`
unfoldable pub bump {ℓ} : {K : Type ℓ} → (K → K → Bool) → K → Counter K → Counter K
unfolding update
bump eq k c = update eq 0 k suc c
