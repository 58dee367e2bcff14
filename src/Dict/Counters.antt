-- ===== src/Dict/Counters.antt =====
-- Counters: the sum of the counts, and what holds of all keys.
use memsafedb.Prelude.{ℕ, suc, ◌+◌, ◌≡◌, Bool, [], ◌∷◌, arith, Bool-cases, inl, inr}
use memsafedb.Dict.{Counter, bump, update}

module _ {ℓ} {K : Type ℓ} where
  abbrev pub counter_sum : Counter K → ℕ
  counter_sum [] = 0
  counter_sum ((k, n) ∷ c) = n + counter_sum c

  abbrev pub AllKeys {κ} : (K → Type κ) → Counter K → Type κ
  AllKeys P [] = Unit
  AllKeys P ((k, n) ∷ c) = P k × AllKeys P c

module _ {ℓ} {K : Type ℓ} (eq : K → K → Bool) (k : K) where
  pub counter_sum-bump : (c : Counter K) → counter_sum (bump eq k c) ≡ suc (counter_sum c)
  unfolding bump update
  counter_sum-bump [] = omega arith
  counter_sum-bump ((j, n) ∷ c) = ground (arith, counter_sum-bump c)

  pub AllKeys-bump {κ} :
      (P : K → Type κ) (c : Counter K) → P k → AllKeys P c → AllKeys P (bump eq k c)
  unfolding bump update
  AllKeys-bump P [] p h = (p, tt)
  AllKeys-bump P ((j, n) ∷ c) p (q, h) = elim (Bool-cases (eq j k)) [
    | inl same ↦ rw same (q, h)
    | inr other ↦ rw other (q, AllKeys-bump P c p h)
  ]
