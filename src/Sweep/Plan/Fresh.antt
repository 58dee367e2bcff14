-- ===== src/Sweep/Plan/Fresh.antt =====
-- The points of a list whose keys do not come earlier in it.
use memsafedb.Prelude.{
  Sublist, empty, taken, left_out, ℕ, ◌≡◌, refl, true, false, ◌||◌, ◌==◌, none, some, List, [], ◌∷◌,
  map, All, arith, if◌then◌else◌,
}
use memsafedb.Text.Laws.{text_eq_refl}
use memsafedb.Sweep.Specs.{Host, Persistence}
use memsafedb.Sweep.Plan.{Key, persistence_eq, key_eq, seen_in, key_of}

pub record Point : Type 0 where
  pub host : Host
  pub threads : ℕ
  pub working_set : ℕ
  pub persistence : Persistence

abbrev pub key_at : Point → Key
key_at p = key_of p.host p.threads p.working_set p.persistence

-- The points of a list whose key does not come earlier.
unfoldable pub fresh_points : List Key → List Point → List Point
fresh_points seen [] = []
fresh_points seen (p ∷ ps) =
    if seen_in (key_at p) seen then fresh_points seen ps else p ∷ fresh_points (key_at p ∷ seen) ps

abbrev pub Distinct : List Key → Type 0
Distinct [] = Unit
Distinct (k ∷ ks) = All (λ j. key_eq k j ≡ false) ks × Distinct ks

-- Which points the keys leave.
pub fresh_points-Sublist : (seen : List Key) (ps : List Point) → Sublist (fresh_points seen ps) ps
unfolding fresh_points
fresh_points-Sublist seen [] = empty
fresh_points-Sublist seen (p ∷ ps) =
    (elim (seen_in (key_at p) seen)
      as (λ b.
        Sublist (if b then fresh_points seen ps else p ∷ fresh_points (key_at p ∷ seen) ps)
          (p ∷ ps)) [
            | true ↦ left_out p (fresh_points-Sublist seen ps)
            | false ↦ taken p (fresh_points-Sublist (key_at p ∷ seen) ps)
          ])

abbrev Unseen : List Key → Key → Type 0
Unseen seen k = seen_in k seen ≡ false

Unseen-tail : (k : Key) (seen ks : List Key) → All (Unseen (k ∷ seen)) ks → All (Unseen seen) ks
unfolding seen_in
Unseen-tail k seen [] h = tt
Unseen-tail k seen (j ∷ ks) (p, h) = (ground arith, Unseen-tail k seen ks h)

Unseen-head :
    (k : Key) (seen ks : List Key) → All (Unseen (k ∷ seen)) ks → All (λ j. key_eq k j ≡ false) ks
unfolding seen_in
Unseen-head k seen [] h = tt
Unseen-head k seen (j ∷ ks) (p, h) = (ground arith, Unseen-head k seen ks h)

fresh_points-Unseen :
    (seen : List Key) (ps : List Point) → All (Unseen seen) (map key_at (fresh_points seen ps))
unfolding fresh_points
fresh_points-Unseen seen [] = tt
fresh_points-Unseen seen (p ∷ ps) =
    (elim (seen_in (key_at p) seen)
        as (λ b.
          seen_in (key_at p) seen ≡ b
          → All (Unseen seen) (
              map key_at
                (if b then fresh_points seen ps else p ∷ fresh_points (key_at p ∷ seen) ps))) [
                  | true ↦ λ e. fresh_points-Unseen seen ps
                  | false ↦ λ e.
                      (e, Unseen-tail (key_at p) seen _ (fresh_points-Unseen (key_at p ∷ seen) ps))
                ])
      refl

pub fresh_points-Distinct :
    (seen : List Key) (ps : List Point) → Distinct (map key_at (fresh_points seen ps))
unfolding fresh_points
fresh_points-Distinct seen [] = tt
fresh_points-Distinct seen (p ∷ ps) =
    (elim (seen_in (key_at p) seen)
      as (λ b.
        Distinct (
          map key_at (if b then fresh_points seen ps else p ∷ fresh_points (key_at p ∷ seen) ps))) [
            | true ↦ fresh_points-Distinct seen ps
            | false ↦ (
              Unseen-head (key_at p) seen _ (fresh_points-Unseen (key_at p ∷ seen) ps),
              fresh_points-Distinct (key_at p ∷ seen) ps,
            )
          ])

==_refl : (n : ℕ) → (n == n) ≡ true
==_refl n = ground arith

persistence_eq_refl : (p : Persistence) → persistence_eq p p ≡ true
unfolding persistence_eq
persistence_eq_refl none = refl
persistence_eq_refl (some s) = text_eq_refl s

key_eq_refl : (k : Key) → key_eq k k ≡ true
unfolding key_eq
key_eq_refl k =
    rw (text_eq_refl k.recipe)
      (rw (persistence_eq_refl k.persistence) (rw (==_refl k.working_set) (rw (==_refl k.threads))))

abbrev Covered : List Key → List Key → Point → Type 0
Covered seen ks p = (seen_in (key_at p) seen || seen_in (key_at p) ks) ≡ true

Covered-later :
    (k : Key) (seen ks : List Key) (ps : List Point)
    → All (Covered (k ∷ seen) ks) ps
    → All (Covered seen (k ∷ ks)) ps
unfolding seen_in
Covered-later k seen ks [] h = tt
Covered-later k seen ks (p ∷ ps) (h, hs) = (ground arith, Covered-later k seen ks ps hs)

Covered-seen :
    (k : Key) (seen ks : List Key) → seen_in k seen ≡ true → (seen_in k seen || seen_in k ks) ≡ true
Covered-seen k seen ks e = rw e

Covered-here : (k : Key) (seen ks : List Key) → (seen_in k seen || seen_in k (k ∷ ks)) ≡ true
unfolding seen_in
Covered-here k seen ks = let e = key_eq_refl k in ground arith

pub fresh_points-Covered :
    (seen : List Key) (ps : List Point) → All (Covered seen (map key_at (fresh_points seen ps))) ps
unfolding fresh_points
fresh_points-Covered seen [] = tt
fresh_points-Covered seen (p ∷ ps) =
    (elim (seen_in (key_at p) seen)
        as (λ b.
          seen_in (key_at p) seen ≡ b
          → All
              (Covered seen (
                map key_at
                  (if b then fresh_points seen ps else p ∷ fresh_points (key_at p ∷ seen) ps)))
              (p ∷ ps)) [
                | true ↦ λ e. (Covered-seen (key_at p) seen _ e, fresh_points-Covered seen ps)
                | false ↦ λ e. (
                  Covered-here (key_at p) seen _,
                  Covered-later (key_at p) seen _ ps (fresh_points-Covered (key_at p ∷ seen) ps),
                )
              ])
      refl
