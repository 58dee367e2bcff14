-- ===== src/Sorting/Order.antt =====
-- `sort_by` returns a permutation, in order, when the test of the keys is a total order.
use mathlib.Core.List.{Perm}
use mathlib.Core.List.Perm
use memsafedb.Prelude.{◌≡◌, Bool, true, false, List, [], ◌∷◌, All, Bool-cases, inl, inr}
use memsafedb.Prelude.{refl, leb, arith}
use memsafedb.Text.{Text}
use memsafedb.Instructions.Table.{text_leb}
use memsafedb.Sorting.{insert_by, sort_by}

-- The order that the keys are compared by.
pub record IsTotalOrder {κ} {K : Type κ} (leb : K → K → Bool) : Type κ where
  pub trans : (a b c : K) → leb a b ≡ true → leb b c ≡ true → leb a c ≡ true
  pub flip : (a b : K) → leb a b ≡ false → leb b a ≡ true

module _ {ℓ κ} {A : Type ℓ} {K : Type κ} (leb : K → K → Bool) (key : A → K) where
  abbrev AtLeast : A → A → Type 0
  AtLeast x y = leb (key x) (key y) ≡ true

  abbrev pub IsSorted : List A → Type 0
  IsSorted [] = Unit
  IsSorted (x ∷ xs) = All (AtLeast x) xs × IsSorted xs

  insert_by-Perm : (x : A) (xs : List A) → Perm (insert_by leb key x xs) (x ∷ xs)
  unfolding insert_by
  insert_by-Perm x [] = Perm.refl (x ∷ [])
  insert_by-Perm x (y ∷ ys) = elim (Bool-cases (leb (key x) (key y))) [
    | inl first ↦ rw first (Perm.refl (x ∷ y ∷ ys))
    | inr later ↦ rw later (Perm.trans (Perm.cons y (insert_by-Perm x ys)) (Perm.swap x y ys))
  ]

  pub sort_by-Perm : (xs : List A) → Perm (sort_by leb key xs) xs
  unfolding sort_by
  sort_by-Perm [] = Perm.refl []
  sort_by-Perm (x ∷ xs) =
      Perm.trans (insert_by-Perm x (sort_by leb key xs)) (Perm.cons x (sort_by-Perm xs))

  All-insert_by {μ} :
      (P : A → Type μ) (x : A) (xs : List A) → P x → All P xs → All P (insert_by leb key x xs)
  unfolding insert_by
  All-insert_by P x [] p h = (p, tt)
  All-insert_by P x (y ∷ ys) p (q, h) = elim (Bool-cases (leb (key x) (key y))) [
    | inl first ↦ rw first (p, (q, h))
    | inr later ↦ rw later (q, All-insert_by P x ys p h)
  ]

  pub All-sort_by {μ} : (P : A → Type μ) (xs : List A) → All P xs → All P (sort_by leb key xs)
  unfolding sort_by
  All-sort_by P [] h = tt
  All-sort_by P (x ∷ xs) (p, h) = All-insert_by P x (sort_by leb key xs) p (All-sort_by P xs h)

  module _ (o : IsTotalOrder leb) where
    AtLeast-trans : (x y : A) (ys : List A) → AtLeast x y → All (AtLeast y) ys → All (AtLeast x) ys
    AtLeast-trans x y [] p h = tt
    AtLeast-trans x y (z ∷ zs) p (q, h) =
        (o.trans (key x) (key y) (key z) p q, AtLeast-trans x y zs p h)

    insert_by-IsSorted : (x : A) (xs : List A) → IsSorted xs → IsSorted (insert_by leb key x xs)
    unfolding insert_by
    insert_by-IsSorted x [] h = (tt, tt)
    insert_by-IsSorted x (y ∷ ys) (b, h) = elim (Bool-cases (leb (key x) (key y))) [
      | inl first ↦ rw first ((first, AtLeast-trans x y ys first b), (b, h))
      | inr later ↦ rw later (
        All-insert_by (AtLeast y) x ys (o.flip (key x) (key y) later) b,
        insert_by-IsSorted x ys h,
      )
    ]

    pub sort_by-IsSorted : (xs : List A) → IsSorted (sort_by leb key xs)
    unfolding sort_by
    sort_by-IsSorted [] = tt
    sort_by-IsSorted (x ∷ xs) = insert_by-IsSorted x (sort_by leb key xs) (sort_by-IsSorted xs)

pub leb-IsTotalOrder : IsTotalOrder leb
leb-IsTotalOrder = record { trans = λ a b c p q. ground arith; flip = λ a b p. ground arith }

text_leb_trans : (a b c : Text) → text_leb a b ≡ true → text_leb b c ≡ true → text_leb a c ≡ true
unfolding text_leb
text_leb_trans [] b c p q = refl
text_leb_trans (x ∷ a) [] c p q = cc
text_leb_trans (x ∷ a) (y ∷ b) [] p q = cc
text_leb_trans (x ∷ a) (y ∷ b) (z ∷ c) p q = ground (arith, text_leb_trans a b c)

text_leb-flip : (a b : Text) → text_leb a b ≡ false → text_leb b a ≡ true
unfolding text_leb
text_leb-flip [] b p = cc
text_leb-flip (x ∷ a) [] p = refl
text_leb-flip (x ∷ a) (y ∷ b) p = ground (arith, text_leb-flip a b)

pub text_leb-IsTotalOrder : IsTotalOrder text_leb
text_leb-IsTotalOrder = record { trans = text_leb_trans; flip = text_leb-flip }
