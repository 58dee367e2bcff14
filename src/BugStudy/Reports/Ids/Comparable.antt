-- ===== src/BugStudy/Reports/Ids/Comparable.antt =====
-- The order of the ids, and the lists of reports whose ids can be compared.
use memsafedb.Prelude.{
  ◌≡◌, refl, Bool, true, false, List, [], ◌∷◌, map, Bool-cases, inl, inr, arith,
}
use memsafedb.Text.{Text, text_eq}
use memsafedb.Text.Laws.{text_eq_iff, text_eq_refl}
use memsafedb.Dict.{member}
use memsafedb.Sorting.Order.{text_leb-IsTotalOrder, leb-IsTotalOrder, IsTotalOrder}
use memsafedb.BugStudy.Reports.Ids.{
  BugId, number, word, id_leb, is_number, is_word, all_of, comparable,
}

id_leb_trans : (a b c : BugId) → id_leb a b ≡ true → id_leb b c ≡ true → id_leb a c ≡ true
unfolding id_leb
id_leb_trans (number a) (number b) (number c) p q = leb-IsTotalOrder.trans a b c p q
id_leb_trans (number a) b (word c) p q = refl
id_leb_trans (number a) (word b) (number c) p q = cc
id_leb_trans (word a) (number b) c p q = cc
id_leb_trans (word a) (word b) (number c) p q = cc
id_leb_trans (word a) (word b) (word c) p q = text_leb-IsTotalOrder.trans a b c p q

id_leb-flip : (a b : BugId) → id_leb a b ≡ false → id_leb b a ≡ true
unfolding id_leb
id_leb-flip (number a) (number b) p = leb-IsTotalOrder.flip a b p
id_leb-flip (number a) (word b) p = cc
id_leb-flip (word a) (number b) p = refl
id_leb-flip (word a) (word b) p = text_leb-IsTotalOrder.flip a b p

pub id_leb-IsTotalOrder : IsTotalOrder id_leb
id_leb-IsTotalOrder = record { trans = id_leb_trans; flip = id_leb-flip }

-- All of the first list is in the second.
abbrev pub IsWithin : List Text → List Text → Type 0
IsWithin xs ys = (x : Text) → member text_eq x xs ≡ true → member text_eq x ys ≡ true

pub IsWithin-tail : (x : Text) (xs ys : List Text) → IsWithin (x ∷ xs) ys → IsWithin xs ys
unfolding member
IsWithin-tail x xs ys h z m = h z (ground arith)

module _ (p : BugId → Bool) (key : Text → BugId) where
  all_of-member :
      (x : Text) (xs : List Text)
      → all_of p (map key xs) ≡ true
      → member text_eq x xs ≡ true
      → p (key x) ≡ true
  unfolding member
  all_of-member x [] h m = cc
  all_of-member x (y ∷ xs) h m = elim (Bool-cases (text_eq y x)) [
    | inl same ↦ let e : y ≡ x = (text_eq_iff y x).0 same in ground arith
    | inr other ↦ all_of-member x xs (ground arith) (ground arith)
  ]

  all_of-within :
      (xs ys : List Text)
      → IsWithin xs ys
      → all_of p (map key ys) ≡ true
      → all_of p (map key xs) ≡ true
  unfolding member
  all_of-within [] ys h a = refl
  all_of-within (x ∷ xs) ys h a =
      let first : text_eq x x ≡ true = text_eq_refl x in
      let here = all_of-member x ys a (h x (ground arith)) in
      let rest = all_of-within xs ys (IsWithin-tail x xs ys h) a in ground arith

pub comparable-within :
    (key : Text → BugId) (xs ys : List Text)
    → IsWithin xs ys
    → comparable (map key ys) ≡ true
    → comparable (map key xs) ≡ true
unfolding comparable
comparable-within key xs ys h c = elim (Bool-cases (all_of is_number (map key ys))) [
  | inl numbers ↦ let n = all_of-within is_number key xs ys h numbers in ground arith
  | inr not_numbers ↦ let w = all_of-within is_word key xs ys h (ground arith) in ground arith
]
