-- ===== src/Dict/Members.antt =====
-- What is in a set after elements were added, kept, or left out.
use memsafedb.Prelude.{
  ◌≡◌, refl, sym, Bool, ◌&&◌, ◌||◌, List, [], ◌∷◌, keep, Bool-cases, inl, inr, arith,
}
use memsafedb.Text.{Text, text_eq}
use memsafedb.Text.Laws.{text_eq_iff}
use memsafedb.Dict.{member, add}

pub member-add :
    (x y : Text) (s : List Text)
    → member text_eq x (add text_eq y s) ≡ (text_eq y x || member text_eq x s)
unfolding member add
member-add x y [] = refl
member-add x y (z ∷ s) = elim (Bool-cases (text_eq z y)) [
  | inl same ↦ let e : z ≡ y = (text_eq_iff z y).0 same in rw (same, sym e) (ground (arith))
  | inr other ↦ rw other (ground (arith, member-add x y s))
]

pub member-keep :
    (p : Text → Bool) (x : Text) (s : List Text)
    → member text_eq x (keep p s) ≡ (member text_eq x s && p x)
unfolding member
member-keep p x [] = refl
member-keep p x (z ∷ s) = elim (Bool-cases (text_eq z x)) [
  | inl same ↦ let e : z ≡ x = (text_eq_iff z x).0 same in ground (arith, member-keep p x s)
  | inr other ↦ elim (Bool-cases (p z)) [
    | inl kept ↦ rw kept (rw other (member-keep p x s))
    | inr left ↦ rw left (rw other (member-keep p x s))
  ]
]
