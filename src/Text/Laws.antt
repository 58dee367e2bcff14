-- ===== src/Text/Laws.antt =====
-- Splitting joined lines, stripping, and the tests on texts.
use mathlib.Core.List.{reverse, reverse-append, reverse-reverse}
use memsafedb.Prelude.{
  ℕ, ◌<◌, ◌≡◌, refl, sym, ◌↔◌, Bool, true, false, List, [], ◌∷◌, ◌++◌, arith, ◌==◌, All, length,
  append_assoc, Bool-cases, inl, inr,
}
use memsafedb.Text.{
  Text, is_space, text_eq, lstrip, strip, split_on, join_lines, cons_first, newline,
}

pub text_eq_refl : (s : Text) → text_eq s s ≡ true
unfolding text_eq
text_eq_refl [] = refl
text_eq_refl (c ∷ s) = ground (arith, text_eq_refl s)

pub text_eq→eq : (s t : Text) → text_eq s t ≡ true → s ≡ t
unfolding text_eq
text_eq→eq [] [] h = refl
text_eq→eq [] (d ∷ t) h = cc
text_eq→eq (c ∷ s) [] h = cc
text_eq→eq (c ∷ s) (d ∷ t) h = ground (arith, text_eq→eq s t)

pub text_eq_iff : (s t : Text) → (text_eq s t ≡ true) ↔ (s ≡ t)
text_eq_iff s t = (text_eq→eq s t, λ e. rw e (text_eq_refl t))

-- No line holds a line break.
abbrev pub IsLine : Text → Type 0
IsLine = All (λ c. c == newline ≡ false)

split_on-line :
    (l t : Text) → IsLine l → split_on newline (l ++ (newline ∷ t)) ≡ l ∷ split_on newline t
unfolding split_on
split_on-line [] t h = refl
split_on-line (c ∷ l) t (p, h) = rw (split_on-line l t h) (rw p)

split_on_last : (l : Text) → IsLine l → split_on newline l ≡ l ∷ []
unfolding split_on
split_on_last [] h = refl
split_on_last (c ∷ l) (p, h) = rw (split_on_last l h) (rw p)

pub split_on-join_lines :
    (l : Text) (ls : List Text)
    → All IsLine (l ∷ ls)
    → split_on newline (join_lines (l ∷ ls)) ≡ l ∷ ls
unfolding join_lines
split_on-join_lines l [] (h, _) = split_on_last l h
split_on-join_lines l (k ∷ ls) (h, hs) =
    rw (split_on-line l (join_lines (k ∷ ls)) h) (rw (split_on-join_lines k ls hs))

-- A text that `strip` leaves alone: it neither begins nor ends with white space.
abbrev pub Starts : Text → Type 0
Starts [] = Unit
Starts (c ∷ s) = is_space c ≡ false

lstrip_id : (s : Text) → Starts s → lstrip s ≡ s
unfolding lstrip
lstrip_id [] h = refl
lstrip_id (c ∷ s) h = rw (h, lstrip)

-- The last character is there, and is no white space.
abbrev pub EndsIn : Text → Type 0
EndsIn s = (init : Text) × (c : ℕ) × (s ≡ init ++ (c ∷ [])) × (is_space c ≡ false)

pub EndsIn-append : (s t : Text) → EndsIn t → EndsIn (s ++ t)
EndsIn-append s t (init, c, e, h) = (s ++ init, c, rw e (sym (append_assoc s init (c ∷ []))), h)

pub EndsIn-AllIn :
    (p : ℕ → Bool)
    → ((c : ℕ) → p c ≡ true → is_space c ≡ false)
    → (s : Text) → All (λ c. p c ≡ true) s
    → 0 < length s
    → EndsIn s
EndsIn-AllIn p no_space [] all h = absurd (omega arith)
EndsIn-AllIn p no_space (c ∷ []) (pc, _) h = ([], c, refl, no_space c pc)
EndsIn-AllIn p no_space (c ∷ (d ∷ s)) (_, all) h =
    EndsIn-append (c ∷ []) (d ∷ s) (EndsIn-AllIn p no_space (d ∷ s) all (omega arith))

pub EndsIn-join_lines :
    (l : Text) (ls : List Text) → All EndsIn (l ∷ ls) → EndsIn (join_lines (l ∷ ls))
unfolding join_lines
EndsIn-join_lines l [] (h, _) = h
EndsIn-join_lines l (k ∷ ls) (_, hs) =
    EndsIn-append l (newline ∷ join_lines (k ∷ ls))
      (EndsIn-append (newline ∷ []) (join_lines (k ∷ ls)) (EndsIn-join_lines k ls hs))

Starts-reverse : (s : Text) → EndsIn s → Starts (reverse s)
Starts-reverse s (init, c, e, h) = rw e (rw reverse-append h)

-- Such a text stays as it is.
pub strip_id : (s : Text) → Starts s → EndsIn s → strip s ≡ s
unfolding strip
strip_id s h e =
    rw (lstrip_id s h) (rw (lstrip_id (reverse s) (Starts-reverse s e)) (reverse-reverse s))

cons_first-append :
    (c : ℕ) (l : Text) (ls ms : List Text)
    → cons_first c ((l ∷ ls) ++ ms) ≡ cons_first c (l ∷ ls) ++ ms
unfolding cons_first
cons_first-append c l ls ms = refl

split_on-some : (d : ℕ) (t : Text) → (l : Text) × (ls : List Text) × (split_on d t ≡ l ∷ ls)
unfolding split_on
split_on-some d [] = ([], [], refl)
split_on-some d (c ∷ t) = elim (Bool-cases (c == d)) [
  | inl same ↦ ([], split_on d t, rw same)
  | inr other ↦ let (l, ls, e) = split_on-some d t in (c ∷ l, ls, rw other (rw e))
]

-- The lines of two texts with a line break between them.
pub split_on-append :
    (s t : Text) → split_on newline (s ++ (newline ∷ t)) ≡ split_on newline s ++ split_on newline t
unfolding split_on
split_on-append [] t = refl
split_on-append (c ∷ s) t = elim (Bool-cases (c == newline)) [
  | inl same ↦ rw same (rw (split_on-append s t))
  | inr other ↦
      let (l, ls, e) = split_on-some newline s in rw other (rw (split_on-append s t) (rw e))
]
