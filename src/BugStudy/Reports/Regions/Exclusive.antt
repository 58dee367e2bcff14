-- ===== src/BugStudy/Reports/Regions/Exclusive.antt =====
-- Each flagged report is in exactly one of the regions that the loop goes through.
use mathlib.Core.Path.{fun_ext}
use memsafedb.Prelude.{
  ℕ, ◌+◌, ◌≡◌, refl, ap, ◌∙◌, Bool, true, false, not, ◌&&◌, ◌||◌, List, [], ◌∷◌, keep, map, arith,
  if◌then◌else◌,
}
use memsafedb.Text.{Text, text_eq}
use memsafedb.Dict.{member, add}
use memsafedb.Dict.Members.{member-keep, member-add}
use memsafedb.BugStudy.Reports.Regions.{
  Key, keywords, llm_rep1, llm_rep2, llm_rep3, keys, key_eq, Sets, combos_down, combinations,
  in_all, add_all, union, others, without, intersection, exclusive_intersection,
}

-- Which of the four sets a report is in.
abbrev pub Where : Type 0
Where = Key → Bool

abbrev pub in_any : Text → List (List Text) → Bool
in_any x [] = false
in_any x (s ∷ ss) = member text_eq x s || in_any x ss

abbrev pub where_in : Sets → Text → Where
where_in sets x k = member text_eq x (sets k)

member-add_all :
    (x : Text) (s t : List Text)
    → member text_eq x (add_all s t) ≡ (member text_eq x s || member text_eq x t)
unfolding member
member-add_all x s [] = ground arith
member-add_all x s (y ∷ t) = ground (arith, member-add_all x (add text_eq y s) t, member-add x y s)

pub member-union :
    (x : Text) (s : List Text) (ss : List (List Text))
    → member text_eq x (union s ss) ≡ (member text_eq x s || in_any x ss)
unfolding union
member-union x s [] = ground arith
member-union x s (t ∷ ss) = ground (arith, member-union x (add_all s t) ss, member-add_all x s t)

member-without :
    (x : Text) (s : List Text) (ss : List (List Text))
    → member text_eq x (without s ss) ≡ (member text_eq x s && not (in_any x ss))
member-without x s [] = ground arith
member-without x s (t ∷ ss) =
    member-keep (λ y. not (member text_eq y (union t ss))) x s
    ∙ ap (λ b. member text_eq x s && not b) (member-union x t ss)

-- The Boolean description of a region.
abbrev pub in_every : Where → List Key → Bool
in_every f [] = true
in_every f (k ∷ ks) = f k && in_every f ks

abbrev pub in_some : Where → List Key → Bool
in_some f [] = false
in_some f (k ∷ ks) = f k || in_some f ks

abbrev pub in_intersection : Where → List Key → Bool
in_intersection f [] = false
in_intersection f (k ∷ ks) = in_every f (k ∷ ks)

abbrev not_in : List Key → Key → Bool
not_in combo k = not (member key_eq k combo)

abbrev pub in_region : Where → List Key → Bool
in_region f combo = in_intersection f combo && not (in_some f (keep (not_in combo) keys))

in_all-in_every :
    (sets : Sets) (x : Text) (ks : List Key) → in_all sets ks x ≡ in_every (where_in sets x) ks
in_all-in_every sets x [] = refl
in_all-in_every sets x (k ∷ ks) =
    ap (λ b. member text_eq x (sets k) && b) (in_all-in_every sets x ks)

in_any-in_some :
    (sets : Sets) (x : Text) (ks : List Key) → in_any x (map sets ks) ≡ in_some (where_in sets x) ks
in_any-in_some sets x [] = refl
in_any-in_some sets x (k ∷ ks) = ap (λ b. member text_eq x (sets k) || b) (in_any-in_some sets x ks)

member-intersection :
    (sets : Sets) (x : Text) (combo : List Key)
    → member text_eq x (intersection sets combo) ≡ in_intersection (where_in sets x) combo
unfolding intersection member
member-intersection sets x [] = refl
member-intersection sets x (k ∷ ks) =
    member-keep (in_all sets ks) x (sets k)
    ∙ ap (λ b. member text_eq x (sets k) && b) (in_all-in_every sets x ks)

pub member-exclusive_intersection :
    (sets : Sets) (x : Text) (combo : List Key)
    → member text_eq x (exclusive_intersection sets combo) ≡ in_region (where_in sets x) combo
unfolding exclusive_intersection others
member-exclusive_intersection sets x combo =
    member-without x (intersection sets combo) (map sets (keep (not_in combo) keys))
    ∙ rw (member-intersection sets x combo, in_any-in_some sets x (keep (not_in combo) keys)) refl

abbrev count_regions : (List Key → Bool) → List (List Key) → ℕ
count_regions p [] = 0
count_regions p (c ∷ cs) = (if p c then 1 else 0) + count_regions p cs

count_regions-cong :
    (p q : List Key → Bool)
    → ((c : List Key) → p c ≡ q c)
    → (cs : List (List Key)) → count_regions p cs ≡ count_regions q cs
count_regions-cong p q e [] = refl
count_regions-cong p q e (c ∷ cs) = rw (e c, count_regions-cong p q e cs) refl

-- A report's place given by its four answers.
abbrev placed : Bool → Bool → Bool → Bool → Where
placed a b c d keywords = a
placed a b c d llm_rep1 = b
placed a b c d llm_rep2 = c
placed a b c d llm_rep3 = d

regions_of_place :
    (a b c d : Bool)
    → count_regions (in_region (placed a b c d)) (combos_down 4)
      ≡ (if a || b || c || d then 1 else 0)
unfolding combos_down combinations member
regions_of_place true true true true = refl
regions_of_place true true true false = refl
regions_of_place true true false true = refl
regions_of_place true true false false = refl
regions_of_place true false true true = refl
regions_of_place true false true false = refl
regions_of_place true false false true = refl
regions_of_place true false false false = refl
regions_of_place false true true true = refl
regions_of_place false true true false = refl
regions_of_place false true false true = refl
regions_of_place false true false false = refl
regions_of_place false false true true = refl
regions_of_place false false true false = refl
regions_of_place false false false true = refl
regions_of_place false false false false = refl

abbrev pub region_count : Sets → Text → ℕ
region_count sets x =
    count_regions (λ combo. member text_eq x (exclusive_intersection sets combo)) (combos_down 4)

-- Whatever the four sets are, the regions that the loop goes through divide what is flagged: a
-- report that one of the sets holds is in exactly one of the fifteen regions, and any other report
-- is in none of them.
pub exclusive_intersection-once :
    (sets : Sets) (x : Text)
    → region_count sets x ≡ (if in_some (where_in sets x) keys then 1 else 0)
exclusive_intersection-once sets x =
    count_regions-cong _ _ (member-exclusive_intersection sets x) (combos_down 4)
    ∙ by_place (where_in sets x)
  where
    same_region :
        (f : Where) (combo : List Key)
        → in_region f combo
          ≡ in_region (placed (f keywords) (f llm_rep1) (f llm_rep2) (f llm_rep3)) combo
    same_region f combo =
        ap (λ g. in_region g combo)
          (fun_ext λ k.
            elim k as (λ k. f k ≡ placed (f keywords) (f llm_rep1) (f llm_rep2) (f llm_rep3) k) [
              | keywords ↦ refl
              | llm_rep1 ↦ refl
              | llm_rep2 ↦ refl
              | llm_rep3 ↦ refl
            ])

    by_place :
        (f : Where)
        → count_regions (in_region f) (combos_down 4) ≡ (if in_some f keys then 1 else 0)
    by_place f =
        count_regions-cong _ _ (same_region f) (combos_down 4)
        ∙ regions_of_place (f keywords) (f llm_rep1) (f llm_rep2) (f llm_rep3)
        ∙ ground arith
