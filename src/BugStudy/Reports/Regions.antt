-- ===== src/BugStudy/Reports/Regions.antt =====
-- The four sets of flagged reports, and those reports that are in exactly some of them.
pub mod Exclusive
use memsafedb.Prelude.{
  ℕ, zero, suc, Bool, true, false, not, ◌&&◌, ◌||◌, Option, none, some, List, [], ◌∷◌, ◌++◌, map,
  keep, length, if◌then◌else◌,
}
use memsafedb.Text.{Text, codes, show, newline, text_eq}
use memsafedb.Dict.{member, add}

-- The keys of `sets`, in their order.
pub data Key : Type 0 where
  keywords llm_rep1 llm_rep2 llm_rep3 : Key

abbrev pub keys : List Key
keys = keywords ∷ llm_rep1 ∷ llm_rep2 ∷ llm_rep3 ∷ []

abbrev key_name : Key → Text
key_name keywords = codes "Keywords"
key_name llm_rep1 = codes "LLM_Rep1"
key_name llm_rep2 = codes "LLM_Rep2"
key_name llm_rep3 = codes "LLM_Rep3"

abbrev pub key_eq : Key → Key → Bool
key_eq keywords keywords = true
key_eq llm_rep1 llm_rep1 = true
key_eq llm_rep2 llm_rep2 = true
key_eq llm_rep3 llm_rep3 = true
key_eq _ _ = false

abbrev pub Sets : Type 0
Sets = Key → List Text

-- `itertools.combinations(xs, r)`
unfoldable pub combinations {ℓ} : {A : Type ℓ} → ℕ → List A → List (List A)
combinations zero xs = [] ∷ []
combinations (suc r) [] = []
combinations (suc r) (x ∷ xs) = map (λ c. x ∷ c) (combinations r xs) ++ combinations (suc r) xs

-- `for r in range(len(keys), 0, -1): for combo in itertools.combinations(keys, r)`
unfoldable pub combos_down : ℕ → List (List Key)
unfolding combinations
combos_down zero = []
combos_down (suc r) = combinations (suc r) keys ++ combos_down r

abbrev pub in_all : Sets → List Key → Text → Bool
in_all sets [] x = true
in_all sets (k ∷ ks) x = member text_eq x (sets k) && in_all sets ks x

-- `set.intersection(*(sets[k] for k in combo))`
unfoldable pub intersection : Sets → List Key → List Text
unfolding member text_eq
intersection sets [] = []
intersection sets (k ∷ ks) = keep (in_all sets ks) (sets k)

abbrev pub add_all : List Text → List Text → List Text
add_all s [] = s
add_all s (x ∷ xs) = add_all (add text_eq x s) xs

-- `set.union(s, *others)`
unfoldable pub union : List Text → List (List Text) → List Text
unfolding add text_eq
union s [] = s
union s (t ∷ ts) = union (add_all s t) ts

-- `[sets[k] for k in keys if k not in combo]`
unfoldable pub others : Sets → List Key → List (List Text)
unfolding member
others sets combo = map sets (keep (λ k. not (member key_eq k combo)) keys)

abbrev pub without : List Text → List (List Text) → List Text
without included [] = included
without included (s ∷ ss) = keep (λ x. not (member text_eq x (union s ss))) included

unfoldable pub exclusive_intersection : Sets → List Key → List Text
unfolding intersection others union member text_eq
exclusive_intersection sets combo = without (intersection sets combo) (others sets combo)

-- `sep.join(ts)`
unfoldable pub join : Text → List Text → Text
join sep [] = []
join sep (t ∷ []) = t
join sep (t ∷ u ∷ us) = t ++ (sep ++ join sep (u ∷ us))

-- What the loop prints for a region; `sort` returns the sorted ids, or `none` where it raises.
module _ (sort : List Text → Option (List Text)) where
  -- `print_intersection`
  unfoldable pub intersection_line : List Text → Option Text
  unfolding join
  intersection_line [] = some (codes "  (None)")
  intersection_line (x ∷ s) = elim (sort (x ∷ s)) [
    | none ↦ none
    | some ids ↦ some (codes "  " ++ join (codes ", ") ids)
  ]

  abbrev region_header : List Key → List Text → Text
  region_header combo s =
      newline
      ∷ (codes "["
          ++ (join (codes " & ") (map key_name combo)
              ++ (codes "] (" ++ (show (length s) ++ codes "):"))))

  abbrev pub region_lines : List Key → List Text → Option (List Text)
  region_lines combo [] = some []
  region_lines combo (x ∷ s) = elim (intersection_line (x ∷ s)) [
    | none ↦ none
    | some line ↦ some (region_header combo (x ∷ s) ∷ line ∷ [])
  ]

  unfoldable pub regions_lines : Sets → List (List Key) → Option (List Text)
  unfolding exclusive_intersection intersection_line join
  regions_lines sets [] = some []
  regions_lines sets (combo ∷ more) =
      elim (region_lines combo (exclusive_intersection sets combo)) [
        | none ↦ none
        | some lines ↦ elim (regions_lines sets more) [
          | none ↦ none
          | some rest ↦ some (lines ++ rest)
        ]
      ]
