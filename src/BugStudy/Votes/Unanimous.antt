-- ===== src/BugStudy/Votes/Unanimous.antt =====
-- The counts reach three exactly where all three repetitions say so.
use memsafedb.Prelude.{
  ℕ, ◌+◌, ◌≤◌, ◌≡◌, refl, sym, ap, ◌∙◌, Bool, true, false, ◌&&◌, Option, none, some, [], ◌==◌,
  arith, if◌then◌else◌,
}
use memsafedb.BugStudy.Json.{Json, Fields, truthy, key_eq}
use memsafedb.Dict.{Counter, bump, update}
use memsafedb.BugStudy.Loading.{Reps}
use memsafedb.BugStudy.Votes.{
  verdict, Tally, no_votes, vote_for, count_verdict, count_rep, tally, tally_lem,
  unanimous_implication,
}

-- What a repetition says: nothing, if it has no classification.
abbrev pub says_bug : Option Fields → Bool
says_bug none = false
says_bug (some c) = (verdict c).is_bug

abbrev pub says_memsafe : Option Fields → Bool
says_memsafe none = false
says_memsafe (some c) = (verdict c).is_bug && (verdict c).is_memsafe

abbrev pub if_truthy : Json → Option Json
if_truthy v = if truthy v then some v else none

abbrev pub says_implication : Option Fields → Option Json
says_implication none = none
says_implication (some c) = if_truthy (verdict c).implication

-- The first of three implications, if there are three and the others equal it.
abbrev pub agreed : Option Json → Option Json → Option Json → Option Json
agreed (some a) (some b) (some c) = if key_eq a b && key_eq a c then some a else none
agreed _ _ _ = none

abbrev bit : Bool → ℕ
bit true = 1
bit false = 0

abbrev add_vote : Option Json → Counter Json → Counter Json
add_vote none votes = votes
add_vote (some v) votes = bump key_eq v votes

record Counted (c : Option Fields) (t t' : Tally) : Type 0 where
  bugs : t'.bug_count ≡ t.bug_count + bit (says_bug c)
  memsafe : t'.memsafe_count ≡ t.memsafe_count + bit (says_memsafe c)
  votes : t'.implication_votes ≡ add_vote (says_implication c) t.implication_votes

count_rep-Counted :
    (c : Option Fields) (t : Tally) {t' : Tally} → count_rep c (some t) ≡ some t' → Counted c t t'
unfolding count_rep count_verdict vote_for
count_rep-Counted none t e = ground arith
count_rep-Counted (some c) t e = ground arith

count_rep-some :
    (c : Option Fields) (o : Option Tally) {t' : Tally}
    → count_rep c o ≡ some t'
    → (t : Tally) × (o ≡ some t) × Counted c t t'
count_rep-some c (some t) e = (t, refl, count_rep-Counted c t e)
count_rep-some none none e = (unfold count_rep in cc)
count_rep-some (some c) none e = (unfold count_rep in cc)

unanimous_agreed :
    (a b c : Option Json)
    → unanimous_implication (add_vote c (add_vote b (add_vote a []))) ≡ agreed a b c
unfolding unanimous_implication bump update
unanimous_agreed none none none = refl
unanimous_agreed none none (some c) = refl
unanimous_agreed none (some b) none = refl
unanimous_agreed none (some b) (some c) = ground arith
unanimous_agreed (some a) none none = refl
unanimous_agreed (some a) none (some c) = ground arith
unanimous_agreed (some a) (some b) none = ground arith
unanimous_agreed (some a) (some b) (some c) = ground arith

-- What the tests `== 3` of the loop mean.
pub record IsUnanimous (r : Reps) (t : Tally) : Type 0 where
  pub all_bug : (t.bug_count == 3) ≡ (says_bug r.first && says_bug r.second && says_bug r.third)
  pub all_memsafe :
      (t.memsafe_count == 3)
      ≡ (says_memsafe r.first && says_memsafe r.second && says_memsafe r.third)
  pub memsafe_within_bugs : t.memsafe_count ≤ t.bug_count
  pub implication :
      unanimous_implication t.implication_votes
      ≡ agreed (says_implication r.first) (says_implication r.second) (says_implication r.third)

bits_three : (n : ℕ) (a b c : Bool) → n ≡ bit a + bit b + bit c → (n == 3) ≡ (a && b && c)
bits_three n true true true e = ground arith
bits_three n true true false e = ground arith
bits_three n true false true e = ground arith
bits_three n true false false e = ground arith
bits_three n false true true e = ground arith
bits_three n false true false e = ground arith
bits_three n false false true e = ground arith
bits_three n false false false e = ground arith

memsafe_bit : (c : Option Fields) → bit (says_memsafe c) ≤ bit (says_bug c)
memsafe_bit none = omega arith
memsafe_bit (some c) = both (verdict c).is_bug (verdict c).is_memsafe
  where
    both : (a b : Bool) → bit (a && b) ≤ bit a
    both true true = omega arith
    both true false = omega arith
    both false b = omega arith

sum_three : (a b c : ℕ) {x y z w : ℕ} → x ≡ 0 → y ≡ x + a → z ≡ y + b → w ≡ z + c → w ≡ a + b + c
sum_three a b c e f g h = omega arith

le_three :
    {m n : ℕ} (a b c a' b' c' : ℕ)
    → m ≡ a + b + c
    → n ≡ a' + b' + c'
    → a ≤ a'
    → b ≤ b'
    → c ≤ c'
    → m ≤ n
le_three a b c a' b' c' e f p q r = omega arith

three-Counted :
    (a b c : Option Fields) {t u v : Tally}
    → Counted a no_votes t
    → Counted b t u
    → Counted c u v
    → IsUnanimous (record { first = a; second = b; third = c }) v
three-Counted a b c {t} {u} {v} p q r =
    let bugs = sum_three _ _ _ refl p.bugs q.bugs r.bugs in
    let memsafe = sum_three _ _ _ refl p.memsafe q.memsafe r.memsafe in
    record {
      all_bug = bits_three _ (says_bug a) (says_bug b) (says_bug c) bugs;
      all_memsafe = bits_three _ (says_memsafe a) (says_memsafe b) (says_memsafe c) memsafe;
      memsafe_within_bugs =
          le_three _ _ _ _ _ _ memsafe bugs (memsafe_bit a) (memsafe_bit b) (memsafe_bit c);
      implication =
          ap unanimous_implication (
            r.votes
            ∙ ap (add_vote (says_implication c))
                (q.votes ∙ ap (add_vote (says_implication b)) p.votes))
          ∙ unanimous_agreed (says_implication a) (says_implication b) (says_implication c);
    }

-- Whenever the loop over the three repetitions of a report ends without a `TypeError`: the count of
-- bugs is three exactly if all three classifications say bug, the count of memory-safety bugs is
-- three exactly if all three say both, it is never above the count of bugs, and the implication
-- that `most_common(1)` finds with three votes is there exactly if each repetition has a truthy
-- implication and the three are equal, and then it is the first one.
pub tally-IsUnanimous : (r : Reps) {t : Tally} → tally r ≡ some t → IsUnanimous r t
tally-IsUnanimous r e =
    let (u, eu, third) = count_rep-some r.third _ (sym (tally_lem r) ∙ e) in
    let (v, ev, second) = count_rep-some r.second _ eu in
    let first = count_rep-Counted r.first no_votes ev in
    three-Counted r.first r.second r.third first second third
