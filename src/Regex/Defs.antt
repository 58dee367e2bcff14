-- ===== src/Regex/Defs.antt =====
-- Python's `re`, for the patterns of the scripts: a backtracking matcher, which takes the first
-- match in the order of the alternatives, greedy repetitions longest first.
use memsafedb.Prelude.{
  ℕ, zero, suc, ◌-◌, Bool, true, false, not, ◌&&◌, ◌||◌, Option, none, some, List, [], ◌∷◌, leb,
  ◌==◌, length, take, if◌then◌else◌,
}
use memsafedb.Text.{Text, newline, is_space, is_digit, lower_char}

pub data Re : Type 0 where
  eps : Re
  char : (ℕ → Bool) → Re
  seq alt : Re → Re → Re
  -- `r*` and `r*?`
  star lazy : Re → Re
  -- the group of that number
  group : ℕ → Re → Re
  -- `^`, `$` and `\b`
  bol eol boundary : Re

-- Where the matcher stands: the position, the character before it, the text from it on, and the
-- groups that have been closed, latest first.
pub record State : Type 0 where
  pub at : ℕ
  pub before : Option ℕ
  pub rest : Text
  pub groups : List (ℕ × Text)

abbrev pub Matcher : Type 0
Matcher = State → (State → Option State) → Option State

-- The second choice is made only if the first fails.
abbrev pub or_try : Option State → (Unit {0} → Option State) → Option State
or_try (some s) other = some s
or_try none other = other tt

abbrev pub eat : ℕ → Text → State → State
eat c t s = record s { at = suc s.at; before = some c; rest = t }

abbrev pub take_char : (ℕ → Bool) → Text → Matcher
take_char p [] s k = none
take_char p (c ∷ t) s k = if p c then k (eat c t s) else none

-- A round that takes nothing ends the repetition. Each other round takes a character, so the
-- length of the text bounds the rounds.
unfoldable pub star_loop : Matcher → ℕ → Matcher
star_loop f zero s k = k s
star_loop f (suc n) s k =
    or_try (f s (λ s'. elim (s'.at == s.at) [ true ↦ none | false ↦ star_loop f n s' k ]))
      (λ _. k s)

unfoldable pub lazy_loop : Matcher → ℕ → Matcher
lazy_loop f zero s k = k s
lazy_loop f (suc n) s k =
    or_try (k s)
      (λ _. f s (λ s'. elim (s'.at == s.at) [ true ↦ none | false ↦ lazy_loop f n s' k ]))

-- What was taken between two texts of which the second is the end of the first.
abbrev pub between : Text → Text → Text
between from to = take (length from - length to) from

abbrev pub is_word : ℕ → Bool
is_word c = (leb b'a' c && leb c b'z') || (leb b'A' c && leb c b'Z') || is_digit c || c == b'_'

abbrev word_before : Option ℕ → Bool
word_before none = false
word_before (some c) = is_word c

abbrev word_ahead : Text → Bool
word_ahead [] = false
word_ahead (c ∷ t) = is_word c

abbrev at_end : Text → Bool
at_end [] = true
at_end (c ∷ []) = c == newline
at_end (c ∷ (d ∷ t)) = false

abbrev differ : Bool → Bool → Bool
differ true b = not b
differ false b = b

unfoldable pub run : Re → Matcher
unfolding star_loop lazy_loop is_digit is_space lower_char
run eps s k = k s
run (char p) s k = take_char p s.rest s k
run (seq a b) s k = run a s (λ s'. run b s' k)
run (alt a b) s k = or_try (run a s k) (λ _. run b s k)
run (star a) s k = star_loop (run a) (suc (length s.rest)) s k
run (lazy a) s k = lazy_loop (run a) (suc (length s.rest)) s k
run (group n a) s k =
    run a s (λ s'. k (record s' { groups = (n, between s.rest s'.rest) ∷ s'.groups }))
run bol s k = if s.at == 0 then k s else none
run eol s k = if at_end s.rest then k s else none
run boundary s k = if differ (word_before s.before) (word_ahead s.rest) then k s else none

-- A match object: where it starts and ends, its groups, and what follows.
pub record Match : Type 0 where
  pub start : ℕ
  pub end_state : State

abbrev pub begin : Text → State
begin t = record { at = 0; before = none; rest = t; groups = [] }

abbrev pub found : ℕ → Option State → Option Match
found start none = none
found start (some s) = some (record { start = start; end_state = s })

-- `re.match`
unfoldable pub match_at : Re → Text → Option Match
unfolding run
match_at r t = found 0 (run r (begin t) some)

abbrev or_found : Option Match → (Unit {0} → Option Match) → Option Match
or_found (some m) other = some m
or_found none other = other tt

unfoldable pub search_from : Re → Text → ℕ → Option ℕ → Option Match
unfolding run
search_from r [] at before =
    found at (run r (record { at = at; before = before; rest = []; groups = [] }) some)
search_from r (c ∷ t) at before =
    or_found
      (found at (run r (record { at = at; before = before; rest = c ∷ t; groups = [] }) some))
      (λ _. search_from r t (suc at) (some c))

-- `re.search`
unfoldable pub search_in : Re → Text → Option Match
unfolding search_from
search_in r t = search_from r t 0 none

-- The rounds of `finditer`. No pattern of the scripts matches the empty text, so each round takes
-- a character.
find_rounds : Re → ℕ → Text → ℕ → Option ℕ → List Match
unfolding search_from
find_rounds r zero t at before = []
find_rounds r (suc n) t at before = elim (search_from r t at before) [
  | none ↦ []
  | some m ↦ m ∷ find_rounds r n m.end_state.rest m.end_state.at m.end_state.before
]

-- `re.finditer`
unfoldable pub find_iter : Re → Text → List Match
unfolding find_rounds
find_iter r t = find_rounds r (suc (length t)) t 0 none

abbrev group_of : ℕ → List (ℕ × Text) → Option Text
group_of n [] = none
group_of n ((i, t) ∷ gs) = if i == n then some t else group_of n gs

-- `m.group(n)`, `None` if the group took no part.
unfoldable pub group? : ℕ → Match → Option Text
group? n m = group_of n m.end_state.groups

abbrev or_nil : Option Text → Text
or_nil none = []
or_nil (some t) = t

-- `m.group(n)` of a group that takes part in every match.
unfoldable pub group_text : ℕ → Match → Text
unfolding group?
group_text n m = or_nil (group? n m)

-- Shorthand for patterns.
abbrev pub plus : Re → Re
plus r = seq r (star r)

abbrev pub optional : Re → Re
optional r = alt r eps

abbrev pub is : ℕ → Re
is c = char (λ x. x == c)

-- A letter under `re.IGNORECASE`.
abbrev pub is_ci : ℕ → Re
is_ci c = char (λ x. lower_char x == lower_char c)

abbrev pub lit : Text → Re → Re
lit [] r = r
lit (c ∷ t) r = seq (is c) (lit t r)

abbrev pub lit_ci : Text → Re → Re
lit_ci [] r = r
lit_ci (c ∷ t) r = seq (is_ci c) (lit_ci t r)

abbrev pub digit : Re
digit = char is_digit

abbrev pub space : Re
space = char is_space

-- `[\d.]` and `[0-9.]`
abbrev pub is_number_char : ℕ → Bool
is_number_char c = is_digit c || c == b'.'

abbrev pub number_char : Re
number_char = char is_number_char
