-- ===== src/Ycsb/Headers.antt =====
-- The marker lines that the scripts print, under the patterns of the parsers.
use memsafedb.Prelude.{ℕ, ◌<◌, ◌≡◌, refl, ap, ◌∙◌, true, Option, some, List, [], ◌∷◌, ◌++◌, length}
use memsafedb.Text.{Text, codes, is_digit, is_space, show, strip}
use memsafedb.Text.Digits.{show-digits, show-some}
use memsafedb.Text.Laws.{EndsIn, EndsIn-append, strip_id}
use memsafedb.Regex.{
  Re, State, run, match_at, group_text, begin, char, seq, eol, plus, group, between, lit,
}
use memsafedb.Regex.Runs.{AllIn, group_plus-run, when_true, before_text, point, between-append}
use memsafedb.Parsers.Classes.{is_workload, is_word_char}
use memsafedb.Ycsb.Scripts.{marker}
use memsafedb.Ycsb.Output.{marker_pattern, read_header}

-- The two databases of the runner, as their markers spell them.
pub data Engine : Type 0 where
  ldb redis : Engine

abbrev pub spelled : Engine → Text
spelled ldb = codes "LDB"
spelled redis = codes "REDIS"

-- A workload letter, and a variant's name.
pub record IsHeader (w : ℕ) (variant : Text) : Type 0 where
  pub workload : is_workload w ≡ true
  pub variant_word : AllIn is_word_char variant
  pub variant_some : 0 < length variant

module _ (w : ℕ) (ds v : Text) where
  abbrev printed : Engine → Text
  printed e =
      codes "=== "
      ++ (spelled e
          ++ (codes " workload="
              ++ ((w ∷ [])
                  ++ (codes " threads=" ++ (ds ++ (codes " variant=" ++ (v ++ codes " ===")))))))

  abbrev its_groups : List (ℕ × Text)
  its_groups = (3, v) ∷ (2, ds) ∷ (1, w ∷ []) ∷ []

  end_pattern : Re
  end_pattern = lit (codes " ===") eol

  variant_pattern : Re
  variant_pattern = lit (codes " variant=") (seq (group 3 (plus (char is_word_char))) end_pattern)

  tail_pattern : Re
  tail_pattern = lit (codes " threads=") (seq (group 2 (plus (char is_digit))) variant_pattern)

  tail_text : Text
  tail_text = codes " threads=" ++ (ds ++ (codes " variant=" ++ (v ++ codes " ===")))

  tail_match :
      (at : ℕ) (b : Option ℕ) (gs : List (ℕ × Text))
      → AllIn is_digit ds
      → 0 < length ds
      → AllIn is_word_char v
      → 0 < length v
      → (s : State) × (run tail_pattern (before_text (point at b gs) tail_text) some ≡ some s)
        × (s.groups ≡ (3, v) ∷ ((2, ds) ∷ gs))
  unfolding run tail_pattern variant_pattern end_pattern tail_text is_digit
  tail_match at b gs all some_ds word some_v = (
    _,
    group_plus-run _ _ _ is_digit 2 ds (codes " variant=" ++ (v ++ codes " ==="))
        (λ s. run variant_pattern s some) all some_ds refl
        (group_plus-run _ _ _ is_word_char 3 v (codes " ===") (λ s. run end_pattern s some) word
          some_v refl refl),
    refl,
  )

  printed_match :
      (e : Engine)
      → is_workload w ≡ true
      → AllIn is_digit ds
      → 0 < length ds
      → AllIn is_word_char v
      → 0 < length v
      → (s : State) × (run (marker_pattern (spelled e)) (begin (printed e)) some ≡ some s)
        × (s.groups ≡ its_groups)
  unfolding run marker_pattern tail_pattern variant_pattern end_pattern tail_text
  printed_match ldb h all some_ds word some_v =
      let (s, matched, groups) =
        tail_match 18 (some w) ((1, between (w ∷ tail_text) tail_text) ∷ []) all some_ds word
          some_v in
      (
        s,
        when_true (is_workload w) _ h matched,
        groups ∙ ap (λ t. (3, v) ∷ ((2, ds) ∷ ((1, t) ∷ []))) (between-append (w ∷ []) tail_text),
      )
  printed_match redis h all some_ds word some_v =
      let (s, matched, groups) =
        tail_match 20 (some w) ((1, between (w ∷ tail_text) tail_text) ∷ []) all some_ds word
          some_v in
      (
        s,
        when_true (is_workload w) _ h matched,
        groups ∙ ap (λ t. (3, v) ∷ ((2, ds) ∷ ((1, t) ∷ []))) (between-append (w ∷ []) tail_text),
      )

  ends_marked : (front : Text) → EndsIn (front ++ (codes " variant=" ++ (v ++ codes " ===")))
  unfolding is_space
  ends_marked front = EndsIn-append front (codes " variant=" ++ (v ++ codes " ===")) (
      EndsIn-append (codes " variant=") (v ++ codes " ===")
        (EndsIn-append v (codes " ===") (codes " ==", b'=', refl, refl)))

  strip-printed : (e : Engine) → strip (printed e) ≡ printed e
  unfolding is_space
  strip-printed ldb =
      strip_id _ refl
        (ends_marked (codes "=== LDB workload=" ++ ((w ∷ []) ++ (codes " threads=" ++ ds))))
  strip-printed redis =
      strip_id _ refl
        (ends_marked (codes "=== REDIS workload=" ++ ((w ∷ []) ++ (codes " threads=" ++ ds))))

  read_header-printed :
      (e : Engine)
      → is_workload w ≡ true
      → AllIn is_digit ds
      → 0 < length ds
      → AllIn is_word_char v
      → 0 < length v
      → read_header (spelled e) (printed e)
        ≡ some (record { workload = w ∷ []; threads = ds; variant = v })
  unfolding read_header match_at group_text
  read_header-printed e h all some_ds word some_v =
      let (s, matched, groups) = printed_match e h all some_ds word some_v in
      rw (strip-printed e) (rw matched (rw groups))

-- For either database, a workload letter from a to f, any number of threads and a variant's name of
-- word characters: the parser reads the line that the script prints before a run back as its
-- workload, its number of threads and its variant.
pub read_header-marker :
    (e : Engine) (w : ℕ) (t : ℕ) (variant : Text)
    → IsHeader w variant
    → read_header (spelled e) (marker (spelled e) (w ∷ []) t variant)
      ≡ some (record { workload = w ∷ []; threads = show t; variant = variant })
unfolding marker
read_header-marker e w t variant h =
    read_header-printed w (show t) variant e h.workload (show-digits t) (show-some t) h.variant_word
      h.variant_some
