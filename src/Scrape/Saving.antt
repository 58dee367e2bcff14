-- ===== src/Scrape/Saving.antt =====
-- `BugScraper`, `parse_date` and `load_tokens` of scrape_bugs.py. A `datetime` in UTC is its number
-- of seconds; what `datetime.fromisoformat` reads from a text is a parameter.
pub mod Limits
use memsafedb.Prelude.{
  ℕ, suc, ◌+◌, ◌-◌, Bool, true, false, not, ◌&&◌, ◌||◌, Option, none, some, List, [], ◌∷◌, ◌++◌,
  ◌==◌, ltb, leb, if◌then◌else◌,
}
use memsafedb.Text.{Text, codes, strip, is_empty, starts_with, contains, text_eq}
use memsafedb.Dict.{update}

-- The offset of a time: how far ahead of UTC it is, or how far behind.
pub data Offset : Type 0 where
  ahead : ℕ → Offset
  behind : ℕ → Offset

-- The local seconds, and the offset if one is given.
pub record Moment : Type 0 where
  pub seconds : ℕ
  pub offset : Option Offset

-- `dt.astimezone(timezone.utc)`. A moment before the first one that a date can hold, where the
-- source raises OverflowError, is taken to be that first one.
abbrev in_utc : ℕ → Offset → ℕ
in_utc n (ahead m) = n - m
in_utc n (behind m) = n + m

-- Without an offset the time is taken to be in UTC.
abbrev as_utc : Moment → ℕ
as_utc m = elim m.offset [ none ↦ m.seconds | some o ↦ in_utc m.seconds o ]

-- `s.replace('Z', '+00:00')`
unfoldable pub replace_z : Text → Text
replace_z [] = []
replace_z (c ∷ s) = let rest = replace_z s in if c == b'Z' then codes "+00:00" ++ rest else c ∷ rest

module _ (fromisoformat : Text → Option Moment) where
  abbrev utc_of : Option Moment → Option ℕ
  utc_of none = none
  utc_of (some m) = some (as_utc m)

  -- The outer `none` is the `ValueError` of a text that is no date: `replace(tzinfo=…)` keeps the
  -- local time.
  unfoldable pub parse_date : Text → Option (Option ℕ)
  parse_date [] = some none
  parse_date (c ∷ s) = elim (fromisoformat (c ∷ s)) [ none ↦ none | some m ↦ some (some m.seconds) ]

  unfoldable pub parse_iso : Text → Option ℕ
  unfolding replace_z
  parse_iso [] = none
  parse_iso (c ∷ s) = utc_of (fromisoformat (replace_z (c ∷ s)))

-- `line.split('=', 1)` of a line that holds a `=`
unfoldable pub split_first : Text → Option (Text × Text)
split_first [] = none
split_first (c ∷ s) =
    if c == b'='
    then some ([], s)
    else elim (split_first s) [ none ↦ none | some (key, value) ↦ some (c ∷ key, value) ]

abbrev add_token : Option (Text × Text) → List (Text × Text) → List (Text × Text)
add_token none tokens = tokens
add_token (some (key, value)) tokens = update text_eq [] (strip key) (λ old. strip value) tokens

unfoldable pub token_line : Text → List (Text × Text) → List (Text × Text)
unfolding strip split_first update text_eq starts_with
token_line raw tokens =
    let line = strip raw in
    if is_empty line || starts_with line (codes "#")
    then tokens
    else add_token (split_first line) tokens

unfoldable pub load_lines : List Text → List (Text × Text) → List (Text × Text)
unfolding token_line
load_lines [] tokens = tokens
load_lines (line ∷ lines) tokens = load_lines lines (token_line line tokens)

-- The argument is the lines of the file, if it is there.
unfoldable pub load_tokens : Option (List Text) → List (Text × Text)
unfolding load_lines
load_tokens none = []
load_tokens (some lines) = load_lines lines []

-- What a scraper is made with.
pub record Config : Type 0 where
  pub dry_run : Bool
  pub start_date : Option ℕ
  pub end_date : Option ℕ

abbrev starts_by : Option ℕ → ℕ → Bool
starts_by none dt = true
starts_by (some start) dt = not (ltb dt start)

abbrev ends_by : Option ℕ → ℕ → Bool
ends_by none dt = true
ends_by (some last) dt = not (ltb last dt)

unfoldable pub in_date_range : Config → Option ℕ → Bool
in_date_range cfg none = true
in_date_range cfg (some dt) = starts_by cfg.start_date dt && ends_by cfg.end_date dt

-- The counter of a scraper, and the files that it has written, the first first.
pub record Store {ℓ} (D : Type ℓ) : Type ℓ where
  pub bugs_saved : ℕ
  pub files : List (Text × D)

abbrev pub empty_store {ℓ} : {D : Type ℓ} → Store D
empty_store = record { bugs_saved = 0; files = [] }

abbrev pub saved {ℓ} : {D : Type ℓ} → Text → D → Store D → Store D
saved bug_id d s = record {
  bugs_saved = suc s.bugs_saved;
  files = s.files ++ ((bug_id ++ codes ".json", d) ∷ []);
}

-- `none` where `save_bug` returns `False`: a dry run has written its fifty bugs.
unfoldable pub save_bug {ℓ} : {D : Type ℓ} → Config → Text → D → Store D → Option (Store D)
save_bug cfg bug_id d s =
    if cfg.dry_run && leb 50 s.bugs_saved then none else some (saved bug_id d s)
