-- ===== src/Parsers/Classes.antt =====
-- Character classes that several patterns of the parsers share.
use memsafedb.Prelude.{ℕ, Bool, ◌&&◌, ◌||◌, ◌==◌, leb}
use memsafedb.Regex.{Re, char, seq, star, plus, group, number_char}
use memsafedb.Text.{is_digit, is_space, lower_char}

-- `[a-f]`
abbrev pub is_workload : ℕ → Bool
is_workload c = leb b'a' c && leb c b'f'

abbrev pub is_lower : ℕ → Bool
is_lower c = leb b'a' c && leb c b'z'

abbrev pub is_upper : ℕ → Bool
is_upper c = leb b'A' c && leb c b'Z'

-- `[a-zA-Z0-9_]`
abbrev pub is_word_char : ℕ → Bool
is_word_char c = is_lower c || is_upper c || is_digit c || c == b'_'

-- `[a-zA-Z0-9_-]`
abbrev pub is_name_char : ℕ → Bool
is_name_char c = is_word_char c || c == b'-'

-- `[a-f]` and `[a-z0-9-]` under `re.IGNORECASE`
abbrev pub workload_ci : Re
workload_ci = char (λ c. is_workload (lower_char c))

abbrev pub label_char_ci : Re
label_char_ci = char (λ c. is_lower (lower_char c) || is_digit c || c == b'-')

abbrev pub name_char : Re
name_char = char is_name_char

-- `\s+` and `\s*` before the rest of a pattern
abbrev pub spaces : Re → Re
spaces r = seq (plus (char is_space)) r

abbrev pub maybe_spaces : Re → Re
maybe_spaces r = seq (star (char is_space)) r

-- `([\d.]+)` as the group of that number
abbrev pub number_group : ℕ → Re
number_group n = group n (plus number_char)
