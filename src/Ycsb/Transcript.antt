-- ===== src/Ycsb/Transcript.antt =====
-- What a script prints, as `_blocks` takes it apart.
use memsafedb.Prelude.{
  ℕ, ◌≡◌, refl, sym, ap, ◌∙◌, Bool, true, false, not, ◌&&◌, none, some, List, [], ◌∷◌, ◌++◌, map,
  arith, ◌==◌, All, All-append, append-nil, append_assoc,
}
use memsafedb.Text.{Text, codes, show, newline, split_on, join_lines, is_digit}
use memsafedb.Text.Digits.{show-digits}
use memsafedb.Text.Laws.{IsLine, split_on-join_lines}
use memsafedb.Regex.Runs.{AllIn}
use memsafedb.Parsers.Classes.{is_workload, is_word_char}
use memsafedb.Ycsb.Scripts.{marker}
use memsafedb.Ycsb.Output.{Header, read_header, Block, Open, close, blocks_from, blocks}
use memsafedb.Ycsb.Headers.{Engine, ldb, redis, spelled, IsHeader, read_header-marker}

-- A run: its marker, and the lines that the benchmark prints after it.
pub record Section : Type 0 where
  pub workload : ℕ
  pub threads : ℕ
  pub variant : Text
  pub body : List Text

abbrev pub IsPlain : Engine → Text → Type 0
IsPlain e line = read_header (spelled e) line ≡ none

pub record IsSection (e : Engine) (s : Section) : Type 0 where
  pub header : IsHeader s.workload s.variant
  pub lines : All IsLine s.body
  pub plain : All (IsPlain e) s.body

abbrev header_of : Section → Header
header_of s = record { workload = s.workload ∷ []; threads = show s.threads; variant = s.variant }

abbrev pub block_of : Section → Block
block_of s = (header_of s, join_lines s.body)

abbrev marker_line : Engine → Section → Text
marker_line e s = marker (spelled e) (s.workload ∷ []) s.threads s.variant

abbrev pub section_lines : Engine → List Section → List Text
section_lines e [] = []
section_lines e (s ∷ ss) = marker_line e s ∷ (s.body ++ section_lines e ss)

module _ (e : Engine) where
  blocks_from-plain :
      (h : Header) (acc body rest : List Text)
      → All (IsPlain e) body
      → blocks_from (spelled e) (some (h, acc)) (body ++ rest)
        ≡ blocks_from (spelled e) (some (h, acc ++ body)) rest
  unfolding blocks_from
  blocks_from-plain h acc [] rest p =
      ap (λ l. blocks_from (spelled e) (some (h, l)) rest) (sym (append-nil acc))
  blocks_from-plain h acc (l ∷ body) rest (p, ps) =
      rw (p, blocks_from)
        (blocks_from-plain h (acc ++ (l ∷ [])) body rest ps
          ∙ ap (λ ls. blocks_from (spelled e) (some (h, ls)) rest) (append_assoc acc (l ∷ []) body))

  blocks_from-preamble :
      (body rest : List Text)
      → All (IsPlain e) body
      → blocks_from (spelled e) none (body ++ rest) ≡ blocks_from (spelled e) none rest
  unfolding blocks_from
  blocks_from-preamble [] rest p = refl
  blocks_from-preamble (l ∷ body) rest (p, ps) =
      rw (p, blocks_from) (blocks_from-preamble body rest ps)

  blocks_from-sections :
      (cur : Open) (ss : List Section)
      → All (IsSection e) ss
      → blocks_from (spelled e) cur (section_lines e ss) ≡ close cur ++ map block_of ss
  unfolding blocks_from
  blocks_from-sections cur [] h = sym (append-nil (close cur))
  blocks_from-sections cur (s ∷ ss) (h, hs) =
      rw (read_header-marker e s.workload s.threads s.variant h.header, blocks_from)
        (ap (λ bs. close cur ++ bs)
          (blocks_from-plain (header_of s) [] s.body (section_lines e ss) h.plain
            ∙ blocks_from-sections (some (header_of s, s.body)) ss hs))

word-no_newline : (c : ℕ) → is_word_char c ≡ true → (c == newline) ≡ false
unfolding is_digit
word-no_newline c h = ground arith

digit-no_newline : (c : ℕ) → is_digit c ≡ true → (c == newline) ≡ false
unfolding is_digit
digit-no_newline c h = ground arith

workload-no_newline : (c : ℕ) → is_workload c ≡ true → (c == newline) ≡ false
workload-no_newline c h = ground arith

IsLine-AllIn :
    (p : ℕ → Bool)
    → ((c : ℕ) → p c ≡ true → (c == newline) ≡ false)
    → (s : Text) → AllIn p s
    → IsLine s
IsLine-AllIn p h [] all = tt
IsLine-AllIn p h (c ∷ s) (pc, all) = (h c pc, IsLine-AllIn p h s all)

is_one_line : Text → Bool
is_one_line [] = true
is_one_line (c ∷ t) = not (c == newline) && is_one_line t

IsLine-literal : (t : Text) → is_one_line t ≡ true → IsLine t
unfolding is_one_line
IsLine-literal [] h = tt
IsLine-literal (c ∷ t) h = (ground arith, IsLine-literal t (ground arith))

IsLine-append : (s t : Text) → IsLine s → IsLine t → IsLine (s ++ t)
IsLine-append s t h k = All-append (λ c. (c == newline) ≡ false) s t h k

IsLine-spelled : (e : Engine) → IsLine (spelled e)
unfolding is_one_line
IsLine-spelled ldb = IsLine-literal (codes "LDB") refl
IsLine-spelled redis = IsLine-literal (codes "REDIS") refl

IsLine-marker :
    (e : Engine) (s : Section) → IsHeader s.workload s.variant → IsLine (marker_line e s)
unfolding marker is_one_line
IsLine-marker e s h =
    let word = IsLine-AllIn is_word_char word-no_newline s.variant h.variant_word in
    let digits = IsLine-AllIn is_digit digit-no_newline (show s.threads) (show-digits s.threads) in
    IsLine-append (codes "=== ") _ (IsLine-literal (codes "=== ") refl) (
      IsLine-append (spelled e) _ (IsLine-spelled e) (
        IsLine-append (codes " workload=")
          ((s.workload ∷ [])
            ++ (codes " threads="
                ++ (show s.threads ++ (codes " variant=" ++ (s.variant ++ codes " ===")))))
          (IsLine-literal (codes " workload=") refl)
          (
            workload-no_newline s.workload h.workload,
            IsLine-append (codes " threads=") _ (IsLine-literal (codes " threads=") refl) (
                IsLine-append (show s.threads) _ digits (
                  IsLine-append (codes " variant=") _ (IsLine-literal (codes " variant=") refl) (
                    IsLine-append s.variant (codes " ===") word
                      (IsLine-literal (codes " ===") refl)))),
          )))

IsLine-sections :
    (e : Engine) (ss : List Section) → All (IsSection e) ss → All IsLine (section_lines e ss)
IsLine-sections e [] h = tt
IsLine-sections e (s ∷ ss) (h, hs) = (
  IsLine-marker e s h.header,
  All-append IsLine s.body (section_lines e ss) h.lines (IsLine-sections e ss hs),
)

split_on-lines :
    (ls ms : List Text) (l : Text)
    → All IsLine ls
    → All IsLine (l ∷ ms)
    → split_on newline (join_lines (ls ++ (l ∷ ms))) ≡ ls ++ (l ∷ ms)
split_on-lines [] ms l h k = split_on-join_lines l ms k
split_on-lines (k ∷ ls) ms l (h, hs) g =
    split_on-join_lines k (ls ++ (l ∷ ms)) (h, All-append IsLine ls (l ∷ ms) hs g)

-- For either database: of an output whose lines are some that are no marker, then, for each of one
-- or more runs, the marker line of the script and lines that are no marker, `_blocks` gives one
-- block for each run, in their order, with its workload, its number of threads as it is printed, its
-- variant, and its own lines joined.
pub blocks-sections :
    (e : Engine) (preamble : List Text) (s : Section) (ss : List Section)
    → All IsLine preamble
    → All (IsPlain e) preamble
    → All (IsSection e) (s ∷ ss)
    → blocks (spelled e) (join_lines (preamble ++ section_lines e (s ∷ ss))) ≡ map block_of (s ∷ ss)
unfolding blocks
blocks-sections e preamble s ss lines plain h =
    ap (blocks_from (spelled e) none)
      (split_on-lines preamble _ (marker_line e s) lines (IsLine-sections e (s ∷ ss) h))
    ∙ blocks_from-preamble e preamble (section_lines e (s ∷ ss)) plain
    ∙ blocks_from-sections e none (s ∷ ss) h
