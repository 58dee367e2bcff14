-- ===== src/Instructions/Patterns.antt =====
-- The mnemonics and the patterns of count_new_instructions.py.
use memsafedb.Prelude.{
  ℕ, Bool, false, not, ◌&&◌, ◌||◌, Option, none, some, List, [], ◌∷◌, ◌==◌, leb,
}
use memsafedb.Text.{Text, codes, text_eq, lower, is_digit, is_empty}
use memsafedb.Dict.{member}
use memsafedb.Regex.{
  Re, char, seq, alt, star, group, plus, lit, eps, bol, eol, boundary, optional, digit, match_at,
  search_in,
}
use memsafedb.Parsers.Classes.{spaces, maybe_spaces, is_word_char}
use memsafedb.Parsers.Duckdb.{is_match}

pub data Mechanism : Type 0 where
  mte cheri : Mechanism

-- `MTE_MNEMONICS`
abbrev pub mte_mnemonics : List Text
mte_mnemonics =
    codes "addg"
    ∷ codes "gmi"
    ∷ codes "irg"
    ∷ codes "ldg"
    ∷ codes "ldgm"
    ∷ codes "st2g"
    ∷ codes "stg"
    ∷ codes "stgm"
    ∷ codes "stz2g"
    ∷ codes "stzg"
    ∷ codes "stzgm"
    ∷ codes "subg"
    ∷ []

-- `a|b|…` of words, before the rest
abbrev words : List Text → Re → Re
words [] r = char (λ c. false)
words (w ∷ []) r = lit w r
words (w ∷ (v ∷ ws)) r = alt (lit w r) (words (v ∷ ws) r)

-- `^(?:gc(?:base|flgs|len|off|perm|tag|type|value)|gctype)$`
get_pattern : Re
get_pattern = seq bol (
    seq
      (alt
        (lit (codes "gc") (
          words
            (codes "base"
              ∷ codes "flgs"
              ∷ codes "len"
              ∷ codes "off"
              ∷ codes "perm"
              ∷ codes "tag"
              ∷ codes "type"
              ∷ codes "value"
              ∷ [])
            eps))
        (lit (codes "gctype") eps))
      eol)

-- `^(?:sc(?:addr|bnds|bndse|flgs|off|perm|value)|scvalue)$`
set_pattern : Re
set_pattern = seq bol (
    seq
      (alt
        (lit (codes "sc") (
          words
            (codes "addr"
              ∷ codes "bnds"
              ∷ codes "bndse"
              ∷ codes "flgs"
              ∷ codes "off"
              ∷ codes "perm"
              ∷ codes "value"
              ∷ [])
            eps))
        (lit (codes "scvalue") eps))
      eol)

-- `^(?:align[du]|build|cfromptr|chk(?:eq|ss)|clrperm|clrtag|cpy(?:type)?|ctoptr|ldct|`
-- `seal(?:entry)?|stct|unseal)$`
other_pattern : Re
other_pattern = seq bol (
    seq
      (alt (lit (codes "align") (char (λ c. c == b'd' || c == b'u'))) (
        alt (lit (codes "build") eps) (
          alt (lit (codes "cfromptr") eps) (
            alt (lit (codes "chk") (words (codes "eq" ∷ codes "ss" ∷ []) eps)) (
              alt (lit (codes "clrperm") eps) (
                alt (lit (codes "clrtag") eps) (
                  alt (lit (codes "cpy") (optional (lit (codes "type") eps))) (
                    alt (lit (codes "ctoptr") eps) (
                      alt (lit (codes "ldct") eps) (
                        alt (lit (codes "seal") (optional (lit (codes "entry") eps)))
                          (alt (lit (codes "stct") eps) (lit (codes "unseal") eps))))))))))))
      eol)

abbrev is_hex : ℕ → Bool
is_hex c = is_digit c || (leb b'a' c && leb c b'f')

abbrev hex : Re
hex = char is_hex

-- `[0-9a-f]{2,8}`
abbrev hex_word : Re
hex_word = seq hex (
    seq hex (
      optional (
        seq hex (
          optional (
            seq hex
              (optional (seq hex (optional (seq hex (optional (seq hex (optional hex))))))))))))

-- `[.a-zA-Z0-9_+-]`
abbrev is_mnemonic_char : ℕ → Bool
is_mnemonic_char c = is_word_char c || c == b'.' || c == b'+' || c == b'-'

-- `^\s*[0-9a-f]+:\s+(?:[0-9a-f]{2,8}\s+)+([.a-zA-Z0-9_+-]+)(?:\s+(.*))?$`
unfoldable pub disasm_line : Re
disasm_line = seq bol (
    maybe_spaces (
      seq (plus hex) (
        lit (codes ":") (
          spaces (
            seq (plus (seq hex_word (spaces eps))) (
              seq (group 1 (plus (char is_mnemonic_char)))
                (seq (optional (spaces (group 2 (star (char (λ c. not (c == 10))))))) eol)))))))

-- `\b(?:c(?:[12]?\d|3[01]|sp|zr))\b`
pub capability_operand : Re
capability_operand = seq boundary (
    seq
      (lit (codes "c") (
        alt (seq (optional (char (λ c. c == b'1' || c == b'2'))) digit) (
          alt (lit (codes "3") (char (λ c. c == b'0' || c == b'1')))
            (alt (lit (codes "sp") eps) (lit (codes "zr") eps)))))
      boundary)

unfoldable pub is_new_mnemonic : Mechanism → Text → Bool
unfolding lower text_eq member match_at get_pattern set_pattern other_pattern
is_new_mnemonic mte mnemonic = member text_eq (lower mnemonic) mte_mnemonics
is_new_mnemonic cheri mnemonic =
    is_match (match_at get_pattern (lower mnemonic))
    || is_match (match_at set_pattern (lower mnemonic))
    || is_match (match_at other_pattern (lower mnemonic))

-- `None` and the empty text have no operands.
unfoldable pub has_capability_operands : Option Text → Bool
unfolding search_in capability_operand
has_capability_operands none = false
has_capability_operands (some operands) =
    not (is_empty operands) && is_match (search_in capability_operand operands)
