-- ===== src/Parsers/Variant.antt =====
-- The chains in dbms/benchmark/parsers.py that name a build variant.
use memsafedb.Prelude.{◌≡◌, arith, ◌++◌, if◌then◌else◌}
use memsafedb.Text.{Text, codes, text_eq}
use memsafedb.Text.Laws.{text_eq_iff}

-- The chain of `parse_redis_output`, `parse_sqlite_output` and `parse_ladybug_output`.
unfoldable pub variant_name : Text → Text
unfolding text_eq
variant_name raw =
    if text_eq raw (codes "dynamic")
    then codes "release-dynamic"
    else if text_eq raw (codes "mte")
    then codes "release-mte"
    else if text_eq raw (codes "static")
    then codes "release-static"
    else if text_eq raw (codes "cheri")
    then codes "release-cheri"
    else codes "release-" ++ raw

-- The chain of `parse_leveldb_bench_output` and `parse_leveldb_output`.
unfoldable pub sanitizer_variant_name : Text → Text
unfolding text_eq
sanitizer_variant_name raw =
    if text_eq raw (codes "mte")
    then codes "release-mte"
    else if text_eq raw (codes "dynamic")
    then codes "release-dynamic"
    else if text_eq raw (codes "asan")
    then codes "release-asan"
    else if text_eq raw (codes "rsan")
    then codes "release-rsan"
    else if text_eq raw (codes "static")
    then codes "release-static"
    else if text_eq raw (codes "cheri")
    then codes "release-cheri"
    else codes "release-" ++ raw

variant_name-eq-append : (raw : Text) → variant_name raw ≡ codes "release-" ++ raw
unfolding variant_name
variant_name-eq-append raw = ground (
  arith,
  text_eq_iff raw (codes "dynamic"),
  text_eq_iff raw (codes "mte"),
  text_eq_iff raw (codes "static"),
  text_eq_iff raw (codes "cheri"),
)

sanitizer_variant_name-eq-append :
    (raw : Text) → sanitizer_variant_name raw ≡ codes "release-" ++ raw
unfolding sanitizer_variant_name
sanitizer_variant_name-eq-append raw = ground (
  arith,
  text_eq_iff raw (codes "mte"),
  text_eq_iff raw (codes "dynamic"),
  text_eq_iff raw (codes "asan"),
  text_eq_iff raw (codes "rsan"),
  text_eq_iff raw (codes "static"),
  text_eq_iff raw (codes "cheri"),
)

-- Both chains put `release-` in front of any name, those that they list and those that they do
-- not, so the parsers agree on the variants.
pub variant_names :
    (raw : Text)
    → (variant_name raw ≡ codes "release-" ++ raw)
      × (sanitizer_variant_name raw ≡ codes "release-" ++ raw)
variant_names raw = (variant_name-eq-append raw, sanitizer_variant_name-eq-append raw)
