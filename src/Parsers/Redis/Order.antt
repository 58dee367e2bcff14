-- ===== src/Parsers/Redis/Order.antt =====
-- The rows of `parse_redis_output` in the order of its markers.
use memsafedb.Prelude.{
  ℕ, true, false, not, Option, none, some, List, [], ◌∷◌, keep, map, if◌then◌else◌, Sublist, empty,
  taken, left_out, none_taken,
}
use memsafedb.Prelude.Gen.{Gen, done, yield, rows, ◌then◌}
use memsafedb.Text.{Text, lower}
use memsafedb.Regex.{Match, find_iter, group_text}
use memsafedb.Rows.{Floats, Row, or_value_error}
use memsafedb.Parsers.Variant.{variant_name}
use memsafedb.Parsers.Redis.{
  redis_marker, throughput_text, slice, is_run_phase, next_start, redis_row, segment_rows,
  markers_rows, parse_redis_output, parse_redis_output_lem,
}

-- The workload and the variant that a marker names.
abbrev pub marker_label : Match → Text × Text
marker_label m = (lower (group_text 1 m), variant_name (lower (group_text 2 m)))

module _ (fl : Floats) (repetition : ℕ) where
  abbrev pub row_label : Row fl.Float → Text × Text
  row_label r = (r.workload, r.variant)

  -- A segment yields nothing, raises, or yields one row with the label of its marker.
  segment-then :
      (m : Match) (segment : Text) (rest : Gen (Row fl.Float)) (ls : List (Text × Text))
      → Sublist (map row_label (rows rest)) ls
      → Sublist
          (map row_label (rows (segment_rows fl repetition m segment then rest)))
          (marker_label m ∷ ls)
  unfolding segment_rows
  segment-then m segment rest ls h = by_text (throughput_text segment)
    where
      by_float :
          (o : Option fl.Float)
          → Sublist
              (map row_label (
                rows (
                  or_value_error o (λ x.
                    yield
                      (redis_row fl repetition
                        (variant_name (lower (group_text 2 m)))
                        (lower (group_text 1 m))
                        x)
                      done)
                  then rest)))
              (marker_label m ∷ ls)
      by_float none = none_taken _
      by_float (some x) = taken (marker_label m) h

      by_text :
          (o : Option Text)
          → Sublist
              (map row_label (
                rows (
                  (elim o [
                    | none ↦ done
                    | some t ↦ or_value_error (fl.of_text t) (λ x.
                        yield
                          (redis_row fl repetition
                            (variant_name (lower (group_text 2 m)))
                            (lower (group_text 1 m))
                            x)
                          done)
                  ])
                  then rest)))
              (marker_label m ∷ ls)
      by_text none = left_out (marker_label m) h
      by_text (some t) = by_float (fl.of_text t)

  markers_rows-Sublist :
      (output : Text) (ms : List Match)
      → Sublist
          (map row_label (rows (markers_rows fl repetition output ms)))
          (map marker_label (keep is_run_phase ms))
  unfolding markers_rows
  markers_rows-Sublist output [] = empty
  markers_rows-Sublist output (m ∷ ms) =
      elim (is_run_phase m)
        as (λ b.
          Sublist
            (map row_label (
              rows (
                if not b
                then markers_rows fl repetition output ms
                else segment_rows fl repetition m
                    (slice m.end_state.at (next_start output ms) output)
                  then markers_rows fl repetition output ms)))
            (map marker_label (if b then m ∷ keep is_run_phase ms else keep is_run_phase ms))) [
              | true ↦ segment-then m _ _ _ (markers_rows-Sublist output ms)
              | false ↦ markers_rows-Sublist output ms
            ]

  -- Of any output: the rows name the workloads and the variants of markers of the run phase, each
  -- marker at most once, in the order of the markers.
  pub parse_redis_output-Sublist :
      (output : Text)
      → Sublist
          (map row_label (rows (parse_redis_output fl repetition output)))
          (map marker_label (keep is_run_phase (find_iter redis_marker output)))
  parse_redis_output-Sublist output =
      rw (parse_redis_output_lem fl repetition output)
        (markers_rows-Sublist output (find_iter redis_marker output))
