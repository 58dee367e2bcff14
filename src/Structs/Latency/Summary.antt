-- ===== src/Structs/Latency/Summary.antt =====
-- Which line the latency is read from.
use memsafedb.Prelude.{◌≡◌, refl, ap, ◌∙◌, true, false, none, some, List, [], ◌∷◌, ◌++◌, All}
use memsafedb.Text.{Text}
use memsafedb.Structs.Latency.{is_summary, is_status, before_summary, last_status, target_line}

before_summary-append :
    (lines : List Text) (summary : Text) (rest : List Text)
    → All (λ line. is_summary line ≡ false) lines
    → is_summary summary ≡ true
    → before_summary (lines ++ (summary ∷ rest)) ≡ lines
unfolding before_summary
before_summary-append [] summary rest h s = rw s refl
before_summary-append (line ∷ lines) summary rest (p, h) s =
    rw p (ap (λ r. line ∷ r) (before_summary-append lines summary rest h s))

last_status-none :
    (lines : List Text) → All (λ line. is_status line ≡ false) lines → last_status lines ≡ none
unfolding last_status
last_status-none [] h = refl
last_status-none (line ∷ lines) (p, h) = rw (last_status-none lines h) (rw p refl)

last_status-append :
    (lines : List Text) (status : Text) (more : List Text)
    → is_status status ≡ true
    → All (λ line. is_status line ≡ false) more
    → last_status (lines ++ (status ∷ more)) ≡ some status
unfolding last_status
last_status-append [] status more s h = rw (last_status-none more h) (rw s refl)
last_status-append (line ∷ lines) status more s h =
    rw (last_status-append lines status more s h) refl

-- In a log with a summary of the run, whatever stands behind the first line of the summary: if the
-- lines before it end with a status and lines that are none, that status is the line that the
-- latency is read from.
pub target_line-status :
    (lines : List Text) (status : Text) (more : List Text) (summary : Text) (rest : List Text)
    → All (λ line. is_summary line ≡ false) (lines ++ (status ∷ more))
    → is_summary summary ≡ true
    → is_status status ≡ true
    → All (λ line. is_status line ≡ false) more
    → target_line ((lines ++ (status ∷ more)) ++ (summary ∷ rest)) ≡ some status
unfolding target_line
target_line-status lines status more summary rest no_summary s p q =
    ap last_status (before_summary-append (lines ++ (status ∷ more)) summary rest no_summary s)
    ∙ last_status-append lines status more p q
