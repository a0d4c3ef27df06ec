-- ===== src/Metrics/Examples.antt =====
-- Tests of the metrics, and their theorems at concrete inputs.
use tarsk.Base.{List, [], arith, contains, false, map, some, text, text_eq, true, ◌++◌, ◌∷◌, ◌≡◌}
use tarsk.Metrics.{buckets}
use tarsk.Metrics.Exposition.{escape_label}
use tarsk.Metrics.Histogram.{Settled, count_within, histogram_counts, no_metrics, observe_all}
use tarsk.Metrics.Labels.{read_label, read_label-escape_label}

abbrev run : List Settled
run =
    record { task = text "embed"; succeeded = true; elapsed = 2000000 }
    ∷ record { task = text "embed"; succeeded = false; elapsed = 30000000 }
    ∷ []

histogram_counts_example : (observe_all run no_metrics).histogram ≡ map (count_within run) buckets
histogram_counts_example = histogram_counts run (omega arith)

-- A name with a quote and a backslash.
read_label-escape_label_example :
    read_label (escape_label (97 ∷ 34 ∷ 92 ∷ []) ++ 34 ∷ text "} 1")
    ≡ some (97 ∷ 34 ∷ 92 ∷ [], text "} 1")
unfolding contains
read_label-escape_label_example = read_label-escape_label (97 ∷ 34 ∷ 92 ∷ []) (text "} 1")
