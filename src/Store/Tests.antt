-- ===== src/Store/Tests.antt =====
-- Labels and conditions, and the theorems about them applied.
use mathlib.Core.List.{Permᴰ, zip}
use kube_state_metrics.Prelude.{◌≡◌, ◌≢◌, refl, false, [], ◌∷◌, ◌++◌, map, length, arith}
use kube_state_metrics.Prelude.Text.{Bytes, codes, ◌==◌}
use kube_state_metrics.Prelude.Assoc.{Map, keys}
use kube_state_metrics.Metric.Tests.{small_ints}
use kube_state_metrics.Store.{is_label_char, map_to_prometheus_labels}
use kube_state_metrics.Store.Conditions.{OneSet, add_condition_metrics_lem}
use kube_state_metrics.Store.Labels.{
  Distinct, label_name, map_to_prometheus_labels_lem, label_names_collide,
}

abbrev labels : Map Bytes
labels = (codes "b/c", codes "2") ∷ (codes "a", codes "1") ∷ []

abbrev swapped : Map Bytes
swapped = (codes "a", codes "1") ∷ (codes "b/c", codes "2") ∷ []

labels-Distinct : Distinct (keys labels)
labels-Distinct = ((λ e. cc e, tt), (tt, tt))

map_to_prometheus_labels_lem_example :
    let (names, values) = map_to_prometheus_labels labels (codes "label") in
    (length names ≡ length values)
    × Permᴰ
        (zip names values)
        (map (λ (e : Bytes × Bytes). (label_name (codes "label") e.0, e.1)) labels)
    × (map_to_prometheus_labels swapped (codes "label")
        ≡ map_to_prometheus_labels labels (codes "label"))
map_to_prometheus_labels_lem_example =
    map_to_prometheus_labels_lem labels swapped (codes "label") labels-Distinct
      (Permᴰ.swap refl refl)

slash_invalid : is_label_char b'/' ≡ false
unfolding is_label_char
slash_invalid = refl

dash_invalid : is_label_char b'-' ≡ false
unfolding is_label_char
dash_invalid = refl

label_names_collide_example :
    ((codes "a" ++ b'/' ∷ codes "b") ≢ (codes "a" ++ b'-' ∷ codes "b"))
    × (label_name (codes "label") (codes "a" ++ b'/' ∷ codes "b")
        ≡ label_name (codes "label") (codes "a" ++ b'-' ∷ codes "b"))
label_names_collide_example =
    label_names_collide (codes "label") (codes "a") (codes "b") b'/' b'-' slash_invalid dash_invalid
      (λ e. omega (arith, e))

add_condition_metrics_lem_example : OneSet small_ints (codes "Unknown")
add_condition_metrics_lem_example =
    add_condition_metrics_lem small_ints (codes "Unknown") (unfold ◌==◌ in refl)
