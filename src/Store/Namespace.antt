-- ===== src/Store/Namespace.antt =====
-- The families of namespaces: internal/store/namespace.go. The creation time is none if it is
-- zero.
pub mod Laws
use kube_state_metrics.Prelude.{Option, List, [], ◌∷◌}
use kube_state_metrics.Prelude.Text.{Bytes, codes}
use kube_state_metrics.Prelude.Assoc.{Map}
use kube_state_metrics.Prelude.Int.{ℤ}
use kube_state_metrics.Prelude.Result.{Result, ok}
use kube_state_metrics.Metric.{Float64, Metric, Family, gauge}
use kube_state_metrics.Generator.{FamilyGenerator}
use kube_state_metrics.Store.Wrapped.{wrap_func}
use kube_state_metrics.Store.Shapes.{
  optional_metric, object_labels, Condition, status_conditions, phases,
}

-- v1.Namespace, as far as the families read it.
pub record Namespace : Type 0 where
  pub name : Bytes
  pub labels : Map Bytes
  pub creation_timestamp : Option ℤ
  pub phase : Bytes
  pub conditions : List Condition

-- descNamespaceLabelsDefaultLabels
abbrev pub desc_namespace_labels_default_labels : List Bytes
desc_namespace_labels_default_labels = codes "namespace" ∷ []

abbrev pub namespace_values : Namespace → List Bytes
namespace_values n = n.name ∷ []

module _ (fl : Float64) where
  open fl use {F, of_int}

  -- The function that wraps the families', for the metrics that it is given.
  unfoldable pub wrap_namespace_func :
      (Namespace → Result (List (Metric F))) → Namespace → Result (Family F)
  wrap_namespace_func = wrap_func desc_namespace_labels_default_labels namespace_values

  unfoldable pub namespace_family :
      Bytes → Bytes → (Namespace → List (Metric F)) → FamilyGenerator F Namespace
  namespace_family name help f = record {
    name = name;
    help = help;
    type = gauge;
    generate_func = wrap_namespace_func (λ n. ok (f n));
  }

  -- The family generators of the file.
  unfoldable pub namespace_metric_families : List (FamilyGenerator F Namespace)
  unfolding namespace_family
  namespace_metric_families =
      namespace_family (codes "kube_namespace_created") (codes "Unix creation timestamp")
        (λ n. optional_metric fl n.creation_timestamp)
      ∷ namespace_family (codes "kube_namespace_labels")
          (codes "Kubernetes labels converted to Prometheus labels.")
          (λ n. object_labels fl n.labels)
      ∷ namespace_family (codes "kube_namespace_status_phase")
          (codes "kubernetes namespace status phase.")
          (λ n. phases fl n.phase (codes "Active" ∷ codes "Terminating" ∷ []))
      ∷ namespace_family (codes "kube_namespace_status_condition")
          (codes "The condition of a namespace.") (λ n. status_conditions fl n.conditions)
      ∷ []
