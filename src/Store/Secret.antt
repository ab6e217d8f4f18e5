-- ===== src/Store/Secret.antt =====
-- The families of secrets: internal/store/secret.go. The creation time is none if it is zero.
pub mod Laws
use kube_state_metrics.Prelude.{Option, List, [], ◌∷◌}
use kube_state_metrics.Prelude.Text.{Bytes, codes}
use kube_state_metrics.Prelude.Assoc.{Map}
use kube_state_metrics.Prelude.Int.{ℤ, pos}
use kube_state_metrics.Prelude.Result.{Result, ok}
use kube_state_metrics.Metric.{Float64, Metric, Family, gauge}
use kube_state_metrics.Generator.{FamilyGenerator}
use kube_state_metrics.Store.{resource_version_metric}
use kube_state_metrics.Store.Wrapped.{wrap_func}
use kube_state_metrics.Store.Shapes.{value_metric, labelled_metric, optional_metric, object_labels}

-- v1.Secret, as far as the families read it.
pub record Secret : Type 0 where
  pub namespace : Bytes
  pub name : Bytes
  pub labels : Map Bytes
  pub creation_timestamp : Option ℤ
  pub resource_version : Bytes
  pub type : Bytes

-- descSecretLabelsDefaultLabels
abbrev pub desc_secret_labels_default_labels : List Bytes
desc_secret_labels_default_labels = codes "namespace" ∷ codes "secret" ∷ []

abbrev pub secret_values : Secret → List Bytes
secret_values s = s.namespace ∷ s.name ∷ []

module _ (fl : Float64) where
  open fl use {F, of_int}

  -- The function that wraps the families', for the metrics that it is given.
  unfoldable pub wrap_secret_func : (Secret → Result (List (Metric F))) → Secret → Result (Family F)
  wrap_secret_func = wrap_func desc_secret_labels_default_labels secret_values

  unfoldable pub secret_family :
      Bytes → Bytes → (Secret → List (Metric F)) → FamilyGenerator F Secret
  secret_family name help f = record {
    name = name;
    help = help;
    type = gauge;
    generate_func = wrap_secret_func (λ s. ok (f s));
  }

  -- The family generators of the file.
  unfoldable pub secret_metric_families : List (FamilyGenerator F Secret)
  unfolding secret_family
  secret_metric_families =
      secret_family (codes "kube_secret_info") (codes "Information about secret.")
        (λ s. value_metric fl (of_int (pos 1)) ∷ [])
      ∷ secret_family (codes "kube_secret_type") (codes "Type about secret.")
          (λ s. labelled_metric fl (codes "type" ∷ []) (s.type ∷ []) (of_int (pos 1)) ∷ [])
      ∷ secret_family (codes "kube_secret_labels")
          (codes "Kubernetes labels converted to Prometheus labels.")
          (λ s. object_labels fl s.labels)
      ∷ secret_family (codes "kube_secret_created") (codes "Unix creation timestamp")
          (λ s. optional_metric fl s.creation_timestamp)
      ∷ secret_family (codes "kube_secret_metadata_resource_version")
          (codes "Resource version representing a specific version of secret.")
          (λ s. resource_version_metric fl s.resource_version)
      ∷ []
