-- ===== src/Store/ConfigMap.antt =====
-- The families of config maps: internal/store/configmap.go. The creation time is none if it is
-- zero.
pub mod Laws
use kube_state_metrics.Prelude.{Option, List, [], ◌∷◌}
use kube_state_metrics.Prelude.Text.{Bytes, codes}
use kube_state_metrics.Prelude.Int.{ℤ, pos}
use kube_state_metrics.Prelude.Result.{Result, ok}
use kube_state_metrics.Metric.{Float64, Metric, Family, gauge}
use kube_state_metrics.Generator.{FamilyGenerator}
use kube_state_metrics.Store.{resource_version_metric}
use kube_state_metrics.Store.Wrapped.{wrap_func}
use kube_state_metrics.Store.Shapes.{value_metric, optional_metric}

-- v1.ConfigMap, as far as the families read it.
pub record ConfigMap : Type 0 where
  pub namespace : Bytes
  pub name : Bytes
  pub creation_timestamp : Option ℤ
  pub resource_version : Bytes

-- descConfigMapLabelsDefaultLabels
abbrev pub desc_config_map_labels_default_labels : List Bytes
desc_config_map_labels_default_labels = codes "namespace" ∷ codes "configmap" ∷ []

abbrev pub config_map_values : ConfigMap → List Bytes
config_map_values c = c.namespace ∷ c.name ∷ []

module _ (fl : Float64) where
  open fl use {F, of_int}

  -- The function that wraps the families', for the metrics that it is given.
  unfoldable pub wrap_config_map_func :
      (ConfigMap → Result (List (Metric F))) → ConfigMap → Result (Family F)
  wrap_config_map_func = wrap_func desc_config_map_labels_default_labels config_map_values

  unfoldable pub config_map_family :
      Bytes → Bytes → (ConfigMap → List (Metric F)) → FamilyGenerator F ConfigMap
  config_map_family name help f = record {
    name = name;
    help = help;
    type = gauge;
    generate_func = wrap_config_map_func (λ c. ok (f c));
  }

  -- The family generators of the file.
  unfoldable pub config_map_metric_families : List (FamilyGenerator F ConfigMap)
  unfolding config_map_family
  config_map_metric_families =
      config_map_family (codes "kube_configmap_info") (codes "Information about configmap.")
        (λ c. value_metric fl (of_int (pos 1)) ∷ [])
      ∷ config_map_family (codes "kube_configmap_created") (codes "Unix creation timestamp")
          (λ c. optional_metric fl c.creation_timestamp)
      ∷ config_map_family (codes "kube_configmap_metadata_resource_version")
          (codes "Resource version representing a specific version of the configmap.")
          (λ c. resource_version_metric fl c.resource_version)
      ∷ []
