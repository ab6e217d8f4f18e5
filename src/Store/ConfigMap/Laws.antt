-- ===== src/Store/ConfigMap/Laws.antt =====
-- The labels and the texts of the families of config maps.
use kube_state_metrics.Prelude.{◌⊗◌, refl, All}
use kube_state_metrics.Metric.{Float64}
use kube_state_metrics.Store.Shapes.{optional_metric-Aligned, resource_version-Aligned}
use kube_state_metrics.Store.Render.{BeginsWith, begins_lem}
use kube_state_metrics.Store.ConfigMap.{
  ConfigMap, desc_config_map_labels_default_labels, config_map_values, wrap_config_map_func,
  config_map_family, config_map_metric_families,
}

module _ (fl : Float64) where
  pub config_map_metric_families_lem :
      (c : ConfigMap)
      → All
          (BeginsWith fl desc_config_map_labels_default_labels (config_map_values c) c)
          (config_map_metric_families fl)
  unfolding config_map_metric_families config_map_family wrap_config_map_func
  config_map_metric_families_lem c =
      begins_lem fl _ _ _ _ _ _ c refl (refl, tt)
      ⊗ begins_lem fl _ _ _ _ _ _ c refl (optional_metric-Aligned fl c.creation_timestamp)
      ⊗ begins_lem fl _ _ _ _ _ _ c refl (resource_version-Aligned fl c.resource_version)
      ⊗ tt
