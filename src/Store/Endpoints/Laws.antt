-- ===== src/Store/Endpoints/Laws.antt =====
-- The labels and the texts of the families of endpoints.
use kube_state_metrics.Prelude.{◌⊗◌, refl, All}
use kube_state_metrics.Metric.{Float64}
use kube_state_metrics.Store.Shapes.{object_labels-Aligned, optional_metric-Aligned}
use kube_state_metrics.Store.Render.{BeginsWith, begins_lem}
use kube_state_metrics.Store.Endpoints.{
  Endpoints, desc_endpoint_labels_default_labels, endpoint_values, wrap_endpoint_func,
  endpoint_family, endpoint_metric_families,
}

module _ (fl : Float64) where
  pub endpoint_metric_families_lem :
      (e : Endpoints)
      → All
          (BeginsWith fl desc_endpoint_labels_default_labels (endpoint_values e) e)
          (endpoint_metric_families fl)
  unfolding endpoint_metric_families endpoint_family wrap_endpoint_func
  endpoint_metric_families_lem e =
      begins_lem fl _ _ _ _ _ _ e refl (refl, tt)
      ⊗ begins_lem fl _ _ _ _ _ _ e refl (optional_metric-Aligned fl e.creation_timestamp)
      ⊗ begins_lem fl _ _ _ _ _ _ e refl (object_labels-Aligned fl e.labels)
      ⊗ begins_lem fl _ _ _ _ _ _ e refl (refl, tt)
      ⊗ begins_lem fl _ _ _ _ _ _ e refl (refl, tt)
      ⊗ tt
