-- ===== src/Store/ResourceQuota/Laws.antt =====
-- The labels and the texts of the families of resource quotas.
use kube_state_metrics.Prelude.{◌⊗◌, refl, [], ◌∷◌, All, All-append}
use kube_state_metrics.Prelude.Text.{Bytes, codes}
use kube_state_metrics.Prelude.Assoc.{Map}
use kube_state_metrics.Metric.{Float64}
use kube_state_metrics.Metric.Lines.{Aligned}
use kube_state_metrics.Store.Packages.{Packages}
use kube_state_metrics.Store.Shapes.{optional_metric-Aligned}
use kube_state_metrics.Store.Render.{BeginsWith, begins_lem}
use kube_state_metrics.Store.ResourceQuota.{
  ResourceQuota, desc_resource_quota_labels_default_labels, resource_quota_values,
  wrap_resource_quota_func, resource_quota_family, resource_quota_metric_families, quota_metrics,
}

module _ (fl : Float64) (pk : Packages) where
  quota_metrics-Aligned :
      (type : Bytes) (m : Map pk.Quantity) → All Aligned (quota_metrics fl pk type m)
  unfolding quota_metrics
  quota_metrics-Aligned type [] = tt
  quota_metrics-Aligned type ((res, qty) ∷ m) = (refl, quota_metrics-Aligned type m)

  pub resource_quota_metric_families_lem :
      (r : (ResourceQuota pk))
      → All
          (BeginsWith fl desc_resource_quota_labels_default_labels (resource_quota_values r) r)
          (resource_quota_metric_families fl pk)
  unfolding resource_quota_metric_families resource_quota_family wrap_resource_quota_func
  resource_quota_metric_families_lem r =
      begins_lem fl _ _ _ _ _ _ r refl (optional_metric-Aligned fl r.creation_timestamp)
      ⊗ begins_lem fl _ _ _ _ _ _ r refl (
          All-append Aligned (quota_metrics fl pk (codes "hard") r.hard) _
            (quota_metrics-Aligned (codes "hard") r.hard)
            (quota_metrics-Aligned (codes "used") r.used))
      ⊗ tt
