-- ===== src/Store/Secret/Laws.antt =====
-- The labels and the texts of the families of secrets.
use kube_state_metrics.Prelude.{◌⊗◌, refl, All}
use kube_state_metrics.Metric.{Float64}
use kube_state_metrics.Store.Shapes.{
  object_labels-Aligned, optional_metric-Aligned, resource_version-Aligned,
}
use kube_state_metrics.Store.Render.{BeginsWith, begins_lem}
use kube_state_metrics.Store.Secret.{
  Secret, desc_secret_labels_default_labels, secret_values, wrap_secret_func, secret_family,
  secret_metric_families,
}

module _ (fl : Float64) where
  pub secret_metric_families_lem :
      (s : Secret)
      → All
          (BeginsWith fl desc_secret_labels_default_labels (secret_values s) s)
          (secret_metric_families fl)
  unfolding secret_metric_families secret_family wrap_secret_func
  secret_metric_families_lem s =
      begins_lem fl _ _ _ _ _ _ s refl (refl, tt)
      ⊗ begins_lem fl _ _ _ _ _ _ s refl (refl, tt)
      ⊗ begins_lem fl _ _ _ _ _ _ s refl (object_labels-Aligned fl s.labels)
      ⊗ begins_lem fl _ _ _ _ _ _ s refl (optional_metric-Aligned fl s.creation_timestamp)
      ⊗ begins_lem fl _ _ _ _ _ _ s refl (resource_version-Aligned fl s.resource_version)
      ⊗ tt
