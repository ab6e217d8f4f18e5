-- ===== src/Store/MutatingWebhookConfiguration/Laws.antt =====
-- The labels and the texts of the families of mutating webhook configurations.
use kube_state_metrics.Prelude.{◌⊗◌, refl, All}
use kube_state_metrics.Metric.{Float64}
use kube_state_metrics.Store.Shapes.{optional_metric-Aligned, resource_version-Aligned}
use kube_state_metrics.Store.Render.{BeginsWith, begins_lem}
use kube_state_metrics.Store.MutatingWebhookConfiguration.{
  MutatingWebhookConfiguration, desc_mutating_webhook_configuration_labels_default_labels,
  mutating_webhook_configuration_values, wrap_mutating_webhook_configuration_func,
  mutating_webhook_configuration_family, mutating_webhook_configuration_metric_families,
}

module _ (fl : Float64) where
  pub mutating_webhook_configuration_metric_families_lem :
      (m : MutatingWebhookConfiguration)
      → All
          (BeginsWith fl desc_mutating_webhook_configuration_labels_default_labels
            (mutating_webhook_configuration_values m)
            m)
          (mutating_webhook_configuration_metric_families fl)
  unfolding mutating_webhook_configuration_metric_families mutating_webhook_configuration_family
      wrap_mutating_webhook_configuration_func
  mutating_webhook_configuration_metric_families_lem m =
      begins_lem fl _ _ _ _ _ _ m refl (refl, tt)
      ⊗ begins_lem fl _ _ _ _ _ _ m refl (optional_metric-Aligned fl m.creation_timestamp)
      ⊗ begins_lem fl _ _ _ _ _ _ m refl (resource_version-Aligned fl m.resource_version)
      ⊗ tt
