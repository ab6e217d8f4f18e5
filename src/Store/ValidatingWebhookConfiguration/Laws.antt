-- ===== src/Store/ValidatingWebhookConfiguration/Laws.antt =====
-- The labels and the texts of the families of validating webhook configurations.
use kube_state_metrics.Prelude.{◌⊗◌, refl, All}
use kube_state_metrics.Metric.{Float64}
use kube_state_metrics.Store.Shapes.{optional_metric-Aligned, resource_version-Aligned}
use kube_state_metrics.Store.Render.{BeginsWith, begins_lem}
use kube_state_metrics.Store.ValidatingWebhookConfiguration.{
  ValidatingWebhookConfiguration, desc_validating_webhook_configuration_labels_default_labels,
  validating_webhook_configuration_values, wrap_validating_webhook_configuration_func,
  validating_webhook_configuration_family, validating_webhook_configuration_metric_families,
}

module _ (fl : Float64) where
  pub validating_webhook_configuration_metric_families_lem :
      (v : ValidatingWebhookConfiguration)
      → All
          (BeginsWith fl desc_validating_webhook_configuration_labels_default_labels
            (validating_webhook_configuration_values v)
            v)
          (validating_webhook_configuration_metric_families fl)
  unfolding validating_webhook_configuration_metric_families validating_webhook_configuration_family
      wrap_validating_webhook_configuration_func
  validating_webhook_configuration_metric_families_lem v =
      begins_lem fl _ _ _ _ _ _ v refl (refl, tt)
      ⊗ begins_lem fl _ _ _ _ _ _ v refl (optional_metric-Aligned fl v.creation_timestamp)
      ⊗ begins_lem fl _ _ _ _ _ _ v refl (resource_version-Aligned fl v.resource_version)
      ⊗ tt
