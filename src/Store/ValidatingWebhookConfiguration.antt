-- ===== src/Store/ValidatingWebhookConfiguration.antt =====
-- The families of validating webhook configurations:
-- internal/store/validatingwebhookconfiguration.go. The creation time is none if it is zero.
pub mod Laws
use kube_state_metrics.Prelude.{Option, List, [], ◌∷◌}
use kube_state_metrics.Prelude.Text.{Bytes, codes}
use kube_state_metrics.Prelude.Int.{ℤ, pos}
use kube_state_metrics.Prelude.Result.{Result, ok}
use kube_state_metrics.Metric.{Float64, Metric, Family, gauge}
use kube_state_metrics.Generator.{FamilyGenerator}
use kube_state_metrics.Store.{resource_version_metric}
use kube_state_metrics.Store.Wrapped.{wrap_func}
use kube_state_metrics.Store.Shapes.{value_metric, optional_metric}

-- admissionregistrationv1.ValidatingWebhookConfiguration, as far as the families read it.
pub record ValidatingWebhookConfiguration : Type 0 where
  pub namespace : Bytes
  pub name : Bytes
  pub creation_timestamp : Option ℤ
  pub resource_version : Bytes

-- descValidatingWebhookConfigurationDefaultLabels
abbrev pub desc_validating_webhook_configuration_labels_default_labels : List Bytes
desc_validating_webhook_configuration_labels_default_labels =
    codes "namespace" ∷ codes "validatingwebhookconfiguration" ∷ []

abbrev pub validating_webhook_configuration_values : ValidatingWebhookConfiguration → List Bytes
validating_webhook_configuration_values v = v.namespace ∷ v.name ∷ []

module _ (fl : Float64) where
  open fl use {F, of_int}

  -- The function that wraps the families', for the metrics that it is given.
  unfoldable pub wrap_validating_webhook_configuration_func :
      (ValidatingWebhookConfiguration → Result (List (Metric F)))
      → ValidatingWebhookConfiguration
      → Result (Family F)
  wrap_validating_webhook_configuration_func =
      wrap_func desc_validating_webhook_configuration_labels_default_labels
        validating_webhook_configuration_values

  unfoldable pub validating_webhook_configuration_family :
      Bytes
      → Bytes
      → (ValidatingWebhookConfiguration → List (Metric F))
      → FamilyGenerator F ValidatingWebhookConfiguration
  validating_webhook_configuration_family name help f = record {
    name = name;
    help = help;
    type = gauge;
    generate_func = wrap_validating_webhook_configuration_func (λ v. ok (f v));
  }

  -- The family generators of the file.
  unfoldable pub validating_webhook_configuration_metric_families :
      List (FamilyGenerator F ValidatingWebhookConfiguration)
  unfolding validating_webhook_configuration_family
  validating_webhook_configuration_metric_families =
      validating_webhook_configuration_family (codes "kube_validatingwebhookconfiguration_info")
        (codes "Information about the ValidatingWebhookConfiguration.")
        (λ v. value_metric fl (of_int (pos 1)) ∷ [])
      ∷ validating_webhook_configuration_family
          (codes "kube_validatingwebhookconfiguration_created") (codes "Unix creation timestamp.")
          (λ v. optional_metric fl v.creation_timestamp)
      ∷ validating_webhook_configuration_family
          (codes "kube_validatingwebhookconfiguration_metadata_resource_version")
          (codes
            "Resource version representing a specific version of the ValidatingWebhookConfiguration.")
          (λ v. resource_version_metric fl v.resource_version)
      ∷ []
