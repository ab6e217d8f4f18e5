-- ===== src/Store/MutatingWebhookConfiguration.antt =====
-- The families of mutating webhook configurations:
-- internal/store/mutatingwebhookconfiguration.go. The creation time is none if it is zero.
pub mod Laws
use kube_state_metrics.Prelude.{Option, List, [], ◌∷◌}
use kube_state_metrics.Prelude.Text.{Bytes, codes}
use kube_state_metrics.Prelude.Int.{ℤ, pos}
use kube_state_metrics.Prelude.Result.{Result, ok}
use kube_state_metrics.Metric.{Float64, Metric, Family, gauge}
use kube_state_metrics.Generator.{FamilyGenerator}
use kube_state_metrics.Store.{resource_version_metric}
use kube_state_metrics.Store.Wrapped.{wrap_func}
use kube_state_metrics.Store.Shapes.{value_metric, optional_metric}

-- admissionregistrationv1beta1.MutatingWebhookConfiguration, as far as the families read it.
pub record MutatingWebhookConfiguration : Type 0 where
  pub namespace : Bytes
  pub name : Bytes
  pub creation_timestamp : Option ℤ
  pub resource_version : Bytes

-- descMutatingWebhookConfigurationDefaultLabels
abbrev pub desc_mutating_webhook_configuration_labels_default_labels : List Bytes
desc_mutating_webhook_configuration_labels_default_labels =
    codes "namespace" ∷ codes "mutatingwebhookconfiguration" ∷ []

abbrev pub mutating_webhook_configuration_values : MutatingWebhookConfiguration → List Bytes
mutating_webhook_configuration_values m = m.namespace ∷ m.name ∷ []

module _ (fl : Float64) where
  open fl use {F, of_int}

  -- The function that wraps the families', for the metrics that it is given.
  unfoldable pub wrap_mutating_webhook_configuration_func :
      (MutatingWebhookConfiguration → Result (List (Metric F)))
      → MutatingWebhookConfiguration
      → Result (Family F)
  wrap_mutating_webhook_configuration_func =
      wrap_func desc_mutating_webhook_configuration_labels_default_labels
        mutating_webhook_configuration_values

  unfoldable pub mutating_webhook_configuration_family :
      Bytes
      → Bytes
      → (MutatingWebhookConfiguration → List (Metric F))
      → FamilyGenerator F MutatingWebhookConfiguration
  mutating_webhook_configuration_family name help f = record {
    name = name;
    help = help;
    type = gauge;
    generate_func = wrap_mutating_webhook_configuration_func (λ m. ok (f m));
  }

  -- The family generators of the file.
  unfoldable pub mutating_webhook_configuration_metric_families :
      List (FamilyGenerator F MutatingWebhookConfiguration)
  unfolding mutating_webhook_configuration_family
  mutating_webhook_configuration_metric_families =
      mutating_webhook_configuration_family (codes "kube_mutatingwebhookconfiguration_info")
        (codes "Information about the MutatingWebhookConfiguration.")
        (λ m. value_metric fl (of_int (pos 1)) ∷ [])
      ∷ mutating_webhook_configuration_family (codes "kube_mutatingwebhookconfiguration_created")
          (codes "Unix creation timestamp.") (λ m. optional_metric fl m.creation_timestamp)
      ∷ mutating_webhook_configuration_family
          (codes "kube_mutatingwebhookconfiguration_metadata_resource_version")
          (codes
            "Resource version representing a specific version of the MutatingWebhookConfiguration.")
          (λ m. resource_version_metric fl m.resource_version)
      ∷ []
