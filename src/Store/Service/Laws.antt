-- ===== src/Store/Service/Laws.antt =====
-- The labels and the texts of the families of services.
use kube_state_metrics.Prelude.{◌⊗◌, refl, All}
use kube_state_metrics.Metric.{Float64}
use kube_state_metrics.Store.Shapes.{object_labels-Aligned, optional_metric-Aligned, infos-Aligned}
use kube_state_metrics.Store.Render.{BeginsWith, begins_lem}
use kube_state_metrics.Store.Service.{
  Service, desc_service_labels_default_labels, service_values, wrap_service_func, service_family,
  service_metric_families,
}

module _ (fl : Float64) where
  pub service_metric_families_lem :
      (s : Service)
      → All
          (BeginsWith fl desc_service_labels_default_labels (service_values s) s)
          (service_metric_families fl)
  unfolding service_metric_families service_family wrap_service_func
  service_metric_families_lem s =
      begins_lem fl _ _ _ _ _ _ s refl (refl, tt)
      ⊗ begins_lem fl _ _ _ _ _ _ s refl (optional_metric-Aligned fl s.creation_timestamp)
      ⊗ begins_lem fl _ _ _ _ _ _ s refl (refl, tt)
      ⊗ begins_lem fl _ _ _ _ _ _ s refl (object_labels-Aligned fl s.labels)
      ⊗ begins_lem fl _ _ _ _ _ _ s refl (infos-Aligned fl _ _ s.external_ips (λ ip. refl))
      ⊗ begins_lem fl _ _ _ _ _ _ s refl (infos-Aligned fl _ _ s.ingress (λ i. refl))
      ⊗ tt
