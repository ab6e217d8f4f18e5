-- ===== src/Store/Service.antt =====
-- The families of services: internal/store/service.go. The creation time is none if it is zero.
pub mod Laws
use kube_state_metrics.Prelude.{Option, List, [], ◌∷◌}
use kube_state_metrics.Prelude.Text.{Bytes, codes}
use kube_state_metrics.Prelude.Assoc.{Map}
use kube_state_metrics.Prelude.Int.{ℤ, pos}
use kube_state_metrics.Prelude.Result.{Result, ok}
use kube_state_metrics.Metric.{Float64, Metric, Family, gauge}
use kube_state_metrics.Generator.{FamilyGenerator}
use kube_state_metrics.Store.Wrapped.{wrap_func}
use kube_state_metrics.Store.Shapes.{labelled_metric, optional_metric, object_labels, infos}

-- v1.LoadBalancerIngress
pub record LoadBalancerIngress : Type 0 where
  pub ip : Bytes
  pub hostname : Bytes

-- v1.Service, as far as the families read it.
pub record Service : Type 0 where
  pub namespace : Bytes
  pub name : Bytes
  pub labels : Map Bytes
  pub creation_timestamp : Option ℤ
  pub cluster_ip : Bytes
  pub external_name : Bytes
  pub load_balancer_ip : Bytes
  pub type : Bytes
  pub external_ips : List Bytes
  pub ingress : List LoadBalancerIngress

-- descServiceLabelsDefaultLabels
abbrev pub desc_service_labels_default_labels : List Bytes
desc_service_labels_default_labels = codes "namespace" ∷ codes "service" ∷ []

abbrev pub service_values : Service → List Bytes
service_values s = s.namespace ∷ s.name ∷ []

module _ (fl : Float64) where
  open fl use {F, of_int}

  -- The function that wraps the families', for the metrics that it is given.
  unfoldable pub wrap_service_func :
      (Service → Result (List (Metric F))) → Service → Result (Family F)
  wrap_service_func = wrap_func desc_service_labels_default_labels service_values

  unfoldable pub service_family :
      Bytes → Bytes → (Service → List (Metric F)) → FamilyGenerator F Service
  service_family name help f = record {
    name = name;
    help = help;
    type = gauge;
    generate_func = wrap_service_func (λ s. ok (f s));
  }

  -- The family generators of the file.
  unfoldable pub service_metric_families : List (FamilyGenerator F Service)
  unfolding service_family
  service_metric_families =
      service_family (codes "kube_service_info") (codes "Information about service.") (λ s.
        labelled_metric fl
          (codes "cluster_ip" ∷ codes "external_name" ∷ codes "load_balancer_ip" ∷ [])
          (s.cluster_ip ∷ s.external_name ∷ s.load_balancer_ip ∷ []) (of_int (pos 1))
        ∷ [])
      ∷ service_family (codes "kube_service_created") (codes "Unix creation timestamp")
          (λ s. optional_metric fl s.creation_timestamp)
      ∷ service_family (codes "kube_service_spec_type") (codes "Type about service.")
          (λ s. labelled_metric fl (codes "type" ∷ []) (s.type ∷ []) (of_int (pos 1)) ∷ [])
      ∷ service_family (codes "kube_service_labels")
          (codes "Kubernetes labels converted to Prometheus labels.")
          (λ s. object_labels fl s.labels)
      ∷ service_family (codes "kube_service_spec_external_ip")
          (codes "Service external ips. One series for each ip")
          (λ s. infos fl (codes "external_ip" ∷ []) (λ ip. ip ∷ []) s.external_ips)
      ∷ service_family (codes "kube_service_status_load_balancer_ingress")
          (codes "Service load balancer ingress status")
          (λ s.
            infos fl (codes "ip" ∷ codes "hostname" ∷ []) (λ i. i.ip ∷ i.hostname ∷ []) s.ingress)
      ∷ []
