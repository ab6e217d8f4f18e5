-- ===== src/Store/Endpoints.antt =====
-- The families of endpoints: internal/store/endpoint.go. The creation time is none if it is
-- zero. An address or a port is its text.
pub mod Laws
use kube_state_metrics.Prelude.{ℕ, ◌+◌, ◌*◌, Option, List, [], ◌∷◌, length}
use kube_state_metrics.Prelude.Text.{Bytes, codes}
use kube_state_metrics.Prelude.Assoc.{Map}
use kube_state_metrics.Prelude.Int.{ℤ, pos}
use kube_state_metrics.Prelude.Result.{Result, ok}
use kube_state_metrics.Metric.{Float64, Metric, Family, gauge}
use kube_state_metrics.Generator.{FamilyGenerator}
use kube_state_metrics.Store.Wrapped.{wrap_func}
use kube_state_metrics.Store.Shapes.{value_metric, optional_metric, object_labels}

-- v1.EndpointSubset
pub record EndpointSubset : Type 0 where
  pub addresses : List Bytes
  pub not_ready_addresses : List Bytes
  pub ports : List Bytes

-- v1.Endpoints, as far as the families read it.
pub record Endpoints : Type 0 where
  pub namespace : Bytes
  pub name : Bytes
  pub labels : Map Bytes
  pub creation_timestamp : Option ℤ
  pub subsets : List EndpointSubset

-- descEndpointLabelsDefaultLabels
abbrev pub desc_endpoint_labels_default_labels : List Bytes
desc_endpoint_labels_default_labels = codes "namespace" ∷ codes "endpoint" ∷ []

abbrev pub endpoint_values : Endpoints → List Bytes
endpoint_values e = e.namespace ∷ e.name ∷ []

-- The loop that counts the addresses that are available.
unfoldable pub available : List EndpointSubset → ℕ
available [] = 0
available (s ∷ subsets) = length s.addresses * length s.ports + available subsets

-- The loop that counts the addresses that are not ready.
unfoldable pub not_ready : List EndpointSubset → ℕ
not_ready [] = 0
not_ready (s ∷ subsets) = length s.not_ready_addresses * length s.ports + not_ready subsets

module _ (fl : Float64) where
  open fl use {F, of_int}

  -- The function that wraps the families', for the metrics that it is given.
  unfoldable pub wrap_endpoint_func :
      (Endpoints → Result (List (Metric F))) → Endpoints → Result (Family F)
  wrap_endpoint_func = wrap_func desc_endpoint_labels_default_labels endpoint_values

  unfoldable pub endpoint_family :
      Bytes → Bytes → (Endpoints → List (Metric F)) → FamilyGenerator F Endpoints
  endpoint_family name help f = record {
    name = name;
    help = help;
    type = gauge;
    generate_func = wrap_endpoint_func (λ e. ok (f e));
  }

  -- The family generators of the file.
  unfoldable pub endpoint_metric_families : List (FamilyGenerator F Endpoints)
  unfolding endpoint_family available not_ready
  endpoint_metric_families =
      endpoint_family (codes "kube_endpoint_info") (codes "Information about endpoint.")
        (λ e. value_metric fl (of_int (pos 1)) ∷ [])
      ∷ endpoint_family (codes "kube_endpoint_created") (codes "Unix creation timestamp")
          (λ e. optional_metric fl e.creation_timestamp)
      ∷ endpoint_family (codes "kube_endpoint_labels")
          (codes "Kubernetes labels converted to Prometheus labels.")
          (λ e. object_labels fl e.labels)
      ∷ endpoint_family (codes "kube_endpoint_address_available")
          (codes "Number of addresses available in endpoint.")
          (λ e. value_metric fl (of_int (pos (available e.subsets))) ∷ [])
      ∷ endpoint_family (codes "kube_endpoint_address_not_ready")
          (codes "Number of addresses not ready in endpoint")
          (λ e. value_metric fl (of_int (pos (not_ready e.subsets))) ∷ [])
      ∷ []
