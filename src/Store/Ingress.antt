-- ===== src/Store/Ingress.antt =====
-- The families of ingresses: internal/store/ingress.go. The creation time is none if it is
-- zero. A rule whose HTTP pointer is nil has none for its paths.
pub mod Laws
use kube_state_metrics.Prelude.{Option, none, some, List, [], ◌∷◌}
use kube_state_metrics.Prelude.Text.{Bytes, codes}
use kube_state_metrics.Prelude.Assoc.{Map}
use kube_state_metrics.Prelude.Int.{ℤ, pos}
use kube_state_metrics.Prelude.Result.{Result, ok}
use kube_state_metrics.Metric.{Float64, Metric, Family, gauge}
use kube_state_metrics.Generator.{FamilyGenerator}
use kube_state_metrics.Store.{resource_version_metric}
use kube_state_metrics.Store.Packages.{Packages}
use kube_state_metrics.Store.Wrapped.{wrap_func}
use kube_state_metrics.Store.Shapes.{value_metric, optional_metric, object_labels, infos, flat_map}

-- v1beta1.HTTPIngressPath with its backend
pub record IngressPath (pk : Packages) : Type 0 where
  pub path : Bytes
  pub service_name : Bytes
  pub service_port : pk.IntOrString

-- v1beta1.IngressRule
pub record IngressRule (pk : Packages) : Type 0 where
  pub host : Bytes
  pub http : Option (List (IngressPath pk))

-- v1beta1.IngressTLS
pub record IngressTls : Type 0 where
  pub hosts : List Bytes
  pub secret_name : Bytes

-- extensionsv1beta1.Ingress, as far as the families read it.
pub record Ingress (pk : Packages) : Type 0 where
  pub namespace : Bytes
  pub name : Bytes
  pub labels : Map Bytes
  pub creation_timestamp : Option ℤ
  pub resource_version : Bytes
  pub rules : List (IngressRule pk)
  pub tls : List IngressTls

-- descIngressLabelsDefaultLabels
abbrev pub desc_ingress_labels_default_labels : List Bytes
desc_ingress_labels_default_labels = codes "namespace" ∷ codes "ingress" ∷ []

abbrev pub ingress_values : {pk : Packages} → (Ingress pk) → List Bytes
ingress_values i = i.namespace ∷ i.name ∷ []

module _ (fl : Float64) (pk : Packages) where
  open fl use {F, of_int}

  -- The metrics of kube_ingress_path for one rule.
  unfoldable pub rule_metrics : IngressRule pk → List (Metric F)
  rule_metrics rule = elim rule.http [
    | none ↦ []
    | some paths ↦
        infos fl (codes "host" ∷ codes "path" ∷ codes "service_name" ∷ codes "service_port" ∷ [])
          (λ p. rule.host ∷ p.path ∷ p.service_name ∷ pk.text_of_int_or_string p.service_port ∷ [])
          paths
  ]

  -- The metrics of kube_ingress_tls for one of the TLS settings.
  unfoldable pub tls_metrics : IngressTls → List (Metric F)
  tls_metrics tls =
      infos fl (codes "tls_host" ∷ codes "secret" ∷ []) (λ host. host ∷ tls.secret_name ∷ [])
        tls.hosts

  -- The function that wraps the families', for the metrics that it is given.
  unfoldable pub wrap_ingress_func :
      ((Ingress pk) → Result (List (Metric F))) → (Ingress pk) → Result (Family F)
  wrap_ingress_func = wrap_func desc_ingress_labels_default_labels ingress_values

  unfoldable pub ingress_family :
      Bytes → Bytes → ((Ingress pk) → List (Metric F)) → FamilyGenerator F (Ingress pk)
  ingress_family name help f = record {
    name = name;
    help = help;
    type = gauge;
    generate_func = wrap_ingress_func (λ i. ok (f i));
  }

  -- The family generators of the file.
  unfoldable pub ingress_metric_families : List (FamilyGenerator F (Ingress pk))
  unfolding ingress_family rule_metrics tls_metrics
  ingress_metric_families =
      ingress_family (codes "kube_ingress_info") (codes "Information about ingress.")
        (λ i. value_metric fl (of_int (pos 1)) ∷ [])
      ∷ ingress_family (codes "kube_ingress_labels")
          (codes "Kubernetes labels converted to Prometheus labels.")
          (λ i. object_labels fl i.labels)
      ∷ ingress_family (codes "kube_ingress_created") (codes "Unix creation timestamp")
          (λ i. optional_metric fl i.creation_timestamp)
      ∷ ingress_family (codes "kube_ingress_metadata_resource_version")
          (codes "Resource version representing a specific version of ingress.")
          (λ i. resource_version_metric fl i.resource_version)
      ∷ ingress_family (codes "kube_ingress_path")
          (codes "Ingress host, paths and backend service information.")
          (λ i. flat_map rule_metrics i.rules)
      ∷ ingress_family (codes "kube_ingress_tls") (codes "Ingress TLS host and secret information.")
          (λ i. flat_map tls_metrics i.tls)
      ∷ []
