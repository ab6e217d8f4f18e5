-- ===== src/Store/CertificateSigningRequest.antt =====
-- The families of certificate signing requests: internal/store/certificatesigningrequest.go.
-- The creation time is none if it is zero. A condition is its type.
pub mod Laws
use kube_state_metrics.Prelude.{ℕ, suc, Option, List, [], ◌∷◌, length, if◌then◌else◌}
use kube_state_metrics.Prelude.Text.{Bytes, codes, ◌==◌}
use kube_state_metrics.Prelude.Assoc.{Map}
use kube_state_metrics.Prelude.Int.{ℤ, pos}
use kube_state_metrics.Prelude.Result.{Result, ok}
use kube_state_metrics.Metric.{Float64, Metric, Family, gauge}
use kube_state_metrics.Generator.{FamilyGenerator}
use kube_state_metrics.Store.Wrapped.{wrap_func}
use kube_state_metrics.Store.Shapes.{value_metric, labelled_metric, optional_metric, object_labels}

-- certv1beta1.CertificateSigningRequest, as far as the families read it.
pub record CertificateSigningRequest : Type 0 where
  pub name : Bytes
  pub labels : Map Bytes
  pub creation_timestamp : Option ℤ
  pub conditions : List Bytes
  pub certificate : Bytes

-- descCSRLabelsDefaultLabels
abbrev pub desc_csr_labels_default_labels : List Bytes
desc_csr_labels_default_labels = codes "certificatesigningrequest" ∷ []

abbrev pub csr_values : CertificateSigningRequest → List Bytes
csr_values c = c.name ∷ []

-- The loop that counts the conditions of one type.
unfoldable pub count_conditions : Bytes → List Bytes → ℕ
count_conditions type [] = 0
count_conditions type (s ∷ conditions) =
    let rest = count_conditions type conditions in if s == type then suc rest else rest

module _ (fl : Float64) where
  open fl use {F, of_int}

  -- addCSRConditionMetrics
  unfoldable pub add_csr_condition_metrics : List Bytes → List (Metric F)
  unfolding count_conditions
  add_csr_condition_metrics conditions =
      labelled_metric fl (codes "condition" ∷ []) (codes "approved" ∷ [])
        (of_int (pos (count_conditions (codes "Approved") conditions)))
      ∷ labelled_metric fl (codes "condition" ∷ []) (codes "denied" ∷ [])
          (of_int (pos (count_conditions (codes "Denied") conditions)))
      ∷ []

  -- The function that wraps the families', for the metrics that it is given.
  unfoldable pub wrap_csr_func :
      (CertificateSigningRequest → Result (List (Metric F)))
      → CertificateSigningRequest
      → Result (Family F)
  wrap_csr_func = wrap_func desc_csr_labels_default_labels csr_values

  unfoldable pub csr_family :
      Bytes
      → Bytes
      → (CertificateSigningRequest → List (Metric F))
      → FamilyGenerator F CertificateSigningRequest
  csr_family name help f = record {
    name = name;
    help = help;
    type = gauge;
    generate_func = wrap_csr_func (λ c. ok (f c));
  }

  -- The family generators of the file.
  unfoldable pub csr_metric_families : List (FamilyGenerator F CertificateSigningRequest)
  unfolding csr_family add_csr_condition_metrics
  csr_metric_families =
      csr_family (codes "kube_certificatesigningrequest_labels")
        (codes "Kubernetes labels converted to Prometheus labels.") (λ c. object_labels fl c.labels)
      ∷ csr_family (codes "kube_certificatesigningrequest_created")
          (codes "Unix creation timestamp") (λ c. optional_metric fl c.creation_timestamp)
      ∷ csr_family (codes "kube_certificatesigningrequest_condition")
          (codes "The number of each certificatesigningrequest condition")
          (λ c. add_csr_condition_metrics c.conditions)
      ∷ csr_family (codes "kube_certificatesigningrequest_cert_length")
          (codes "Length of the issued cert")
          (λ c. value_metric fl (of_int (pos (length c.certificate))) ∷ [])
      ∷ []
