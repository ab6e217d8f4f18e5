-- ===== src/Store/CertificateSigningRequest/Laws.antt =====
-- The labels and the texts of the families of certificate signing requests.
use kube_state_metrics.Prelude.{◌⊗◌, refl, All}
use kube_state_metrics.Metric.{Float64}
use kube_state_metrics.Store.Shapes.{object_labels-Aligned, optional_metric-Aligned}
use kube_state_metrics.Store.Render.{BeginsWith, begins_lem}
use kube_state_metrics.Store.CertificateSigningRequest.{
  CertificateSigningRequest, desc_csr_labels_default_labels, csr_values, wrap_csr_func, csr_family,
  csr_metric_families,
}

module _ (fl : Float64) where
  pub csr_metric_families_lem :
      (c : CertificateSigningRequest)
      → All (BeginsWith fl desc_csr_labels_default_labels (csr_values c) c) (csr_metric_families fl)
  unfolding csr_metric_families csr_family wrap_csr_func
  csr_metric_families_lem c =
      begins_lem fl _ _ _ _ _ _ c refl (object_labels-Aligned fl c.labels)
      ⊗ begins_lem fl _ _ _ _ _ _ c refl (optional_metric-Aligned fl c.creation_timestamp)
      ⊗ begins_lem fl _ _ _ _ _ _ c refl (refl, (refl, tt))
      ⊗ begins_lem fl _ _ _ _ _ _ c refl (refl, tt)
      ⊗ tt
