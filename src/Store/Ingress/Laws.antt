-- ===== src/Store/Ingress/Laws.antt =====
-- The labels and the texts of the families of ingresses.
use kube_state_metrics.Prelude.{◌⊗◌, refl, inl, inr, All, Option-cases}
use kube_state_metrics.Metric.{Float64}
use kube_state_metrics.Metric.Lines.{Aligned}
use kube_state_metrics.Store.Packages.{Packages}
use kube_state_metrics.Store.Shapes.{
  object_labels-Aligned, optional_metric-Aligned, infos-Aligned, resource_version-Aligned,
  flat_map-Aligned,
}
use kube_state_metrics.Store.Render.{BeginsWith, begins_lem}
use kube_state_metrics.Store.Ingress.{
  Ingress, desc_ingress_labels_default_labels, ingress_values, wrap_ingress_func, ingress_family,
  ingress_metric_families, IngressRule, IngressTls, rule_metrics, tls_metrics,
}

module _ (fl : Float64) (pk : Packages) where
  rule_metrics-Aligned : (r : IngressRule pk) → All Aligned (rule_metrics fl pk r)
  unfolding rule_metrics
  rule_metrics-Aligned r = elim (Option-cases r.http) [
    | inl none_set ↦ rw none_set tt
    | inr (paths, set) ↦ rw set (infos-Aligned fl _ _ paths (λ p. refl))
  ]

  tls_metrics-Aligned : (t : IngressTls) → All Aligned (tls_metrics fl pk t)
  unfolding tls_metrics
  tls_metrics-Aligned t = infos-Aligned fl _ _ t.hosts (λ h. refl)

  pub ingress_metric_families_lem :
      (i : (Ingress pk))
      → All
          (BeginsWith fl desc_ingress_labels_default_labels (ingress_values i) i)
          (ingress_metric_families fl pk)
  unfolding ingress_metric_families ingress_family wrap_ingress_func
  ingress_metric_families_lem i =
      begins_lem fl _ _ _ _ _ _ i refl (refl, tt)
      ⊗ begins_lem fl _ _ _ _ _ _ i refl (object_labels-Aligned fl i.labels)
      ⊗ begins_lem fl _ _ _ _ _ _ i refl (optional_metric-Aligned fl i.creation_timestamp)
      ⊗ begins_lem fl _ _ _ _ _ _ i refl (resource_version-Aligned fl i.resource_version)
      ⊗ begins_lem fl _ _ _ _ _ _ i refl (flat_map-Aligned _ i.rules (rule_metrics-Aligned))
      ⊗ begins_lem fl _ _ _ _ _ _ i refl (flat_map-Aligned _ i.tls (tls_metrics-Aligned))
      ⊗ tt
