-- ===== src/Store/Lease/Laws.antt =====
-- The labels and the texts of the families of leases.
use kube_state_metrics.Prelude.{◌⊗◌, refl, List, [], ◌∷◌, All}
use kube_state_metrics.Api.{OwnerReference}
use kube_state_metrics.Metric.{Float64}
use kube_state_metrics.Metric.Lines.{Aligned}
use kube_state_metrics.Store.Shapes.{optional_metric-Aligned, infos-Aligned}
use kube_state_metrics.Store.Render.{BeginsWith, begins_lem}
use kube_state_metrics.Store.Lease.{
  Lease, desc_lease_labels_default_labels, lease_values, wrap_lease_func, lease_family,
  lease_metric_families, lease_owners,
}

module _ (fl : Float64) where
  lease_owners-Aligned : (os : List OwnerReference) → All Aligned (lease_owners fl os)
  unfolding lease_owners
  lease_owners-Aligned [] = (refl, tt)
  lease_owners-Aligned (o ∷ os) = infos-Aligned fl _ _ (o ∷ os) (λ x. refl)

  pub lease_metric_families_lem :
      (l : Lease)
      → All
          (BeginsWith fl desc_lease_labels_default_labels (lease_values l) l)
          (lease_metric_families fl)
  unfolding lease_metric_families lease_family wrap_lease_func
  lease_metric_families_lem l =
      begins_lem fl _ _ _ _ _ _ l refl (lease_owners-Aligned l.owner_references)
      ⊗ begins_lem fl _ _ _ _ _ _ l refl (optional_metric-Aligned fl l.renew_time)
      ⊗ tt
