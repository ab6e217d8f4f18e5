-- ===== src/Store/PersistentVolumeClaim/Laws.antt =====
-- The labels and the texts of the families of persistent volume claims.
use kube_state_metrics.Prelude.{◌⊗◌, refl, inl, inr, [], All, Option-cases}
use kube_state_metrics.Prelude.Text.{Bytes, codes, ◌==◌}
use kube_state_metrics.Prelude.Assoc.{Map, lookup}
use kube_state_metrics.Metric.{Float64}
use kube_state_metrics.Metric.Lines.{Aligned}
use kube_state_metrics.Store.Packages.{Packages}
use kube_state_metrics.Store.Shapes.{
  object_labels-Aligned, status_conditions-Aligned, infos-Aligned, phases-Aligned, if-Aligned,
}
use kube_state_metrics.Store.Render.{BeginsWith, begins_lem}
use kube_state_metrics.Store.PersistentVolumeClaim.{
  PersistentVolumeClaim, desc_persistent_volume_claim_labels_default_labels,
  persistent_volume_claim_values, wrap_persistent_volume_claim_func, persistent_volume_claim_family,
  persistent_volume_claim_metric_families, claim_phases, requested_storage,
}

module _ (fl : Float64) (pk : Packages) where
  claim_phases-Aligned : (phase : Bytes) → All Aligned (claim_phases fl pk phase)
  unfolding claim_phases
  claim_phases-Aligned phase = if-Aligned (phase == []) [] _ tt (phases-Aligned fl phase _)

  requested_storage-Aligned : (m : Map pk.Quantity) → All Aligned (requested_storage fl pk m)
  unfolding requested_storage
  requested_storage-Aligned m = elim (Option-cases (lookup (codes "storage") m)) [
    | inl unset ↦ rw (unset, requested_storage, All) tt
    | inr (q, set) ↦ rw (set, requested_storage, All) (refl, tt)
  ]

  pub persistent_volume_claim_metric_families_lem :
      (p : (PersistentVolumeClaim pk))
      → All
          (BeginsWith fl desc_persistent_volume_claim_labels_default_labels
            (persistent_volume_claim_values p)
            p)
          (persistent_volume_claim_metric_families fl pk)
  unfolding persistent_volume_claim_metric_families persistent_volume_claim_family
      wrap_persistent_volume_claim_func
  persistent_volume_claim_metric_families_lem p =
      begins_lem fl _ _ _ _ _ _ p refl (object_labels-Aligned fl p.labels)
      ⊗ begins_lem fl _ _ _ _ _ _ p refl (refl, tt)
      ⊗ begins_lem fl _ _ _ _ _ _ p refl (claim_phases-Aligned p.phase)
      ⊗ begins_lem fl _ _ _ _ _ _ p refl (requested_storage-Aligned p.requests)
      ⊗ begins_lem fl _ _ _ _ _ _ p refl (infos-Aligned fl _ _ p.access_modes (λ m. refl))
      ⊗ begins_lem fl _ _ _ _ _ _ p refl (status_conditions-Aligned fl p.conditions)
      ⊗ tt
