-- ===== src/Store/ReplicaSet/Laws.antt =====
-- The labels and the texts of the families of a replica set.
use kube_state_metrics.Prelude.{◌⊗◌, refl, List, [], ◌∷◌, All}
use kube_state_metrics.Api.{OwnerReference}
use kube_state_metrics.Metric.{Float64}
use kube_state_metrics.Metric.Lines.{Aligned}
use kube_state_metrics.Store.Shapes.{object_labels-Aligned, optional_metric-Aligned}
use kube_state_metrics.Store.Render.{BeginsWith, begins_lem}
use kube_state_metrics.Store.ReplicaSet.{
  ReplicaSet, desc_replica_set_labels_default_labels, owner_values, set_owner_keys,
  replica_set_owners, wrap_replica_set_func, replica_set_family, replica_set_metric_families,
}

module _ (fl : Float64) where
  set_owner_keys-Aligned :
      (os : List OwnerReference) → All Aligned (set_owner_keys fl (owner_values fl os))
  unfolding set_owner_keys owner_values
  set_owner_keys-Aligned [] = tt
  set_owner_keys-Aligned (o ∷ os) = (refl, set_owner_keys-Aligned os)

  replica_set_owners-Aligned : (os : List OwnerReference) → All Aligned (replica_set_owners fl os)
  unfolding replica_set_owners
  replica_set_owners-Aligned [] = (refl, tt)
  replica_set_owners-Aligned (o ∷ os) = set_owner_keys-Aligned (o ∷ os)

  pub replica_set_metric_families_lem :
      (r : ReplicaSet)
      → All
          (BeginsWith fl desc_replica_set_labels_default_labels (r.namespace ∷ r.name ∷ []) r)
          (replica_set_metric_families fl)
  unfolding replica_set_metric_families replica_set_family wrap_replica_set_func
  replica_set_metric_families_lem r =
      begins_lem fl _ _ _ _ _ _ r refl (optional_metric-Aligned fl r.creation_timestamp)
      ⊗ begins_lem fl _ _ _ _ _ _ r refl (refl, tt)
      ⊗ begins_lem fl _ _ _ _ _ _ r refl (refl, tt)
      ⊗ begins_lem fl _ _ _ _ _ _ r refl (refl, tt)
      ⊗ begins_lem fl _ _ _ _ _ _ r refl (refl, tt)
      ⊗ begins_lem fl _ _ _ _ _ _ r refl (optional_metric-Aligned fl r.spec_replicas)
      ⊗ begins_lem fl _ _ _ _ _ _ r refl (refl, tt)
      ⊗ begins_lem fl _ _ _ _ _ _ r refl (replica_set_owners-Aligned r.owner_references)
      ⊗ begins_lem fl _ _ _ _ _ _ r refl (object_labels-Aligned fl r.labels)
      ⊗ tt
