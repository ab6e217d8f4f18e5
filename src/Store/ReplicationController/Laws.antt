-- ===== src/Store/ReplicationController/Laws.antt =====
-- The labels and the texts of the families of replication controllers.
use kube_state_metrics.Prelude.{◌⊗◌, refl, All}
use kube_state_metrics.Metric.{Float64}
use kube_state_metrics.Store.Shapes.{optional_metric-Aligned, owners_or_none-Aligned}
use kube_state_metrics.Store.Render.{BeginsWith, begins_lem}
use kube_state_metrics.Store.ReplicationController.{
  ReplicationController, desc_replication_controller_labels_default_labels,
  replication_controller_values, wrap_replication_controller_func, replication_controller_family,
  replication_controller_metric_families,
}

module _ (fl : Float64) where
  pub replication_controller_metric_families_lem :
      (r : ReplicationController)
      → All
          (BeginsWith fl desc_replication_controller_labels_default_labels
            (replication_controller_values r)
            r)
          (replication_controller_metric_families fl)
  unfolding replication_controller_metric_families replication_controller_family
      wrap_replication_controller_func
  replication_controller_metric_families_lem r =
      begins_lem fl _ _ _ _ _ _ r refl (optional_metric-Aligned fl r.creation_timestamp)
      ⊗ begins_lem fl _ _ _ _ _ _ r refl (refl, tt)
      ⊗ begins_lem fl _ _ _ _ _ _ r refl (refl, tt)
      ⊗ begins_lem fl _ _ _ _ _ _ r refl (refl, tt)
      ⊗ begins_lem fl _ _ _ _ _ _ r refl (refl, tt)
      ⊗ begins_lem fl _ _ _ _ _ _ r refl (refl, tt)
      ⊗ begins_lem fl _ _ _ _ _ _ r refl (optional_metric-Aligned fl r.spec_replicas)
      ⊗ begins_lem fl _ _ _ _ _ _ r refl (refl, tt)
      ⊗ begins_lem fl _ _ _ _ _ _ r refl (owners_or_none-Aligned fl r.owner_references)
      ⊗ tt
