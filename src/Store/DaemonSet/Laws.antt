-- ===== src/Store/DaemonSet/Laws.antt =====
-- The labels and the texts of the families of daemon sets.
use kube_state_metrics.Prelude.{◌⊗◌, refl, All}
use kube_state_metrics.Metric.{Float64}
use kube_state_metrics.Store.Shapes.{object_labels-Aligned, optional_metric-Aligned}
use kube_state_metrics.Store.Render.{BeginsWith, begins_lem}
use kube_state_metrics.Store.DaemonSet.{
  DaemonSet, desc_daemon_set_labels_default_labels, daemon_set_values, wrap_daemon_set_func,
  daemon_set_family, daemon_set_metric_families, daemon_set_status_families,
  daemon_set_spec_families,
}

module _ (fl : Float64) where
  pub daemon_set_metric_families_lem :
      (d : DaemonSet)
      → All
          (BeginsWith fl desc_daemon_set_labels_default_labels (daemon_set_values d) d)
          (daemon_set_metric_families fl)
  unfolding daemon_set_metric_families daemon_set_status_families daemon_set_spec_families
      daemon_set_family wrap_daemon_set_func
  daemon_set_metric_families_lem d =
      begins_lem fl _ _ _ _ _ _ d refl (optional_metric-Aligned fl d.creation_timestamp)
      ⊗ begins_lem fl _ _ _ _ _ _ d refl (refl, tt)
      ⊗ begins_lem fl _ _ _ _ _ _ d refl (refl, tt)
      ⊗ begins_lem fl _ _ _ _ _ _ d refl (refl, tt)
      ⊗ begins_lem fl _ _ _ _ _ _ d refl (refl, tt)
      ⊗ begins_lem fl _ _ _ _ _ _ d refl (refl, tt)
      ⊗ begins_lem fl _ _ _ _ _ _ d refl (refl, tt)
      ⊗ begins_lem fl _ _ _ _ _ _ d refl (refl, tt)
      ⊗ begins_lem fl _ _ _ _ _ _ d refl (refl, tt)
      ⊗ begins_lem fl _ _ _ _ _ _ d refl (object_labels-Aligned fl d.labels)
      ⊗ tt
