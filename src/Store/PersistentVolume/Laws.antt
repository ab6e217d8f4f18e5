-- ===== src/Store/PersistentVolume/Laws.antt =====
-- The labels and the texts of the families of persistent volumes.
use kube_state_metrics.Prelude.{◌⊗◌, refl, [], All}
use kube_state_metrics.Prelude.Text.{Bytes, ◌==◌}
use kube_state_metrics.Metric.{Float64}
use kube_state_metrics.Metric.Lines.{Aligned}
use kube_state_metrics.Store.Packages.{Packages}
use kube_state_metrics.Store.Shapes.{object_labels-Aligned, phases-Aligned, if-Aligned}
use kube_state_metrics.Store.Render.{BeginsWith, begins_lem}
use kube_state_metrics.Store.PersistentVolume.{
  PersistentVolume, desc_persistent_volume_labels_default_labels, persistent_volume_values,
  wrap_persistent_volume_func, persistent_volume_family, persistent_volume_metric_families,
  volume_phases,
}

module _ (fl : Float64) (pk : Packages) where
  volume_phases-Aligned : (phase : Bytes) → All Aligned (volume_phases fl pk phase)
  unfolding volume_phases
  volume_phases-Aligned phase = if-Aligned (phase == []) [] _ tt (phases-Aligned fl phase _)

  pub persistent_volume_metric_families_lem :
      (p : (PersistentVolume pk))
      → All
          (BeginsWith fl desc_persistent_volume_labels_default_labels
            (persistent_volume_values p)
            p)
          (persistent_volume_metric_families fl pk)
  unfolding persistent_volume_metric_families persistent_volume_family wrap_persistent_volume_func
  persistent_volume_metric_families_lem p =
      begins_lem fl _ _ _ _ _ _ p refl (object_labels-Aligned fl p.labels)
      ⊗ begins_lem fl _ _ _ _ _ _ p refl (volume_phases-Aligned p.phase)
      ⊗ begins_lem fl _ _ _ _ _ _ p refl (refl, tt)
      ⊗ begins_lem fl _ _ _ _ _ _ p refl (refl, tt)
      ⊗ tt
