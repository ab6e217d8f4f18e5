-- ===== src/Store/StorageClass/Laws.antt =====
-- The labels and the texts of the families of storage classes.
use kube_state_metrics.Prelude.{◌⊗◌, refl, All}
use kube_state_metrics.Metric.{Float64}
use kube_state_metrics.Store.Shapes.{object_labels-Aligned, optional_metric-Aligned}
use kube_state_metrics.Store.Render.{BeginsWith, begins_lem}
use kube_state_metrics.Store.StorageClass.{
  StorageClass, desc_storage_class_labels_default_labels, storage_class_values,
  wrap_storage_class_func, storage_class_family, storage_class_metric_families,
}

module _ (fl : Float64) where
  pub storage_class_metric_families_lem :
      (s : StorageClass)
      → All
          (BeginsWith fl desc_storage_class_labels_default_labels (storage_class_values s) s)
          (storage_class_metric_families fl)
  unfolding storage_class_metric_families storage_class_family wrap_storage_class_func
  storage_class_metric_families_lem s =
      begins_lem fl _ _ _ _ _ _ s refl (refl, tt)
      ⊗ begins_lem fl _ _ _ _ _ _ s refl (optional_metric-Aligned fl s.creation_timestamp)
      ⊗ begins_lem fl _ _ _ _ _ _ s refl (object_labels-Aligned fl s.labels)
      ⊗ tt
