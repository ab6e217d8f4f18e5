-- ===== src/Store/VolumeAttachment/Laws.antt =====
-- The labels and the texts of the families of volume attachments.
use kube_state_metrics.Prelude.{◌⊗◌, refl, Option, none, some, All}
use kube_state_metrics.Prelude.Text.{Bytes, codes}
use kube_state_metrics.Metric.{Float64}
use kube_state_metrics.Metric.Lines.{Aligned}
use kube_state_metrics.Store.Shapes.{
  object_labels-Aligned, optional_metric-Aligned, prefixed_labels-Aligned,
}
use kube_state_metrics.Store.Render.{BeginsWith, begins_lem}
use kube_state_metrics.Store.VolumeAttachment.{
  VolumeAttachment, desc_volume_attachment_labels_default_labels, volume_attachment_values,
  wrap_volume_attachment_func, volume_attachment_family, volume_attachment_metric_families,
  source_metrics,
}

module _ (fl : Float64) where
  source_metrics-Aligned : (o : Option Bytes) → All Aligned (source_metrics fl o)
  unfolding source_metrics
  source_metrics-Aligned none = tt
  source_metrics-Aligned (some volume) = (refl, tt)

  pub volume_attachment_metric_families_lem :
      (v : VolumeAttachment)
      → All
          (BeginsWith fl desc_volume_attachment_labels_default_labels
            (volume_attachment_values v)
            v)
          (volume_attachment_metric_families fl)
  unfolding volume_attachment_metric_families volume_attachment_family wrap_volume_attachment_func
  volume_attachment_metric_families_lem v =
      begins_lem fl _ _ _ _ _ _ v refl (object_labels-Aligned fl v.labels)
      ⊗ begins_lem fl _ _ _ _ _ _ v refl (refl, tt)
      ⊗ begins_lem fl _ _ _ _ _ _ v refl (optional_metric-Aligned fl v.creation_timestamp)
      ⊗ begins_lem fl _ _ _ _ _ _ v refl (source_metrics-Aligned v.persistent_volume_name)
      ⊗ begins_lem fl _ _ _ _ _ _ v refl (refl, tt)
      ⊗ begins_lem fl _ _ _ _ _ _ v refl
          (prefixed_labels-Aligned fl (codes "metadata") v.attachment_metadata)
      ⊗ tt
