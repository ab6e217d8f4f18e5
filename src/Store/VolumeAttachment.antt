-- ===== src/Store/VolumeAttachment.antt =====
-- The families of volume attachments: internal/store/volumeattachment.go. The creation time is
-- none if it is zero.
pub mod Laws
use kube_state_metrics.Prelude.{Bool, Option, none, some, List, [], ◌∷◌}
use kube_state_metrics.Prelude.Text.{Bytes, codes}
use kube_state_metrics.Prelude.Assoc.{Map}
use kube_state_metrics.Prelude.Int.{ℤ, pos}
use kube_state_metrics.Prelude.Result.{Result, ok}
use kube_state_metrics.Metric.{Float64, Metric, Family, gauge}
use kube_state_metrics.Generator.{FamilyGenerator}
use kube_state_metrics.Store.{bool_float64}
use kube_state_metrics.Store.Wrapped.{wrap_func}
use kube_state_metrics.Store.Shapes.{
  value_metric, labelled_metric, optional_metric, object_labels, prefixed_labels,
}

-- storagev1beta1.VolumeAttachment, as far as the families read it.
pub record VolumeAttachment : Type 0 where
  pub name : Bytes
  pub labels : Map Bytes
  pub creation_timestamp : Option ℤ
  pub attacher : Bytes
  pub node_name : Bytes
  pub persistent_volume_name : Option Bytes
  pub attached : Bool
  pub attachment_metadata : Map Bytes

-- descVolumeAttachmentLabelsDefaultLabels
abbrev pub desc_volume_attachment_labels_default_labels : List Bytes
desc_volume_attachment_labels_default_labels = codes "volumeattachment" ∷ []

abbrev pub volume_attachment_values : VolumeAttachment → List Bytes
volume_attachment_values v = v.name ∷ []

module _ (fl : Float64) where
  open fl use {F, of_int}

  -- The metrics of kube_volumeattachment_spec_source_persistentvolume.
  unfoldable pub source_metrics : Option Bytes → List (Metric F)
  source_metrics none = []
  source_metrics (some volume) =
      labelled_metric fl (codes "volumename" ∷ []) (volume ∷ []) (of_int (pos 1)) ∷ []

  -- The function that wraps the families', for the metrics that it is given.
  unfoldable pub wrap_volume_attachment_func :
      (VolumeAttachment → Result (List (Metric F))) → VolumeAttachment → Result (Family F)
  wrap_volume_attachment_func =
      wrap_func desc_volume_attachment_labels_default_labels volume_attachment_values

  unfoldable pub volume_attachment_family :
      Bytes → Bytes → (VolumeAttachment → List (Metric F)) → FamilyGenerator F VolumeAttachment
  volume_attachment_family name help f = record {
    name = name;
    help = help;
    type = gauge;
    generate_func = wrap_volume_attachment_func (λ v. ok (f v));
  }

  -- The family generators of the file.
  unfoldable pub volume_attachment_metric_families : List (FamilyGenerator F VolumeAttachment)
  unfolding volume_attachment_family source_metrics
  volume_attachment_metric_families =
      volume_attachment_family (codes "kube_volumeattachment_labels")
        (codes "Kubernetes labels converted to Prometheus labels.") (λ v. object_labels fl v.labels)
      ∷ volume_attachment_family (codes "kube_volumeattachment_info")
          (codes "Information about volumeattachment.")
          (λ v.
            labelled_metric fl (codes "attacher" ∷ codes "nodeName" ∷ [])
              (v.attacher ∷ v.node_name ∷ []) (of_int (pos 1))
            ∷ [])
      ∷ volume_attachment_family (codes "kube_volumeattachment_created")
          (codes "Unix creation timestamp") (λ v. optional_metric fl v.creation_timestamp)
      ∷ volume_attachment_family (codes "kube_volumeattachment_spec_source_persistentvolume")
          (codes "PersistentVolume source reference.")
          (λ v. source_metrics v.persistent_volume_name)
      ∷ volume_attachment_family (codes "kube_volumeattachment_status_attached")
          (codes "Information about volumeattachment.")
          (λ v. value_metric fl (bool_float64 fl v.attached) ∷ [])
      ∷ volume_attachment_family (codes "kube_volumeattachment_status_attachment_metadata")
          (codes "volumeattachment metadata.")
          (λ v. prefixed_labels fl (codes "metadata") v.attachment_metadata)
      ∷ []
