-- ===== src/Store/PersistentVolumeClaim.antt =====
-- The families of persistent volume claims: internal/store/persistentvolumeclaim.go.
pub mod Laws
use kube_state_metrics.Prelude.{Option, none, some, List, [], ◌∷◌, if◌then◌else◌}
use kube_state_metrics.Prelude.Text.{Bytes, codes, ◌==◌}
use kube_state_metrics.Prelude.Assoc.{Map, lookup}
use kube_state_metrics.Prelude.Int.{pos}
use kube_state_metrics.Prelude.Result.{Result, ok}
use kube_state_metrics.Metric.{Float64, Metric, Family, gauge}
use kube_state_metrics.Generator.{FamilyGenerator}
use kube_state_metrics.Store.Packages.{Packages}
use kube_state_metrics.Store.Wrapped.{wrap_func}
use kube_state_metrics.Store.Shapes.{
  value_metric, labelled_metric, object_labels, Condition, status_conditions, infos, phases,
}

-- v1.PersistentVolumeClaim, as far as the families read it.
pub record PersistentVolumeClaim (pk : Packages) : Type 0 where
  pub namespace : Bytes
  pub name : Bytes
  pub labels : Map Bytes
  pub annotations : Map Bytes
  pub storage_class_name : Option Bytes
  pub volume_name : Bytes
  pub phase : Bytes
  pub requests : Map pk.Quantity
  pub access_modes : List Bytes
  pub conditions : List Condition

-- descPersistentVolumeClaimLabelsDefaultLabels
abbrev pub desc_persistent_volume_claim_labels_default_labels : List Bytes
desc_persistent_volume_claim_labels_default_labels =
    codes "namespace" ∷ codes "persistentvolumeclaim" ∷ []

abbrev pub persistent_volume_claim_values :
    {pk : Packages} → (PersistentVolumeClaim pk) → List Bytes
persistent_volume_claim_values p = p.namespace ∷ p.name ∷ []

-- getPersistentVolumeClaimClass
unfoldable pub get_persistent_volume_claim_class :
    {pk : Packages} → PersistentVolumeClaim pk → Bytes
get_persistent_volume_claim_class claim =
    elim (lookup (codes "volume.beta.kubernetes.io/storage-class") claim.annotations) [
      | some class ↦ class
      | none ↦ elim claim.storage_class_name [ some class ↦ class | none ↦ codes "<none>" ]
    ]

module _ (fl : Float64) (pk : Packages) where
  open fl use {F, of_int}

  -- The metrics of kube_persistentvolumeclaim_status_phase.
  unfoldable pub claim_phases : Bytes → List (Metric F)
  claim_phases phase =
      if phase == []
      then []
      else phases fl phase (codes "Lost" ∷ codes "Bound" ∷ codes "Pending" ∷ [])

  -- The metrics of kube_persistentvolumeclaim_resource_requests_storage_bytes.
  unfoldable pub requested_storage : Map pk.Quantity → List (Metric F)
  requested_storage requests = elim (lookup (codes "storage") requests) [
    | none ↦ []
    | some storage ↦ value_metric fl (of_int (pk.value storage)) ∷ []
  ]

  -- The function that wraps the families', for the metrics that it is given.
  unfoldable pub wrap_persistent_volume_claim_func :
      ((PersistentVolumeClaim pk) → Result (List (Metric F)))
      → (PersistentVolumeClaim pk)
      → Result (Family F)
  wrap_persistent_volume_claim_func =
      wrap_func desc_persistent_volume_claim_labels_default_labels persistent_volume_claim_values

  unfoldable pub persistent_volume_claim_family :
      Bytes
      → Bytes
      → ((PersistentVolumeClaim pk) → List (Metric F))
      → FamilyGenerator F (PersistentVolumeClaim pk)
  persistent_volume_claim_family name help f = record {
    name = name;
    help = help;
    type = gauge;
    generate_func = wrap_persistent_volume_claim_func (λ p. ok (f p));
  }

  -- The family generators of the file.
  unfoldable pub persistent_volume_claim_metric_families :
      List (FamilyGenerator F (PersistentVolumeClaim pk))
  unfolding persistent_volume_claim_family claim_phases requested_storage
      get_persistent_volume_claim_class
  persistent_volume_claim_metric_families =
      persistent_volume_claim_family (codes "kube_persistentvolumeclaim_labels")
        (codes "Kubernetes labels converted to Prometheus labels.") (λ p. object_labels fl p.labels)
      ∷ persistent_volume_claim_family (codes "kube_persistentvolumeclaim_info")
          (codes "Information about persistent volume claim.")
          (λ p.
            labelled_metric fl (codes "storageclass" ∷ codes "volumename" ∷ [])
              (get_persistent_volume_claim_class p ∷ p.volume_name ∷ []) (of_int (pos 1))
            ∷ [])
      ∷ persistent_volume_claim_family (codes "kube_persistentvolumeclaim_status_phase")
          (codes "The phase the persistent volume claim is currently in.")
          (λ p. claim_phases p.phase)
      ∷ persistent_volume_claim_family
          (codes "kube_persistentvolumeclaim_resource_requests_storage_bytes")
          (codes "The capacity of storage requested by the persistent volume claim.")
          (λ p. requested_storage p.requests)
      ∷ persistent_volume_claim_family (codes "kube_persistentvolumeclaim_access_mode")
          (codes "The access mode(s) specified by the persistent volume claim.")
          (λ p. infos fl (codes "access_mode" ∷ []) (λ m. m ∷ []) p.access_modes)
      ∷ persistent_volume_claim_family (codes "kube_persistentvolumeclaim_status_condition")
          (codes "Information about status of different conditions of persistent volume claim.")
          (λ p. status_conditions fl p.conditions)
      ∷ []
