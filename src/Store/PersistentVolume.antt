-- ===== src/Store/PersistentVolume.antt =====
-- The families of persistent volumes: internal/store/persistentvolume.go.
pub mod Laws
use kube_state_metrics.Prelude.{none, some, List, [], ◌∷◌, if◌then◌else◌}
use kube_state_metrics.Prelude.Text.{Bytes, codes, ◌==◌}
use kube_state_metrics.Prelude.Assoc.{Map, lookup}
use kube_state_metrics.Prelude.Int.{ℤ, pos}
use kube_state_metrics.Prelude.Result.{Result, ok}
use kube_state_metrics.Metric.{Float64, Metric, Family, gauge}
use kube_state_metrics.Generator.{FamilyGenerator}
use kube_state_metrics.Store.Packages.{Packages}
use kube_state_metrics.Store.Wrapped.{wrap_func}
use kube_state_metrics.Store.Shapes.{value_metric, labelled_metric, object_labels, phases}

-- v1.PersistentVolume, as far as the families read it.
pub record PersistentVolume (pk : Packages) : Type 0 where
  pub name : Bytes
  pub labels : Map Bytes
  pub phase : Bytes
  pub storage_class_name : Bytes
  pub capacity : Map pk.Quantity

-- descPersistentVolumeLabelsDefaultLabels
abbrev pub desc_persistent_volume_labels_default_labels : List Bytes
desc_persistent_volume_labels_default_labels = codes "persistentvolume" ∷ []

abbrev pub persistent_volume_values : {pk : Packages} → (PersistentVolume pk) → List Bytes
persistent_volume_values p = p.name ∷ []

module _ (fl : Float64) (pk : Packages) where
  open fl use {F, of_int}

  -- The metrics of kube_persistentvolume_status_phase.
  unfoldable pub volume_phases : Bytes → List (Metric F)
  volume_phases phase =
      if phase == []
      then []
      else phases fl phase (
          codes "Pending"
          ∷ codes "Available"
          ∷ codes "Bound"
          ∷ codes "Released"
          ∷ codes "Failed"
          ∷ [])

  -- The value of the capacity for storage, which is the zero quantity if there is none.
  unfoldable pub storage_value : Map pk.Quantity → ℤ
  storage_value capacity = elim (lookup (codes "storage") capacity) [
    | none ↦ pos 0
    | some q ↦ pk.value q
  ]

  -- The function that wraps the families', for the metrics that it is given.
  unfoldable pub wrap_persistent_volume_func :
      ((PersistentVolume pk) → Result (List (Metric F))) → (PersistentVolume pk) → Result (Family F)
  wrap_persistent_volume_func =
      wrap_func desc_persistent_volume_labels_default_labels persistent_volume_values

  unfoldable pub persistent_volume_family :
      Bytes
      → Bytes
      → ((PersistentVolume pk) → List (Metric F))
      → FamilyGenerator F (PersistentVolume pk)
  persistent_volume_family name help f = record {
    name = name;
    help = help;
    type = gauge;
    generate_func = wrap_persistent_volume_func (λ p. ok (f p));
  }

  -- The family generators of the file.
  unfoldable pub persistent_volume_metric_families : List (FamilyGenerator F (PersistentVolume pk))
  unfolding persistent_volume_family volume_phases storage_value
  persistent_volume_metric_families =
      persistent_volume_family (codes "kube_persistentvolume_labels")
        (codes "Kubernetes labels converted to Prometheus labels.") (λ p. object_labels fl p.labels)
      ∷ persistent_volume_family (codes "kube_persistentvolume_status_phase")
          (codes
            "The phase indicates if a volume is available, bound to a claim, or released by a claim.")
          (λ p. volume_phases p.phase)
      ∷ persistent_volume_family (codes "kube_persistentvolume_info")
          (codes "Information about persistentvolume.")
          (λ p.
            labelled_metric fl (codes "storageclass" ∷ []) (p.storage_class_name ∷ [])
              (of_int (pos 1))
            ∷ [])
      ∷ persistent_volume_family (codes "kube_persistentvolume_capacity_bytes")
          (codes "Persistentvolume capacity in bytes.")
          (λ p. value_metric fl (of_int (storage_value p.capacity)) ∷ [])
      ∷ []
