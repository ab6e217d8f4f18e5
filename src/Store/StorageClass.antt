-- ===== src/Store/StorageClass.antt =====
-- The families of storage classes: internal/store/storageclass.go. The creation time is none if
-- it is zero. The code also writes the defaults into the object, where only the family that
-- wrote them reads them.
pub mod Laws
use kube_state_metrics.Prelude.{Option, none, some, List, [], ◌∷◌}
use kube_state_metrics.Prelude.Text.{Bytes, codes}
use kube_state_metrics.Prelude.Assoc.{Map}
use kube_state_metrics.Prelude.Int.{ℤ, pos}
use kube_state_metrics.Prelude.Result.{Result, ok}
use kube_state_metrics.Metric.{Float64, Metric, Family, gauge}
use kube_state_metrics.Generator.{FamilyGenerator}
use kube_state_metrics.Store.Wrapped.{wrap_func}
use kube_state_metrics.Store.Shapes.{labelled_metric, optional_metric, object_labels}

-- storagev1.StorageClass, as far as the families read it.
pub record StorageClass : Type 0 where
  pub name : Bytes
  pub labels : Map Bytes
  pub creation_timestamp : Option ℤ
  pub provisioner : Bytes
  pub reclaim_policy : Option Bytes
  pub volume_binding_mode : Option Bytes

-- descStorageClassLabelsDefaultLabels
abbrev pub desc_storage_class_labels_default_labels : List Bytes
desc_storage_class_labels_default_labels = codes "storageclass" ∷ []

abbrev pub storage_class_values : StorageClass → List Bytes
storage_class_values s = s.name ∷ []

-- The default value if it is missing. The code also writes it to the object, where no other family
-- reads it.
unfoldable pub or_default : Bytes → Option Bytes → Bytes
or_default default_value none = default_value
or_default default_value (some v) = v

module _ (fl : Float64) where
  open fl use {F, of_int}

  -- The function that wraps the families', for the metrics that it is given.
  unfoldable pub wrap_storage_class_func :
      (StorageClass → Result (List (Metric F))) → StorageClass → Result (Family F)
  wrap_storage_class_func = wrap_func desc_storage_class_labels_default_labels storage_class_values

  unfoldable pub storage_class_family :
      Bytes → Bytes → (StorageClass → List (Metric F)) → FamilyGenerator F StorageClass
  storage_class_family name help f = record {
    name = name;
    help = help;
    type = gauge;
    generate_func = wrap_storage_class_func (λ s. ok (f s));
  }

  -- The family generators of the file.
  unfoldable pub storage_class_metric_families : List (FamilyGenerator F StorageClass)
  unfolding storage_class_family or_default
  storage_class_metric_families =
      storage_class_family (codes "kube_storageclass_info")
        (codes "Information about storageclass.")
        (λ s.
          labelled_metric fl
            (codes "provisioner" ∷ codes "reclaimPolicy" ∷ codes "volumeBindingMode" ∷ [])
            (s.provisioner
              ∷ or_default (codes "Delete") s.reclaim_policy
              ∷ or_default (codes "Immediate") s.volume_binding_mode
              ∷ [])
            (of_int (pos 1))
          ∷ [])
      ∷ storage_class_family (codes "kube_storageclass_created") (codes "Unix creation timestamp")
          (λ s. optional_metric fl s.creation_timestamp)
      ∷ storage_class_family (codes "kube_storageclass_labels")
          (codes "Kubernetes labels converted to Prometheus labels.")
          (λ s. object_labels fl s.labels)
      ∷ []
