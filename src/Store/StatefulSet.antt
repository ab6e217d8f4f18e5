-- ===== src/Store/StatefulSet.antt =====
-- The families of stateful sets: internal/store/statefulset.go. The creation time is none if it
-- is zero.
pub mod Laws
use kube_state_metrics.Prelude.{Option, List, [], ◌∷◌, ◌++◌}
use kube_state_metrics.Prelude.Text.{Bytes, codes}
use kube_state_metrics.Prelude.Assoc.{Map}
use kube_state_metrics.Prelude.Int.{ℤ, pos}
use kube_state_metrics.Prelude.Result.{Result, ok}
use kube_state_metrics.Metric.{Float64, Metric, Family, gauge}
use kube_state_metrics.Generator.{FamilyGenerator}
use kube_state_metrics.Store.Wrapped.{wrap_func}
use kube_state_metrics.Store.Shapes.{value_metric, labelled_metric, optional_metric, object_labels}

-- appsv1.StatefulSet, as far as the families read it.
pub record StatefulSet : Type 0 where
  pub namespace : Bytes
  pub name : Bytes
  pub labels : Map Bytes
  pub creation_timestamp : Option ℤ
  pub generation : ℤ
  pub spec_replicas : Option ℤ
  pub replicas : ℤ
  pub current_replicas : ℤ
  pub ready_replicas : ℤ
  pub updated_replicas : ℤ
  pub observed_generation : ℤ
  pub current_revision : Bytes
  pub update_revision : Bytes

-- descStatefulSetLabelsDefaultLabels
abbrev pub desc_stateful_set_labels_default_labels : List Bytes
desc_stateful_set_labels_default_labels = codes "namespace" ∷ codes "statefulset" ∷ []

abbrev pub stateful_set_values : StatefulSet → List Bytes
stateful_set_values s = s.namespace ∷ s.name ∷ []

module _ (fl : Float64) where
  open fl use {F, of_int}

  -- The function that wraps the families', for the metrics that it is given.
  unfoldable pub wrap_stateful_set_func :
      (StatefulSet → Result (List (Metric F))) → StatefulSet → Result (Family F)
  wrap_stateful_set_func = wrap_func desc_stateful_set_labels_default_labels stateful_set_values

  unfoldable pub stateful_set_family :
      Bytes → Bytes → (StatefulSet → List (Metric F)) → FamilyGenerator F StatefulSet
  stateful_set_family name help f = record {
    name = name;
    help = help;
    type = gauge;
    generate_func = wrap_stateful_set_func (λ s. ok (f s));
  }

  unfoldable pub stateful_set_status_families : List (FamilyGenerator F StatefulSet)
  unfolding stateful_set_family
  stateful_set_status_families =
      stateful_set_family (codes "kube_statefulset_created") (codes "Unix creation timestamp")
        (λ s. optional_metric fl s.creation_timestamp)
      ∷ stateful_set_family (codes "kube_statefulset_status_replicas")
          (codes "The number of replicas per StatefulSet.")
          (λ s. value_metric fl (of_int s.replicas) ∷ [])
      ∷ stateful_set_family (codes "kube_statefulset_status_replicas_current")
          (codes "The number of current replicas per StatefulSet.")
          (λ s. value_metric fl (of_int s.current_replicas) ∷ [])
      ∷ stateful_set_family (codes "kube_statefulset_status_replicas_ready")
          (codes "The number of ready replicas per StatefulSet.")
          (λ s. value_metric fl (of_int s.ready_replicas) ∷ [])
      ∷ stateful_set_family (codes "kube_statefulset_status_replicas_updated")
          (codes "The number of updated replicas per StatefulSet.")
          (λ s. value_metric fl (of_int s.updated_replicas) ∷ [])
      ∷ stateful_set_family (codes "kube_statefulset_status_observed_generation")
          (codes "The generation observed by the StatefulSet controller.")
          (λ s. value_metric fl (of_int s.observed_generation) ∷ [])
      ∷ []

  unfoldable pub stateful_set_spec_families : List (FamilyGenerator F StatefulSet)
  unfolding stateful_set_family
  stateful_set_spec_families =
      stateful_set_family (codes "kube_statefulset_replicas")
        (codes "Number of desired pods for a StatefulSet.")
        (λ s. optional_metric fl s.spec_replicas)
      ∷ stateful_set_family (codes "kube_statefulset_metadata_generation")
          (codes
            "Sequence number representing a specific generation of the desired state for the StatefulSet.")
          (λ s. value_metric fl (of_int s.generation) ∷ [])
      ∷ stateful_set_family (codes "kube_statefulset_labels")
          (codes "Kubernetes labels converted to Prometheus labels.")
          (λ s. object_labels fl s.labels)
      ∷ stateful_set_family (codes "kube_statefulset_status_current_revision")
          (codes
            "Indicates the version of the StatefulSet used to generate Pods in the sequence [0,currentReplicas).")
          (λ s.
            labelled_metric fl (codes "revision" ∷ []) (s.current_revision ∷ []) (of_int (pos 1))
            ∷ [])
      ∷ stateful_set_family (codes "kube_statefulset_status_update_revision")
          (codes
            "Indicates the version of the StatefulSet used to generate Pods in the sequence [replicas-updatedReplicas,replicas)")
          (λ s.
            labelled_metric fl (codes "revision" ∷ []) (s.update_revision ∷ []) (of_int (pos 1))
            ∷ [])
      ∷ []

  -- The family generators of the file.
  unfoldable pub stateful_set_metric_families : List (FamilyGenerator F StatefulSet)
  unfolding stateful_set_status_families stateful_set_spec_families
  stateful_set_metric_families = stateful_set_status_families ++ (stateful_set_spec_families)
