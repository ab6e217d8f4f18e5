-- ===== src/Store/ReplicaSet.antt =====
-- The families of replica sets: internal/store/replicaset.go. A time is its Unix time; one that is
-- zero is none.
pub mod Laws
use kube_state_metrics.Prelude.{Option, none, some, List, [], ◌∷◌}
use kube_state_metrics.Prelude.Text.{Bytes, codes}
use kube_state_metrics.Prelude.Assoc.{Map}
use kube_state_metrics.Prelude.Int.{ℤ, pos}
use kube_state_metrics.Prelude.Result.{Result, ok}
use kube_state_metrics.Api.{OwnerReference}
use kube_state_metrics.Metric.{Float64, Metric, Family, gauge}
use kube_state_metrics.Generator.{FamilyGenerator}
use kube_state_metrics.Store.Wrapped.{wrap_func}
use kube_state_metrics.Store.Shapes.{format_bool, value_metric, optional_metric, object_labels}

-- appsv1.ReplicaSet, as far as the families read it.
pub record ReplicaSet : Type 0 where
  pub namespace : Bytes
  pub name : Bytes
  pub labels : Map Bytes
  pub creation_timestamp : Option ℤ
  pub generation : ℤ
  pub owner_references : List OwnerReference
  pub spec_replicas : Option ℤ
  pub status_replicas : ℤ
  pub fully_labeled_replicas : ℤ
  pub ready_replicas : ℤ
  pub observed_generation : ℤ

-- descReplicaSetLabelsDefaultLabels
abbrev pub desc_replica_set_labels_default_labels : List Bytes
desc_replica_set_labels_default_labels = codes "namespace" ∷ codes "replicaset" ∷ []

module _ (fl : Float64) where
  open fl use {F, of_int}

  -- The loop over the owners, whose metrics have label values only.
  unfoldable pub owner_values : List OwnerReference → List (Metric F)
  unfolding format_bool
  owner_values [] = []
  owner_values (owner ∷ owners) =
      record {
        label_keys = [];
        label_values =
            owner.kind
            ∷ owner.name
            ∷ (elim owner.controller [ none ↦ codes "false" | some b ↦ format_bool b ])
            ∷ [];
        value = of_int (pos 0);
      }
      ∷ owner_values owners

  -- The loop that sets their label keys and the value.
  unfoldable pub set_owner_keys : List (Metric F) → List (Metric F)
  set_owner_keys [] = []
  set_owner_keys (m ∷ ms) =
      record m {
        label_keys = codes "owner_kind" ∷ codes "owner_name" ∷ codes "owner_is_controller" ∷ [];
        value = of_int (pos 1);
      }
      ∷ set_owner_keys ms

  -- The metrics of kube_replicaset_owner.
  unfoldable pub replica_set_owners : List OwnerReference → List (Metric F)
  unfolding owner_values set_owner_keys
  replica_set_owners [] =
      record {
        label_keys = codes "owner_kind" ∷ codes "owner_name" ∷ codes "owner_is_controller" ∷ [];
        label_values = codes "<none>" ∷ codes "<none>" ∷ codes "<none>" ∷ [];
        value = of_int (pos 1);
      }
      ∷ []
  replica_set_owners (owner ∷ owners) = set_owner_keys (owner_values (owner ∷ owners))

  -- wrapReplicaSetFunc, for the metrics that the function gives.
  unfoldable pub wrap_replica_set_func :
      (ReplicaSet → Result (List (Metric F))) → ReplicaSet → Result (Family F)
  wrap_replica_set_func =
      wrap_func desc_replica_set_labels_default_labels
        (λ replica_set. replica_set.namespace ∷ replica_set.name ∷ [])

  unfoldable pub replica_set_family :
      Bytes → Bytes → (ReplicaSet → List (Metric F)) → FamilyGenerator F ReplicaSet
  replica_set_family name help f = record {
    name = name;
    help = help;
    type = gauge;
    generate_func = wrap_replica_set_func (λ r. ok (f r));
  }

  -- replicaSetMetricFamilies
  unfoldable pub replica_set_metric_families : List (FamilyGenerator F ReplicaSet)
  unfolding replica_set_family replica_set_owners
  replica_set_metric_families =
      replica_set_family (codes "kube_replicaset_created") (codes "Unix creation timestamp")
        (λ r. optional_metric fl r.creation_timestamp)
      ∷ replica_set_family (codes "kube_replicaset_status_replicas")
          (codes "The number of replicas per ReplicaSet.")
          (λ r. value_metric fl (of_int r.status_replicas) ∷ [])
      ∷ replica_set_family (codes "kube_replicaset_status_fully_labeled_replicas")
          (codes "The number of fully labeled replicas per ReplicaSet.")
          (λ r. value_metric fl (of_int r.fully_labeled_replicas) ∷ [])
      ∷ replica_set_family (codes "kube_replicaset_status_ready_replicas")
          (codes "The number of ready replicas per ReplicaSet.")
          (λ r. value_metric fl (of_int r.ready_replicas) ∷ [])
      ∷ replica_set_family (codes "kube_replicaset_status_observed_generation")
          (codes "The generation observed by the ReplicaSet controller.")
          (λ r. value_metric fl (of_int r.observed_generation) ∷ [])
      ∷ replica_set_family (codes "kube_replicaset_spec_replicas")
          (codes "Number of desired pods for a ReplicaSet.")
          (λ r. optional_metric fl r.spec_replicas)
      ∷ replica_set_family (codes "kube_replicaset_metadata_generation")
          (codes "Sequence number representing a specific generation of the desired state.")
          (λ r. value_metric fl (of_int r.generation) ∷ [])
      ∷ replica_set_family (codes "kube_replicaset_owner")
          (codes "Information about the ReplicaSet's owner.")
          (λ r. replica_set_owners r.owner_references)
      ∷ replica_set_family (codes "kube_replicaset_labels")
          (codes "Kubernetes labels converted to Prometheus labels.")
          (λ d. object_labels fl d.labels)
      ∷ []
