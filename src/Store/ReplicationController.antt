-- ===== src/Store/ReplicationController.antt =====
-- The families of replication controllers: internal/store/replicationcontroller.go. The
-- creation time is none if it is zero.
pub mod Laws
use kube_state_metrics.Prelude.{Option, List, [], ◌∷◌}
use kube_state_metrics.Prelude.Text.{Bytes, codes}
use kube_state_metrics.Prelude.Int.{ℤ}
use kube_state_metrics.Prelude.Result.{Result, ok}
use kube_state_metrics.Api.{OwnerReference}
use kube_state_metrics.Metric.{Float64, Metric, Family, gauge}
use kube_state_metrics.Generator.{FamilyGenerator}
use kube_state_metrics.Store.Wrapped.{wrap_func}
use kube_state_metrics.Store.Shapes.{owners_or_none, value_metric, optional_metric}

-- v1.ReplicationController, as far as the families read it.
pub record ReplicationController : Type 0 where
  pub namespace : Bytes
  pub name : Bytes
  pub creation_timestamp : Option ℤ
  pub generation : ℤ
  pub owner_references : List OwnerReference
  pub spec_replicas : Option ℤ
  pub replicas : ℤ
  pub fully_labeled_replicas : ℤ
  pub ready_replicas : ℤ
  pub available_replicas : ℤ
  pub observed_generation : ℤ

-- descReplicationControllerLabelsDefaultLabels
abbrev pub desc_replication_controller_labels_default_labels : List Bytes
desc_replication_controller_labels_default_labels =
    codes "namespace" ∷ codes "replicationcontroller" ∷ []

abbrev pub replication_controller_values : ReplicationController → List Bytes
replication_controller_values r = r.namespace ∷ r.name ∷ []

module _ (fl : Float64) where
  open fl use {F, of_int}

  -- The function that wraps the families', for the metrics that it is given.
  unfoldable pub wrap_replication_controller_func :
      (ReplicationController → Result (List (Metric F))) → ReplicationController → Result (Family F)
  wrap_replication_controller_func =
      wrap_func desc_replication_controller_labels_default_labels replication_controller_values

  unfoldable pub replication_controller_family :
      Bytes
      → Bytes
      → (ReplicationController → List (Metric F))
      → FamilyGenerator F ReplicationController
  replication_controller_family name help f = record {
    name = name;
    help = help;
    type = gauge;
    generate_func = wrap_replication_controller_func (λ r. ok (f r));
  }

  -- The family generators of the file.
  unfoldable pub replication_controller_metric_families :
      List (FamilyGenerator F ReplicationController)
  unfolding replication_controller_family
  replication_controller_metric_families =
      replication_controller_family (codes "kube_replicationcontroller_created")
        (codes "Unix creation timestamp") (λ r. optional_metric fl r.creation_timestamp)
      ∷ replication_controller_family (codes "kube_replicationcontroller_status_replicas")
          (codes "The number of replicas per ReplicationController.")
          (λ r. value_metric fl (of_int r.replicas) ∷ [])
      ∷ replication_controller_family
          (codes "kube_replicationcontroller_status_fully_labeled_replicas")
          (codes "The number of fully labeled replicas per ReplicationController.")
          (λ r. value_metric fl (of_int r.fully_labeled_replicas) ∷ [])
      ∷ replication_controller_family (codes "kube_replicationcontroller_status_ready_replicas")
          (codes "The number of ready replicas per ReplicationController.")
          (λ r. value_metric fl (of_int r.ready_replicas) ∷ [])
      ∷ replication_controller_family (codes "kube_replicationcontroller_status_available_replicas")
          (codes "The number of available replicas per ReplicationController.")
          (λ r. value_metric fl (of_int r.available_replicas) ∷ [])
      ∷ replication_controller_family
          (codes "kube_replicationcontroller_status_observed_generation")
          (codes "The generation observed by the ReplicationController controller.")
          (λ r. value_metric fl (of_int r.observed_generation) ∷ [])
      ∷ replication_controller_family (codes "kube_replicationcontroller_spec_replicas")
          (codes "Number of desired pods for a ReplicationController.")
          (λ r. optional_metric fl r.spec_replicas)
      ∷ replication_controller_family (codes "kube_replicationcontroller_metadata_generation")
          (codes "Sequence number representing a specific generation of the desired state.")
          (λ r. value_metric fl (of_int r.generation) ∷ [])
      ∷ replication_controller_family (codes "kube_replicationcontroller_owner")
          (codes "Information about the ReplicationController's owner.")
          (λ r. owners_or_none fl r.owner_references)
      ∷ []
