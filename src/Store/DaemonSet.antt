-- ===== src/Store/DaemonSet.antt =====
-- The families of daemon sets: internal/store/daemonset.go. The creation time is none if it is
-- zero.
pub mod Laws
use kube_state_metrics.Prelude.{Option, List, [], ◌∷◌, ◌++◌}
use kube_state_metrics.Prelude.Text.{Bytes, codes}
use kube_state_metrics.Prelude.Assoc.{Map}
use kube_state_metrics.Prelude.Int.{ℤ}
use kube_state_metrics.Prelude.Result.{Result, ok}
use kube_state_metrics.Metric.{Float64, Metric, Family, gauge}
use kube_state_metrics.Generator.{FamilyGenerator}
use kube_state_metrics.Store.Wrapped.{wrap_func}
use kube_state_metrics.Store.Shapes.{value_metric, optional_metric, object_labels}

-- appsv1.DaemonSet, as far as the families read it.
pub record DaemonSet : Type 0 where
  pub namespace : Bytes
  pub name : Bytes
  pub labels : Map Bytes
  pub creation_timestamp : Option ℤ
  pub generation : ℤ
  pub current_number_scheduled : ℤ
  pub desired_number_scheduled : ℤ
  pub number_available : ℤ
  pub number_misscheduled : ℤ
  pub number_ready : ℤ
  pub number_unavailable : ℤ
  pub updated_number_scheduled : ℤ

-- descDaemonSetLabelsDefaultLabels
abbrev pub desc_daemon_set_labels_default_labels : List Bytes
desc_daemon_set_labels_default_labels = codes "namespace" ∷ codes "daemonset" ∷ []

abbrev pub daemon_set_values : DaemonSet → List Bytes
daemon_set_values d = d.namespace ∷ d.name ∷ []

module _ (fl : Float64) where
  open fl use {F, of_int}

  -- The function that wraps the families', for the metrics that it is given.
  unfoldable pub wrap_daemon_set_func :
      (DaemonSet → Result (List (Metric F))) → DaemonSet → Result (Family F)
  wrap_daemon_set_func = wrap_func desc_daemon_set_labels_default_labels daemon_set_values

  unfoldable pub daemon_set_family :
      Bytes → Bytes → (DaemonSet → List (Metric F)) → FamilyGenerator F DaemonSet
  daemon_set_family name help f = record {
    name = name;
    help = help;
    type = gauge;
    generate_func = wrap_daemon_set_func (λ d. ok (f d));
  }

  unfoldable pub daemon_set_status_families : List (FamilyGenerator F DaemonSet)
  unfolding daemon_set_family
  daemon_set_status_families =
      daemon_set_family (codes "kube_daemonset_created") (codes "Unix creation timestamp")
        (λ d. optional_metric fl d.creation_timestamp)
      ∷ daemon_set_family (codes "kube_daemonset_status_current_number_scheduled")
          (codes "The number of nodes running at least one daemon pod and are supposed to.")
          (λ d. value_metric fl (of_int d.current_number_scheduled) ∷ [])
      ∷ daemon_set_family (codes "kube_daemonset_status_desired_number_scheduled")
          (codes "The number of nodes that should be running the daemon pod.")
          (λ d. value_metric fl (of_int d.desired_number_scheduled) ∷ [])
      ∷ daemon_set_family (codes "kube_daemonset_status_number_available")
          (codes
            "The number of nodes that should be running the daemon pod and have one or more of the daemon pod running and available")
          (λ d. value_metric fl (of_int d.number_available) ∷ [])
      ∷ daemon_set_family (codes "kube_daemonset_status_number_misscheduled")
          (codes "The number of nodes running a daemon pod but are not supposed to.")
          (λ d. value_metric fl (of_int d.number_misscheduled) ∷ [])
      ∷ daemon_set_family (codes "kube_daemonset_status_number_ready")
          (codes
            "The number of nodes that should be running the daemon pod and have one or more of the daemon pod running and ready.")
          (λ d. value_metric fl (of_int d.number_ready) ∷ [])
      ∷ daemon_set_family (codes "kube_daemonset_status_number_unavailable")
          (codes
            "The number of nodes that should be running the daemon pod and have none of the daemon pod running and available")
          (λ d. value_metric fl (of_int d.number_unavailable) ∷ [])
      ∷ []

  unfoldable pub daemon_set_spec_families : List (FamilyGenerator F DaemonSet)
  unfolding daemon_set_family
  daemon_set_spec_families =
      daemon_set_family (codes "kube_daemonset_updated_number_scheduled")
        (codes "The total number of nodes that are running updated daemon pod")
        (λ d. value_metric fl (of_int d.updated_number_scheduled) ∷ [])
      ∷ daemon_set_family (codes "kube_daemonset_metadata_generation")
          (codes "Sequence number representing a specific generation of the desired state.")
          (λ d. value_metric fl (of_int d.generation) ∷ [])
      ∷ daemon_set_family (codes "kube_daemonset_labels")
          (codes "Kubernetes labels converted to Prometheus labels.")
          (λ d. object_labels fl d.labels)
      ∷ []

  -- The family generators of the file.
  unfoldable pub daemon_set_metric_families : List (FamilyGenerator F DaemonSet)
  unfolding daemon_set_status_families daemon_set_spec_families
  daemon_set_metric_families = daemon_set_status_families ++ (daemon_set_spec_families)
