-- ===== src/Store/Pod.antt =====
-- The families of pods: internal/store/pod.go.
pub mod Objects
pub mod Containers
pub mod Resources
pub mod Status
pub mod Laws
use kube_state_metrics.Prelude.{List, [], ◌∷◌, ◌++◌}
use kube_state_metrics.Prelude.Text.{Bytes, codes}
use kube_state_metrics.Prelude.Int.{pos}
use kube_state_metrics.Prelude.Result.{Result, ok}
use kube_state_metrics.Metric.{Float64, Metric, Family, gauge, counter}
use kube_state_metrics.Generator.{FamilyGenerator}
use kube_state_metrics.Store.{bool_float64}
use kube_state_metrics.Store.Packages.{Packages}
use kube_state_metrics.Store.Wrapped.{wrap_func}
use kube_state_metrics.Store.Shapes.{
  owners_or_none, labelled_metric, optional_metric, object_labels, flat_map,
}
use kube_state_metrics.Store.Pod.Objects.{Pod}
use kube_state_metrics.Store.Pod.Containers.{
  is_set, container_infos, container_metrics, waiting_reasons, terminated_reasons,
  last_terminated_reasons, completion_metrics,
}
use kube_state_metrics.Store.Pod.Status.{
  info_metrics, scheduled_time, unschedulable, pod_phases, conditions_for, reason_metrics,
}
use kube_state_metrics.Store.Pod.Resources.{
  container_requests, container_limits, overhead_metrics, claim_infos, claims_read_only,
}

-- descPodLabelsDefaultLabels
abbrev pub desc_pod_labels_default_labels : List Bytes
desc_pod_labels_default_labels = codes "namespace" ∷ codes "pod" ∷ []

abbrev pub pod_values : {pk : Packages} → (Pod pk) → List Bytes
pod_values p = p.namespace ∷ p.name ∷ []

module _ (fl : Float64) (pk : Packages) where
  open fl use {F, of_int}

  -- The function that wraps the families', for the metrics that it is given.
  unfoldable pub wrap_pod_func :
      ((Pod pk) → Result (List (Metric F))) → (Pod pk) → Result (Family F)
  wrap_pod_func = wrap_func desc_pod_labels_default_labels pod_values

  unfoldable pub pod_family :
      Bytes → Bytes → Bytes → ((Pod pk) → List (Metric F)) → FamilyGenerator F (Pod pk)
  pod_family type name help f = record {
    name = name;
    help = help;
    type = type;
    generate_func = wrap_pod_func (λ p. ok (f p));
  }

  unfoldable pub pod_info_families : List (FamilyGenerator F (Pod pk))
  unfolding pod_family info_metrics
  pod_info_families =
      pod_family gauge (codes "kube_pod_info") (codes "Information about pod.")
        (λ p. info_metrics fl pk p)
      ∷ pod_family gauge (codes "kube_pod_start_time")
          (codes "Start time in unix timestamp for a pod.") (λ p. optional_metric fl p.start_time)
      ∷ pod_family gauge (codes "kube_pod_completion_time")
          (codes "Completion time in unix timestamp for a pod.")
          (λ p. completion_metrics fl p.container_statuses)
      ∷ pod_family gauge (codes "kube_pod_owner") (codes "Information about the Pod's owner.")
          (λ p. owners_or_none fl p.owner_references)
      ∷ []

  unfoldable pub pod_metadata_families : List (FamilyGenerator F (Pod pk))
  unfolding pod_family
  pod_metadata_families =
      pod_family gauge (codes "kube_pod_labels")
        (codes "Kubernetes labels converted to Prometheus labels.") (λ p. object_labels fl p.labels)
      ∷ pod_family gauge (codes "kube_pod_created") (codes "Unix creation timestamp")
          (λ p. optional_metric fl p.creation_timestamp)
      ∷ pod_family gauge (codes "kube_pod_deleted") (codes "Unix deletion timestamp")
          (λ p. optional_metric fl p.deletion_timestamp)
      ∷ pod_family gauge (codes "kube_pod_restart_policy")
          (codes "Describes the restart policy in use by this pod.")
          (λ p.
            labelled_metric fl (codes "type" ∷ []) (p.restart_policy ∷ []) (of_int (pos 1)) ∷ [])
      ∷ []

  unfoldable pub pod_status_families : List (FamilyGenerator F (Pod pk))
  unfolding pod_family scheduled_time unschedulable pod_phases conditions_for reason_metrics
  pod_status_families =
      pod_family gauge (codes "kube_pod_status_scheduled_time")
        (codes "Unix timestamp when pod moved into scheduled status")
        (λ p. flat_map (scheduled_time fl pk) p.conditions)
      ∷ pod_family gauge (codes "kube_pod_status_unschedulable")
          (codes "Describes the unschedulable status for the pod.")
          (λ p. flat_map (unschedulable fl pk) p.conditions)
      ∷ pod_family gauge (codes "kube_pod_status_phase") (codes "The pods current phase.")
          (λ p. pod_phases fl pk p.phase)
      ∷ pod_family gauge (codes "kube_pod_status_ready")
          (codes "Describes whether the pod is ready to serve requests.")
          (λ p. flat_map (conditions_for fl pk (codes "Ready")) p.conditions)
      ∷ pod_family gauge (codes "kube_pod_status_scheduled")
          (codes "Describes the status of the scheduling process for the pod.")
          (λ p. flat_map (conditions_for fl pk (codes "PodScheduled")) p.conditions)
      ∷ pod_family gauge (codes "kube_pod_status_reason") (codes "The pod status reasons")
          (λ p. reason_metrics fl pk p.reason)
      ∷ []

  unfoldable pub container_waiting_families : List (FamilyGenerator F (Pod pk))
  unfolding pod_family
  container_waiting_families =
      pod_family gauge (codes "kube_pod_container_info")
        (codes "Information about a container in a pod.")
        (λ p. container_infos fl p.container_statuses)
      ∷ pod_family gauge (codes "kube_pod_init_container_info")
          (codes "Information about an init container in a pod.")
          (λ p. container_infos fl p.init_container_statuses)
      ∷ pod_family gauge (codes "kube_pod_container_status_waiting")
          (codes "Describes whether the container is currently in waiting state.")
          (λ p.
            container_metrics fl (λ cs. bool_float64 fl (is_set cs.waiting)) p.container_statuses)
      ∷ pod_family gauge (codes "kube_pod_init_container_status_waiting")
          (codes "Describes whether the init container is currently in waiting state.")
          (λ p.
            container_metrics fl (λ cs. bool_float64 fl (is_set cs.waiting))
              p.init_container_statuses)
      ∷ pod_family gauge (codes "kube_pod_container_status_waiting_reason")
          (codes "Describes the reason the container is currently in waiting state.")
          (λ p. waiting_reasons fl p.container_statuses)
      ∷ pod_family gauge (codes "kube_pod_init_container_status_waiting_reason")
          (codes "Describes the reason the init container is currently in waiting state.")
          (λ p. waiting_reasons fl p.init_container_statuses)
      ∷ []

  unfoldable pub container_state_families : List (FamilyGenerator F (Pod pk))
  unfolding pod_family
  container_state_families =
      pod_family gauge (codes "kube_pod_container_status_running")
        (codes "Describes whether the container is currently in running state.")
        (λ p. container_metrics fl (λ cs. bool_float64 fl (is_set cs.running)) p.container_statuses)
      ∷ pod_family gauge (codes "kube_pod_init_container_status_running")
          (codes "Describes whether the init container is currently in running state.")
          (λ p.
            container_metrics fl (λ cs. bool_float64 fl (is_set cs.running))
              p.init_container_statuses)
      ∷ pod_family gauge (codes "kube_pod_container_status_terminated")
          (codes "Describes whether the container is currently in terminated state.")
          (λ p.
            container_metrics fl (λ cs. bool_float64 fl (is_set cs.terminated))
              p.container_statuses)
      ∷ pod_family gauge (codes "kube_pod_init_container_status_terminated")
          (codes "Describes whether the init container is currently in terminated state.")
          (λ p.
            container_metrics fl (λ cs. bool_float64 fl (is_set cs.terminated))
              p.init_container_statuses)
      ∷ []

  unfoldable pub container_reason_families : List (FamilyGenerator F (Pod pk))
  unfolding pod_family
  container_reason_families =
      pod_family gauge (codes "kube_pod_container_status_terminated_reason")
        (codes "Describes the reason the container is currently in terminated state.")
        (λ p. terminated_reasons fl p.container_statuses)
      ∷ pod_family gauge (codes "kube_pod_init_container_status_terminated_reason")
          (codes "Describes the reason the init container is currently in terminated state.")
          (λ p. terminated_reasons fl p.init_container_statuses)
      ∷ pod_family gauge (codes "kube_pod_container_status_last_terminated_reason")
          (codes "Describes the last reason the container was in terminated state.")
          (λ p. last_terminated_reasons fl p.container_statuses)
      ∷ pod_family gauge (codes "kube_pod_init_container_status_last_terminated_reason")
          (codes "Describes the last reason the init container was in terminated state.")
          (λ p. last_terminated_reasons fl p.init_container_statuses)
      ∷ []

  unfoldable pub container_ready_families : List (FamilyGenerator F (Pod pk))
  unfolding pod_family
  container_ready_families =
      pod_family gauge (codes "kube_pod_container_status_ready")
        (codes "Describes whether the containers readiness check succeeded.")
        (λ p. container_metrics fl (λ cs. bool_float64 fl cs.ready) p.container_statuses)
      ∷ pod_family gauge (codes "kube_pod_init_container_status_ready")
          (codes "Describes whether the init containers readiness check succeeded.")
          (λ p. container_metrics fl (λ cs. bool_float64 fl cs.ready) p.init_container_statuses)
      ∷ pod_family counter (codes "kube_pod_container_status_restarts_total")
          (codes "The number of container restarts per container.")
          (λ p. container_metrics fl (λ cs. of_int cs.restart_count) p.container_statuses)
      ∷ pod_family counter (codes "kube_pod_init_container_status_restarts_total")
          (codes "The number of restarts for the init container.")
          (λ p. container_metrics fl (λ cs. of_int cs.restart_count) p.init_container_statuses)
      ∷ []

  unfoldable pub container_resource_families : List (FamilyGenerator F (Pod pk))
  unfolding pod_family
  container_resource_families =
      pod_family gauge (codes "kube_pod_container_resource_requests")
        (codes "The number of requested request resource by a container.")
        (λ p. container_requests fl pk p.containers)
      ∷ pod_family gauge (codes "kube_pod_container_resource_limits")
          (codes "The number of requested limit resource by a container.")
          (λ p. container_limits fl pk p.containers)
      ∷ pod_family gauge (codes "kube_pod_init_container_resource_limits")
          (codes "The number of requested limit resource by the init container.")
          (λ p. container_limits fl pk p.init_containers)
      ∷ []

  unfoldable pub pod_spec_families : List (FamilyGenerator F (Pod pk))
  unfolding pod_family
  pod_spec_families =
      pod_family gauge (codes "kube_pod_spec_volumes_persistentvolumeclaims_info")
        (codes "Information about persistentvolumeclaim volumes in a pod.")
        (λ p. flat_map (claim_infos fl) p.volumes)
      ∷ pod_family gauge (codes "kube_pod_spec_volumes_persistentvolumeclaims_readonly")
          (codes "Describes whether a persistentvolumeclaim is mounted read only.")
          (λ p. flat_map (claims_read_only fl) p.volumes)
      ∷ pod_family gauge (codes "kube_pod_overhead")
          (codes "The pod overhead associated with running a pod.")
          (λ p. flat_map (overhead_metrics fl pk) p.overhead)
      ∷ []

  -- The family generators of the file.
  unfoldable pub pod_metric_families : List (FamilyGenerator F (Pod pk))
  unfolding pod_info_families pod_metadata_families pod_status_families container_waiting_families
      container_state_families container_reason_families container_ready_families
      container_resource_families pod_spec_families
  pod_metric_families =
      pod_info_families
      ++ (pod_metadata_families
          ++ (pod_status_families
              ++ (container_waiting_families
                  ++ (container_state_families
                      ++ (container_reason_families
                          ++ (container_ready_families
                              ++ (container_resource_families ++ (pod_spec_families))))))))
