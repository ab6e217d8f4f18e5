-- ===== src/Store/Pod/Laws.antt =====
-- The labels and the texts of the families of pods.
use kube_state_metrics.Prelude.{◌⊗◌, refl, [], All, ◌&&◌}
use kube_state_metrics.Prelude.Text.{Bytes, codes, ◌==◌}
use kube_state_metrics.Metric.{Float64}
use kube_state_metrics.Metric.Lines.{Aligned}
use kube_state_metrics.Store.Packages.{Packages}
use kube_state_metrics.Store.Shapes.{
  object_labels-Aligned, optional_metric-Aligned, owners_or_none-Aligned, series-Aligned,
  phases-Aligned, flat_map-Aligned, when-Aligned, if-Aligned, label_conditions-Aligned,
}
use kube_state_metrics.Store.Render.{BeginsWith, begins_lem}
use kube_state_metrics.Store.Pod.Objects.{Pod, PodCondition}
use kube_state_metrics.Store.Pod.Containers.{
  container_infos-Aligned, container_metrics-Aligned, waiting_reasons-Aligned,
  terminated_reasons-Aligned, last_terminated_reasons-Aligned, completion_metrics-Aligned,
}
use kube_state_metrics.Store.Pod.Resources.{
  container_requests-Aligned, container_limits-Aligned, overhead_metrics-Aligned,
  claim_infos-Aligned, claims_read_only-Aligned,
}
use kube_state_metrics.Store.Pod.{
  desc_pod_labels_default_labels, pod_values, wrap_pod_func, pod_family, pod_metric_families,
  pod_info_families, pod_metadata_families, pod_status_families, container_waiting_families,
  container_state_families, container_reason_families, container_ready_families,
  container_resource_families, pod_spec_families,
}
use kube_state_metrics.Store.Pod.Status.{
  scheduled_time, unschedulable, pod_phases, conditions_for, pod_status_reasons,
}

module _ (fl : Float64) (pk : Packages) where
  scheduled_time-Aligned : (c : PodCondition) → All Aligned (scheduled_time fl pk c)
  unfolding scheduled_time
  scheduled_time-Aligned c =
      when-Aligned (c.type == codes "PodScheduled" && c.status == codes "True") _ refl

  unschedulable-Aligned : (c : PodCondition) → All Aligned (unschedulable fl pk c)
  unfolding unschedulable
  unschedulable-Aligned c =
      when-Aligned (c.type == codes "PodScheduled" && c.status == codes "False") _ refl

  pod_phases-Aligned : (phase : Bytes) → All Aligned (pod_phases fl pk phase)
  unfolding pod_phases
  pod_phases-Aligned phase = if-Aligned (phase == []) [] _ tt (phases-Aligned fl phase _)

  conditions_for-Aligned :
      (type : Bytes) (c : PodCondition) → All Aligned (conditions_for fl pk type c)
  unfolding conditions_for
  conditions_for-Aligned type c =
      if-Aligned (c.type == type) _ [] (label_conditions-Aligned fl c.status) tt

  pub pod_metric_families_lem :
      (p : (Pod pk))
      → All
          (BeginsWith fl desc_pod_labels_default_labels (pod_values p) p)
          (pod_metric_families fl pk)
  unfolding pod_metric_families pod_info_families pod_metadata_families pod_status_families
      container_waiting_families container_state_families container_reason_families
      container_ready_families container_resource_families pod_spec_families pod_family
      wrap_pod_func
  pod_metric_families_lem p =
      begins_lem fl _ _ _ _ _ _ p refl (refl, tt)
      ⊗ begins_lem fl _ _ _ _ _ _ p refl (optional_metric-Aligned fl p.start_time)
      ⊗ begins_lem fl _ _ _ _ _ _ p refl (completion_metrics-Aligned fl p.container_statuses)
      ⊗ begins_lem fl _ _ _ _ _ _ p refl (owners_or_none-Aligned fl p.owner_references)
      ⊗ begins_lem fl _ _ _ _ _ _ p refl (object_labels-Aligned fl p.labels)
      ⊗ begins_lem fl _ _ _ _ _ _ p refl (optional_metric-Aligned fl p.creation_timestamp)
      ⊗ begins_lem fl _ _ _ _ _ _ p refl (optional_metric-Aligned fl p.deletion_timestamp)
      ⊗ begins_lem fl _ _ _ _ _ _ p refl (refl, tt)
      ⊗ begins_lem fl _ _ _ _ _ _ p refl (flat_map-Aligned _ p.conditions scheduled_time-Aligned)
      ⊗ begins_lem fl _ _ _ _ _ _ p refl (flat_map-Aligned _ p.conditions unschedulable-Aligned)
      ⊗ begins_lem fl _ _ _ _ _ _ p refl (pod_phases-Aligned p.phase)
      ⊗ begins_lem fl _ _ _ _ _ _ p refl
          (flat_map-Aligned _ p.conditions (conditions_for-Aligned (codes "Ready")))
      ⊗ begins_lem fl _ _ _ _ _ _ p refl
          (flat_map-Aligned _ p.conditions (conditions_for-Aligned (codes "PodScheduled")))
      ⊗ begins_lem fl _ _ _ _ _ _ p refl (series-Aligned fl _ _ _ pod_status_reasons (λ r. refl))
      ⊗ begins_lem fl _ _ _ _ _ _ p refl (container_infos-Aligned fl p.container_statuses)
      ⊗ begins_lem fl _ _ _ _ _ _ p refl (container_infos-Aligned fl p.init_container_statuses)
      ⊗ begins_lem fl _ _ _ _ _ _ p refl (container_metrics-Aligned fl _ p.container_statuses)
      ⊗ begins_lem fl _ _ _ _ _ _ p refl (container_metrics-Aligned fl _ p.init_container_statuses)
      ⊗ begins_lem fl _ _ _ _ _ _ p refl (waiting_reasons-Aligned fl p.container_statuses)
      ⊗ begins_lem fl _ _ _ _ _ _ p refl (waiting_reasons-Aligned fl p.init_container_statuses)
      ⊗ begins_lem fl _ _ _ _ _ _ p refl (container_metrics-Aligned fl _ p.container_statuses)
      ⊗ begins_lem fl _ _ _ _ _ _ p refl (container_metrics-Aligned fl _ p.init_container_statuses)
      ⊗ begins_lem fl _ _ _ _ _ _ p refl (container_metrics-Aligned fl _ p.container_statuses)
      ⊗ begins_lem fl _ _ _ _ _ _ p refl (container_metrics-Aligned fl _ p.init_container_statuses)
      ⊗ begins_lem fl _ _ _ _ _ _ p refl (terminated_reasons-Aligned fl p.container_statuses)
      ⊗ begins_lem fl _ _ _ _ _ _ p refl (terminated_reasons-Aligned fl p.init_container_statuses)
      ⊗ begins_lem fl _ _ _ _ _ _ p refl (last_terminated_reasons-Aligned fl p.container_statuses)
      ⊗ begins_lem fl _ _ _ _ _ _ p refl
          (last_terminated_reasons-Aligned fl p.init_container_statuses)
      ⊗ begins_lem fl _ _ _ _ _ _ p refl (container_metrics-Aligned fl _ p.container_statuses)
      ⊗ begins_lem fl _ _ _ _ _ _ p refl (container_metrics-Aligned fl _ p.init_container_statuses)
      ⊗ begins_lem fl _ _ _ _ _ _ p refl (container_metrics-Aligned fl _ p.container_statuses)
      ⊗ begins_lem fl _ _ _ _ _ _ p refl (container_metrics-Aligned fl _ p.init_container_statuses)
      ⊗ begins_lem fl _ _ _ _ _ _ p refl (container_requests-Aligned fl pk p.containers)
      ⊗ begins_lem fl _ _ _ _ _ _ p refl (container_limits-Aligned fl pk p.containers)
      ⊗ begins_lem fl _ _ _ _ _ _ p refl (container_limits-Aligned fl pk p.init_containers)
      ⊗ begins_lem fl _ _ _ _ _ _ p refl (flat_map-Aligned _ p.volumes (claim_infos-Aligned fl))
      ⊗ begins_lem fl _ _ _ _ _ _ p refl
          (flat_map-Aligned _ p.volumes (claims_read_only-Aligned fl))
      ⊗ begins_lem fl _ _ _ _ _ _ p refl
          (flat_map-Aligned _ p.overhead (overhead_metrics-Aligned fl pk))
      ⊗ tt
