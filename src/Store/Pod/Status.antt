-- ===== src/Store/Pod/Status.antt =====
-- The metrics of a pod's own state: internal/store/pod.go.
use kube_state_metrics.Prelude.{◌&&◌, none, some, List, [], ◌∷◌, if◌then◌else◌}
use kube_state_metrics.Prelude.Text.{Bytes, codes, ◌==◌}
use kube_state_metrics.Prelude.Int.{pos}
use kube_state_metrics.Metric.{Float64, Metric}
use kube_state_metrics.Store.{bool_float64, add_condition_metrics}
use kube_state_metrics.Store.Packages.{Packages}
use kube_state_metrics.Store.Shapes.{
  value_metric, labelled_metric, label_conditions, series, phases, when,
}
use kube_state_metrics.Store.Pod.Objects.{Pod, PodCondition}

-- podStatusReasons
abbrev pub pod_status_reasons : List Bytes
pod_status_reasons = codes "NodeLost" ∷ codes "Evicted" ∷ []

-- The text, or "<none>" if it is empty.
unfoldable pub text_or_none : Bytes → Bytes
text_or_none s = if s == [] then codes "<none>" else s

module _ (fl : Float64) (pk : Packages) where
  open fl use {F, of_int}

  -- The metrics of kube_pod_info.
  unfoldable pub info_metrics : Pod pk → List (Metric F)
  unfolding text_or_none
  info_metrics p =
      let created_by = pk.get_controller_of p.owner_references in
      labelled_metric fl
        (codes "host_ip"
          ∷ codes "pod_ip"
          ∷ codes "uid"
          ∷ codes "node"
          ∷ codes "created_by_kind"
          ∷ codes "created_by_name"
          ∷ codes "priority_class"
          ∷ [])
        (p.host_ip
          ∷ p.pod_ip
          ∷ p.uid
          ∷ p.node_name
          ∷ (elim created_by [ none ↦ codes "<none>" | some o ↦ text_or_none o.kind ])
          ∷ (elim created_by [ none ↦ codes "<none>" | some o ↦ text_or_none o.name ])
          ∷ p.priority_class_name
          ∷ [])
        (of_int (pos 1))
      ∷ []

  -- The metrics of kube_pod_status_scheduled_time for one condition.
  unfoldable pub scheduled_time : PodCondition → List (Metric F)
  scheduled_time c =
      when (c.type == codes "PodScheduled" && c.status == codes "True")
        (value_metric fl (of_int c.last_transition_time))

  -- The metrics of kube_pod_status_unschedulable for one condition.
  unfoldable pub unschedulable : PodCondition → List (Metric F)
  unschedulable c =
      when (c.type == codes "PodScheduled" && c.status == codes "False")
        (value_metric fl (of_int (pos 1)))

  -- The metrics of kube_pod_status_phase.
  unfoldable pub pod_phases : Bytes → List (Metric F)
  pod_phases phase =
      if phase == []
      then []
      else phases fl phase (
          codes "Pending"
          ∷ codes "Succeeded"
          ∷ codes "Failed"
          ∷ codes "Unknown"
          ∷ codes "Running"
          ∷ [])

  -- The metrics of kube_pod_status_ready and kube_pod_status_scheduled for one condition.
  unfoldable pub conditions_for : Bytes → PodCondition → List (Metric F)
  conditions_for type c =
      if c.type == type then label_conditions fl (add_condition_metrics fl c.status) else []

  -- The metrics of kube_pod_status_reason.
  unfoldable pub reason_metrics : Bytes → List (Metric F)
  reason_metrics current =
      series fl (codes "reason" ∷ []) (λ reason. reason ∷ [])
        (λ reason. bool_float64 fl (current == reason)) pod_status_reasons
