-- ===== src/Store/Pod/Containers.antt =====
-- What the families of internal/store/pod.go make of the statuses of a pod's containers.
use kube_state_metrics.Prelude.{
  refl, Bool, true, false, ◌||◌, Option, none, some, List, [], ◌∷◌, All, if◌then◌else◌,
}
use kube_state_metrics.Prelude.Text.{Bytes, codes, ◌==◌}
use kube_state_metrics.Prelude.Int.{pos}
use kube_state_metrics.Metric.{Float64, Metric}
use kube_state_metrics.Metric.Lines.{Aligned}
use kube_state_metrics.Store.{bool_float64}
use kube_state_metrics.Store.Shapes.{
  infos, infos-Aligned, series, series-Aligned, flat_map, flat_map-Aligned, when, when-Aligned,
  value_metric,
}
use kube_state_metrics.Store.Pod.Objects.{ContainerStatus}

-- containerWaitingReasons
abbrev container_waiting_reasons : List Bytes
container_waiting_reasons =
    codes "ContainerCreating"
    ∷ codes "CrashLoopBackOff"
    ∷ codes "CreateContainerConfigError"
    ∷ codes "ErrImagePull"
    ∷ codes "ImagePullBackOff"
    ∷ codes "CreateContainerError"
    ∷ codes "InvalidImageName"
    ∷ []

-- containerTerminatedReasons
abbrev container_terminated_reasons : List Bytes
container_terminated_reasons =
    codes "OOMKilled"
    ∷ codes "Completed"
    ∷ codes "Error"
    ∷ codes "ContainerCannotRun"
    ∷ codes "DeadlineExceeded"
    ∷ codes "Evicted"
    ∷ []

-- The test of a pointer against nil.
abbrev pub is_set : {A : Type 0} → Option A → Bool
is_set none = false
is_set (some a) = true

-- waitingReason
unfoldable pub waiting_reason : ContainerStatus → Bytes → Bool
waiting_reason cs reason = elim cs.waiting [ none ↦ false | some r ↦ r == reason ]

-- terminationReason
unfoldable pub termination_reason : ContainerStatus → Bytes → Bool
termination_reason cs reason = elim cs.terminated [ none ↦ false | some t ↦ t.reason == reason ]

-- lastTerminationReason
unfoldable pub last_termination_reason : ContainerStatus → Bytes → Bool
last_termination_reason cs reason = elim cs.last_terminated [
  | none ↦ false
  | some t ↦ t.reason == reason
]

module _ (fl : Float64) where
  open fl use {F, of_int}

  -- The metrics of kube_pod_container_info, and of init containers.
  unfoldable pub container_infos : List ContainerStatus → List (Metric F)
  container_infos =
      infos fl (codes "container" ∷ codes "image" ∷ codes "image_id" ∷ codes "container_id" ∷ [])
        (λ cs. cs.name ∷ cs.image ∷ cs.image_id ∷ cs.container_id ∷ [])

  -- A metric for each container, whose value is one of its status.
  unfoldable pub container_metrics : (ContainerStatus → F) → List ContainerStatus → List (Metric F)
  container_metrics v = series fl (codes "container" ∷ []) (λ cs. cs.name ∷ []) v

  -- A metric for each container and reason.
  reason_metrics :
      (ContainerStatus → Bytes → Bool) → List Bytes → List ContainerStatus → List (Metric F)
  reason_metrics test reasons = flat_map (λ cs.
      series fl (codes "container" ∷ codes "reason" ∷ []) (λ reason. cs.name ∷ reason ∷ [])
        (λ reason. bool_float64 fl (test cs reason)) reasons)

  -- The metrics of kube_pod_container_status_waiting_reason, and of init containers.
  unfoldable pub waiting_reasons : List ContainerStatus → List (Metric F)
  unfolding reason_metrics
  waiting_reasons = reason_metrics waiting_reason container_waiting_reasons

  -- The metrics of kube_pod_container_status_terminated_reason, and of init containers.
  unfoldable pub terminated_reasons : List ContainerStatus → List (Metric F)
  unfolding reason_metrics
  terminated_reasons = reason_metrics termination_reason container_terminated_reasons

  -- The metrics of kube_pod_container_status_last_terminated_reason, and of init containers.
  unfoldable pub last_terminated_reasons : List ContainerStatus → List (Metric F)
  unfolding reason_metrics
  last_terminated_reasons = reason_metrics last_termination_reason container_terminated_reasons

  -- The loop over the statuses for the last time at which a container finished.
  unfoldable pub last_finish_time : F → List ContainerStatus → F
  last_finish_time last [] = last
  last_finish_time last (cs ∷ statuses) =
      last_finish_time
        (elim cs.terminated [
          | none ↦ last
          | some t ↦
              let finished = of_int t.finished_at in
              if fl.equal last (of_int (pos 0)) || fl.less last finished then finished else last
        ])
        statuses

  -- The metrics of kube_pod_completion_time.
  unfoldable pub completion_metrics : List ContainerStatus → List (Metric F)
  unfolding last_finish_time
  completion_metrics statuses =
      let last = last_finish_time (of_int (pos 0)) statuses in
      when (fl.less (of_int (pos 0)) last) (value_metric fl last)

module _ (fl : Float64) where
  pub container_infos-Aligned : (cs : List ContainerStatus) → All Aligned (container_infos fl cs)
  unfolding container_infos
  container_infos-Aligned cs = infos-Aligned fl _ _ cs (λ c. refl)

  pub container_metrics-Aligned :
      (v : ContainerStatus → fl.F) (cs : List ContainerStatus)
      → All Aligned (container_metrics fl v cs)
  unfolding container_metrics
  container_metrics-Aligned v cs = series-Aligned fl _ _ v cs (λ c. refl)

  reason_metrics-Aligned :
      (test : ContainerStatus → Bytes → Bool) (reasons : List Bytes) (cs : List ContainerStatus)
      → All Aligned (reason_metrics fl test reasons cs)
  unfolding reason_metrics
  reason_metrics-Aligned test reasons cs =
      flat_map-Aligned _ cs (λ c. series-Aligned fl _ _ _ reasons (λ r. refl))

  pub waiting_reasons-Aligned : (cs : List ContainerStatus) → All Aligned (waiting_reasons fl cs)
  unfolding waiting_reasons
  waiting_reasons-Aligned cs = reason_metrics-Aligned waiting_reason container_waiting_reasons cs

  pub terminated_reasons-Aligned :
      (cs : List ContainerStatus) → All Aligned (terminated_reasons fl cs)
  unfolding terminated_reasons
  terminated_reasons-Aligned cs =
      reason_metrics-Aligned termination_reason container_terminated_reasons cs

  pub last_terminated_reasons-Aligned :
      (cs : List ContainerStatus) → All Aligned (last_terminated_reasons fl cs)
  unfolding last_terminated_reasons
  last_terminated_reasons-Aligned cs =
      reason_metrics-Aligned last_termination_reason container_terminated_reasons cs

  pub completion_metrics-Aligned :
      (cs : List ContainerStatus) → All Aligned (completion_metrics fl cs)
  unfolding completion_metrics
  completion_metrics-Aligned cs =
      when-Aligned (fl.less (fl.of_int (pos 0)) (last_finish_time fl (fl.of_int (pos 0)) cs)) _ refl
