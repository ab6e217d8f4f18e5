-- ===== src/Store/Registry/Readable.antt =====
-- The objects whose families are generated without a panic.
use kube_state_metrics.Prelude.{◌≡◌, inr, Bool, true, false, Option, none, some, All, if◌then◌else◌}
use kube_state_metrics.Prelude.Text.{codes, ◌==◌}
use kube_state_metrics.Prelude.Int.{ℤ}
use kube_state_metrics.Builder.{Kind, cron_job, deployment, hpa, vpa}
use kube_state_metrics.Store.Packages.{Packages}
use kube_state_metrics.Store.CronJob.{CronJob}
use kube_state_metrics.Store.Deployment.{Deployment}
use kube_state_metrics.Store.Deployment.Laws.{Resolves}
use kube_state_metrics.Store.HorizontalPodAutoscaler.{MetricSpec, HorizontalPodAutoscaler}
use kube_state_metrics.Store.VerticalPodAutoscaler.{TargetRef, VerticalPodAutoscaler}
use kube_state_metrics.Store.Registry.{Object}

-- A cron job whose schedule can be parsed, that has a creation time, and that says whether it is
-- suspended.
pub record ReadableCronJob (pk : Packages) (j : CronJob) : Type 0 where
  pub schedule : pk.Schedule
  pub parsed : pk.parse_standard j.schedule ≡ inr schedule
  pub created : ℤ
  pub has_created : j.creation_timestamp ≡ some created
  pub suspended : Bool
  pub has_suspend : j.suspend ≡ some suspended

-- A deployment that has a number of replicas, and a rolling update that can be read for it.
pub record ReadableDeployment {pk : Packages} (d : Deployment pk) : Type 0 where
  pub replicas : ℤ
  pub has_replicas : d.spec_replicas ≡ some replicas
  pub resolves : Resolves d.rolling_update replicas

abbrev pub is_set : {A : Type 0} → Option A → Bool
is_set none = false
is_set (some a) = true

-- The pointer that the type of a metric names is not nil.
abbrev pub has_source : {pk : Packages} → MetricSpec pk → Bool
has_source m =
    if m.type == codes "Object"
    then is_set m.object
    else if m.type == codes "Pods"
    then is_set m.pods
    else if m.type == codes "Resource"
    then is_set m.resource
    else if m.type == codes "External"
    then is_set m.external
    else true

-- An autoscaler that has a least number of replicas, and the source of each of its metrics.
pub record ReadableHpa {pk : Packages} (a : HorizontalPodAutoscaler pk) : Type 0 where
  pub min_replicas : ℤ
  pub has_min : a.min_replicas ≡ some min_replicas
  pub sources : All (λ m. has_source m ≡ true) a.metrics

-- A vertical autoscaler that has a target.
pub record ReadableVpa {pk : Packages} (a : VerticalPodAutoscaler pk) : Type 0 where
  pub target : TargetRef
  pub has_target : a.target_ref ≡ some target

-- The objects of the other resources always are.
abbrev pub Readable : (pk : Packages) (k : Kind) → Object pk k → Type 0
Readable pk cron_job j = ReadableCronJob pk j
Readable pk deployment d = ReadableDeployment d
Readable pk hpa a = ReadableHpa a
Readable pk vpa a = ReadableVpa a
Readable pk _ o = Unit
