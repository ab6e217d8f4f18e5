-- ===== src/Store/CronJob.antt =====
-- The families of cron jobs: internal/store/cronjob.go. The creation time is none if it is
-- zero, the time of the last schedule if the pointer is nil; an active job is its name.
pub mod Panics
pub mod Laws
use kube_state_metrics.Prelude.{
  inl, inr, Bool, Option, none, some, List, [], ◌∷◌, ◌++◌, length, if◌then◌else◌,
}
use kube_state_metrics.Prelude.Text.{Bytes, codes}
use kube_state_metrics.Prelude.Assoc.{Map}
use kube_state_metrics.Prelude.Int.{ℤ, pos, negsuc, int_beq}
use kube_state_metrics.Prelude.Result.{Result, ok, ◌>>=◌, deref}
use kube_state_metrics.Api.{Try}
use kube_state_metrics.Metric.{Float64, Metric, Family, gauge}
use kube_state_metrics.Generator.{FamilyGenerator}
use kube_state_metrics.Store.{bool_float64}
use kube_state_metrics.Store.Packages.{Packages, or_panic}
use kube_state_metrics.Store.Wrapped.{wrap_func}
use kube_state_metrics.Store.Shapes.{value_metric, labelled_metric, optional_metric, object_labels}

-- batchv1beta1.CronJob, as far as the families read it.
pub record CronJob : Type 0 where
  pub namespace : Bytes
  pub name : Bytes
  pub labels : Map Bytes
  pub creation_timestamp : Option ℤ
  pub schedule : Bytes
  pub concurrency_policy : Bytes
  pub active : List Bytes
  pub last_schedule_time : Option ℤ
  pub suspend : Option Bool
  pub starting_deadline_seconds : Option ℤ

-- descCronJobLabelsDefaultLabels
abbrev pub desc_cron_job_labels_default_labels : List Bytes
desc_cron_job_labels_default_labels = codes "namespace" ∷ codes "cronjob" ∷ []

abbrev pub cron_job_values : CronJob → List Bytes
cron_job_values j = j.namespace ∷ j.name ∷ []

-- The Unix time of the zero time.
abbrev zero_time : ℤ
zero_time = negsuc 62135596799

-- A time that is neither a nil pointer nor zero.
abbrev pub non_zero : Option ℤ → Option ℤ
unfolding int_beq
non_zero none = none
non_zero (some t) = if int_beq t zero_time then none else some t

-- getNextScheduledTime
unfoldable pub get_next_scheduled_time : (pk : Packages) → Bytes → Option ℤ → Option ℤ → Try ℤ
get_next_scheduled_time pk schedule last_schedule_time created_time =
    elim (pk.parse_standard schedule) [
      | inl e ↦ inl (codes "Failed to parse cron job schedule '" ++ schedule ++ codes "': " ++ e)
      | inr sched ↦ elim (non_zero last_schedule_time) [
        | some t ↦ inr (pk.next sched t)
        | none ↦ elim created_time [
          | some t ↦ inr (pk.next sched t)
          | none ↦ inl (codes "createdTime and lastScheduleTime are both zero")
        ]
      ]
    ]

module _ (fl : Float64) (pk : Packages) where
  open fl use {F, of_int}

  -- The metrics of kube_cronjob_spec_suspend.
  unfoldable pub suspend_metrics : Option Bool → List (Metric F)
  suspend_metrics none = []
  suspend_metrics (some b) = value_metric fl (bool_float64 fl b) ∷ []

  unfoldable pub unless_suspended : ℤ → Bool → List (Metric F)
  unless_suspended t suspended = if suspended then [] else value_metric fl (of_int t) ∷ []

  -- The metrics of kube_cronjob_next_schedule_time.
  unfoldable pub next_schedule_metrics : CronJob → Result (List (Metric F))
  unfolding unless_suspended get_next_scheduled_time
  next_schedule_metrics j = do
    t ← or_panic (get_next_scheduled_time pk j.schedule j.last_schedule_time j.creation_timestamp)
    suspended ← deref j.suspend
    ok (unless_suspended t suspended)

  -- The function that wraps the families', for the metrics that it is given.
  unfoldable pub wrap_cron_job_func :
      (CronJob → Result (List (Metric F))) → CronJob → Result (Family F)
  wrap_cron_job_func = wrap_func desc_cron_job_labels_default_labels cron_job_values

  unfoldable pub cron_job_family :
      Bytes → Bytes → (CronJob → Result (List (Metric F))) → FamilyGenerator F CronJob
  cron_job_family name help f = record {
    name = name;
    help = help;
    type = gauge;
    generate_func = wrap_cron_job_func f;
  }

  -- The family generators of the file.
  unfoldable pub cron_job_metric_families : List (FamilyGenerator F CronJob)
  unfolding cron_job_family suspend_metrics next_schedule_metrics
  cron_job_metric_families =
      cron_job_family (codes "kube_cronjob_labels")
        (codes "Kubernetes labels converted to Prometheus labels.")
        (λ j. ok (object_labels fl j.labels))
      ∷ cron_job_family (codes "kube_cronjob_info") (codes "Info about cronjob.") (λ j. ok (
          labelled_metric fl (codes "schedule" ∷ codes "concurrency_policy" ∷ [])
            (j.schedule ∷ j.concurrency_policy ∷ []) (of_int (pos 1))
          ∷ []))
      ∷ cron_job_family (codes "kube_cronjob_created") (codes "Unix creation timestamp")
          (λ j. ok (optional_metric fl j.creation_timestamp))
      ∷ cron_job_family (codes "kube_cronjob_status_active")
          (codes "Active holds pointers to currently running jobs.")
          (λ j. ok (value_metric fl (of_int (pos (length j.active))) ∷ []))
      ∷ cron_job_family (codes "kube_cronjob_status_last_schedule_time")
          (codes
            "LastScheduleTime keeps information of when was the last time the job was successfully scheduled.")
          (λ j. ok (optional_metric fl j.last_schedule_time))
      ∷ cron_job_family (codes "kube_cronjob_spec_suspend")
          (codes "Suspend flag tells the controller to suspend subsequent executions.")
          (λ j. ok (suspend_metrics j.suspend))
      ∷ cron_job_family (codes "kube_cronjob_spec_starting_deadline_seconds")
          (codes
            "Deadline in seconds for starting the job if it misses scheduled time for any reason.")
          (λ j. ok (optional_metric fl j.starting_deadline_seconds))
      ∷ cron_job_family (codes "kube_cronjob_next_schedule_time")
          (codes
            "Next time the cronjob should be scheduled. The time after lastScheduleTime, or after the cron job's creation time if it's never been scheduled. Use this to determine if the job is delayed.")
          (λ j. next_schedule_metrics j)
      ∷ []
