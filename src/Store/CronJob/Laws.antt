-- ===== src/Store/CronJob/Laws.antt =====
-- The labels and the texts of the families of cron jobs.
use kube_state_metrics.Prelude.{◌⊗◌, ◌≡◌, refl, inr, Bool, true, false, Option, none, some, All}
use kube_state_metrics.Prelude.Int.{ℤ}
use kube_state_metrics.Prelude.Result.{ok}
use kube_state_metrics.Metric.{Float64}
use kube_state_metrics.Metric.Lines.{Aligned}
use kube_state_metrics.Store.Packages.{Packages}
use kube_state_metrics.Store.Shapes.{object_labels-Aligned, optional_metric-Aligned}
use kube_state_metrics.Store.Render.{BeginsWith, begins_lem}
use kube_state_metrics.Store.CronJob.{
  CronJob, desc_cron_job_labels_default_labels, cron_job_values, wrap_cron_job_func,
  cron_job_family, cron_job_metric_families, suspend_metrics, unless_suspended,
  next_schedule_metrics, get_next_scheduled_time,
}

module _ (fl : Float64) (pk : Packages) where
  suspend_metrics-Aligned : (b : Option Bool) → All Aligned (suspend_metrics fl pk b)
  unfolding suspend_metrics
  suspend_metrics-Aligned none = tt
  suspend_metrics-Aligned (some b) = (refl, tt)

  next_schedule-Aligned :
      (t : ℤ) (suspended : Bool) → All Aligned (unless_suspended fl pk t suspended)
  unfolding unless_suspended
  next_schedule-Aligned t true = tt
  next_schedule-Aligned t false = (refl, tt)

  next_schedule_metrics_lem :
      (j : CronJob) (t : ℤ) (suspended : Bool)
      → get_next_scheduled_time pk j.schedule j.last_schedule_time j.creation_timestamp ≡ inr t
      → j.suspend ≡ some suspended
      → next_schedule_metrics fl pk j ≡ ok (unless_suspended fl pk t suspended)
  unfolding next_schedule_metrics
  next_schedule_metrics_lem j t suspended h k = rw (h, k)

  pub cron_job_metric_families_lem :
      (j : CronJob)
      → (t : ℤ) (suspended : Bool)
      → get_next_scheduled_time pk j.schedule j.last_schedule_time j.creation_timestamp ≡ inr t
      → j.suspend ≡ some suspended
      → All
          (BeginsWith fl desc_cron_job_labels_default_labels (cron_job_values j) j)
          (cron_job_metric_families fl pk)
  unfolding cron_job_metric_families cron_job_family wrap_cron_job_func
  cron_job_metric_families_lem j t suspended h k =
      begins_lem fl _ _ _ _ _ _ j refl (object_labels-Aligned fl j.labels)
      ⊗ begins_lem fl _ _ _ _ _ _ j refl (refl, tt)
      ⊗ begins_lem fl _ _ _ _ _ _ j refl (optional_metric-Aligned fl j.creation_timestamp)
      ⊗ begins_lem fl _ _ _ _ _ _ j refl (refl, tt)
      ⊗ begins_lem fl _ _ _ _ _ _ j refl (optional_metric-Aligned fl j.last_schedule_time)
      ⊗ begins_lem fl _ _ _ _ _ _ j refl (suspend_metrics-Aligned j.suspend)
      ⊗ begins_lem fl _ _ _ _ _ _ j refl (optional_metric-Aligned fl j.starting_deadline_seconds)
      ⊗ begins_lem fl _ _ _ _ _ _ j (next_schedule_metrics_lem j t suspended h k)
          (next_schedule-Aligned t suspended)
      ⊗ tt
