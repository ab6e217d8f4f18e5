-- ===== src/Store/Job.antt =====
-- The families of jobs: internal/store/job.go. The object is a job already, as the reflector for jobs
-- only adds jobs. The creation time is none if it is zero, and the other times if the
-- pointer is nil; else a time is its Unix time.
pub mod Laws
use kube_state_metrics.Prelude.{Option, List, [], ◌∷◌, ◌++◌, if◌then◌else◌}
use kube_state_metrics.Prelude.Text.{Bytes, codes, ◌==◌}
use kube_state_metrics.Prelude.Assoc.{Map}
use kube_state_metrics.Prelude.Int.{ℤ, pos}
use kube_state_metrics.Prelude.Result.{Result, ok}
use kube_state_metrics.Api.{OwnerReference}
use kube_state_metrics.Metric.{Float64, Metric, Family, gauge}
use kube_state_metrics.Generator.{FamilyGenerator}
use kube_state_metrics.Store.{add_condition_metrics}
use kube_state_metrics.Store.Wrapped.{wrap_func}
use kube_state_metrics.Store.Shapes.{
  label_conditions, owners_or_none, value_metric, optional_metric, object_labels,
}

-- batchv1.JobCondition, as far as the families read it.
pub record JobCondition : Type 0 where
  pub type : Bytes
  pub status : Bytes

-- batchv1.Job, as far as the families read it.
pub record Job : Type 0 where
  pub namespace : Bytes
  pub name : Bytes
  pub labels : Map Bytes
  pub creation_timestamp : Option ℤ
  pub owner_references : List OwnerReference
  pub parallelism : Option ℤ
  pub completions : Option ℤ
  pub active_deadline_seconds : Option ℤ
  pub succeeded : ℤ
  pub failed : ℤ
  pub active : ℤ
  pub conditions : List JobCondition
  pub start_time : Option ℤ
  pub completion_time : Option ℤ

-- descJobLabelsDefaultLabels
abbrev pub desc_job_labels_default_labels : List Bytes
desc_job_labels_default_labels = codes "namespace" ∷ codes "job_name" ∷ []

module _ (fl : Float64) where
  open fl use {F, of_int}

  -- The loop over the conditions, for those of one type.
  unfoldable pub conditions_of : Bytes → List JobCondition → List (Metric F)
  unfolding label_conditions
  conditions_of type [] = []
  conditions_of type (c ∷ cs) =
      let rest = conditions_of type cs in
      if c.type == type
      then label_conditions fl (add_condition_metrics fl c.status) ++ rest
      else rest

  -- wrapJobFunc, for the metrics that the function gives.
  unfoldable pub wrap_job_func : (Job → Result (List (Metric F))) → Job → Result (Family F)
  wrap_job_func = wrap_func desc_job_labels_default_labels (λ job. job.namespace ∷ job.name ∷ [])

  unfoldable pub job_family : Bytes → Bytes → (Job → List (Metric F)) → FamilyGenerator F Job
  job_family name help f = record {
    name = name;
    help = help;
    type = gauge;
    generate_func = wrap_job_func (λ j. ok (f j));
  }

  -- jobMetricFamilies
  unfoldable pub job_metric_families : List (FamilyGenerator F Job)
  unfolding job_family conditions_of
  job_metric_families =
      job_family (codes "kube_job_labels")
        (codes "Kubernetes labels converted to Prometheus labels.") (λ j. object_labels fl j.labels)
      ∷ job_family (codes "kube_job_info") (codes "Information about job.")
          (λ j. value_metric fl (of_int (pos 1)) ∷ [])
      ∷ job_family (codes "kube_job_created") (codes "Unix creation timestamp")
          (λ j. optional_metric fl j.creation_timestamp)
      ∷ job_family (codes "kube_job_spec_parallelism")
          (codes "The maximum desired number of pods the job should run at any given time.")
          (λ j. optional_metric fl j.parallelism)
      ∷ job_family (codes "kube_job_spec_completions")
          (codes "The desired number of successfully finished pods the job should be run with.")
          (λ j. optional_metric fl j.completions)
      ∷ job_family (codes "kube_job_spec_active_deadline_seconds")
          (codes
            "The duration in seconds relative to the startTime that the job may be active before the system tries to terminate it.")
          (λ j. optional_metric fl j.active_deadline_seconds)
      ∷ job_family (codes "kube_job_status_succeeded")
          (codes "The number of pods which reached Phase Succeeded.")
          (λ j. value_metric fl (of_int j.succeeded) ∷ [])
      ∷ job_family (codes "kube_job_status_failed")
          (codes "The number of pods which reached Phase Failed.")
          (λ j. value_metric fl (of_int j.failed) ∷ [])
      ∷ job_family (codes "kube_job_status_active") (codes "The number of actively running pods.")
          (λ j. value_metric fl (of_int j.active) ∷ [])
      ∷ job_family (codes "kube_job_complete") (codes "The job has completed its execution.")
          (λ j. conditions_of (codes "Complete") j.conditions)
      ∷ job_family (codes "kube_job_failed") (codes "The job has failed its execution.")
          (λ j. conditions_of (codes "Failed") j.conditions)
      ∷ job_family (codes "kube_job_status_start_time")
          (codes "StartTime represents time when the job was acknowledged by the Job Manager.")
          (λ j. optional_metric fl j.start_time)
      ∷ job_family (codes "kube_job_status_completion_time")
          (codes "CompletionTime represents time when the job was completed.")
          (λ j. optional_metric fl j.completion_time)
      ∷ job_family (codes "kube_job_owner") (codes "Information about the Job's owner.")
          (λ j. owners_or_none fl j.owner_references)
      ∷ []
