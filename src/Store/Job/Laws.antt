-- ===== src/Store/Job/Laws.antt =====
-- The labels and the texts of the families of a job.
use kube_state_metrics.Prelude.{◌⊗◌, refl, inl, inr, List, [], ◌∷◌, All, All-append, Bool-cases}
use kube_state_metrics.Prelude.Text.{Bytes, codes, ◌==◌}
use kube_state_metrics.Metric.{Float64}
use kube_state_metrics.Metric.Lines.{Aligned}
use kube_state_metrics.Store.{add_condition_metrics}
use kube_state_metrics.Store.Shapes.{
  label_conditions, label_conditions-Aligned, object_labels-Aligned, optional_metric-Aligned,
  owners_or_none-Aligned,
}
use kube_state_metrics.Store.Render.{BeginsWith, begins_lem}
use kube_state_metrics.Store.Job.{
  Job, JobCondition, desc_job_labels_default_labels, conditions_of, wrap_job_func, job_family,
  job_metric_families,
}

module _ (fl : Float64) where
  conditions_of-Aligned :
      (type : Bytes) (cs : List JobCondition) → All Aligned (conditions_of fl type cs)
  unfolding conditions_of
  conditions_of-Aligned type [] = tt
  conditions_of-Aligned type (c ∷ cs) = elim (Bool-cases (c.type == type)) [
    | inl same ↦
        rw (same, conditions_of)
          (All-append Aligned (label_conditions fl (add_condition_metrics fl c.status)) _
            (label_conditions-Aligned fl c.status) (conditions_of-Aligned type cs))
    | inr other ↦ rw (other, conditions_of) (conditions_of-Aligned type cs)
  ]

  pub job_metric_families_lem :
      (j : Job)
      → All
          (BeginsWith fl desc_job_labels_default_labels (j.namespace ∷ j.name ∷ []) j)
          (job_metric_families fl)
  unfolding job_metric_families job_family wrap_job_func
  job_metric_families_lem j =
      begins_lem fl _ _ _ _ _ _ j refl (object_labels-Aligned fl j.labels)
      ⊗ begins_lem fl _ _ _ _ _ _ j refl (refl, tt)
      ⊗ begins_lem fl _ _ _ _ _ _ j refl (optional_metric-Aligned fl j.creation_timestamp)
      ⊗ begins_lem fl _ _ _ _ _ _ j refl (optional_metric-Aligned fl j.parallelism)
      ⊗ begins_lem fl _ _ _ _ _ _ j refl (optional_metric-Aligned fl j.completions)
      ⊗ begins_lem fl _ _ _ _ _ _ j refl (optional_metric-Aligned fl j.active_deadline_seconds)
      ⊗ begins_lem fl _ _ _ _ _ _ j refl (refl, tt)
      ⊗ begins_lem fl _ _ _ _ _ _ j refl (refl, tt)
      ⊗ begins_lem fl _ _ _ _ _ _ j refl (refl, tt)
      ⊗ begins_lem fl _ _ _ _ _ _ j refl (conditions_of-Aligned (codes "Complete") j.conditions)
      ⊗ begins_lem fl _ _ _ _ _ _ j refl (conditions_of-Aligned (codes "Failed") j.conditions)
      ⊗ begins_lem fl _ _ _ _ _ _ j refl (optional_metric-Aligned fl j.start_time)
      ⊗ begins_lem fl _ _ _ _ _ _ j refl (optional_metric-Aligned fl j.completion_time)
      ⊗ begins_lem fl _ _ _ _ _ _ j refl (owners_or_none-Aligned fl j.owner_references)
      ⊗ tt
