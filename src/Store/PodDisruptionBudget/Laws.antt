-- ===== src/Store/PodDisruptionBudget/Laws.antt =====
-- The labels and the texts of the families of pod disruption budgets.
use kube_state_metrics.Prelude.{◌⊗◌, refl, All}
use kube_state_metrics.Metric.{Float64}
use kube_state_metrics.Store.Shapes.{optional_metric-Aligned}
use kube_state_metrics.Store.Render.{BeginsWith, begins_lem}
use kube_state_metrics.Store.PodDisruptionBudget.{
  PodDisruptionBudget, desc_pod_disruption_budget_labels_default_labels,
  pod_disruption_budget_values, wrap_pod_disruption_budget_func, pod_disruption_budget_family,
  pod_disruption_budget_metric_families,
}

module _ (fl : Float64) where
  pub pod_disruption_budget_metric_families_lem :
      (p : PodDisruptionBudget)
      → All
          (BeginsWith fl desc_pod_disruption_budget_labels_default_labels
            (pod_disruption_budget_values p)
            p)
          (pod_disruption_budget_metric_families fl)
  unfolding pod_disruption_budget_metric_families pod_disruption_budget_family
      wrap_pod_disruption_budget_func
  pod_disruption_budget_metric_families_lem p =
      begins_lem fl _ _ _ _ _ _ p refl (optional_metric-Aligned fl p.creation_timestamp)
      ⊗ begins_lem fl _ _ _ _ _ _ p refl (refl, tt)
      ⊗ begins_lem fl _ _ _ _ _ _ p refl (refl, tt)
      ⊗ begins_lem fl _ _ _ _ _ _ p refl (refl, tt)
      ⊗ begins_lem fl _ _ _ _ _ _ p refl (refl, tt)
      ⊗ begins_lem fl _ _ _ _ _ _ p refl (refl, tt)
      ⊗ tt
