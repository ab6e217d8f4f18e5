-- ===== src/Store/PodDisruptionBudget.antt =====
-- The families of pod disruption budgets: internal/store/poddisruptionbudget.go. The creation
-- time is none if it is zero.
pub mod Laws
use kube_state_metrics.Prelude.{Option, List, [], ◌∷◌}
use kube_state_metrics.Prelude.Text.{Bytes, codes}
use kube_state_metrics.Prelude.Int.{ℤ}
use kube_state_metrics.Prelude.Result.{Result, ok}
use kube_state_metrics.Metric.{Float64, Metric, Family, gauge}
use kube_state_metrics.Generator.{FamilyGenerator}
use kube_state_metrics.Store.Wrapped.{wrap_func}
use kube_state_metrics.Store.Shapes.{value_metric, optional_metric}

-- policyv1beta1.PodDisruptionBudget, as far as the families read it.
pub record PodDisruptionBudget : Type 0 where
  pub namespace : Bytes
  pub name : Bytes
  pub creation_timestamp : Option ℤ
  pub current_healthy : ℤ
  pub desired_healthy : ℤ
  pub pod_disruptions_allowed : ℤ
  pub expected_pods : ℤ
  pub observed_generation : ℤ

-- descPodDisruptionBudgetLabelsDefaultLabels
abbrev pub desc_pod_disruption_budget_labels_default_labels : List Bytes
desc_pod_disruption_budget_labels_default_labels =
    codes "namespace" ∷ codes "poddisruptionbudget" ∷ []

abbrev pub pod_disruption_budget_values : PodDisruptionBudget → List Bytes
pod_disruption_budget_values p = p.namespace ∷ p.name ∷ []

module _ (fl : Float64) where
  open fl use {F, of_int}

  -- The function that wraps the families', for the metrics that it is given.
  unfoldable pub wrap_pod_disruption_budget_func :
      (PodDisruptionBudget → Result (List (Metric F))) → PodDisruptionBudget → Result (Family F)
  wrap_pod_disruption_budget_func =
      wrap_func desc_pod_disruption_budget_labels_default_labels pod_disruption_budget_values

  unfoldable pub pod_disruption_budget_family :
      Bytes
      → Bytes
      → (PodDisruptionBudget → List (Metric F))
      → FamilyGenerator F PodDisruptionBudget
  pod_disruption_budget_family name help f = record {
    name = name;
    help = help;
    type = gauge;
    generate_func = wrap_pod_disruption_budget_func (λ p. ok (f p));
  }

  -- The family generators of the file.
  unfoldable pub pod_disruption_budget_metric_families :
      List (FamilyGenerator F PodDisruptionBudget)
  unfolding pod_disruption_budget_family
  pod_disruption_budget_metric_families =
      pod_disruption_budget_family (codes "kube_poddisruptionbudget_created")
        (codes "Unix creation timestamp") (λ p. optional_metric fl p.creation_timestamp)
      ∷ pod_disruption_budget_family (codes "kube_poddisruptionbudget_status_current_healthy")
          (codes "Current number of healthy pods")
          (λ p. value_metric fl (of_int p.current_healthy) ∷ [])
      ∷ pod_disruption_budget_family (codes "kube_poddisruptionbudget_status_desired_healthy")
          (codes "Minimum desired number of healthy pods")
          (λ p. value_metric fl (of_int p.desired_healthy) ∷ [])
      ∷ pod_disruption_budget_family
          (codes "kube_poddisruptionbudget_status_pod_disruptions_allowed")
          (codes "Number of pod disruptions that are currently allowed")
          (λ p. value_metric fl (of_int p.pod_disruptions_allowed) ∷ [])
      ∷ pod_disruption_budget_family (codes "kube_poddisruptionbudget_status_expected_pods")
          (codes "Total number of pods counted by this disruption budget")
          (λ p. value_metric fl (of_int p.expected_pods) ∷ [])
      ∷ pod_disruption_budget_family (codes "kube_poddisruptionbudget_status_observed_generation")
          (codes "Most recent generation observed when updating this PDB status")
          (λ p. value_metric fl (of_int p.observed_generation) ∷ [])
      ∷ []
