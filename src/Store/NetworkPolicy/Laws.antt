-- ===== src/Store/NetworkPolicy/Laws.antt =====
-- The labels and the texts of the families of network policies.
use kube_state_metrics.Prelude.{◌⊗◌, refl, All}
use kube_state_metrics.Metric.{Float64}
use kube_state_metrics.Store.Shapes.{object_labels-Aligned}
use kube_state_metrics.Store.Render.{BeginsWith, begins_lem}
use kube_state_metrics.Store.NetworkPolicy.{
  NetworkPolicy, desc_network_policy_labels_default_labels, network_policy_values,
  wrap_network_policy_func, network_policy_family, network_policy_metric_families,
}

module _ (fl : Float64) where
  pub network_policy_metric_families_lem :
      (n : NetworkPolicy)
      → All
          (BeginsWith fl desc_network_policy_labels_default_labels (network_policy_values n) n)
          (network_policy_metric_families fl)
  unfolding network_policy_metric_families network_policy_family wrap_network_policy_func
  network_policy_metric_families_lem n =
      begins_lem fl _ _ _ _ _ _ n refl (refl, tt)
      ⊗ begins_lem fl _ _ _ _ _ _ n refl (object_labels-Aligned fl n.labels)
      ⊗ begins_lem fl _ _ _ _ _ _ n refl (refl, tt)
      ⊗ begins_lem fl _ _ _ _ _ _ n refl (refl, tt)
      ⊗ tt
