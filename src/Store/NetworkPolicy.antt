-- ===== src/Store/NetworkPolicy.antt =====
-- The families of network policies: internal/store/networkpolicy.go. The creation time is its
-- Unix time, the zero time's too; a rule is its text.
pub mod Laws
use kube_state_metrics.Prelude.{List, [], ◌∷◌, length}
use kube_state_metrics.Prelude.Text.{Bytes, codes}
use kube_state_metrics.Prelude.Assoc.{Map}
use kube_state_metrics.Prelude.Int.{ℤ, pos}
use kube_state_metrics.Prelude.Result.{Result, ok}
use kube_state_metrics.Metric.{Float64, Metric, Family, gauge}
use kube_state_metrics.Generator.{FamilyGenerator}
use kube_state_metrics.Store.Wrapped.{wrap_func}
use kube_state_metrics.Store.Shapes.{value_metric, object_labels}

-- networkingv1.NetworkPolicy, as far as the families read it.
pub record NetworkPolicy : Type 0 where
  pub namespace : Bytes
  pub name : Bytes
  pub labels : Map Bytes
  pub creation_timestamp : ℤ
  pub ingress : List Bytes
  pub egress : List Bytes

-- descNetworkPolicyLabelsDefaultLabels
abbrev pub desc_network_policy_labels_default_labels : List Bytes
desc_network_policy_labels_default_labels = codes "namespace" ∷ codes "networkpolicy" ∷ []

abbrev pub network_policy_values : NetworkPolicy → List Bytes
network_policy_values n = n.namespace ∷ n.name ∷ []

module _ (fl : Float64) where
  open fl use {F, of_int}

  -- The function that wraps the families', for the metrics that it is given.
  unfoldable pub wrap_network_policy_func :
      (NetworkPolicy → Result (List (Metric F))) → NetworkPolicy → Result (Family F)
  wrap_network_policy_func =
      wrap_func desc_network_policy_labels_default_labels network_policy_values

  unfoldable pub network_policy_family :
      Bytes → Bytes → (NetworkPolicy → List (Metric F)) → FamilyGenerator F NetworkPolicy
  network_policy_family name help f = record {
    name = name;
    help = help;
    type = gauge;
    generate_func = wrap_network_policy_func (λ n. ok (f n));
  }

  -- The family generators of the file.
  unfoldable pub network_policy_metric_families : List (FamilyGenerator F NetworkPolicy)
  unfolding network_policy_family
  network_policy_metric_families =
      network_policy_family (codes "kube_networkpolicy_created")
        (codes "Unix creation timestamp of network policy")
        (λ n. value_metric fl (of_int n.creation_timestamp) ∷ [])
      ∷ network_policy_family (codes "kube_networkpolicy_labels")
          (codes "Kubernetes labels converted to Prometheus labels")
          (λ n. object_labels fl n.labels)
      ∷ network_policy_family (codes "kube_networkpolicy_spec_ingress_rules")
          (codes "Number of ingress rules on the networkpolicy")
          (λ n. value_metric fl (of_int (pos (length n.ingress))) ∷ [])
      ∷ network_policy_family (codes "kube_networkpolicy_spec_egress_rules")
          (codes "Number of egress rules on the networkpolicy")
          (λ n. value_metric fl (of_int (pos (length n.egress))) ∷ [])
      ∷ []
