-- ===== src/Options/Tests.antt =====
-- Command-line values, and the theorems about them applied.
use kube_state_metrics.Prelude.{◌≡◌, ◌≢◌, refl, false, [], ◌∷◌, All}
use kube_state_metrics.Prelude.Text.{codes}
use kube_state_metrics.Prelude.Assoc.{keys}
use kube_state_metrics.Go.Strings.{is_space}
use kube_state_metrics.AllowDenyList.{StringSet}
use kube_state_metrics.Options.NamespaceList
use kube_state_metrics.Options.Plain.{IsPlain}

abbrev pods_nodes : StringSet
pods_nodes = (codes "pods", tt) ∷ (codes "nodes", tt) ∷ []

abbrev nodes_pods : StringSet
nodes_pods = (codes "nodes", tt) ∷ (codes "pods", tt) ∷ []

abbrev no_names : StringSet
no_names = []

pods-IsPlain : IsPlain (codes "pods")
unfolding is_space
pods-IsPlain = record {
  filled = λ e. cc e;
  no_comma = (λ e. cc e, (λ e. cc e, (λ e. cc e, (λ e. cc e, tt))));
  no_space = (refl, (refl, (refl, (refl, tt))));
}

nodes-IsPlain : IsPlain (codes "nodes")
unfolding is_space
nodes-IsPlain = record {
  filled = λ e. cc e;
  no_comma = (λ e. cc e, (λ e. cc e, (λ e. cc e, (λ e. cc e, (λ e. cc e, tt)))));
  no_space = (refl, (refl, (refl, (refl, (refl, tt)))));
}

both-IsPlain : All IsPlain (keys pods_nodes)
both-IsPlain = (pods-IsPlain, (nodes-IsPlain, tt))

is_all_namespaces-set_example :
    All (λ p. p ≢ []) (NamespaceList.set (codes " ,a") [])
    × (NamespaceList.is_all_namespaces (NamespaceList.set (codes " ,a") []) ≡ false)
is_all_namespaces-set_example = NamespaceList.is_all_namespaces-set (codes " ,a")
