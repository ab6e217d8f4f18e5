-- ===== src/AllowDenyList/Tests.antt =====
-- Lists over a package of expressions that match only themselves.
use kube_state_metrics.Prelude.{◌≡◌, refl, ◌↔◌, inl, inr, true, false, [], ◌∷◌}
use kube_state_metrics.Prelude.Text.{Bytes, codes, ◌==◌, join}
use kube_state_metrics.Prelude.Assoc.{has}
use kube_state_metrics.AllowDenyList.{
  StringSet, RegexpPackage, AllowDenyList, parse, is_included, is_excluded, status,
}
use kube_state_metrics.AllowDenyList.Laws.{matches, is_included-parse}

-- Only the empty text does not compile.
abbrev pub literal : RegexpPackage
literal = record {
  Regexp = Bytes;
  compile = λ p. elim p [ [] ↦ inl (codes "empty") | c ∷ cs ↦ inr (c ∷ cs) ];
  match_string = λ r item. r == item;
}

abbrev pods : StringSet
pods = (codes "kube_pod_info", tt) ∷ (codes "kube_pod_owner", tt) ∷ []

abbrev pod_list : AllowDenyList literal
pod_list = record { list = pods; r_list = []; is_allow_list = false }

abbrev pod_list_parsed : AllowDenyList literal
pod_list_parsed = record pod_list { r_list = codes "kube_pod_info" ∷ codes "kube_pod_owner" ∷ [] }

parsed_pods : parse literal pod_list ≡ (inr tt, pod_list_parsed)
unfolding parse
parsed_pods = refl

denied :
    (is_included literal pod_list_parsed (codes "kube_pod_info") ≡ false)
    × (is_excluded literal pod_list_parsed (codes "kube_node_info") ≡ false)
unfolding is_included is_excluded ◌==◌
denied = (refl, refl)

status_of_pods :
    status literal pod_list
    ≡ codes "Excluding the following lists that were on denylist: kube_pod_info, kube_pod_owner"
unfolding status join
status_of_pods = refl

is_included-parse_example :
    ((is_included literal pod_list_parsed (codes "kube_pod_info") ≡ pod_list.is_allow_list) ↔ (
      (p : Bytes) × (has p pod_list.list ≡ true)
      × (matches literal (codes "kube_pod_info") p ≡ true)))
    × (pod_list_parsed.list ≡ pod_list.list)
    × (pod_list_parsed.is_allow_list ≡ pod_list.is_allow_list)
is_included-parse_example =
    is_included-parse literal pod_list pod_list_parsed (codes "kube_pod_info") parsed_pods
