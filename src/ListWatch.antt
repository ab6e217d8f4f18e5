-- ===== src/ListWatch.antt =====
-- Listing and watching over namespaces: pkg/listwatch/listwatch.go and namespace_denylist.go.
-- DeepCopyObject returns an equal object, and is left out. A failing call also logs; logs are not
-- modelled.
pub mod Denylist
pub mod Multi
use kube_state_metrics.Prelude.{Bool, false, List, [], ◌∷◌}
use kube_state_metrics.Prelude.Text.{Bytes, ◌==◌}

-- IsAllNamespaces
unfoldable pub is_all_namespaces : List Bytes → Bool
is_all_namespaces [] = false
is_all_namespaces (ns ∷ []) = ns == []
is_all_namespaces (ns ∷ ns' ∷ n) = false
