-- ===== src/Main/Tests.antt =====
-- The set-up for pods only, and for a resource that does not exist.
use kube_state_metrics.Prelude.{ℕ, ◌≡◌, refl, inl, inr, false, none, some, [], ◌∷◌}
use kube_state_metrics.Prelude.Text.{Bytes, codes, ◌==◌}
use kube_state_metrics.Prelude.Assoc.{lookup}
use kube_state_metrics.Prelude.Int.{pos}
use kube_state_metrics.Go.Sort.{sort_strings}
use kube_state_metrics.AllowDenyList
use kube_state_metrics.AllowDenyList.{
  RegexpPackage, AllowDenyList, StringSet, is_empty, copy_list, parse, compile_all, parsed, lister,
}
use kube_state_metrics.Options.{Options, new_options}
use kube_state_metrics.Options.ResourceSet.{as_slice}
use kube_state_metrics.Builder.{Clients, default, resource_exists}
use kube_state_metrics.Builder.Resources.{AllExist}
use kube_state_metrics.Main.{resources_of, namespaces_of, set_up}
use kube_state_metrics.Main.Setup.{set_up_succeeds, set_up_fails}

abbrev clients : Clients
clients = record { KubeClient = ℕ; VpaClient = ℕ; Context = ℕ; Metrics = ℕ; CustomStore = ℕ }

-- A pattern matches itself only.
abbrev literal : RegexpPackage
literal = record { Regexp = Bytes; compile = λ s. inr s; match_string = λ p s. p == s }

abbrev names : Bytes → StringSet
names r = (r, tt) ∷ []

abbrev opts : Bytes → Options
opts r = record new_options { resources = names r; total_shards = pos 1 }

abbrev empty_list : AllowDenyList literal
empty_list = record { list = []; r_list = []; is_allow_list = false }

one_resource : (r : Bytes) → resources_of (opts r) ≡ r ∷ []
unfolding resources_of new_options as_slice
one_resource r = refl

one_exists : AllExist (resources_of (opts (codes "pods")))
unfolding resources_of new_options as_slice resource_exists lookup ◌==◌
one_exists = (refl, tt)

set_up_succeeds_example :
    set_up clients literal (opts (codes "pods")) 3 (inr (1, 2))
    ≡ inr (record {
      kube_client = some 1;
      vpa_client = some 2;
      namespaces = namespaces_of (opts (codes "pods"));
      ctx = none;
      enabled_resources = sort_strings (resources_of (opts (codes "pods")));
      allow_deny_list = some (lister literal empty_list);
      metrics = some 3;
      shard = (opts (codes "pods")).shard;
      total_shards = pos 1;
      build_store_func = some default;
    })
set_up_succeeds_example =
    set_up_succeeds clients literal (opts (codes "pods")) 3 1 2 empty_list empty_list one_exists
      (unfold new_options AllowDenyList.new is_empty copy_list in refl)
      (unfold parse compile_all parsed in refl)

set_up_fails_example :
    (e : Bytes) × (set_up clients literal (opts (codes "pod")) 3 (inr (1, 2)) ≡ inl e)
set_up_fails_example =
    set_up_fails clients literal (opts (codes "pod")) 3 (inr (1, 2)) [] [] (codes "pod")
      (one_resource (codes "pod")) (unfold resource_exists lookup ◌==◌ in refl)
