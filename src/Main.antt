-- ===== src/Main.antt =====
-- How the program is set up: main.go, up to the start of its servers. A fatal error is an error;
-- the clients come from createKubeClient, and the registry's metrics from NewListWatchMetrics.
pub mod Setup
pub mod Tests
use kube_state_metrics.Prelude.{inl, inr, List, ◌++◌, nat_beq, length, if◌then◌else◌}
use kube_state_metrics.Prelude.Text.{Bytes, codes}
use kube_state_metrics.Api.{Try}
use kube_state_metrics.AllowDenyList
use kube_state_metrics.AllowDenyList.{RegexpPackage, AllowDenyList, parse, lister}
use kube_state_metrics.Options.{Options, default_resources, default_namespaces}
use kube_state_metrics.Options.ResourceSet.{as_slice}
use kube_state_metrics.Builder.{
  Clients, Builder, new_builder, with_metrics, with_enabled_resources, with_namespaces,
  with_sharding, with_kube_client, with_vpa_client, with_allow_deny_list, with_generate_store_func,
  default_generate_store_func,
}

-- The resources that main enables.
unfoldable pub resources_of : Options → List Bytes
resources_of opts =
    if nat_beq (length opts.resources) 0
    then as_slice default_resources
    else as_slice opts.resources

-- The namespaces that main watches; the branch on IsAllNamespaces only logs.
unfoldable pub namespaces_of : Options → List Bytes
namespaces_of opts =
    if nat_beq (length opts.namespaces) 0 then default_namespaces else opts.namespaces

module _ (c : Clients) (re : RegexpPackage) where
  -- What follows once Parse has returned.
  with_clients :
      Options
      → Try (c.KubeClient × c.VpaClient)
      → Try (Unit {0}) × AllowDenyList re
      → Builder c
      → Try (Builder c)
  with_clients opts clients (inl e, l) b =
      inl (codes "error initializing the allowdeny list : " ++ e)
  with_clients opts (inl e) (inr _, l) b = inl (codes "Failed to create client: " ++ e)
  with_clients opts (inr (kube_client, vpa_client)) (inr _, l) b =
      let b' = with_allow_deny_list (lister re l) b in
      let b'' = with_generate_store_func (default_generate_store_func b') b' in
      inr (
        with_sharding opts.shard opts.total_shards
          (with_vpa_client vpa_client (with_kube_client kube_client b'')))

  -- What follows once the resources were accepted.
  with_lists :
      Options → Try (c.KubeClient × c.VpaClient) → Try (Unit {0}) × Builder c → Try (Builder c)
  unfolding with_clients namespaces_of
  with_lists opts clients (inl e, b) = inl (codes "Failed to set up resources: " ++ e)
  with_lists opts clients (inr _, b) =
      elim (AllowDenyList.new re opts.metric_allowlist opts.metric_denylist) [
        | inl e ↦ inl e
        | inr l ↦ with_clients opts clients (parse re l) (with_namespaces (namespaces_of opts) b)
      ]

  -- main, from the parsed options to the call of serveMetrics
  unfoldable pub set_up : Options → c.Metrics → Try (c.KubeClient × c.VpaClient) → Try (Builder c)
  unfolding resources_of with_lists
  set_up opts metrics clients =
      with_lists opts clients
        (with_enabled_resources (resources_of opts) (with_metrics metrics (new_builder c)))
