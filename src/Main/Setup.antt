-- ===== src/Main/Setup.antt =====
-- When the set-up succeeds, and the builder that it makes.
use kube_state_metrics.Prelude.{◌≡◌, inl, inr, false, none, some, List, ◌∷◌, ◌++◌}
use kube_state_metrics.Prelude.Text.{Bytes, codes}
use kube_state_metrics.Api.{Try}
use kube_state_metrics.Go.Sort.{sort_strings}
use kube_state_metrics.AllowDenyList
use kube_state_metrics.AllowDenyList.{RegexpPackage, AllowDenyList, parse, lister}
use kube_state_metrics.Options.{Options}
use kube_state_metrics.Builder.{
  Clients, default, new_builder, with_metrics, with_namespaces, with_sharding, with_kube_client,
  with_vpa_client, with_allow_deny_list, with_generate_store_func, default_generate_store_func,
  resource_exists,
}
use kube_state_metrics.Builder.Resources.{AllExist, with_all_existing, with_one_missing}
use kube_state_metrics.Main.{resources_of, namespaces_of, with_clients, with_lists, set_up}

module _ (c : Clients) (re : RegexpPackage) where
  -- If the resources that are selected all have a store, the allow- and denylist are accepted and
  -- parsed, and the clients are made, the set-up succeeds: its builder has these clients, the selected
  -- namespaces, the selected resources sorted, the parsed list, the given sharding and the default
  -- store function.
  pub set_up_succeeds :
      (opts : Options) (m : c.Metrics) (k : c.KubeClient) (v : c.VpaClient)
      (l l' : AllowDenyList re)
      → AllExist (resources_of opts)
      → AllowDenyList.new re opts.metric_allowlist opts.metric_denylist ≡ inr l
      → parse re l ≡ (inr tt, l')
      → set_up c re opts m (inr (k, v))
        ≡ inr (record {
          kube_client = some k;
          vpa_client = some v;
          namespaces = namespaces_of opts;
          ctx = none;
          enabled_resources = sort_strings (resources_of opts);
          allow_deny_list = some (lister re l');
          metrics = some m;
          shard = opts.shard;
          total_shards = opts.total_shards;
          build_store_func = some default;
        })
  unfolding set_up with_lists with_clients with_metrics new_builder with_namespaces with_sharding
      with_kube_client with_vpa_client with_allow_deny_list with_generate_store_func
      default_generate_store_func
  set_up_succeeds opts m k v l l' all made parsed = rw (
    with_all_existing (resources_of opts) (with_metrics m (new_builder c)) all,
    made,
    parsed,
    with_lists,
    with_clients,
  )

  -- If a selected resource has no store, the set-up fails, whatever else is given.
  pub set_up_fails :
      (opts : Options) (m : c.Metrics) (clients : Try (c.KubeClient × c.VpaClient))
      (before after : List Bytes) (col : Bytes)
      → resources_of opts ≡ before ++ col ∷ after
      → resource_exists col ≡ false
      → (e : Bytes) × (set_up c re opts m clients ≡ inl e)
  unfolding set_up with_lists
  set_up_fails opts m clients before after col parts unknown =
      let (e, fails) = with_one_missing before after col (with_metrics m (new_builder c)) unknown in
      (codes "Failed to set up resources: " ++ e, rw (parts, fails))
