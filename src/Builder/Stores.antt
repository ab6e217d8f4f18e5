-- ===== src/Builder/Stores.antt =====
-- The stores that Build makes.
use kube_state_metrics.Prelude.{
  ◌≡◌, refl, ap, sym, ◌∙◌, inl, inr, Bool, true, false, Option, none, some, List, [], ◌∷◌, ◌++◌,
  map, append-nil, append_assoc, keep_if, if◌then◌else◌, Bool-cases,
}
use kube_state_metrics.Prelude.Text.{Bytes}
use kube_state_metrics.Prelude.Assoc.{lookup, lookup_of_has}
use kube_state_metrics.Prelude.Result.{Result, ok, panic}
use kube_state_metrics.Metric.{Float64}
use kube_state_metrics.Generator.{
  AllowDenyLister, FamilyGenerator, extract_metric_family_headers, compose_metric_gen_funcs,
}
use kube_state_metrics.Generator.Laws.{filter_metric_families_lem}
use kube_state_metrics.MetricsStore.{new_metrics_store}
use kube_state_metrics.Builder.Kinds.{
  csr, config_map, cron_job, daemon_set, deployment, endpoints, hpa, ingress, job, leases,
  limit_range, mutating_webhook_configuration, namespace, network_policy, node,
  persistent_volume_claim, persistent_volume, pod_disruption_budget, pod, replica_set,
  replication_controller, resource_quota, secret, service, stateful_set, storage_class,
  validating_webhook_configuration, volume_attachment, vpa,
}
use kube_state_metrics.Builder.{
  Kind, Clients, Builder, BuildStoreFunc, default, other, CacheStore, custom, metrics_store,
  build_store, by_func, by_default, reflector_per_namespace, construct, build_loop, build,
  available_stores, resource_exists,
}
use kube_state_metrics.Builder.Resources.{AllExist}

-- The stores that are built by the default function whatever the builder's function is.
abbrev pub default_only : Kind → Bool
default_only k = elim k [
  | network_policy ↦ true
  | node ↦ true
  | volume_attachment ↦ true
  | vpa ↦ true
  | leases ↦ true
  | _ ↦ false
]

module _ {c : Clients} (fl : Float64) {Obj : Kind → Type 0}
    (families : (k : Kind) → List (FamilyGenerator fl.F (Obj k))) where
  pub construct_lem :
      (k : Kind) (b : Builder c)
      → construct fl families k b
        ≡ (if default_only k then by_default fl families k b else by_func fl families k b)
  unfolding construct
  construct_lem csr b = refl
  construct_lem config_map b = refl
  construct_lem cron_job b = refl
  construct_lem daemon_set b = refl
  construct_lem deployment b = refl
  construct_lem endpoints b = refl
  construct_lem hpa b = refl
  construct_lem ingress b = refl
  construct_lem job b = refl
  construct_lem leases b = refl
  construct_lem limit_range b = refl
  construct_lem mutating_webhook_configuration b = refl
  construct_lem namespace b = refl
  construct_lem network_policy b = refl
  construct_lem node b = refl
  construct_lem persistent_volume_claim b = refl
  construct_lem persistent_volume b = refl
  construct_lem pod_disruption_budget b = refl
  construct_lem pod b = refl
  construct_lem replica_set b = refl
  construct_lem replication_controller b = refl
  construct_lem resource_quota b = refl
  construct_lem secret b = refl
  construct_lem service b = refl
  construct_lem stateful_set b = refl
  construct_lem storage_class b = refl
  construct_lem validating_webhook_configuration b = refl
  construct_lem volume_attachment b = refl
  construct_lem vpa b = refl

  -- A builder with a custom store function makes its stores by that function, but for network
  -- policies, nodes, volume attachments, vertical pod autoscalers and leases: these ignore it, and
  -- are built by the default function.
  pub custom_func_used :
      (k : Kind) (b : Builder c) (g : Kind → c.CustomStore)
      → b.build_store_func ≡ some (other g)
      → construct fl families k b
        ≡ (if default_only k then build_store fl families k b else ok (custom (g k)))
  unfolding by_func by_default
  custom_func_used k b g h = rw (construct_lem, h)

  -- by_func, for a function that is not the builder's own.
  abbrev pub run_func : Kind → Builder c → Option (BuildStoreFunc c) → Result (CacheStore c fl Obj)
  run_func k b o = elim o [
    | none ↦ panic
    | some f ↦ elim f [ default ↦ build_store fl families k b | other g ↦ ok (custom (g k)) ]
  ]

  -- With the default function every store is built by it.
  default_func_used :
      (k : Kind) (b : Builder c)
      → b.build_store_func ≡ some default
      → construct fl families k b ≡ build_store fl families k b
  unfolding by_func by_default
  default_func_used k b h = elim (Bool-cases (default_only k)) [
    | inl ignores ↦ construct_lem k b ∙ rw ignores
    | inr uses ↦ construct_lem k b ∙ rw uses (ap (run_func k b) h)
  ]

  -- The store of a kind: its families that the list includes, and a reflector that has the builder's
  -- client, namespaces, metrics and sharding.
  abbrev pub store_of : AllowDenyLister → c.Context → Builder c → Kind → CacheStore c fl Obj
  store_of l ctx b k =
      let included = keep_if (λ f. l.is_included f.name) (families k) in
      metrics_store k
        (record {
          metrics = [];
          headers = extract_metric_family_headers included;
          generate_metrics_func = compose_metric_gen_funcs included;
        })
        (record {
          kind = k;
          kube_client = b.kube_client;
          namespaces = b.namespaces;
          metrics = b.metrics;
          shard = b.shard;
          total_shards = b.total_shards;
          ctx = ctx;
        })

  pub build_store_lem :
      (k : Kind) (b : Builder c) (l : AllowDenyLister) (ctx : c.Context)
      → b.allow_deny_list ≡ some l
      → b.ctx ≡ some ctx
      → build_store fl families k b ≡ ok (store_of l ctx b k)
  unfolding build_store reflector_per_namespace new_metrics_store
  build_store_lem k b l ctx hl hc = rw (hl, hc, filter_metric_families_lem)

  build_loop_lem :
      (rs : List Bytes) (b : Builder c) (stores : List (CacheStore c fl Obj))
      (f : Kind → CacheStore c fl Obj)
      → ((k : Kind) → construct fl families k b ≡ ok (f k))
      → AllExist rs
      → (ks : List Kind) × (map (λ r. lookup r available_stores) rs ≡ map some ks)
        × (build_loop fl families rs b stores ≡ ok (stores ++ map f ks))
  unfolding build_loop resource_exists
  build_loop_lem [] b stores f h _ = ([], refl, ap ok (sym (append-nil stores)))
  build_loop_lem (r ∷ rs) b stores f h (known, all) =
      let (k, found) = lookup_of_has r available_stores known in
      let (ks, kinds, built) = build_loop_lem rs b (stores ++ f k ∷ []) f h all in
      (
        k ∷ ks,
        rw (found, kinds),
        rw (found, h k, built) (ap ok (append_assoc stores (f k ∷ []) (map f ks))),
      )

  -- With the default store function, a list and a context, and enabled resources that all have a
  -- store, Build makes one store for each enabled resource, in their order, of the kind that
  -- availableStores has for it: it holds no object, has the headers and the generators of just
  -- the families of its kind that the list includes, and its reflector has the builder's client,
  -- namespaces, metrics and sharding.
  pub build_lem :
      (b : Builder c) (l : AllowDenyLister) (ctx : c.Context)
      → b.allow_deny_list ≡ some l
      → b.ctx ≡ some ctx
      → b.build_store_func ≡ some default
      → AllExist b.enabled_resources
      → (ks : List Kind) × (map (λ r. lookup r available_stores) b.enabled_resources ≡ map some ks)
        × (build fl families b ≡ ok (map (store_of l ctx b) ks))
  unfolding build
  build_lem b l ctx hl hc hf all =
      let (ks, kinds, built) =
        build_loop_lem b.enabled_resources b [] (store_of l ctx b)
          (λ k. default_func_used k b hf ∙ build_store_lem k b l ctx hl hc) all in
      (
        ks,
        kinds,
        ap
              (λ (o : Option AllowDenyLister). elim o [
                | none ↦ panic
                | some l' ↦ build_loop fl families b.enabled_resources b []
              ])
              hl
            ∙ built,
      )
