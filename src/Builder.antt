-- ===== src/Builder.antt =====
-- The builder of the stores: internal/store/builder.go, which pkg/builder/builder.go passes on.
-- A kind stands for the triple that a resource's store is built from: its families, its type and
-- its list and watch. Starting a reflector is recorded; what it then does is in `MetricsStore`.
mod Kinds
pub mod Resources
pub mod Stores
pub mod Listers
pub mod Total
pub mod Tests
pub use Kinds.{
  Kind, available_stores, csr, config_map, cron_job, daemon_set, deployment, endpoints, hpa,
  ingress, job, leases, limit_range, mutating_webhook_configuration, namespace, network_policy,
  node, persistent_volume_claim, persistent_volume, pod_disruption_budget, pod, replica_set,
  replication_controller, resource_quota, secret, service, stateful_set, storage_class,
  validating_webhook_configuration, volume_attachment, vpa,
}
unfoldable pub use Kinds.{resource_exists}
use kube_state_metrics.Prelude.{inl, inr, Option, none, some, List, [], ◌∷◌, ◌++◌, if◌then◌else◌}
use kube_state_metrics.Prelude.Text.{Bytes, codes}
use kube_state_metrics.Prelude.Int.{ℤ, pos}
use kube_state_metrics.Prelude.Assoc.{lookup}
use kube_state_metrics.Prelude.Result.{Result, ok, panic, ◌>>=◌}
use kube_state_metrics.Api.{Try}
use kube_state_metrics.Go.Sort.{sort_strings}
use kube_state_metrics.Metric.{Float64}
use kube_state_metrics.Generator.{
  AllowDenyLister, FamilyGenerator, extract_metric_family_headers, compose_metric_gen_funcs,
  filter_metric_families,
}
use kube_state_metrics.MetricsStore.{MetricsStore, new_metrics_store}

-- The client libraries' values that a builder keeps, and what a custom store is.
pub record Clients : Type 1 where
  pub KubeClient : Type 0
  pub VpaClient : Type 0
  pub Context : Type 0
  pub Metrics : Type 0
  pub CustomStore : Type 0

-- A reflector that was started for a store.
pub record Reflector (c : Clients) : Type 0 where
  pub kind : Kind
  pub kube_client : Option c.KubeClient
  pub namespaces : List Bytes
  pub metrics : Option c.Metrics
  pub shard : ℤ
  pub total_shards : ℤ
  pub ctx : c.Context

module _ (c : Clients) (fl : Float64) (Obj : Kind → Type 0) where
  -- cache.Store: a MetricsStore and its reflector, or what a custom function makes.
  pub data CacheStore : Type 0 where
    metrics_store : (k : Kind) → MetricsStore fl.F (Obj k) → Reflector c → CacheStore
    custom : c.CustomStore → CacheStore

-- ksmtypes.BuildStoreFunc: the default, which is a method of the builder, or another one.
pub data BuildStoreFunc (c : Clients) : Type 0 where
  default : BuildStoreFunc c
  other : (Kind → c.CustomStore) → BuildStoreFunc c

pub record Builder (c : Clients) : Type 0 where
  pub kube_client : Option c.KubeClient
  pub vpa_client : Option c.VpaClient
  pub namespaces : List Bytes
  pub ctx : Option c.Context
  pub enabled_resources : List Bytes
  pub allow_deny_list : Option AllowDenyLister
  pub metrics : Option c.Metrics
  pub shard : ℤ
  pub total_shards : ℤ
  pub build_store_func : Option (BuildStoreFunc c)

module _ (c : Clients) where
  -- NewBuilder
  unfoldable pub new_builder : Builder c
  new_builder = record {
    kube_client = none;
    vpa_client = none;
    namespaces = [];
    ctx = none;
    enabled_resources = [];
    allow_deny_list = none;
    metrics = none;
    shard = pos 0;
    total_shards = pos 0;
    build_store_func = none;
  }

-- The loop of WithEnabledResources.
check_resources : List Bytes → Try (Unit {0})
check_resources [] = inr tt
check_resources (col ∷ r) =
    if resource_exists col
    then check_resources r
    else inl (codes "resource " ++ col ++ codes " does not exist.")

module _ {c : Clients} where
  -- WithMetrics; the counters come from watch.NewListWatchMetrics.
  unfoldable pub with_metrics : c.Metrics → Builder c → Builder c
  with_metrics m b = record b { metrics = some m }

  enabled : Try (Unit {0}) → List Bytes → Builder c → Try (Unit {0}) × Builder c
  enabled (inl e) r b = (inl e, b)
  enabled (inr _) r b = (inr tt, record b { enabled_resources = sort_strings r })

  -- WithEnabledResources; the error is without the list of what is available.
  unfoldable pub with_enabled_resources : List Bytes → Builder c → Try (Unit {0}) × Builder c
  unfolding check_resources enabled
  with_enabled_resources r b = enabled (check_resources r) r b

  -- WithNamespaces
  unfoldable pub with_namespaces : List Bytes → Builder c → Builder c
  with_namespaces n b = record b { namespaces = n }

  -- WithSharding
  unfoldable pub with_sharding : ℤ → ℤ → Builder c → Builder c
  with_sharding shard total_shards b = record b { shard = shard; total_shards = total_shards }

  -- WithContext
  unfoldable pub with_context : c.Context → Builder c → Builder c
  with_context ctx b = record b { ctx = some ctx }

  -- WithKubeClient
  unfoldable pub with_kube_client : c.KubeClient → Builder c → Builder c
  with_kube_client k b = record b { kube_client = some k }

  -- WithVPAClient
  unfoldable pub with_vpa_client : c.VpaClient → Builder c → Builder c
  with_vpa_client v b = record b { vpa_client = some v }

  -- WithAllowDenyList
  unfoldable pub with_allow_deny_list : AllowDenyLister → Builder c → Builder c
  with_allow_deny_list l b = record b { allow_deny_list = some l }

  -- WithGenerateStoreFunc
  unfoldable pub with_generate_store_func : BuildStoreFunc c → Builder c → Builder c
  with_generate_store_func f b = record b { build_store_func = some f }

  -- DefaultGenerateStoreFunc
  unfoldable pub default_generate_store_func : Builder c → BuildStoreFunc c
  default_generate_store_func b = default

module _ {c : Clients} (fl : Float64) {Obj : Kind → Type 0}
    (families : (k : Kind) → List (FamilyGenerator fl.F (Obj k))) where
  -- reflectorPerNamespace, for a builder with a context
  unfoldable pub reflector_per_namespace : Kind → c.Context → Builder c → Reflector c
  reflector_per_namespace k ctx b = record {
    kind = k;
    kube_client = b.kube_client;
    namespaces = b.namespaces;
    metrics = b.metrics;
    shard = b.shard;
    total_shards = b.total_shards;
    ctx = ctx;
  }

  -- buildStore. A nil list or context is a nil dereference (of the list, once there is a family)
  unfoldable pub build_store : Kind → Builder c → Result (CacheStore c fl Obj)
  unfolding reflector_per_namespace
  build_store k b = elim b.allow_deny_list [
    | none ↦ panic
    | some l ↦ elim b.ctx [
      | none ↦ panic
      | some ctx ↦
          let filtered = filter_metric_families l (families k) in
          ok (
            metrics_store k
              (new_metrics_store (extract_metric_family_headers filtered)
                (compose_metric_gen_funcs filtered))
              (reflector_per_namespace k ctx b))
    ]
  ]

  -- b.buildStoreFunc(…); a nil function panics
  pub by_func : Kind → Builder c → Result (CacheStore c fl Obj)
  by_func k b = elim b.build_store_func [
    | none ↦ panic
    | some f ↦ elim f [ default ↦ build_store k b | other g ↦ ok (custom (g k)) ]
  ]

  -- b.buildStore(…)
  pub by_default : Kind → Builder c → Result (CacheStore c fl Obj)
  by_default k b = build_store k b

  -- buildConfigMapStore to buildLeases
  unfoldable pub construct : Kind → Builder c → Result (CacheStore c fl Obj)
  unfolding by_func by_default
  construct config_map b = by_func config_map b
  construct cron_job b = by_func cron_job b
  construct daemon_set b = by_func daemon_set b
  construct deployment b = by_func deployment b
  construct endpoints b = by_func endpoints b
  construct hpa b = by_func hpa b
  construct ingress b = by_func ingress b
  construct job b = by_func job b
  construct limit_range b = by_func limit_range b
  construct mutating_webhook_configuration b = by_func mutating_webhook_configuration b
  construct namespace b = by_func namespace b
  construct network_policy b = by_default network_policy b
  construct node b = by_default node b
  construct persistent_volume_claim b = by_func persistent_volume_claim b
  construct persistent_volume b = by_func persistent_volume b
  construct pod_disruption_budget b = by_func pod_disruption_budget b
  construct replica_set b = by_func replica_set b
  construct replication_controller b = by_func replication_controller b
  construct resource_quota b = by_func resource_quota b
  construct secret b = by_func secret b
  construct service b = by_func service b
  construct stateful_set b = by_func stateful_set b
  construct storage_class b = by_func storage_class b
  construct pod b = by_func pod b
  construct csr b = by_func csr b
  construct validating_webhook_configuration b = by_func validating_webhook_configuration b
  construct volume_attachment b = by_default volume_attachment b
  construct vpa b = by_default vpa b
  construct leases b = by_default leases b

  -- The loop of Build.
  build_loop :
      List Bytes → Builder c → List (CacheStore c fl Obj) → Result (List (CacheStore c fl Obj))
  build_loop [] b stores = ok stores
  build_loop (r ∷ enabled_resources) b stores = elim (lookup r available_stores) [
    | none ↦ build_loop enabled_resources b stores
    | some k ↦ (do store ← construct k b; build_loop enabled_resources b (stores ++ store ∷ []))
  ]

  -- Build
  unfoldable pub build : Builder c → Result (List (CacheStore c fl Obj))
  unfolding build_loop
  build b = elim b.allow_deny_list [ none ↦ panic | some l ↦ build_loop b.enabled_resources b [] ]
