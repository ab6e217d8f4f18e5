-- ===== src/Builder/Tests.antt =====
-- A builder with pods and nodes, and the theorems about Build applied to it.
use mathlib.Core.List.{Permᴰ}
use kube_state_metrics.Prelude.{
  ℕ, ◌≡◌, refl, ◌⊎◌, inl, inr, true, false, none, some, List, [], ◌∷◌, ◌++◌, map, if◌then◌else◌,
}
use kube_state_metrics.Prelude.Text.{Bytes, codes, ◌==◌}
use kube_state_metrics.Prelude.Assoc.{lookup}
use kube_state_metrics.Prelude.Int.{ℤ, pos}
use kube_state_metrics.Prelude.Result.{ok}
use kube_state_metrics.Go.Sort.{IsSorted}
use kube_state_metrics.Metric.{gauge}
use kube_state_metrics.Metric.Tests.{small_ints}
use kube_state_metrics.Generator.{AllowDenyLister, FamilyGenerator}
use kube_state_metrics.Builder.{
  Kind, Clients, Builder, default, other, custom, with_enabled_resources, resource_exists,
  build_store, construct, build, available_stores,
}
use kube_state_metrics.Builder.Kinds.{pod}
use kube_state_metrics.Builder.Resources.{AllExist, with_enabled_resources_lem}
use kube_state_metrics.Builder.Stores.{default_only, custom_func_used, store_of, build_lem}

abbrev clients : Clients
clients = record { KubeClient = ℕ; VpaClient = ℕ; Context = ℕ; Metrics = ℕ; CustomStore = Kind }

abbrev info : FamilyGenerator ℤ (Unit {0})
info = record {
  name = codes "kube_info";
  help = codes "Info.";
  type = gauge;
  generate_func = λ o. ok (record { name = []; type = []; metrics = [] });
}

abbrev families : (k : Kind) → List (FamilyGenerator ℤ (Unit {0}))
families k = info ∷ []

abbrev all : AllowDenyLister
all = record { is_included = λ f. true; is_excluded = λ f. false }

abbrev enabled : List Bytes
enabled = codes "nodes" ∷ codes "pods" ∷ []

abbrev builder : Builder clients
builder = record {
  kube_client = some 1;
  vpa_client = none;
  namespaces = codes "a" ∷ [];
  ctx = some 7;
  enabled_resources = enabled;
  allow_deny_list = some all;
  metrics = none;
  shard = pos 1;
  total_shards = pos 3;
  build_store_func = some default;
}

nodes_exist : resource_exists (codes "nodes") ≡ true
unfolding resource_exists lookup ◌==◌
nodes_exist = refl

pods_exist : resource_exists (codes "pods") ≡ true
unfolding resource_exists lookup ◌==◌
pods_exist = refl

enabled_exist : AllExist enabled
enabled_exist = (nodes_exist, (pods_exist, tt))

custom_func_used_example :
    let b = record builder { build_store_func = some (other (λ k. k)) } in
    construct small_ints {Obj = λ k. Unit {0}} families pod b
    ≡ (if default_only pod then build_store small_ints families pod b else ok (custom pod))
custom_func_used_example =
    custom_func_used small_ints families pod
      (record builder { build_store_func = some (other (λ k. k)) }) (λ k. k) refl

build_lem_example :
    (ks : List Kind) × (map (λ r. lookup r available_stores) enabled ≡ map some ks)
    × (build small_ints {Obj = λ k. Unit {0}} families builder
        ≡ ok (map (store_of small_ints families all 7 builder) ks))
build_lem_example = build_lem small_ints families builder all 7 refl refl refl enabled_exist

with_enabled_resources_lem_example :
    let r = codes "pods" ∷ codes "pod" ∷ [] in
    (AllExist r
      × (s : List Bytes) × (with_enabled_resources r builder
          ≡ (inr tt, record builder { enabled_resources = s }))
      × Permᴰ r s
      × IsSorted s)
    ⊎ ((before : List Bytes) × (col : Bytes) × (after : List Bytes) × (r ≡ before ++ col ∷ after)
        × AllExist before
        × (resource_exists col ≡ false)
        × (with_enabled_resources r builder
            ≡ (inl (codes "resource " ++ col ++ codes " does not exist."), builder)))
with_enabled_resources_lem_example =
    with_enabled_resources_lem (codes "pods" ∷ codes "pod" ∷ []) builder
