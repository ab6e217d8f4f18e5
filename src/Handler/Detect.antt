-- ===== src/Handler/Detect.antt =====
-- Detecting the shard of a pod, and its StatefulSet.
use kube_state_metrics.Prelude.{
  inl, inr, Bool, true, ◌||◌, not, Option, none, some, List, [], ◌∷◌, ◌++◌, if◌then◌else◌,
}
use kube_state_metrics.Prelude.Text.{Bytes, codes, ◌==◌}
use kube_state_metrics.Prelude.Int.{ℤ, pos}
use kube_state_metrics.Api.{Try, OwnerReference}
use kube_state_metrics.Go.Strings.{trim_prefix}
use kube_state_metrics.Go.Numbers.{atoi, int32}

-- appsv1.StatefulSet, as far as the handler reads it.
pub record StatefulSet : Type 0 where
  pub name : Bytes
  pub resource_version : Bytes
  pub replicas : Option ℤ

-- The two calls of the API server: the owners of a pod, and a StatefulSet, by namespace and name.
pub record KubeApi : Type 0 where
  pub pod_owners : Bytes → Bytes → Try (List OwnerReference)
  pub stateful_set : Bytes → Bytes → Try StatefulSet

-- detectNominalFromPod; the errors are without those of the calls that they wrap.
unfoldable pub detect_nominal_from_pod : Bytes → Bytes → Try ℤ
detect_nominal_from_pod stateful_set_name pod_name =
    let nominal_string = trim_prefix pod_name (stateful_set_name ++ codes "-") in
    elim (atoi nominal_string) [
      | none ↦ inl (
          codes "failed to detect shard index for Pod "
          ++ pod_name
          ++ codes " of StatefulSet "
          ++ stateful_set_name
          ++ codes ", parsed "
          ++ nominal_string)
      | some nominal ↦ inr (int32 nominal)
    ]

total_replicas : Option ℤ → ℤ
total_replicas none = pos 1
total_replicas (some replicas) = replicas

-- shardingSettingsFromStatefulSet
unfoldable pub sharding_settings_from_stateful_set : StatefulSet → Bytes → Try (ℤ × ℤ)
unfolding detect_nominal_from_pod total_replicas
sharding_settings_from_stateful_set ss pod_name = elim (detect_nominal_from_pod ss.name pod_name) [
  | inl e ↦ inl (codes "detecting Pod nominal: " ++ e)
  | inr nominal ↦ inr (nominal, total_replicas ss.replicas)
]

-- o.Controller == nil || !*o.Controller
not_controller : Option Bool → Bool
not_controller none = true
not_controller (some b) = not b

-- The owners that the loop skips.
unfoldable pub skipped : OwnerReference → Bool
unfolding not_controller
skipped o =
    not (o.api_version == codes "apps/v1")
    || not (o.kind == codes "StatefulSet")
    || not_controller o.controller

-- The loop of detectStatefulSet.
unfoldable pub first_owner : KubeApi → Bytes → Bytes → List OwnerReference → Try StatefulSet
unfolding skipped
first_owner api pod_name namespace_name [] = inl (
    codes "no suitable statefulset found for auto detecting sharding for Pod "
    ++ namespace_name
    ++ codes "/"
    ++ pod_name)
first_owner api pod_name namespace_name (o ∷ owners) =
    let rest = first_owner api pod_name namespace_name owners in
    if skipped o then rest else elim (api.stateful_set namespace_name o.name) [
      | inl e ↦ inl (
          codes "retrieve shard's StatefulSet: "
          ++ namespace_name
          ++ codes "/"
          ++ o.name
          ++ codes ": "
          ++ e)
      | inr ss ↦ inr ss
    ]

-- detectStatefulSet
unfoldable pub detect_stateful_set : KubeApi → Bytes → Bytes → Try StatefulSet
unfolding first_owner
detect_stateful_set api pod_name namespace_name = elim (api.pod_owners namespace_name pod_name) [
  | inl e ↦ inl (codes "retrieve pod " ++ pod_name ++ codes " for sharding: " ++ e)
  | inr owners ↦ first_owner api pod_name namespace_name owners
]
