-- ===== src/Store/VerticalPodAutoscaler.antt =====
-- The families of vertical pod autoscalers: internal/store/verticalpodautoscaler.go. A pointer is none
-- if it is nil, a nil list is empty, and a map is the list of its entries in the order in which Go
-- visits them.
pub mod Laws
use kube_state_metrics.Prelude.{◌||◌, Option, none, some, List, [], ◌∷◌, ◌++◌, if◌then◌else◌}
use kube_state_metrics.Prelude.Text.{Bytes, codes, ◌==◌}
use kube_state_metrics.Prelude.Assoc.{Map}
use kube_state_metrics.Prelude.Result.{Result, ok, ◌>>=◌, deref}
use kube_state_metrics.Metric.{Float64, Metric, Family, gauge}
use kube_state_metrics.Generator.{FamilyGenerator}
use kube_state_metrics.Store.{bool_float64, sanitize_label_name}
use kube_state_metrics.Store.Packages.{Packages}
use kube_state_metrics.Store.Wrapped.{wrap_metrics}
use kube_state_metrics.Store.Shapes.{labelled_metric, milli, series, flat_map, when, object_labels}

-- autoscalingv1.CrossVersionObjectReference
pub record TargetRef : Type 0 where
  pub api_version : Bytes
  pub kind : Bytes
  pub name : Bytes

-- autoscaling.ContainerResourcePolicy
pub record ContainerPolicy (pk : Packages) : Type 0 where
  pub container_name : Bytes
  pub min_allowed : Map pk.Quantity
  pub max_allowed : Map pk.Quantity

-- autoscaling.RecommendedContainerResources
pub record Recommendation (pk : Packages) : Type 0 where
  pub container_name : Bytes
  pub lower_bound : Map pk.Quantity
  pub upper_bound : Map pk.Quantity
  pub target : Map pk.Quantity
  pub uncapped_target : Map pk.Quantity

-- autoscaling.VerticalPodAutoscaler, as far as the families read it: a nil update policy has no
-- mode, and a nil resource policy or recommendation has no containers.
pub record VerticalPodAutoscaler (pk : Packages) : Type 0 where
  pub namespace : Bytes
  pub name : Bytes
  pub labels : Map Bytes
  pub target_ref : Option TargetRef
  pub update_mode : Option Bytes
  pub container_policies : List (ContainerPolicy pk)
  pub recommendations : List (Recommendation pk)

-- descVerticalPodAutoscalerLabelsDefaultLabels
abbrev pub desc_vpa_labels_default_labels : List Bytes
desc_vpa_labels_default_labels =
    codes "namespace"
    ∷ codes "verticalpodautoscaler"
    ∷ codes "target_api_version"
    ∷ codes "target_kind"
    ∷ codes "target_name"
    ∷ []

abbrev pub vpa_values : {pk : Packages} → TargetRef → VerticalPodAutoscaler pk → List Bytes
vpa_values t a = a.namespace ∷ a.name ∷ t.api_version ∷ t.kind ∷ t.name ∷ []

module _ (fl : Float64) (pk : Packages) where
  open fl use {F, of_int}

  -- The metrics of kube_verticalpodautoscaler_spec_updatepolicy_updatemode.
  unfoldable pub update_modes : Option Bytes → List (Metric F)
  update_modes none = []
  update_modes (some current) =
      series fl (codes "update_mode" ∷ []) (λ mode. mode ∷ [])
        (λ mode. bool_float64 fl (current == mode))
        (codes "Off" ∷ codes "Initial" ∷ codes "Recreate" ∷ codes "Auto" ∷ [])

  abbrev pub resource_metric : Bytes → Bytes → Bytes → F → Metric F
  resource_metric container name unit v =
      labelled_metric fl (codes "container" ∷ codes "resource" ∷ codes "unit" ∷ [])
        (container ∷ sanitize_label_name name ∷ unit ∷ []) v

  -- The body of the loop of vpaResourcesToMetrics.
  unfoldable pub resource_to_metrics : Bytes → Bytes × pk.Quantity → List (Metric F)
  resource_to_metrics container (name, val) =
      if name == codes "cpu"
      then resource_metric container name (codes "core") (milli fl pk val) ∷ []
      else when
          (name == codes "storage" || name == codes "ephemeral-storage" || name == codes "memory")
          (resource_metric container name (codes "byte") (of_int (pk.value val)))

  -- vpaResourcesToMetrics
  unfoldable pub vpa_resources_to_metrics : Bytes → Map pk.Quantity → List (Metric F)
  unfolding resource_to_metrics
  vpa_resources_to_metrics container = flat_map (resource_to_metrics container)

  -- The loops over the container policies, for the least and the most that they allow.
  unfoldable pub policy_metrics :
      (ContainerPolicy pk → Map pk.Quantity) → List (ContainerPolicy pk) → List (Metric F)
  unfolding vpa_resources_to_metrics
  policy_metrics resources = flat_map (λ c. vpa_resources_to_metrics c.container_name (resources c))

  -- The loops over the container recommendations, for each of their resources.
  unfoldable pub recommendation_metrics :
      (Recommendation pk → Map pk.Quantity) → List (Recommendation pk) → List (Metric F)
  unfolding vpa_resources_to_metrics
  recommendation_metrics resources =
      flat_map (λ c. vpa_resources_to_metrics c.container_name (resources c))

  -- The loop of wrapVPAFunc reads the target only if there is a metric.
  unfoldable pub wrap_targets :
      VerticalPodAutoscaler pk → List (Metric F) → Result (List (Metric F))
  wrap_targets vpa [] = ok []
  wrap_targets vpa (m ∷ ms) = do
    t ← deref vpa.target_ref
    ok (wrap_metrics desc_vpa_labels_default_labels (vpa_values t vpa) (m ∷ ms))

  -- wrapVPAFunc, for the metrics that it is given.
  unfoldable pub wrap_vpa_func :
      (VerticalPodAutoscaler pk → List (Metric F)) → VerticalPodAutoscaler pk → Result (Family F)
  unfolding wrap_targets
  wrap_vpa_func f vpa = do
    ms ← wrap_targets vpa (f vpa)
    ok (record { name = []; type = []; metrics = ms })

  unfoldable pub vpa_family :
      Bytes
      → Bytes
      → (VerticalPodAutoscaler pk → List (Metric F))
      → FamilyGenerator F (VerticalPodAutoscaler pk)
  vpa_family name help f = record {
    name = name;
    help = help;
    type = gauge;
    generate_func = wrap_vpa_func f;
  }

  unfoldable pub vpa_spec_families : List (FamilyGenerator F (VerticalPodAutoscaler pk))
  unfolding vpa_family update_modes policy_metrics
  vpa_spec_families =
      vpa_family (codes "kube_verticalpodautoscaler_labels")
        (codes "Kubernetes labels converted to Prometheus labels.") (λ a. object_labels fl a.labels)
      ∷ vpa_family (codes "kube_verticalpodautoscaler_spec_updatepolicy_updatemode")
          (codes "Update mode of the VerticalPodAutoscaler.") (λ a. update_modes a.update_mode)
      ∷ vpa_family
          (codes "kube_verticalpodautoscaler_spec_resourcepolicy_container_policies_minallowed")
          (codes
            "Minimum resources the VerticalPodAutoscaler can set for containers matching the name.")
          (λ a. policy_metrics (λ c. c.min_allowed) a.container_policies)
      ∷ vpa_family
          (codes "kube_verticalpodautoscaler_spec_resourcepolicy_container_policies_maxallowed")
          (codes
            "Maximum resources the VerticalPodAutoscaler can set for containers matching the name.")
          (λ a. policy_metrics (λ c. c.max_allowed) a.container_policies)
      ∷ []

  unfoldable pub vpa_status_families : List (FamilyGenerator F (VerticalPodAutoscaler pk))
  unfolding vpa_family recommendation_metrics
  vpa_status_families =
      vpa_family
        (codes
          "kube_verticalpodautoscaler_status_recommendation_containerrecommendations_lowerbound")
        (codes
          "Minimum resources the container can use before the VerticalPodAutoscaler updater evicts it.")
        (λ a. recommendation_metrics (λ c. c.lower_bound) a.recommendations)
      ∷ vpa_family
          (codes
            "kube_verticalpodautoscaler_status_recommendation_containerrecommendations_upperbound")
          (codes
            "Maximum resources the container can use before the VerticalPodAutoscaler updater evicts it.")
          (λ a. recommendation_metrics (λ c. c.upper_bound) a.recommendations)
      ∷ vpa_family
          (codes "kube_verticalpodautoscaler_status_recommendation_containerrecommendations_target")
          (codes "Target resources the VerticalPodAutoscaler recommends for the container.")
          (λ a. recommendation_metrics (λ c. c.target) a.recommendations)
      ∷ vpa_family
          (codes
            "kube_verticalpodautoscaler_status_recommendation_containerrecommendations_uncappedtarget")
          (codes
            "Target resources the VerticalPodAutoscaler recommends for the container ignoring bounds.")
          (λ a. recommendation_metrics (λ c. c.uncapped_target) a.recommendations)
      ∷ []

  -- vpaMetricFamilies
  unfoldable pub vpa_metric_families : List (FamilyGenerator F (VerticalPodAutoscaler pk))
  unfolding vpa_spec_families vpa_status_families
  vpa_metric_families = vpa_spec_families ++ vpa_status_families
