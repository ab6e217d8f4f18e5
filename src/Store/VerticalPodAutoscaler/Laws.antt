-- ===== src/Store/VerticalPodAutoscaler/Laws.antt =====
-- The labels and the texts of the families of a vertical pod autoscaler that has a target.
use kube_state_metrics.Prelude.{◌⊗◌, ◌≡◌, refl, ◌||◌, Option, none, some, List, [], ◌∷◌, All}
use kube_state_metrics.Prelude.Text.{Bytes, codes, ◌==◌}
use kube_state_metrics.Prelude.Assoc.{Map}
use kube_state_metrics.Prelude.Result.{ok}
use kube_state_metrics.Metric.{Float64, Metric, gauge}
use kube_state_metrics.Metric.Lines.{Aligned}
use kube_state_metrics.Generator.{generate}
use kube_state_metrics.Store.Packages.{Packages}
use kube_state_metrics.Store.Wrapped.{wrap_metrics, wrap_metrics_lem}
use kube_state_metrics.Store.Shapes.{
  series-Aligned, flat_map-Aligned, when-Aligned, if-Aligned, object_labels-Aligned,
}
use kube_state_metrics.Store.Render.{BeginsWith}
use kube_state_metrics.Store.VerticalPodAutoscaler.{
  TargetRef, ContainerPolicy, Recommendation, VerticalPodAutoscaler, desc_vpa_labels_default_labels,
  vpa_values, update_modes, resource_metric, resource_to_metrics, vpa_resources_to_metrics,
  policy_metrics, recommendation_metrics, wrap_targets, wrap_vpa_func, vpa_family,
  vpa_metric_families, vpa_spec_families, vpa_status_families,
}

module _ (fl : Float64) (pk : Packages) where
  update_modes-Aligned : (mode : Option Bytes) → All Aligned (update_modes fl pk mode)
  unfolding update_modes
  update_modes-Aligned none = tt
  update_modes-Aligned (some m) = series-Aligned fl _ _ _ _ (λ mode. refl)

  resource_to_metrics-Aligned :
      (container : Bytes) (e : Bytes × pk.Quantity)
      → All Aligned (resource_to_metrics fl pk container e)
  unfolding resource_to_metrics
  resource_to_metrics-Aligned container (name, val) =
      if-Aligned (name == codes "cpu") (resource_metric fl pk container name (codes "core") _ ∷ [])
        _ (refl, tt)
        (when-Aligned
          (name == codes "storage" || name == codes "ephemeral-storage" || name == codes "memory") _
          refl)

  policy_metrics-Aligned :
      (resources : ContainerPolicy pk → Map pk.Quantity) (cs : List (ContainerPolicy pk))
      → All Aligned (policy_metrics fl pk resources cs)
  unfolding policy_metrics vpa_resources_to_metrics
  policy_metrics-Aligned resources cs =
      flat_map-Aligned _ cs
        (λ c. flat_map-Aligned _ (resources c) (resource_to_metrics-Aligned c.container_name))

  recommendation_metrics-Aligned :
      (resources : Recommendation pk → Map pk.Quantity) (cs : List (Recommendation pk))
      → All Aligned (recommendation_metrics fl pk resources cs)
  unfolding recommendation_metrics vpa_resources_to_metrics
  recommendation_metrics-Aligned resources cs =
      flat_map-Aligned _ cs
        (λ c. flat_map-Aligned _ (resources c) (resource_to_metrics-Aligned c.container_name))

  wrap_targets_lem :
      (a : VerticalPodAutoscaler pk) (t : TargetRef) (ms : List (Metric fl.F))
      → a.target_ref ≡ some t
      → wrap_targets fl pk a ms
        ≡ ok (wrap_metrics desc_vpa_labels_default_labels (vpa_values t a) ms)
  unfolding wrap_targets wrap_metrics
  wrap_targets_lem a t [] h = refl
  wrap_targets_lem a t (m ∷ ms) h = rw h

  vpa_begins :
      (name help : Bytes) (f : VerticalPodAutoscaler pk → List (Metric fl.F))
      (a : VerticalPodAutoscaler pk) (t : TargetRef)
      → a.target_ref ≡ some t
      → All Aligned (f a)
      → BeginsWith fl desc_vpa_labels_default_labels
          (vpa_values t a)
          a
          (vpa_family fl pk name help f)
  unfolding vpa_family generate wrap_vpa_func
  vpa_begins name help f a t h aligned = (
    record {
      name = name;
      type = gauge;
      metrics = wrap_metrics desc_vpa_labels_default_labels (vpa_values t a) (f a);
    },
    rw (wrap_targets_lem a t (f a) h),
    wrap_metrics_lem desc_vpa_labels_default_labels (vpa_values t a) (f a) aligned,
  )

  pub vpa_metric_families_lem :
      (a : VerticalPodAutoscaler pk) (t : TargetRef)
      → a.target_ref ≡ some t
      → All
          (BeginsWith fl desc_vpa_labels_default_labels (vpa_values t a) a)
          (vpa_metric_families fl pk)
  unfolding vpa_metric_families vpa_spec_families vpa_status_families
  vpa_metric_families_lem a t h =
      vpa_begins _ _ _ a t h (object_labels-Aligned fl a.labels)
      ⊗ vpa_begins _ _ _ a t h (update_modes-Aligned a.update_mode)
      ⊗ vpa_begins _ _ _ a t h (policy_metrics-Aligned _ a.container_policies)
      ⊗ vpa_begins _ _ _ a t h (policy_metrics-Aligned _ a.container_policies)
      ⊗ vpa_begins _ _ _ a t h (recommendation_metrics-Aligned _ a.recommendations)
      ⊗ vpa_begins _ _ _ a t h (recommendation_metrics-Aligned _ a.recommendations)
      ⊗ vpa_begins _ _ _ a t h (recommendation_metrics-Aligned _ a.recommendations)
      ⊗ vpa_begins _ _ _ a t h (recommendation_metrics-Aligned _ a.recommendations)
      ⊗ tt
