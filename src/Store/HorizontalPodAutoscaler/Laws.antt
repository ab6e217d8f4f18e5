-- ===== src/Store/HorizontalPodAutoscaler/Laws.antt =====
-- The labels and the texts of the families of horizontal pod autoscalers.
use kube_state_metrics.Prelude.{
  ◌⊗◌, ◌≡◌, refl, Option, none, some, List, [], ◌∷◌, All, All-append, subst,
}
use kube_state_metrics.Prelude.Text.{Bytes, codes}
use kube_state_metrics.Prelude.Int.{ℤ}
use kube_state_metrics.Prelude.Result.{ok, ok_of_bind, ok_injective}
use kube_state_metrics.Metric.{Float64, Metric}
use kube_state_metrics.Metric.Lines.{Aligned}
use kube_state_metrics.Store.Packages.{Packages}
use kube_state_metrics.Store.Shapes.{value_metric, object_labels-Aligned, status_conditions-Aligned}
use kube_state_metrics.Store.Render.{BeginsWith, begins_lem}
use kube_state_metrics.Store.HorizontalPodAutoscaler.{
  HorizontalPodAutoscaler, desc_hpa_labels_default_labels, hpa_values, wrap_hpa_func, hpa_family,
  hpa_metric_families, hpa_spec_families, hpa_status_families, MetricSpec, Targets,
  min_replicas_metrics, target_metric, spec_metrics, target_metrics, targets_of,
}

module _ (fl : Float64) (pk : Packages) where
  min_replicas_metrics_lem :
      (a : HorizontalPodAutoscaler pk) (n : ℤ)
      → a.min_replicas ≡ some n
      → min_replicas_metrics fl pk a ≡ ok (value_metric fl (fl.of_int n) ∷ [])
  unfolding min_replicas_metrics
  min_replicas_metrics_lem a n h = rw h

  target_metric-Aligned :
      (name type : Bytes) (o : Option ℤ) → All Aligned (target_metric fl pk name type o)
  unfolding target_metric
  target_metric-Aligned name type none = tt
  target_metric-Aligned name type (some v) = (refl, tt)

  spec_metrics-Aligned : (o : Option Targets) → All Aligned (spec_metrics fl pk o)
  unfolding spec_metrics
  spec_metrics-Aligned none = tt
  spec_metrics-Aligned (some t) =
      All-append Aligned (target_metric fl pk t.metric_name (codes "value") t.value) _
        (target_metric-Aligned _ _ t.value)
        (All-append Aligned (target_metric fl pk t.metric_name (codes "utilization") t.utilization)
          _ (target_metric-Aligned _ _ t.utilization)
          (target_metric-Aligned t.metric_name (codes "average") t.average))

  target_metrics-Aligned :
      (specs : List (MetricSpec pk)) (ms : List (Metric fl.F))
      → target_metrics fl pk specs ≡ ok ms
      → All Aligned ms
  unfolding target_metrics
  target_metrics-Aligned [] ms h = subst (All Aligned) (ok_injective h) tt
  target_metrics-Aligned (m ∷ specs) ms h =
      let (targets, made, more) = ok_of_bind (targets_of pk m) _ h in
      let (rest, made_rest, all) = ok_of_bind (target_metrics fl pk specs) _ more in
      subst (All Aligned) (ok_injective all) (
        All-append Aligned (spec_metrics fl pk targets) rest (spec_metrics-Aligned targets)
          (target_metrics-Aligned specs rest made_rest))

  pub hpa_metric_families_lem :
      (a : (HorizontalPodAutoscaler pk))
      → (n : ℤ) (ms : List (Metric fl.F)) → a.min_replicas ≡ some n
      → target_metrics fl pk a.metrics ≡ ok ms
      → All
          (BeginsWith fl desc_hpa_labels_default_labels (hpa_values a) a)
          (hpa_metric_families fl pk)
  unfolding hpa_metric_families hpa_spec_families hpa_status_families hpa_family wrap_hpa_func
  hpa_metric_families_lem a n ms h r =
      begins_lem fl _ _ _ _ _ _ a refl (refl, tt)
      ⊗ begins_lem fl _ _ _ _ _ _ a refl (refl, tt)
      ⊗ begins_lem fl _ _ _ _ _ _ a (min_replicas_metrics_lem a n h) (refl, tt)
      ⊗ begins_lem fl _ _ _ _ _ _ a (r) (target_metrics-Aligned a.metrics ms r)
      ⊗ begins_lem fl _ _ _ _ _ _ a refl (refl, tt)
      ⊗ begins_lem fl _ _ _ _ _ _ a refl (refl, tt)
      ⊗ begins_lem fl _ _ _ _ _ _ a refl (object_labels-Aligned fl a.labels)
      ⊗ begins_lem fl _ _ _ _ _ _ a refl (status_conditions-Aligned fl a.conditions)
      ⊗ tt
