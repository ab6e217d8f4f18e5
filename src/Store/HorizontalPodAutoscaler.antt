-- ===== src/Store/HorizontalPodAutoscaler.antt =====
-- The families of horizontal pod autoscalers: internal/store/horizontalpodautoscaler.go. A
-- pointer is none if it is nil; a quantity that is no pointer is there.
pub mod Laws
use kube_state_metrics.Prelude.{Option, none, some, List, [], ◌∷◌, ◌++◌, if◌then◌else◌}
use kube_state_metrics.Prelude.Text.{Bytes, codes, ◌==◌}
use kube_state_metrics.Prelude.Assoc.{Map}
use kube_state_metrics.Prelude.Int.{ℤ}
use kube_state_metrics.Prelude.Result.{Result, ok, ◌>>=◌, deref}
use kube_state_metrics.Metric.{Float64, Metric, Family, gauge}
use kube_state_metrics.Generator.{FamilyGenerator}
use kube_state_metrics.Store.Packages.{Packages}
use kube_state_metrics.Store.Wrapped.{wrap_func}
use kube_state_metrics.Store.Shapes.{
  value_metric, labelled_metric, object_labels, Condition, status_conditions,
}

-- autoscaling.ObjectMetricSource
pub record ObjectSource (pk : Packages) : Type 0 where
  pub metric_name : Bytes
  pub target_value : pk.Quantity
  pub average_value : Option pk.Quantity

-- autoscaling.PodsMetricSource
pub record PodsSource (pk : Packages) : Type 0 where
  pub metric_name : Bytes
  pub target_average_value : pk.Quantity

-- autoscaling.ResourceMetricSource
pub record ResourceSource (pk : Packages) : Type 0 where
  pub name : Bytes
  pub target_average_utilization : Option ℤ
  pub target_average_value : Option pk.Quantity

-- autoscaling.ExternalMetricSource
pub record ExternalSource (pk : Packages) : Type 0 where
  pub metric_name : Bytes
  pub target_value : Option pk.Quantity
  pub target_average_value : Option pk.Quantity

-- autoscaling.MetricSpec, whose type says which of the pointers is read
pub record MetricSpec (pk : Packages) : Type 0 where
  pub type : Bytes
  pub object : Option (ObjectSource pk)
  pub pods : Option (PodsSource pk)
  pub resource : Option (ResourceSource pk)
  pub external : Option (ExternalSource pk)

-- The name of a metric and its targets, v and ok: a target that is not ok is none.
pub record Targets : Type 0 where
  pub metric_name : Bytes
  pub value : Option ℤ
  pub utilization : Option ℤ
  pub average : Option ℤ

-- autoscalingv2beta1.HorizontalPodAutoscaler, as far as the families read it.
pub record HorizontalPodAutoscaler (pk : Packages) : Type 0 where
  pub namespace : Bytes
  pub name : Bytes
  pub labels : Map Bytes
  pub generation : ℤ
  pub max_replicas : ℤ
  pub min_replicas : Option ℤ
  pub metrics : List (MetricSpec pk)
  pub current_replicas : ℤ
  pub desired_replicas : ℤ
  pub conditions : List Condition

-- descHorizontalPodAutoscalerLabelsDefaultLabels
abbrev pub desc_hpa_labels_default_labels : List Bytes
desc_hpa_labels_default_labels = codes "namespace" ∷ codes "horizontalpodautoscaler" ∷ []

abbrev pub hpa_values : {pk : Packages} → (HorizontalPodAutoscaler pk) → List Bytes
hpa_values a = a.namespace ∷ a.name ∷ []

-- AsInt64 of a quantity, which is none if it does not fit.
unfoldable pub int_of : (pk : Packages) → pk.Quantity → Option ℤ
int_of pk q = let (v, fits) = pk.as_int64 q in if fits then some v else none

-- The same behind a pointer, which is not read if it is nil.
unfoldable pub int_behind : (pk : Packages) → Option pk.Quantity → Option ℤ
unfolding int_of
int_behind pk none = none
int_behind pk (some q) = int_of pk q

-- The switch over the type of a metric; none for a type that is skipped.
unfoldable pub targets_of : (pk : Packages) → MetricSpec pk → Result (Option Targets)
targets_of pk m =
    let object = (do
      o ← deref m.object
      ok (
          some (record {
            metric_name = o.metric_name;
            value = int_of pk o.target_value;
            utilization = none;
            average = int_behind pk o.average_value;
          }))) in
    let pods = (do
      p ← deref m.pods
      ok (
          some (record {
            metric_name = p.metric_name;
            value = none;
            utilization = none;
            average = int_of pk p.target_average_value;
          }))) in
    let resource = (do
      r ← deref m.resource
      ok (
          some (record {
            metric_name = r.name;
            value = none;
            utilization = r.target_average_utilization;
            average = int_behind pk r.target_average_value;
          }))) in
    let external = (do
      e ← deref m.external
      ok (
          some (record {
            metric_name = e.metric_name;
            value = int_behind pk e.target_value;
            utilization = none;
            average = int_behind pk e.target_average_value;
          }))) in
    if m.type == codes "Object"
    then object
    else if m.type == codes "Pods"
    then pods
    else if m.type == codes "Resource"
    then resource
    else if m.type == codes "External"
    then external
    else ok none

module _ (fl : Float64) (pk : Packages) where
  open fl use {F, of_int}

  -- The metrics of kube_horizontalpodautoscaler_spec_min_replicas; a nil number panics.
  unfoldable pub min_replicas_metrics : HorizontalPodAutoscaler pk → Result (List (Metric F))
  min_replicas_metrics a = do n ← deref a.min_replicas; ok (value_metric fl (of_int n) ∷ [])

  -- The metric of one target, if it is ok.
  unfoldable pub target_metric : Bytes → Bytes → Option ℤ → List (Metric F)
  target_metric name type none = []
  target_metric name type (some v) =
      labelled_metric fl (codes "metric_name" ∷ codes "metric_target_type" ∷ []) (name ∷ type ∷ [])
        (of_int v)
      ∷ []

  -- The loop over the targets of one metric.
  unfoldable pub spec_metrics : Option Targets → List (Metric F)
  unfolding target_metric
  spec_metrics none = []
  spec_metrics (some t) =
      target_metric t.metric_name (codes "value") t.value
      ++ (target_metric t.metric_name (codes "utilization") t.utilization
          ++ target_metric t.metric_name (codes "average") t.average)

  -- The metrics of kube_horizontalpodautoscaler_spec_target_metric.
  unfoldable pub target_metrics : List (MetricSpec pk) → Result (List (Metric F))
  unfolding spec_metrics targets_of int_of int_behind
  target_metrics [] = ok []
  target_metrics (m ∷ metrics) = do
    targets ← targets_of pk m
    rest ← target_metrics metrics
    ok (spec_metrics targets ++ rest)

  -- The function that wraps the families', for the metrics that it is given.
  unfoldable pub wrap_hpa_func :
      ((HorizontalPodAutoscaler pk) → Result (List (Metric F)))
      → (HorizontalPodAutoscaler pk)
      → Result (Family F)
  wrap_hpa_func = wrap_func desc_hpa_labels_default_labels hpa_values

  unfoldable pub hpa_family :
      Bytes
      → Bytes
      → ((HorizontalPodAutoscaler pk) → Result (List (Metric F)))
      → FamilyGenerator F (HorizontalPodAutoscaler pk)
  hpa_family name help f = record {
    name = name;
    help = help;
    type = gauge;
    generate_func = wrap_hpa_func f;
  }

  unfoldable pub hpa_spec_families : List (FamilyGenerator F (HorizontalPodAutoscaler pk))
  unfolding hpa_family min_replicas_metrics target_metrics
  hpa_spec_families =
      hpa_family (codes "kube_horizontalpodautoscaler_metadata_generation")
        (codes "The generation observed by the HorizontalPodAutoscaler controller.")
        (λ a. ok (value_metric fl (of_int a.generation) ∷ []))
      ∷ hpa_family (codes "kube_horizontalpodautoscaler_spec_max_replicas")
          (codes
            "Upper limit for the number of pods that can be set by the autoscaler; cannot be smaller than MinReplicas.")
          (λ a. ok (value_metric fl (of_int a.max_replicas) ∷ []))
      ∷ hpa_family (codes "kube_horizontalpodautoscaler_spec_min_replicas")
          (codes "Lower limit for the number of pods that can be set by the autoscaler, default 1.")
          (λ a. min_replicas_metrics a)
      ∷ hpa_family (codes "kube_horizontalpodautoscaler_spec_target_metric")
          (codes
            "The metric specifications used by this autoscaler when calculating the desired replica count.")
          (λ a. target_metrics a.metrics)
      ∷ []

  unfoldable pub hpa_status_families : List (FamilyGenerator F (HorizontalPodAutoscaler pk))
  unfolding hpa_family
  hpa_status_families =
      hpa_family (codes "kube_horizontalpodautoscaler_status_current_replicas")
        (codes "Current number of replicas of pods managed by this autoscaler.")
        (λ a. ok (value_metric fl (of_int a.current_replicas) ∷ []))
      ∷ hpa_family (codes "kube_horizontalpodautoscaler_status_desired_replicas")
          (codes "Desired number of replicas of pods managed by this autoscaler.")
          (λ a. ok (value_metric fl (of_int a.desired_replicas) ∷ []))
      ∷ hpa_family (codes "kube_horizontalpodautoscaler_labels")
          (codes "Kubernetes labels converted to Prometheus labels.")
          (λ a. ok (object_labels fl a.labels))
      ∷ hpa_family (codes "kube_horizontalpodautoscaler_status_condition")
          (codes "The condition of this autoscaler.") (λ a. ok (status_conditions fl a.conditions))
      ∷ []

  -- The family generators of the file.
  unfoldable pub hpa_metric_families : List (FamilyGenerator F (HorizontalPodAutoscaler pk))
  unfolding hpa_spec_families hpa_status_families
  hpa_metric_families = hpa_spec_families ++ (hpa_status_families)
