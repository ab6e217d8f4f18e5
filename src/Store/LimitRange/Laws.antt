-- ===== src/Store/LimitRange/Laws.antt =====
-- The labels and the texts of the families of limit ranges.
use kube_state_metrics.Prelude.{◌⊗◌, refl, [], ◌∷◌, All, All-append}
use kube_state_metrics.Prelude.Text.{Bytes, codes}
use kube_state_metrics.Prelude.Assoc.{Map}
use kube_state_metrics.Metric.{Float64}
use kube_state_metrics.Metric.Lines.{Aligned}
use kube_state_metrics.Store.Packages.{Packages}
use kube_state_metrics.Store.Shapes.{optional_metric-Aligned, flat_map-Aligned}
use kube_state_metrics.Store.Render.{BeginsWith, begins_lem}
use kube_state_metrics.Store.LimitRange.{
  LimitRange, desc_limit_range_labels_default_labels, limit_range_values, wrap_limit_range_func,
  limit_range_family, limit_range_metric_families, LimitRangeItem, constraint_metrics,
  limit_metrics,
}

module _ (fl : Float64) (pk : Packages) where
  constraint_metrics-Aligned :
      (type constraint : Bytes) (m : Map pk.Quantity)
      → All Aligned (constraint_metrics fl pk type constraint m)
  unfolding constraint_metrics
  constraint_metrics-Aligned type constraint [] = tt
  constraint_metrics-Aligned type constraint ((resource, q) ∷ m) =
      (refl, constraint_metrics-Aligned type constraint m)

  limit_metrics-Aligned : (r : LimitRangeItem pk) → All Aligned (limit_metrics fl pk r)
  unfolding limit_metrics
  limit_metrics-Aligned r =
      let each = λ (c : Bytes). constraint_metrics-Aligned r.type c in
      let join = All-append (Aligned {F = fl.F}) in
      join (constraint_metrics fl pk r.type (codes "min") r.min) _ (each (codes "min") r.min) (
        join (constraint_metrics fl pk r.type (codes "max") r.max) _ (each (codes "max") r.max) (
          join (constraint_metrics fl pk r.type (codes "default") r.default_limit) _
            (each (codes "default") r.default_limit)
            (join (constraint_metrics fl pk r.type (codes "defaultRequest") r.default_request) _
              (each (codes "defaultRequest") r.default_request)
              (each (codes "maxLimitRequestRatio") r.max_limit_request_ratio))))

  pub limit_range_metric_families_lem :
      (r : (LimitRange pk))
      → All
          (BeginsWith fl desc_limit_range_labels_default_labels (limit_range_values r) r)
          (limit_range_metric_families fl pk)
  unfolding limit_range_metric_families limit_range_family wrap_limit_range_func
  limit_range_metric_families_lem r =
      begins_lem fl _ _ _ _ _ _ r refl (flat_map-Aligned _ r.limits limit_metrics-Aligned)
      ⊗ begins_lem fl _ _ _ _ _ _ r refl (optional_metric-Aligned fl r.creation_timestamp)
      ⊗ tt
