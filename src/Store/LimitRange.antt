-- ===== src/Store/LimitRange.antt =====
-- The families of limit ranges: internal/store/limitrange.go. The creation time is none if it
-- is zero. A map is the list of its entries in the order in which Go visits them.
pub mod Laws
use kube_state_metrics.Prelude.{Option, List, [], ◌∷◌, ◌++◌}
use kube_state_metrics.Prelude.Text.{Bytes, codes}
use kube_state_metrics.Prelude.Assoc.{Map}
use kube_state_metrics.Prelude.Int.{ℤ}
use kube_state_metrics.Prelude.Result.{Result, ok}
use kube_state_metrics.Metric.{Float64, Metric, Family, gauge}
use kube_state_metrics.Generator.{FamilyGenerator}
use kube_state_metrics.Store.Packages.{Packages}
use kube_state_metrics.Store.Wrapped.{wrap_func}
use kube_state_metrics.Store.Shapes.{labelled_metric, optional_metric, milli, flat_map}

-- v1.LimitRangeItem
pub record LimitRangeItem (pk : Packages) : Type 0 where
  pub type : Bytes
  pub min : Map pk.Quantity
  pub max : Map pk.Quantity
  pub default_limit : Map pk.Quantity
  pub default_request : Map pk.Quantity
  pub max_limit_request_ratio : Map pk.Quantity

-- v1.LimitRange, as far as the families read it.
pub record LimitRange (pk : Packages) : Type 0 where
  pub namespace : Bytes
  pub name : Bytes
  pub creation_timestamp : Option ℤ
  pub limits : List (LimitRangeItem pk)

-- descLimitRangeLabelsDefaultLabels
abbrev pub desc_limit_range_labels_default_labels : List Bytes
desc_limit_range_labels_default_labels = codes "namespace" ∷ codes "limitrange" ∷ []

abbrev pub limit_range_values : {pk : Packages} → (LimitRange pk) → List Bytes
limit_range_values r = r.namespace ∷ r.name ∷ []

module _ (fl : Float64) (pk : Packages) where
  open fl use {F, of_int}

  -- The loop over the quantities of one constraint.
  unfoldable pub constraint_metrics : Bytes → Bytes → Map pk.Quantity → List (Metric F)
  constraint_metrics type constraint [] = []
  constraint_metrics type constraint ((resource, q) ∷ quantities) =
      labelled_metric fl (codes "resource" ∷ codes "type" ∷ codes "constraint" ∷ [])
        (resource ∷ type ∷ constraint ∷ []) (milli fl pk q)
      ∷ constraint_metrics type constraint quantities

  -- The metrics of kube_limitrange for one item.
  unfoldable pub limit_metrics : LimitRangeItem pk → List (Metric F)
  unfolding constraint_metrics
  limit_metrics r =
      constraint_metrics r.type (codes "min") r.min
      ++ (constraint_metrics r.type (codes "max") r.max
          ++ (constraint_metrics r.type (codes "default") r.default_limit
              ++ (constraint_metrics r.type (codes "defaultRequest") r.default_request
                  ++ constraint_metrics r.type (codes "maxLimitRequestRatio")
                      r.max_limit_request_ratio)))

  -- The function that wraps the families', for the metrics that it is given.
  unfoldable pub wrap_limit_range_func :
      ((LimitRange pk) → Result (List (Metric F))) → (LimitRange pk) → Result (Family F)
  wrap_limit_range_func = wrap_func desc_limit_range_labels_default_labels limit_range_values

  unfoldable pub limit_range_family :
      Bytes → Bytes → ((LimitRange pk) → List (Metric F)) → FamilyGenerator F (LimitRange pk)
  limit_range_family name help f = record {
    name = name;
    help = help;
    type = gauge;
    generate_func = wrap_limit_range_func (λ r. ok (f r));
  }

  -- The family generators of the file.
  unfoldable pub limit_range_metric_families : List (FamilyGenerator F (LimitRange pk))
  unfolding limit_range_family limit_metrics
  limit_range_metric_families =
      limit_range_family (codes "kube_limitrange") (codes "Information about limit range.")
        (λ r. flat_map limit_metrics r.limits)
      ∷ limit_range_family (codes "kube_limitrange_created") (codes "Unix creation timestamp")
          (λ r. optional_metric fl r.creation_timestamp)
      ∷ []
