-- ===== src/Store/ResourceQuota.antt =====
-- The families of resource quotas: internal/store/resourcequota.go. The creation time is none
-- if it is zero. A map is the list of its entries in the order in which Go visits them.
pub mod Laws
use kube_state_metrics.Prelude.{Option, List, [], ◌∷◌, ◌++◌}
use kube_state_metrics.Prelude.Text.{Bytes, codes}
use kube_state_metrics.Prelude.Assoc.{Map}
use kube_state_metrics.Prelude.Int.{ℤ}
use kube_state_metrics.Prelude.Result.{Result, ok}
use kube_state_metrics.Metric.{Float64, Metric, Family, gauge}
use kube_state_metrics.Generator.{FamilyGenerator}
use kube_state_metrics.Store.Packages.{Packages}
use kube_state_metrics.Store.Wrapped.{wrap_func}
use kube_state_metrics.Store.Shapes.{labelled_metric, optional_metric, milli}

-- v1.ResourceQuota, as far as the families read it.
pub record ResourceQuota (pk : Packages) : Type 0 where
  pub namespace : Bytes
  pub name : Bytes
  pub creation_timestamp : Option ℤ
  pub hard : Map pk.Quantity
  pub used : Map pk.Quantity

-- descResourceQuotaLabelsDefaultLabels
abbrev pub desc_resource_quota_labels_default_labels : List Bytes
desc_resource_quota_labels_default_labels = codes "namespace" ∷ codes "resourcequota" ∷ []

abbrev pub resource_quota_values : {pk : Packages} → (ResourceQuota pk) → List Bytes
resource_quota_values r = r.namespace ∷ r.name ∷ []

module _ (fl : Float64) (pk : Packages) where
  open fl use {F, of_int}

  -- The loop over the hard or the used quantities.
  unfoldable pub quota_metrics : Bytes → Map pk.Quantity → List (Metric F)
  quota_metrics type [] = []
  quota_metrics type ((res, qty) ∷ quantities) =
      labelled_metric fl (codes "resource" ∷ codes "type" ∷ []) (res ∷ type ∷ []) (milli fl pk qty)
      ∷ quota_metrics type quantities

  -- The function that wraps the families', for the metrics that it is given.
  unfoldable pub wrap_resource_quota_func :
      ((ResourceQuota pk) → Result (List (Metric F))) → (ResourceQuota pk) → Result (Family F)
  wrap_resource_quota_func =
      wrap_func desc_resource_quota_labels_default_labels resource_quota_values

  unfoldable pub resource_quota_family :
      Bytes → Bytes → ((ResourceQuota pk) → List (Metric F)) → FamilyGenerator F (ResourceQuota pk)
  resource_quota_family name help f = record {
    name = name;
    help = help;
    type = gauge;
    generate_func = wrap_resource_quota_func (λ r. ok (f r));
  }

  -- The family generators of the file.
  unfoldable pub resource_quota_metric_families : List (FamilyGenerator F (ResourceQuota pk))
  unfolding resource_quota_family quota_metrics
  resource_quota_metric_families =
      resource_quota_family (codes "kube_resourcequota_created") (codes "Unix creation timestamp")
        (λ r. optional_metric fl r.creation_timestamp)
      ∷ resource_quota_family (codes "kube_resourcequota")
          (codes "Information about resource quota.")
          (λ r. quota_metrics (codes "hard") r.hard ++ quota_metrics (codes "used") r.used)
      ∷ []
