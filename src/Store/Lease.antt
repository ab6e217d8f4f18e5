-- ===== src/Store/Lease.antt =====
-- The families of leases: internal/store/lease.go. The renewal time is none if it is nil or
-- zero.
pub mod Laws
use kube_state_metrics.Prelude.{Option, List, [], ◌∷◌}
use kube_state_metrics.Prelude.Text.{Bytes, codes}
use kube_state_metrics.Prelude.Int.{ℤ, pos}
use kube_state_metrics.Prelude.Result.{Result, ok}
use kube_state_metrics.Api.{OwnerReference}
use kube_state_metrics.Metric.{Float64, Metric, Family, gauge}
use kube_state_metrics.Generator.{FamilyGenerator}
use kube_state_metrics.Store.Wrapped.{wrap_func}
use kube_state_metrics.Store.Shapes.{labelled_metric, optional_metric, infos}

-- coordinationv1.Lease, as far as the families read it.
pub record Lease : Type 0 where
  pub name : Bytes
  pub owner_references : List OwnerReference
  pub renew_time : Option ℤ

-- descLeaseLabelsDefaultLabels
abbrev pub desc_lease_labels_default_labels : List Bytes
desc_lease_labels_default_labels = codes "lease" ∷ []

abbrev pub lease_values : Lease → List Bytes
lease_values l = l.name ∷ []

module _ (fl : Float64) where
  open fl use {F, of_int}

  -- The metrics of kube_lease_owner.
  unfoldable pub lease_owners : List OwnerReference → List (Metric F)
  lease_owners [] =
      labelled_metric fl (codes "owner_kind" ∷ codes "owner_name" ∷ [])
        (codes "<none>" ∷ codes "<none>" ∷ []) (of_int (pos 1))
      ∷ []
  lease_owners (owner ∷ owners) =
      infos fl (codes "owner_kind" ∷ codes "owner_name" ∷ []) (λ o. o.kind ∷ o.name ∷ [])
        (owner ∷ owners)

  -- The function that wraps the families', for the metrics that it is given.
  unfoldable pub wrap_lease_func : (Lease → Result (List (Metric F))) → Lease → Result (Family F)
  wrap_lease_func = wrap_func desc_lease_labels_default_labels lease_values

  unfoldable pub lease_family : Bytes → Bytes → (Lease → List (Metric F)) → FamilyGenerator F Lease
  lease_family name help f = record {
    name = name;
    help = help;
    type = gauge;
    generate_func = wrap_lease_func (λ l. ok (f l));
  }

  -- The family generators of the file.
  unfoldable pub lease_metric_families : List (FamilyGenerator F Lease)
  unfolding lease_family lease_owners
  lease_metric_families =
      lease_family (codes "kube_lease_owner") (codes "Information about the Lease's owner.")
        (λ l. lease_owners l.owner_references)
      ∷ lease_family (codes "kube_lease_renew_time") (codes "Kube lease renew time.")
          (λ l. optional_metric fl l.renew_time)
      ∷ []
