-- ===== src/Store/Deployment/Laws.antt =====
-- The labels and the texts of the families of deployments.
use kube_state_metrics.Prelude.{◌⊗◌, ◌≡◌, refl, inr, true, Option, none, some, List, [], ◌∷◌, All}
use kube_state_metrics.Prelude.Int.{ℤ}
use kube_state_metrics.Prelude.Result.{ok}
use kube_state_metrics.Metric.{Float64, Metric}
use kube_state_metrics.Metric.Lines.{Aligned}
use kube_state_metrics.Store.Packages.{Packages}
use kube_state_metrics.Store.Shapes.{
  value_metric, object_labels-Aligned, optional_metric-Aligned, status_conditions-Aligned,
}
use kube_state_metrics.Store.Render.{BeginsWith, begins_lem}
use kube_state_metrics.Store.Deployment.{
  Deployment, desc_deployment_labels_default_labels, deployment_values, wrap_deployment_func,
  deployment_family, deployment_metric_families, deployment_status_families,
  deployment_spec_families, RollingUpdate, spec_replicas_metrics, max_unavailable_metrics,
  max_surge_metrics,
}

-- The numbers or percentages of a rolling update can be read, for n replicas.
abbrev pub Resolves : {pk : Packages} → Option (RollingUpdate pk) → ℤ → Type 0
Resolves {pk} none n = Unit
Resolves {pk} (some r) n =
    (u : ℤ) × (pk.get_value_from_int_or_percent r.max_unavailable n true ≡ inr u)
    × (s : ℤ) × (pk.get_value_from_int_or_percent r.max_surge n true ≡ inr s)

module _ (fl : Float64) (pk : Packages) where
  spec_replicas_metrics_lem :
      (d : Deployment pk) (n : ℤ)
      → d.spec_replicas ≡ some n
      → spec_replicas_metrics fl pk d ≡ ok (value_metric fl (fl.of_int n) ∷ [])
  unfolding spec_replicas_metrics
  spec_replicas_metrics_lem d n h = rw h

  max_unavailable_metrics_lem :
      (o : Option (RollingUpdate pk)) (replicas : Option ℤ) (n : ℤ)
      → replicas ≡ some n
      → Resolves o n
      → (ms : List (Metric fl.F)) × (max_unavailable_metrics fl pk o replicas ≡ ok ms)
        × All Aligned ms
  unfolding max_unavailable_metrics
  max_unavailable_metrics_lem none replicas n h r = ([], refl, tt)
  max_unavailable_metrics_lem (some r) replicas n h (u, hu, s, hs) =
      (value_metric fl (fl.of_int u) ∷ [], rw (h, hu), (refl, tt))

  max_surge_metrics_lem :
      (o : Option (RollingUpdate pk)) (replicas : Option ℤ) (n : ℤ)
      → replicas ≡ some n
      → Resolves o n
      → (ms : List (Metric fl.F)) × (max_surge_metrics fl pk o replicas ≡ ok ms) × All Aligned ms
  unfolding max_surge_metrics
  max_surge_metrics_lem none replicas n h r = ([], refl, tt)
  max_surge_metrics_lem (some r) replicas n h (u, hu, s, hs) =
      (value_metric fl (fl.of_int s) ∷ [], rw (h, hs), (refl, tt))

  pub deployment_metric_families_lem :
      (d : (Deployment pk))
      → (n : ℤ) → d.spec_replicas ≡ some n
      → Resolves d.rolling_update n
      → All
          (BeginsWith fl desc_deployment_labels_default_labels (deployment_values d) d)
          (deployment_metric_families fl pk)
  unfolding deployment_metric_families deployment_status_families deployment_spec_families
      deployment_family wrap_deployment_func
  deployment_metric_families_lem d n h r =
      begins_lem fl _ _ _ _ _ _ d refl (optional_metric-Aligned fl d.creation_timestamp)
      ⊗ begins_lem fl _ _ _ _ _ _ d refl (refl, tt)
      ⊗ begins_lem fl _ _ _ _ _ _ d refl (refl, tt)
      ⊗ begins_lem fl _ _ _ _ _ _ d refl (refl, tt)
      ⊗ begins_lem fl _ _ _ _ _ _ d refl (refl, tt)
      ⊗ begins_lem fl _ _ _ _ _ _ d refl (refl, tt)
      ⊗ begins_lem fl _ _ _ _ _ _ d refl (status_conditions-Aligned fl d.conditions)
      ⊗ begins_lem fl _ _ _ _ _ _ d (spec_replicas_metrics_lem d n h) (refl, tt)
      ⊗ begins_lem fl _ _ _ _ _ _ d refl (refl, tt)
      ⊗ begins_lem fl _ _ _ _ _ _ d
          ((max_unavailable_metrics_lem d.rolling_update d.spec_replicas n h r).1)
          ((max_unavailable_metrics_lem d.rolling_update d.spec_replicas n h r).2)
      ⊗ begins_lem fl _ _ _ _ _ _ d
          ((max_surge_metrics_lem d.rolling_update d.spec_replicas n h r).1)
          ((max_surge_metrics_lem d.rolling_update d.spec_replicas n h r).2)
      ⊗ begins_lem fl _ _ _ _ _ _ d refl (refl, tt)
      ⊗ begins_lem fl _ _ _ _ _ _ d refl (object_labels-Aligned fl d.labels)
      ⊗ tt
