-- ===== src/Store/Deployment.antt =====
-- The families of deployments: internal/store/deployment.go. The creation time is none if it is
-- zero.
pub mod Laws
use kube_state_metrics.Prelude.{Bool, true, Option, none, some, List, [], ◌∷◌, ◌++◌}
use kube_state_metrics.Prelude.Text.{Bytes, codes}
use kube_state_metrics.Prelude.Assoc.{Map}
use kube_state_metrics.Prelude.Int.{ℤ}
use kube_state_metrics.Prelude.Result.{Result, ok, ◌>>=◌, deref}
use kube_state_metrics.Metric.{Float64, Metric, Family, gauge}
use kube_state_metrics.Generator.{FamilyGenerator}
use kube_state_metrics.Store.{bool_float64}
use kube_state_metrics.Store.Packages.{Packages, or_panic}
use kube_state_metrics.Store.Wrapped.{wrap_func}
use kube_state_metrics.Store.Shapes.{
  value_metric, optional_metric, object_labels, Condition, status_conditions,
}

-- appsv1.RollingUpdateDeployment
pub record RollingUpdate (pk : Packages) : Type 0 where
  pub max_unavailable : Option pk.IntOrString
  pub max_surge : Option pk.IntOrString

-- appsv1.Deployment, as far as the families read it.
pub record Deployment (pk : Packages) : Type 0 where
  pub namespace : Bytes
  pub name : Bytes
  pub labels : Map Bytes
  pub creation_timestamp : Option ℤ
  pub generation : ℤ
  pub spec_replicas : Option ℤ
  pub paused : Bool
  pub rolling_update : Option (RollingUpdate pk)
  pub replicas : ℤ
  pub available_replicas : ℤ
  pub unavailable_replicas : ℤ
  pub updated_replicas : ℤ
  pub observed_generation : ℤ
  pub conditions : List Condition

-- descDeploymentLabelsDefaultLabels
abbrev pub desc_deployment_labels_default_labels : List Bytes
desc_deployment_labels_default_labels = codes "namespace" ∷ codes "deployment" ∷ []

abbrev pub deployment_values : {pk : Packages} → (Deployment pk) → List Bytes
deployment_values d = d.namespace ∷ d.name ∷ []

module _ (fl : Float64) (pk : Packages) where
  open fl use {F, of_int}

  -- The metrics of kube_deployment_spec_replicas; a nil number of replicas panics.
  unfoldable pub spec_replicas_metrics : Deployment pk → Result (List (Metric F))
  spec_replicas_metrics d = do n ← deref d.spec_replicas; ok (value_metric fl (of_int n) ∷ [])

  -- The metric for a number or percentage of the replicas.
  unfoldable pub scaled_metrics : Option pk.IntOrString → Option ℤ → Result (List (Metric F))
  scaled_metrics v replicas = do
    n ← deref replicas
    scaled ← or_panic (pk.get_value_from_int_or_percent v n true)
    ok (value_metric fl (of_int scaled) ∷ [])

  -- The metrics of kube_deployment_spec_strategy_rollingupdate_max_unavailable.
  unfoldable pub max_unavailable_metrics :
      Option (RollingUpdate pk) → Option ℤ → Result (List (Metric F))
  unfolding scaled_metrics
  max_unavailable_metrics none replicas = ok []
  max_unavailable_metrics (some r) replicas = scaled_metrics r.max_unavailable replicas

  -- The metrics of kube_deployment_spec_strategy_rollingupdate_max_surge.
  unfoldable pub max_surge_metrics : Option (RollingUpdate pk) → Option ℤ → Result (List (Metric F))
  unfolding scaled_metrics
  max_surge_metrics none replicas = ok []
  max_surge_metrics (some r) replicas = scaled_metrics r.max_surge replicas

  -- The function that wraps the families', for the metrics that it is given.
  unfoldable pub wrap_deployment_func :
      ((Deployment pk) → Result (List (Metric F))) → (Deployment pk) → Result (Family F)
  wrap_deployment_func = wrap_func desc_deployment_labels_default_labels deployment_values

  unfoldable pub deployment_family :
      Bytes
      → Bytes
      → ((Deployment pk) → Result (List (Metric F)))
      → FamilyGenerator F (Deployment pk)
  deployment_family name help f = record {
    name = name;
    help = help;
    type = gauge;
    generate_func = wrap_deployment_func f;
  }

  unfoldable pub deployment_status_families : List (FamilyGenerator F (Deployment pk))
  unfolding deployment_family
  deployment_status_families =
      deployment_family (codes "kube_deployment_created") (codes "Unix creation timestamp")
        (λ d. ok (optional_metric fl d.creation_timestamp))
      ∷ deployment_family (codes "kube_deployment_status_replicas")
          (codes "The number of replicas per deployment.")
          (λ d. ok (value_metric fl (of_int d.replicas) ∷ []))
      ∷ deployment_family (codes "kube_deployment_status_replicas_available")
          (codes "The number of available replicas per deployment.")
          (λ d. ok (value_metric fl (of_int d.available_replicas) ∷ []))
      ∷ deployment_family (codes "kube_deployment_status_replicas_unavailable")
          (codes "The number of unavailable replicas per deployment.")
          (λ d. ok (value_metric fl (of_int d.unavailable_replicas) ∷ []))
      ∷ deployment_family (codes "kube_deployment_status_replicas_updated")
          (codes "The number of updated replicas per deployment.")
          (λ d. ok (value_metric fl (of_int d.updated_replicas) ∷ []))
      ∷ deployment_family (codes "kube_deployment_status_observed_generation")
          (codes "The generation observed by the deployment controller.")
          (λ d. ok (value_metric fl (of_int d.observed_generation) ∷ []))
      ∷ deployment_family (codes "kube_deployment_status_condition")
          (codes "The current status conditions of a deployment.")
          (λ d. ok (status_conditions fl d.conditions))
      ∷ []

  unfoldable pub deployment_spec_families : List (FamilyGenerator F (Deployment pk))
  unfolding deployment_family spec_replicas_metrics max_unavailable_metrics max_surge_metrics
  deployment_spec_families =
      deployment_family (codes "kube_deployment_spec_replicas")
        (codes "Number of desired pods for a deployment.") (λ d. spec_replicas_metrics d)
      ∷ deployment_family (codes "kube_deployment_spec_paused")
          (codes
            "Whether the deployment is paused and will not be processed by the deployment controller.")
          (λ d. ok (value_metric fl (bool_float64 fl d.paused) ∷ []))
      ∷ deployment_family (codes "kube_deployment_spec_strategy_rollingupdate_max_unavailable")
          (codes "Maximum number of unavailable replicas during a rolling update of a deployment.")
          (λ d. max_unavailable_metrics d.rolling_update d.spec_replicas)
      ∷ deployment_family (codes "kube_deployment_spec_strategy_rollingupdate_max_surge")
          (codes
            "Maximum number of replicas that can be scheduled above the desired number of replicas during a rolling update of a deployment.")
          (λ d. max_surge_metrics d.rolling_update d.spec_replicas)
      ∷ deployment_family (codes "kube_deployment_metadata_generation")
          (codes "Sequence number representing a specific generation of the desired state.")
          (λ d. ok (value_metric fl (of_int d.generation) ∷ []))
      ∷ deployment_family (codes "kube_deployment_labels")
          (codes "Kubernetes labels converted to Prometheus labels.")
          (λ d. ok (object_labels fl d.labels))
      ∷ []

  -- The family generators of the file.
  unfoldable pub deployment_metric_families : List (FamilyGenerator F (Deployment pk))
  unfolding deployment_status_families deployment_spec_families
  deployment_metric_families = deployment_status_families ++ (deployment_spec_families)
