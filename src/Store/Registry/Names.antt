-- ===== src/Store/Registry/Names.antt =====
-- The names of the families of all resources.
use kube_state_metrics.Prelude.{
  ℕ, zero, suc, ◌+◌, arith, ◌≡◌, refl, sym, ap, ◌∙◌, ◌⊗◌, some, List, [], ◌∷◌, ◌++◌, get_elem?,
}
use kube_state_metrics.Prelude.Text.{◌==◌}
use kube_state_metrics.Prelude.Assoc.{Map, lookup}
use kube_state_metrics.Metric.{Float64}
use kube_state_metrics.Generator.{FamilyGenerator}
use kube_state_metrics.Builder.{
  Kind, csr, config_map, cron_job, daemon_set, deployment, endpoints, hpa, ingress, job, leases,
  limit_range, mutating_webhook_configuration, namespace, network_policy, node,
  persistent_volume_claim, persistent_volume, pod_disruption_budget, pod, replica_set,
  replication_controller, resource_quota, secret, service, stateful_set, storage_class,
  validating_webhook_configuration, volume_attachment, vpa,
}
use kube_state_metrics.Store.Packages.{Packages}
use kube_state_metrics.Store.Registry.{Object, store_families}
use kube_state_metrics.Store.CertificateSigningRequest.{csr_family, csr_metric_families}
use kube_state_metrics.Store.ConfigMap.{config_map_family, config_map_metric_families}
use kube_state_metrics.Store.CronJob.{cron_job_family, cron_job_metric_families}
use kube_state_metrics.Store.DaemonSet.{
  daemon_set_family, daemon_set_metric_families, daemon_set_status_families,
  daemon_set_spec_families,
}
use kube_state_metrics.Store.Deployment.{
  deployment_family, deployment_metric_families, deployment_status_families,
  deployment_spec_families,
}
use kube_state_metrics.Store.Endpoints.{endpoint_family, endpoint_metric_families}
use kube_state_metrics.Store.HorizontalPodAutoscaler.{
  hpa_family, hpa_metric_families, hpa_spec_families, hpa_status_families,
}
use kube_state_metrics.Store.Ingress.{ingress_family, ingress_metric_families}
use kube_state_metrics.Store.Job.{job_family, job_metric_families}
use kube_state_metrics.Store.Lease.{lease_family, lease_metric_families}
use kube_state_metrics.Store.LimitRange.{limit_range_family, limit_range_metric_families}
use kube_state_metrics.Store.MutatingWebhookConfiguration.{
  mutating_webhook_configuration_family, mutating_webhook_configuration_metric_families,
}
use kube_state_metrics.Store.Namespace.{namespace_family, namespace_metric_families}
use kube_state_metrics.Store.NetworkPolicy.{network_policy_family, network_policy_metric_families}
use kube_state_metrics.Store.Node.{
  node_family, node_metric_families, node_spec_families, node_status_families,
}
use kube_state_metrics.Store.PersistentVolumeClaim.{
  persistent_volume_claim_family, persistent_volume_claim_metric_families,
}
use kube_state_metrics.Store.PersistentVolume.{
  persistent_volume_family, persistent_volume_metric_families,
}
use kube_state_metrics.Store.PodDisruptionBudget.{
  pod_disruption_budget_family, pod_disruption_budget_metric_families,
}
use kube_state_metrics.Store.Pod.{
  pod_family, pod_metric_families, pod_info_families, pod_metadata_families, pod_status_families,
  container_waiting_families, container_state_families, container_reason_families,
  container_ready_families, container_resource_families, pod_spec_families,
}
use kube_state_metrics.Store.ReplicaSet.{replica_set_family, replica_set_metric_families}
use kube_state_metrics.Store.ReplicationController.{
  replication_controller_family, replication_controller_metric_families,
}
use kube_state_metrics.Store.ResourceQuota.{resource_quota_family, resource_quota_metric_families}
use kube_state_metrics.Store.Secret.{secret_family, secret_metric_families}
use kube_state_metrics.Store.Service.{service_family, service_metric_families}
use kube_state_metrics.Store.StatefulSet.{
  stateful_set_family, stateful_set_metric_families, stateful_set_status_families,
  stateful_set_spec_families,
}
use kube_state_metrics.Store.StorageClass.{storage_class_family, storage_class_metric_families}
use kube_state_metrics.Store.ValidatingWebhookConfiguration.{
  validating_webhook_configuration_family, validating_webhook_configuration_metric_families,
}
use kube_state_metrics.Store.VolumeAttachment.{
  volume_attachment_family, volume_attachment_metric_families,
}
use kube_state_metrics.Store.VerticalPodAutoscaler.{
  vpa_family, vpa_metric_families, vpa_spec_families, vpa_status_families,
}

-- The resource and the place of each family, under its name.
abbrev entries : {F Obj : Type 0} → Kind → ℕ → List (FamilyGenerator F Obj) → Map (Kind × ℕ)
entries k i [] = []
entries k i (g ∷ gens) = (g.name, (k, i)) ∷ entries k (suc i) gens

module _ (fl : Float64) (pk : Packages) where
  all_entries : List Kind → Map (Kind × ℕ)
  all_entries [] = []
  all_entries (k ∷ ks) = entries k 0 (store_families fl pk k) ++ all_entries ks

  abbrev all_kinds : List Kind
  all_kinds =
      csr ∷ config_map ∷ cron_job ∷ daemon_set ∷ deployment ∷ endpoints ∷ hpa ∷ ingress ∷ job
      ∷ leases ∷ limit_range ∷ mutating_webhook_configuration ∷ namespace ∷ network_policy ∷ node
      ∷ persistent_volume_claim ∷ persistent_volume ∷ pod_disruption_budget ∷ pod ∷ replica_set
      ∷ replication_controller ∷ resource_quota ∷ secret ∷ service ∷ stateful_set ∷ storage_class
      ∷ validating_webhook_configuration ∷ volume_attachment ∷ vpa ∷ []

  places : Map (Kind × ℕ)
  unfolding all_entries
  places = all_entries all_kinds

  -- The families of a resource from a place on are found under their names.
  abbrev Found : {Obj : Type 0} → Kind → ℕ → List (FamilyGenerator fl.F Obj) → Type 0
  Found k i [] = Unit
  Found k i (g ∷ gens) = (lookup g.name places ≡ some (k, i)) × Found k (suc i) gens

  found : (k : Kind) → Found k 0 (store_families fl pk k)
  unfolding store_families places all_entries lookup ◌==◌ csr_family csr_metric_families
      config_map_family config_map_metric_families cron_job_family cron_job_metric_families
      daemon_set_family daemon_set_metric_families daemon_set_status_families
      daemon_set_spec_families deployment_family deployment_metric_families
      deployment_status_families deployment_spec_families endpoint_family endpoint_metric_families
      hpa_family hpa_metric_families hpa_spec_families hpa_status_families ingress_family
      ingress_metric_families job_family job_metric_families lease_family lease_metric_families
      limit_range_family limit_range_metric_families mutating_webhook_configuration_family
      mutating_webhook_configuration_metric_families namespace_family namespace_metric_families
      network_policy_family network_policy_metric_families node_family node_metric_families
      node_spec_families node_status_families persistent_volume_claim_family
      persistent_volume_claim_metric_families persistent_volume_family
      persistent_volume_metric_families pod_disruption_budget_family
      pod_disruption_budget_metric_families pod_family pod_metric_families pod_info_families
      pod_metadata_families pod_status_families container_waiting_families container_state_families
      container_reason_families container_ready_families container_resource_families
      pod_spec_families replica_set_family replica_set_metric_families replication_controller_family
      replication_controller_metric_families resource_quota_family resource_quota_metric_families
      secret_family secret_metric_families service_family service_metric_families
      stateful_set_family stateful_set_metric_families stateful_set_status_families
      stateful_set_spec_families storage_class_family storage_class_metric_families
      validating_webhook_configuration_family validating_webhook_configuration_metric_families
      volume_attachment_family volume_attachment_metric_families vpa_family vpa_metric_families
      vpa_spec_families vpa_status_families
  found csr = refl ⊗ refl ⊗ refl ⊗ refl ⊗ tt
  found config_map = refl ⊗ refl ⊗ refl ⊗ tt
  found cron_job = refl ⊗ refl ⊗ refl ⊗ refl ⊗ refl ⊗ refl ⊗ refl ⊗ refl ⊗ tt
  found daemon_set = refl ⊗ refl ⊗ refl ⊗ refl ⊗ refl ⊗ refl ⊗ refl ⊗ refl ⊗ refl ⊗ refl ⊗ tt
  found deployment =
      refl ⊗ refl ⊗ refl ⊗ refl ⊗ refl ⊗ refl ⊗ refl ⊗ refl ⊗ refl ⊗ refl ⊗ refl ⊗ refl ⊗ refl ⊗ tt
  found endpoints = refl ⊗ refl ⊗ refl ⊗ refl ⊗ refl ⊗ tt
  found hpa = refl ⊗ refl ⊗ refl ⊗ refl ⊗ refl ⊗ refl ⊗ refl ⊗ refl ⊗ tt
  found ingress = refl ⊗ refl ⊗ refl ⊗ refl ⊗ refl ⊗ refl ⊗ tt
  found job =
      refl ⊗ refl ⊗ refl ⊗ refl ⊗ refl ⊗ refl ⊗ refl ⊗ refl ⊗ refl ⊗ refl ⊗ refl ⊗ refl ⊗ refl
      ⊗ refl ⊗ tt
  found leases = refl ⊗ refl ⊗ tt
  found limit_range = refl ⊗ refl ⊗ tt
  found mutating_webhook_configuration = refl ⊗ refl ⊗ refl ⊗ tt
  found namespace = refl ⊗ refl ⊗ refl ⊗ refl ⊗ tt
  found network_policy = refl ⊗ refl ⊗ refl ⊗ refl ⊗ tt
  found node = refl ⊗ refl ⊗ refl ⊗ refl ⊗ refl ⊗ refl ⊗ refl ⊗ refl ⊗ refl ⊗ tt
  found persistent_volume_claim = refl ⊗ refl ⊗ refl ⊗ refl ⊗ refl ⊗ refl ⊗ tt
  found persistent_volume = refl ⊗ refl ⊗ refl ⊗ refl ⊗ tt
  found pod_disruption_budget = refl ⊗ refl ⊗ refl ⊗ refl ⊗ refl ⊗ refl ⊗ tt
  found pod =
      refl ⊗ refl ⊗ refl ⊗ refl ⊗ refl ⊗ refl ⊗ refl ⊗ refl ⊗ refl ⊗ refl ⊗ refl ⊗ refl ⊗ refl
      ⊗ refl ⊗ refl ⊗ refl ⊗ refl ⊗ refl ⊗ refl ⊗ refl ⊗ refl ⊗ refl ⊗ refl ⊗ refl ⊗ refl ⊗ refl
      ⊗ refl ⊗ refl ⊗ refl ⊗ refl ⊗ refl ⊗ refl ⊗ refl ⊗ refl ⊗ refl ⊗ refl ⊗ refl ⊗ refl ⊗ tt
  found replica_set = refl ⊗ refl ⊗ refl ⊗ refl ⊗ refl ⊗ refl ⊗ refl ⊗ refl ⊗ refl ⊗ tt
  found replication_controller = refl ⊗ refl ⊗ refl ⊗ refl ⊗ refl ⊗ refl ⊗ refl ⊗ refl ⊗ refl ⊗ tt
  found resource_quota = refl ⊗ refl ⊗ tt
  found secret = refl ⊗ refl ⊗ refl ⊗ refl ⊗ refl ⊗ tt
  found service = refl ⊗ refl ⊗ refl ⊗ refl ⊗ refl ⊗ refl ⊗ tt
  found stateful_set =
      refl ⊗ refl ⊗ refl ⊗ refl ⊗ refl ⊗ refl ⊗ refl ⊗ refl ⊗ refl ⊗ refl ⊗ refl ⊗ tt
  found storage_class = refl ⊗ refl ⊗ refl ⊗ tt
  found validating_webhook_configuration = refl ⊗ refl ⊗ refl ⊗ tt
  found volume_attachment = refl ⊗ refl ⊗ refl ⊗ refl ⊗ refl ⊗ refl ⊗ tt
  found vpa = refl ⊗ refl ⊗ refl ⊗ refl ⊗ refl ⊗ refl ⊗ refl ⊗ refl ⊗ tt

  Found-lookup :
      {Obj : Type 0} (k : Kind) (i j : ℕ) (gens : List (FamilyGenerator fl.F Obj))
      (g : FamilyGenerator fl.F Obj)
      → Found k i gens
      → get_elem? gens j ≡ some g
      → lookup g.name places ≡ some (k, j + i)
  Found-lookup k i j [] g f h = cc h
  Found-lookup k i zero (g' ∷ gens) g (f, fs) h =
      let same : g ≡ g' = cc h in
      ap (λ (x : FamilyGenerator fl.F _). lookup x.name places) same
      ∙ f
      ∙ ap (λ n. some (k, n)) (omega arith)
  Found-lookup k i (suc j) (g' ∷ gens) g (f, fs) h =
      Found-lookup k (suc i) j gens g fs h ∙ ap (λ n. some (k, n)) (omega arith)

  -- A family's name says which resource it is of and which of its families it is: two families of one
  -- name are the same family of the same resource, so the stores of different resources never
  -- expose the same family.
  pub family_names_distinct :
      (k k' : Kind) (i j : ℕ) (g : FamilyGenerator fl.F (Object pk k))
      (g' : FamilyGenerator fl.F (Object pk k'))
      → get_elem? (store_families fl pk k) i ≡ some g
      → get_elem? (store_families fl pk k') j ≡ some g'
      → g.name ≡ g'.name
      → (k ≡ k') × (i ≡ j)
  family_names_distinct k k' i j g g' h h' same =
      let at = Found-lookup k 0 i (store_families fl pk k) g (found k) h in
      let at' = Found-lookup k' 0 j (store_families fl pk k') g' (found k') h' in
      let e = sym at ∙ ap (λ name. lookup name places) same ∙ at' in
      let places_equal : i + 0 ≡ j + 0 = cc e in (cc e, omega (arith, places_equal))
