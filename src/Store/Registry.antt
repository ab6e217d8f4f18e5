-- ===== src/Store/Registry.antt =====
-- The families, the objects and the labels of each resource, as the build functions of
-- internal/store/builder.go hand the families to a store.
pub mod Readable
pub mod Laws
pub mod Stores
pub mod Names
pub mod Tests
use kube_state_metrics.Prelude.{Option, none, some, List, [], ◌∷◌}
use kube_state_metrics.Prelude.Text.{Bytes}
use kube_state_metrics.Metric.{Float64}
use kube_state_metrics.Generator.{FamilyGenerator}
use kube_state_metrics.Builder.{
  Kind, csr, config_map, cron_job, daemon_set, deployment, endpoints, hpa, ingress, job, leases,
  limit_range, mutating_webhook_configuration, namespace, network_policy, node,
  persistent_volume_claim, persistent_volume, pod_disruption_budget, pod, replica_set,
  replication_controller, resource_quota, secret, service, stateful_set, storage_class,
  validating_webhook_configuration, volume_attachment, vpa,
}
use kube_state_metrics.Store.Packages.{Packages}
use kube_state_metrics.Store.CertificateSigningRequest.{
  CertificateSigningRequest, desc_csr_labels_default_labels, csr_values, csr_metric_families,
}
use kube_state_metrics.Store.ConfigMap.{
  ConfigMap, desc_config_map_labels_default_labels, config_map_values, config_map_metric_families,
}
use kube_state_metrics.Store.CronJob.{
  CronJob, desc_cron_job_labels_default_labels, cron_job_values, cron_job_metric_families,
}
use kube_state_metrics.Store.DaemonSet.{
  DaemonSet, desc_daemon_set_labels_default_labels, daemon_set_values, daemon_set_metric_families,
}
use kube_state_metrics.Store.Deployment.{
  Deployment, desc_deployment_labels_default_labels, deployment_values, deployment_metric_families,
}
use kube_state_metrics.Store.Endpoints.{
  Endpoints, desc_endpoint_labels_default_labels, endpoint_values, endpoint_metric_families,
}
use kube_state_metrics.Store.HorizontalPodAutoscaler.{
  HorizontalPodAutoscaler, desc_hpa_labels_default_labels, hpa_values, hpa_metric_families,
}
use kube_state_metrics.Store.Ingress.{
  Ingress, desc_ingress_labels_default_labels, ingress_values, ingress_metric_families,
}
use kube_state_metrics.Store.Job.{Job, desc_job_labels_default_labels, job_metric_families}
use kube_state_metrics.Store.Lease.{
  Lease, desc_lease_labels_default_labels, lease_values, lease_metric_families,
}
use kube_state_metrics.Store.LimitRange.{
  LimitRange, desc_limit_range_labels_default_labels, limit_range_values,
  limit_range_metric_families,
}
use kube_state_metrics.Store.MutatingWebhookConfiguration.{
  MutatingWebhookConfiguration, desc_mutating_webhook_configuration_labels_default_labels,
  mutating_webhook_configuration_values, mutating_webhook_configuration_metric_families,
}
use kube_state_metrics.Store.Namespace.{
  Namespace, desc_namespace_labels_default_labels, namespace_values, namespace_metric_families,
}
use kube_state_metrics.Store.NetworkPolicy.{
  NetworkPolicy, desc_network_policy_labels_default_labels, network_policy_values,
  network_policy_metric_families,
}
use kube_state_metrics.Store.Node.{
  Node, desc_node_labels_default_labels, node_values, node_metric_families,
}
use kube_state_metrics.Store.PersistentVolumeClaim.{
  PersistentVolumeClaim, desc_persistent_volume_claim_labels_default_labels,
  persistent_volume_claim_values, persistent_volume_claim_metric_families,
}
use kube_state_metrics.Store.PersistentVolume.{
  PersistentVolume, desc_persistent_volume_labels_default_labels, persistent_volume_values,
  persistent_volume_metric_families,
}
use kube_state_metrics.Store.PodDisruptionBudget.{
  PodDisruptionBudget, desc_pod_disruption_budget_labels_default_labels,
  pod_disruption_budget_values, pod_disruption_budget_metric_families,
}
use kube_state_metrics.Store.Pod.Objects.{Pod}
use kube_state_metrics.Store.Pod.{desc_pod_labels_default_labels, pod_values, pod_metric_families}
use kube_state_metrics.Store.ReplicaSet.{
  ReplicaSet, desc_replica_set_labels_default_labels, replica_set_metric_families,
}
use kube_state_metrics.Store.ReplicationController.{
  ReplicationController, desc_replication_controller_labels_default_labels,
  replication_controller_values, replication_controller_metric_families,
}
use kube_state_metrics.Store.ResourceQuota.{
  ResourceQuota, desc_resource_quota_labels_default_labels, resource_quota_values,
  resource_quota_metric_families,
}
use kube_state_metrics.Store.Secret.{
  Secret, desc_secret_labels_default_labels, secret_values, secret_metric_families,
}
use kube_state_metrics.Store.Service.{
  Service, desc_service_labels_default_labels, service_values, service_metric_families,
}
use kube_state_metrics.Store.StatefulSet.{
  StatefulSet, desc_stateful_set_labels_default_labels, stateful_set_values,
  stateful_set_metric_families,
}
use kube_state_metrics.Store.StorageClass.{
  StorageClass, desc_storage_class_labels_default_labels, storage_class_values,
  storage_class_metric_families,
}
use kube_state_metrics.Store.ValidatingWebhookConfiguration.{
  ValidatingWebhookConfiguration, desc_validating_webhook_configuration_labels_default_labels,
  validating_webhook_configuration_values, validating_webhook_configuration_metric_families,
}
use kube_state_metrics.Store.VolumeAttachment.{
  VolumeAttachment, desc_volume_attachment_labels_default_labels, volume_attachment_values,
  volume_attachment_metric_families,
}
use kube_state_metrics.Store.VerticalPodAutoscaler.{
  VerticalPodAutoscaler, desc_vpa_labels_default_labels, vpa_values, TargetRef, vpa_metric_families,
}

-- The type of the objects of a resource.
abbrev pub Object : Packages → Kind → Type 0
Object pk k = elim k [
  | csr ↦ CertificateSigningRequest
  | config_map ↦ ConfigMap
  | cron_job ↦ CronJob
  | daemon_set ↦ DaemonSet
  | deployment ↦ Deployment pk
  | endpoints ↦ Endpoints
  | hpa ↦ HorizontalPodAutoscaler pk
  | ingress ↦ Ingress pk
  | job ↦ Job
  | leases ↦ Lease
  | limit_range ↦ LimitRange pk
  | mutating_webhook_configuration ↦ MutatingWebhookConfiguration
  | namespace ↦ Namespace
  | network_policy ↦ NetworkPolicy
  | node ↦ Node pk
  | persistent_volume_claim ↦ PersistentVolumeClaim pk
  | persistent_volume ↦ PersistentVolume pk
  | pod_disruption_budget ↦ PodDisruptionBudget
  | pod ↦ Pod pk
  | replica_set ↦ ReplicaSet
  | replication_controller ↦ ReplicationController
  | resource_quota ↦ ResourceQuota pk
  | secret ↦ Secret
  | service ↦ Service
  | stateful_set ↦ StatefulSet
  | storage_class ↦ StorageClass
  | validating_webhook_configuration ↦ ValidatingWebhookConfiguration
  | volume_attachment ↦ VolumeAttachment
  | vpa ↦ VerticalPodAutoscaler pk
]

-- The families that buildConfigMapStore and the like build the store of a resource from.
unfoldable pub store_families :
    (fl : Float64) (pk : Packages) (k : Kind) → List (FamilyGenerator fl.F (Object pk k))
store_families fl pk csr = csr_metric_families fl
store_families fl pk config_map = config_map_metric_families fl
store_families fl pk cron_job = cron_job_metric_families fl pk
store_families fl pk daemon_set = daemon_set_metric_families fl
store_families fl pk deployment = deployment_metric_families fl pk
store_families fl pk endpoints = endpoint_metric_families fl
store_families fl pk hpa = hpa_metric_families fl pk
store_families fl pk ingress = ingress_metric_families fl pk
store_families fl pk job = job_metric_families fl
store_families fl pk leases = lease_metric_families fl
store_families fl pk limit_range = limit_range_metric_families fl pk
store_families fl pk mutating_webhook_configuration =
    mutating_webhook_configuration_metric_families fl
store_families fl pk namespace = namespace_metric_families fl
store_families fl pk network_policy = network_policy_metric_families fl
store_families fl pk node = node_metric_families fl pk
store_families fl pk persistent_volume_claim = persistent_volume_claim_metric_families fl pk
store_families fl pk persistent_volume = persistent_volume_metric_families fl pk
store_families fl pk pod_disruption_budget = pod_disruption_budget_metric_families fl
store_families fl pk pod = pod_metric_families fl pk
store_families fl pk replica_set = replica_set_metric_families fl
store_families fl pk replication_controller = replication_controller_metric_families fl
store_families fl pk resource_quota = resource_quota_metric_families fl pk
store_families fl pk secret = secret_metric_families fl
store_families fl pk service = service_metric_families fl
store_families fl pk stateful_set = stateful_set_metric_families fl
store_families fl pk storage_class = storage_class_metric_families fl
store_families fl pk validating_webhook_configuration =
    validating_webhook_configuration_metric_families fl
store_families fl pk volume_attachment = volume_attachment_metric_families fl
store_families fl pk vpa = vpa_metric_families fl pk

-- The labels that every series of a resource begins with.
abbrev pub default_labels : Kind → List Bytes
default_labels csr = desc_csr_labels_default_labels
default_labels config_map = desc_config_map_labels_default_labels
default_labels cron_job = desc_cron_job_labels_default_labels
default_labels daemon_set = desc_daemon_set_labels_default_labels
default_labels deployment = desc_deployment_labels_default_labels
default_labels endpoints = desc_endpoint_labels_default_labels
default_labels hpa = desc_hpa_labels_default_labels
default_labels ingress = desc_ingress_labels_default_labels
default_labels job = desc_job_labels_default_labels
default_labels leases = desc_lease_labels_default_labels
default_labels limit_range = desc_limit_range_labels_default_labels
default_labels mutating_webhook_configuration =
    desc_mutating_webhook_configuration_labels_default_labels
default_labels namespace = desc_namespace_labels_default_labels
default_labels network_policy = desc_network_policy_labels_default_labels
default_labels node = desc_node_labels_default_labels
default_labels persistent_volume_claim = desc_persistent_volume_claim_labels_default_labels
default_labels persistent_volume = desc_persistent_volume_labels_default_labels
default_labels pod_disruption_budget = desc_pod_disruption_budget_labels_default_labels
default_labels pod = desc_pod_labels_default_labels
default_labels replica_set = desc_replica_set_labels_default_labels
default_labels replication_controller = desc_replication_controller_labels_default_labels
default_labels resource_quota = desc_resource_quota_labels_default_labels
default_labels secret = desc_secret_labels_default_labels
default_labels service = desc_service_labels_default_labels
default_labels stateful_set = desc_stateful_set_labels_default_labels
default_labels storage_class = desc_storage_class_labels_default_labels
default_labels validating_webhook_configuration =
    desc_validating_webhook_configuration_labels_default_labels
default_labels volume_attachment = desc_volume_attachment_labels_default_labels
default_labels vpa = desc_vpa_labels_default_labels

abbrev pub vpa_label_values :
    {pk : Packages} → Option TargetRef → VerticalPodAutoscaler pk → List Bytes
vpa_label_values none a = []
vpa_label_values (some t) a = vpa_values t a

-- Their values for an object.
abbrev pub label_values : (pk : Packages) (k : Kind) → Object pk k → List Bytes
label_values pk csr o = csr_values o
label_values pk config_map o = config_map_values o
label_values pk cron_job o = cron_job_values o
label_values pk daemon_set o = daemon_set_values o
label_values pk deployment o = deployment_values o
label_values pk endpoints o = endpoint_values o
label_values pk hpa o = hpa_values o
label_values pk ingress o = ingress_values o
label_values pk job o = o.namespace ∷ o.name ∷ []
label_values pk leases o = lease_values o
label_values pk limit_range o = limit_range_values o
label_values pk mutating_webhook_configuration o = mutating_webhook_configuration_values o
label_values pk namespace o = namespace_values o
label_values pk network_policy o = network_policy_values o
label_values pk node o = node_values o
label_values pk persistent_volume_claim o = persistent_volume_claim_values o
label_values pk persistent_volume o = persistent_volume_values o
label_values pk pod_disruption_budget o = pod_disruption_budget_values o
label_values pk pod o = pod_values o
label_values pk replica_set o = o.namespace ∷ o.name ∷ []
label_values pk replication_controller o = replication_controller_values o
label_values pk resource_quota o = resource_quota_values o
label_values pk secret o = secret_values o
label_values pk service o = service_values o
label_values pk stateful_set o = stateful_set_values o
label_values pk storage_class o = storage_class_values o
label_values pk validating_webhook_configuration o = validating_webhook_configuration_values o
label_values pk volume_attachment o = volume_attachment_values o
label_values pk vpa o = vpa_label_values o.target_ref o
