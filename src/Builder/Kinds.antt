-- ===== src/Builder/Kinds.antt =====
-- The resources that have a store: availableStores of internal/store/builder.go.
use kube_state_metrics.Prelude.{Bool, [], ◌∷◌}
use kube_state_metrics.Prelude.Text.{Bytes, codes, ◌==◌}
use kube_state_metrics.Prelude.Assoc.{Map, has, lookup}

pub data Kind : Type 0 where
  csr config_map cron_job daemon_set deployment endpoints hpa ingress job leases limit_range
        mutating_webhook_configuration namespace network_policy node persistent_volume_claim
        persistent_volume pod_disruption_budget pod replica_set replication_controller
        resource_quota secret service stateful_set storage_class validating_webhook_configuration
        volume_attachment vpa :
      Kind

-- availableStores
abbrev pub available_stores : Map Kind
available_stores =
    (codes "certificatesigningrequests", csr)
    ∷ (codes "configmaps", config_map)
    ∷ (codes "cronjobs", cron_job)
    ∷ (codes "daemonsets", daemon_set)
    ∷ (codes "deployments", deployment)
    ∷ (codes "endpoints", endpoints)
    ∷ (codes "horizontalpodautoscalers", hpa)
    ∷ (codes "ingresses", ingress)
    ∷ (codes "jobs", job)
    ∷ (codes "leases", leases)
    ∷ (codes "limitranges", limit_range)
    ∷ (codes "mutatingwebhookconfigurations", mutating_webhook_configuration)
    ∷ (codes "namespaces", namespace)
    ∷ (codes "networkpolicies", network_policy)
    ∷ (codes "nodes", node)
    ∷ (codes "persistentvolumeclaims", persistent_volume_claim)
    ∷ (codes "persistentvolumes", persistent_volume)
    ∷ (codes "poddisruptionbudgets", pod_disruption_budget)
    ∷ (codes "pods", pod)
    ∷ (codes "replicasets", replica_set)
    ∷ (codes "replicationcontrollers", replication_controller)
    ∷ (codes "resourcequotas", resource_quota)
    ∷ (codes "secrets", secret)
    ∷ (codes "services", service)
    ∷ (codes "statefulsets", stateful_set)
    ∷ (codes "storageclasses", storage_class)
    ∷ (codes "validatingwebhookconfigurations", validating_webhook_configuration)
    ∷ (codes "volumeattachments", volume_attachment)
    ∷ (codes "verticalpodautoscalers", vpa)
    ∷ []

-- resourceExists
unfoldable pub resource_exists : Bytes → Bool
unfolding lookup ◌==◌
resource_exists name = has name available_stores
