-- ===== src/Options.antt =====
-- Command-line values: pkg/options/types.go, resource.go and options.go. The sets are maps to Unit,
-- in an order that Go chooses; a method with a pointer receiver returns what it points to after.
pub mod Plain
pub mod MetricSet
pub mod ResourceSet
pub mod NamespaceList
pub mod Tests
use kube_state_metrics.Prelude.{Bool, false, List, [], ◌∷◌}
use kube_state_metrics.Prelude.Text.{Bytes, codes}
use kube_state_metrics.Prelude.Int.{ℤ, pos}
use kube_state_metrics.AllowDenyList.{StringSet}
use NamespaceList.{namespace_all}

-- DefaultNamespaces
abbrev pub default_namespaces : List Bytes
default_namespaces = namespace_all ∷ []

-- DefaultResources
abbrev pub default_resources : StringSet
default_resources =
    (codes "certificatesigningrequests", tt)
    ∷ (codes "configmaps", tt)
    ∷ (codes "cronjobs", tt)
    ∷ (codes "daemonsets", tt)
    ∷ (codes "deployments", tt)
    ∷ (codes "endpoints", tt)
    ∷ (codes "horizontalpodautoscalers", tt)
    ∷ (codes "ingresses", tt)
    ∷ (codes "jobs", tt)
    ∷ (codes "leases", tt)
    ∷ (codes "limitranges", tt)
    ∷ (codes "mutatingwebhookconfigurations", tt)
    ∷ (codes "namespaces", tt)
    ∷ (codes "networkpolicies", tt)
    ∷ (codes "nodes", tt)
    ∷ (codes "persistentvolumes", tt)
    ∷ (codes "persistentvolumeclaims", tt)
    ∷ (codes "poddisruptionbudgets", tt)
    ∷ (codes "pods", tt)
    ∷ (codes "replicasets", tt)
    ∷ (codes "replicationcontrollers", tt)
    ∷ (codes "resourcequotas", tt)
    ∷ (codes "secrets", tt)
    ∷ (codes "services", tt)
    ∷ (codes "statefulsets", tt)
    ∷ (codes "storageclasses", tt)
    ∷ (codes "validatingwebhookconfigurations", tt)
    ∷ (codes "volumeattachments", tt)
    ∷ []

-- Options; the flag set that it points to is pflag's.
pub record Options : Type 0 where
  pub apiserver : Bytes
  pub kubeconfig : Bytes
  pub help : Bool
  pub port : ℤ
  pub host : Bytes
  pub telemetry_port : ℤ
  pub telemetry_host : Bytes
  pub resources : StringSet
  pub namespaces : List Bytes
  pub shard : ℤ
  pub total_shards : ℤ
  pub pod : Bytes
  pub namespace : Bytes
  pub metric_denylist : StringSet
  pub metric_allowlist : StringSet
  pub version : Bool
  pub enable_gzip_encoding : Bool

-- NewOptions
unfoldable pub new_options : Options
new_options = record {
  apiserver = [];
  kubeconfig = [];
  help = false;
  port = pos 0;
  host = [];
  telemetry_port = pos 0;
  telemetry_host = [];
  resources = [];
  namespaces = [];
  shard = pos 0;
  total_shards = pos 0;
  pod = [];
  namespace = [];
  metric_denylist = [];
  metric_allowlist = [];
  version = false;
  enable_gzip_encoding = false;
}

-- AddFlags: to register a flag sets its variable to the default; `Var` leaves it as it is.
unfoldable pub add_flags : Options → Options
add_flags o = record o {
  apiserver = [];
  kubeconfig = [];
  help = false;
  port = pos 8080;
  host = codes "0.0.0.0";
  telemetry_port = pos 8081;
  telemetry_host = codes "0.0.0.0";
  shard = pos 0;
  total_shards = pos 1;
  pod = [];
  namespace = [];
  version = false;
  enable_gzip_encoding = false;
}
