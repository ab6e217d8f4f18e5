-- ===== src/Store.antt =====
-- What the stores of internal/store share: internal/store/utils.go, on ASCII texts.
pub mod Conditions
pub mod Labels
pub mod Packages
pub mod Shapes
pub mod Wrapped
pub mod Render
pub mod Job
pub mod ReplicaSet
pub mod CronJob
pub mod Deployment
pub mod StatefulSet
pub mod DaemonSet
pub mod ReplicationController
pub mod PodDisruptionBudget
pub mod Node
pub mod VerticalPodAutoscaler
pub mod Pod
pub mod HorizontalPodAutoscaler
pub mod Namespace
pub mod ConfigMap
pub mod Secret
pub mod Service
pub mod Endpoints
pub mod Ingress
pub mod Lease
pub mod NetworkPolicy
pub mod PersistentVolume
pub mod PersistentVolumeClaim
pub mod ResourceQuota
pub mod LimitRange
pub mod StorageClass
pub mod CertificateSigningRequest
pub mod VolumeAttachment
pub mod MutatingWebhookConfiguration
pub mod ValidatingWebhookConfiguration
pub mod Registry
pub mod Tests
use kube_state_metrics.Prelude.{
  ℕ, ◌+◌, Bool, true, false, not, ◌&&◌, ◌||◌, none, some, List, [], ◌∷◌, ◌++◌, leb, nat_beq,
  if◌then◌else◌,
}
use kube_state_metrics.Prelude.Text.{Bytes, codes, ◌==◌}
use kube_state_metrics.Prelude.Assoc.{Map, lookup, keys}
use kube_state_metrics.Prelude.Int.{pos}
use kube_state_metrics.Go.Strings.{has_prefix, contains}
use kube_state_metrics.Go.Sort.{sort_strings}
use kube_state_metrics.Metric.{Float64, Metric}

-- v1.ConditionTrue, v1.ConditionFalse and v1.ConditionUnknown
abbrev pub condition_statuses : List Bytes
condition_statuses = codes "True" ∷ codes "False" ∷ codes "Unknown" ∷ []

-- strings.ToLower
unfoldable pub to_lower : Bytes → Bytes
to_lower [] = []
to_lower (c ∷ s) = let rest = to_lower s in (if leb b'A' c && leb c b'Z' then c + 32 else c) ∷ rest

module _ (fl : Float64) where
  open fl use {F, of_int}

  -- boolFloat64
  unfoldable pub bool_float64 : Bool → F
  bool_float64 true = of_int (pos 1)
  bool_float64 false = of_int (pos 0)

  -- resourceVersionMetric
  unfoldable pub resource_version_metric : Bytes → List (Metric F)
  resource_version_metric rv = elim (fl.parse_float rv) [
    | none ↦ []
    | some v ↦ record { label_keys = []; label_values = []; value = v } ∷ []
  ]

  -- The loop of addConditionMetrics, which fills a slice of the same length.
  condition_metrics : Bytes → List Bytes → List (Metric F)
  unfolding bool_float64 to_lower ◌==◌
  condition_metrics cs [] = []
  condition_metrics cs (status ∷ statuses) =
      record {
        label_keys = [];
        label_values = to_lower status ∷ [];
        value = bool_float64 (cs == status);
      }
      ∷ condition_metrics cs statuses

  -- addConditionMetrics
  unfoldable pub add_condition_metrics : Bytes → List (Metric F)
  unfolding condition_metrics
  add_condition_metrics cs = condition_metrics cs condition_statuses

-- What invalidLabelCharRE does not match.
unfoldable pub is_label_char : ℕ → Bool
is_label_char c =
    (leb b'a' c && leb c b'z')
    || (leb b'A' c && leb c b'Z')
    || (leb b'0' c && leb c b'9')
    || nat_beq c b'_'

-- sanitizeLabelName
unfoldable pub sanitize_label_name : Bytes → Bytes
unfolding is_label_char
sanitize_label_name [] = []
sanitize_label_name (c ∷ s) =
    let rest = sanitize_label_name s in (if is_label_char c then c else b'_') ∷ rest

-- labels[k], which is the empty text if there is none.
unfoldable pub value_of : Map Bytes → Bytes → Bytes
unfolding lookup
value_of labels k = elim (lookup k labels) [ none ↦ [] | some v ↦ v ]

-- The loop of mapToPrometheusLabels over the sorted keys.
unfoldable pub label_pairs : Map Bytes → Bytes → List Bytes → List Bytes × List Bytes
unfolding value_of
label_pairs labels prefix [] = ([], [])
label_pairs labels prefix (k ∷ label_keys) =
    let (ks, vs) = label_pairs labels prefix label_keys in
    ((prefix ++ codes "_" ++ sanitize_label_name k) ∷ ks, value_of labels k ∷ vs)

-- mapToPrometheusLabels
unfoldable pub map_to_prometheus_labels : Map Bytes → Bytes → List Bytes × List Bytes
unfolding label_pairs
map_to_prometheus_labels labels prefix = label_pairs labels prefix (sort_strings (keys labels))

-- kubeLabelsToPrometheusLabels
unfoldable pub kube_labels_to_prometheus_labels : Map Bytes → List Bytes × List Bytes
kube_labels_to_prometheus_labels labels = map_to_prometheus_labels labels (codes "label")

-- isHugePageResourceName
unfoldable pub is_huge_page_resource_name : Bytes → Bool
is_huge_page_resource_name name = has_prefix name (codes "hugepages-")

-- isAttachableVolumeResourceName
unfoldable pub is_attachable_volume_resource_name : Bytes → Bool
is_attachable_volume_resource_name name = has_prefix name (codes "attachable-volumes-")

-- isPrefixedNativeResource
unfoldable pub is_prefixed_native_resource : Bytes → Bool
is_prefixed_native_resource name = contains name (codes "kubernetes.io/")

-- isNativeResource
unfoldable pub is_native_resource : Bytes → Bool
unfolding is_prefixed_native_resource
is_native_resource name = not (contains name (codes "/")) || is_prefixed_native_resource name

-- isExtendedResourceName, for the errors of validation.IsQualifiedName
unfoldable pub is_extended_resource_name : (Bytes → List Bytes) → Bytes → Bool
unfolding is_native_resource
is_extended_resource_name is_qualified_name name =
    if is_native_resource name || has_prefix name (codes "requests.")
    then false
    else elim (is_qualified_name (codes "requests." ++ name)) [ [] ↦ true | e ∷ errs ↦ false ]
