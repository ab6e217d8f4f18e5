-- ===== src/Store/Node.antt =====
-- The families of nodes: internal/store/node.go. The creation time is none if it is zero. A map
-- is the list of its entries in the order in which Go visits them.
pub mod Laws
use kube_state_metrics.Prelude.{Bool, ◌||◌, Option, List, [], ◌∷◌, ◌++◌, if◌then◌else◌}
use kube_state_metrics.Prelude.Text.{Bytes, codes, ◌==◌}
use kube_state_metrics.Prelude.Assoc.{Map}
use kube_state_metrics.Prelude.Int.{ℤ, pos}
use kube_state_metrics.Prelude.Result.{Result, ok}
use kube_state_metrics.Metric.{Float64, Metric, Family, gauge}
use kube_state_metrics.Generator.{FamilyGenerator}
use kube_state_metrics.Store.{
  bool_float64, sanitize_label_name, is_huge_page_resource_name, is_attachable_volume_resource_name,
  is_extended_resource_name,
}
use kube_state_metrics.Store.Packages.{Packages}
use kube_state_metrics.Store.Wrapped.{wrap_func}
use kube_state_metrics.Store.Shapes.{
  value_metric, labelled_metric, optional_metric, object_labels, Condition, status_conditions,
  infos, milli, when, flat_map,
}
use kube_state_metrics.Go.Strings.{has_prefix, trim_prefix}

-- v1.Taint
pub record Taint : Type 0 where
  pub key : Bytes
  pub value : Bytes
  pub effect : Bytes

-- v1.Node, as far as the families read it.
pub record Node (pk : Packages) : Type 0 where
  pub name : Bytes
  pub labels : Map Bytes
  pub creation_timestamp : Option ℤ
  pub kernel_version : Bytes
  pub os_image : Bytes
  pub container_runtime_version : Bytes
  pub kubelet_version : Bytes
  pub kube_proxy_version : Bytes
  pub provider_id : Bytes
  pub pod_cidr : Bytes
  pub unschedulable : Bool
  pub taints : List Taint
  pub conditions : List Condition
  pub capacity : Map pk.Quantity
  pub allocatable : Map pk.Quantity

-- descNodeLabelsDefaultLabels
abbrev pub desc_node_labels_default_labels : List Bytes
desc_node_labels_default_labels = codes "node" ∷ []

abbrev pub node_values : {pk : Packages} → (Node pk) → List Bytes
node_values n = n.name ∷ []

abbrev pub role_prefix : Bytes
role_prefix = codes "node-role.kubernetes.io/"

module _ (fl : Float64) (pk : Packages) where
  open fl use {F, of_int}

  -- The metrics of kube_node_role for one label.
  unfoldable pub role_metrics : Bytes × Bytes → List (Metric F)
  role_metrics (lbl, v) =
      when (has_prefix lbl role_prefix)
        (labelled_metric fl (codes "role" ∷ []) (trim_prefix lbl role_prefix ∷ []) (of_int (pos 1)))

  -- A metric for one resource, with its unit.
  abbrev pub unit_metric : Bytes → Bytes → pk.Quantity → Metric F
  unit_metric unit name val =
      labelled_metric fl (codes "resource" ∷ codes "unit" ∷ [])
        (sanitize_label_name name ∷ unit ∷ []) (milli fl pk val)

  -- The body of the loop over the capacity, by the name of the resource.
  unfoldable pub capacity_metrics : Bytes × pk.Quantity → List (Metric F)
  capacity_metrics (name, val) =
      if name == codes "cpu"
      then unit_metric (codes "core") name val ∷ []
      else if name == codes "storage" || name == codes "ephemeral-storage" || name == codes "memory"
      then unit_metric (codes "byte") name val ∷ []
      else if name == codes "pods"
      then unit_metric (codes "integer") name val ∷ []
      else when (is_huge_page_resource_name name) (unit_metric (codes "byte") name val)
        ++ (when (is_attachable_volume_resource_name name) (unit_metric (codes "byte") name val)
            ++ when (is_extended_resource_name pk.is_qualified_name name)
                (unit_metric (codes "integer") name val))

  -- The body of the loop over what is allocatable, which is the same.
  unfoldable pub allocatable_metrics : Bytes × pk.Quantity → List (Metric F)
  allocatable_metrics = capacity_metrics

  -- The function that wraps the families', for the metrics that it is given.
  unfoldable pub wrap_node_func :
      ((Node pk) → Result (List (Metric F))) → (Node pk) → Result (Family F)
  wrap_node_func = wrap_func desc_node_labels_default_labels node_values

  unfoldable pub node_family :
      Bytes → Bytes → ((Node pk) → List (Metric F)) → FamilyGenerator F (Node pk)
  node_family name help f = record {
    name = name;
    help = help;
    type = gauge;
    generate_func = wrap_node_func (λ n. ok (f n));
  }

  unfoldable pub node_spec_families : List (FamilyGenerator F (Node pk))
  unfolding node_family role_metrics
  node_spec_families =
      node_family (codes "kube_node_info") (codes "Information about a cluster node.") (λ n.
        labelled_metric fl
          (codes "kernel_version"
            ∷ codes "os_image"
            ∷ codes "container_runtime_version"
            ∷ codes "kubelet_version"
            ∷ codes "kubeproxy_version"
            ∷ codes "provider_id"
            ∷ codes "pod_cidr"
            ∷ [])
          (n.kernel_version ∷ n.os_image ∷ n.container_runtime_version ∷ n.kubelet_version
            ∷ n.kube_proxy_version ∷ n.provider_id ∷ n.pod_cidr ∷ [])
          (of_int (pos 1))
        ∷ [])
      ∷ node_family (codes "kube_node_created") (codes "Unix creation timestamp")
          (λ n. optional_metric fl n.creation_timestamp)
      ∷ node_family (codes "kube_node_labels")
          (codes "Kubernetes labels converted to Prometheus labels.")
          (λ n. object_labels fl n.labels)
      ∷ node_family (codes "kube_node_role") (codes "The role of a cluster node.")
          (λ n. flat_map role_metrics n.labels)
      ∷ node_family (codes "kube_node_spec_unschedulable")
          (codes "Whether a node can schedule new pods.")
          (λ n. value_metric fl (bool_float64 fl n.unschedulable) ∷ [])
      ∷ node_family (codes "kube_node_spec_taint") (codes "The taint of a cluster node.") (λ n.
        infos fl (codes "key" ∷ codes "value" ∷ codes "effect" ∷ [])
          (λ t. t.key ∷ t.value ∷ t.effect ∷ []) n.taints)
      ∷ []

  unfoldable pub node_status_families : List (FamilyGenerator F (Node pk))
  unfolding node_family capacity_metrics allocatable_metrics
  node_status_families =
      node_family (codes "kube_node_status_condition") (codes "The condition of a cluster node.")
        (λ n. status_conditions fl n.conditions)
      ∷ node_family (codes "kube_node_status_capacity")
          (codes "The capacity for different resources of a node.")
          (λ n. flat_map capacity_metrics n.capacity)
      ∷ node_family (codes "kube_node_status_allocatable")
          (codes
            "The allocatable for different resources of a node that are available for scheduling.")
          (λ n. flat_map allocatable_metrics n.allocatable)
      ∷ []

  -- The family generators of the file.
  unfoldable pub node_metric_families : List (FamilyGenerator F (Node pk))
  unfolding node_spec_families node_status_families
  node_metric_families = node_spec_families ++ (node_status_families)
