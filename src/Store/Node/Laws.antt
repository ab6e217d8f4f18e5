-- ===== src/Store/Node/Laws.antt =====
-- The labels and the texts of the families of nodes.
use kube_state_metrics.Prelude.{◌⊗◌, refl, Bool, [], ◌∷◌, All, All-append, ◌||◌}
use kube_state_metrics.Prelude.Text.{Bytes, codes, ◌==◌}
use kube_state_metrics.Metric.{Float64}
use kube_state_metrics.Metric.Lines.{Aligned}
use kube_state_metrics.Store.Packages.{Packages}
use kube_state_metrics.Store.Shapes.{
  object_labels-Aligned, optional_metric-Aligned, status_conditions-Aligned, infos-Aligned,
  flat_map-Aligned, when-Aligned, if-Aligned, when,
}
use kube_state_metrics.Store.Render.{BeginsWith, begins_lem}
use kube_state_metrics.Go.Strings.{has_prefix}
use kube_state_metrics.Store.{
  is_huge_page_resource_name, is_attachable_volume_resource_name, is_extended_resource_name,
}
use kube_state_metrics.Store.Node.{
  Node, desc_node_labels_default_labels, node_values, wrap_node_func, node_family,
  node_metric_families, node_spec_families, node_status_families, role_metrics, unit_metric,
  capacity_metrics, role_prefix,
}

module _ (fl : Float64) (pk : Packages) where
  role_metrics-Aligned : (e : Bytes × Bytes) → All Aligned (role_metrics fl pk e)
  unfolding role_metrics
  role_metrics-Aligned (lbl, v) = when-Aligned (has_prefix lbl role_prefix) _ refl

  capacity_metrics-Aligned : (e : Bytes × pk.Quantity) → All Aligned (capacity_metrics fl pk e)
  unfolding capacity_metrics
  capacity_metrics-Aligned (name, val) =
      let aligned =
        λ (b : Bool) (unit : Bytes). when-Aligned b (unit_metric fl pk unit name val) refl in
      if-Aligned (name == codes "cpu") (unit_metric fl pk (codes "core") name val ∷ []) _ (refl, tt)
        (if-Aligned
          (name == codes "storage" || name == codes "ephemeral-storage" || name == codes "memory")
          (unit_metric fl pk (codes "byte") name val ∷ []) _ (refl, tt)
          (if-Aligned (name == codes "pods") (unit_metric fl pk (codes "integer") name val ∷ []) _
            (refl, tt)
            (All-append Aligned (when (is_huge_page_resource_name name) _) _
              (aligned _ (codes "byte"))
              (All-append Aligned (when (is_attachable_volume_resource_name name) _) _
                (aligned _ (codes "byte"))
                (aligned (is_extended_resource_name pk.is_qualified_name name)
                  (codes "integer"))))))

  pub node_metric_families_lem :
      (n : (Node pk))
      → All
          (BeginsWith fl desc_node_labels_default_labels (node_values n) n)
          (node_metric_families fl pk)
  unfolding node_metric_families node_spec_families node_status_families node_family wrap_node_func
  node_metric_families_lem n =
      begins_lem fl _ _ _ _ _ _ n refl (refl, tt)
      ⊗ begins_lem fl _ _ _ _ _ _ n refl (optional_metric-Aligned fl n.creation_timestamp)
      ⊗ begins_lem fl _ _ _ _ _ _ n refl (object_labels-Aligned fl n.labels)
      ⊗ begins_lem fl _ _ _ _ _ _ n refl (flat_map-Aligned _ n.labels role_metrics-Aligned)
      ⊗ begins_lem fl _ _ _ _ _ _ n refl (refl, tt)
      ⊗ begins_lem fl _ _ _ _ _ _ n refl (infos-Aligned fl _ _ n.taints (λ t. refl))
      ⊗ begins_lem fl _ _ _ _ _ _ n refl (status_conditions-Aligned fl n.conditions)
      ⊗ begins_lem fl _ _ _ _ _ _ n refl (flat_map-Aligned _ n.capacity capacity_metrics-Aligned)
      ⊗ begins_lem fl _ _ _ _ _ _ n refl (flat_map-Aligned _ n.allocatable capacity_metrics-Aligned)
      ⊗ tt
