-- ===== src/Store/Namespace/Laws.antt =====
-- The labels and the texts of the families of namespaces.
use kube_state_metrics.Prelude.{◌⊗◌, refl, [], ◌∷◌, All}
use kube_state_metrics.Prelude.Text.{codes}
use kube_state_metrics.Metric.{Float64}
use kube_state_metrics.Store.Shapes.{
  object_labels-Aligned, optional_metric-Aligned, status_conditions-Aligned, phases-Aligned,
}
use kube_state_metrics.Store.Render.{BeginsWith, begins_lem}
use kube_state_metrics.Store.Namespace.{
  Namespace, desc_namespace_labels_default_labels, namespace_values, wrap_namespace_func,
  namespace_family, namespace_metric_families,
}

module _ (fl : Float64) where
  pub namespace_metric_families_lem :
      (n : Namespace)
      → All
          (BeginsWith fl desc_namespace_labels_default_labels (namespace_values n) n)
          (namespace_metric_families fl)
  unfolding namespace_metric_families namespace_family wrap_namespace_func
  namespace_metric_families_lem n =
      begins_lem fl _ _ _ _ _ _ n refl (optional_metric-Aligned fl n.creation_timestamp)
      ⊗ begins_lem fl _ _ _ _ _ _ n refl (object_labels-Aligned fl n.labels)
      ⊗ begins_lem fl _ _ _ _ _ _ n refl
          (phases-Aligned fl n.phase (codes "Active" ∷ codes "Terminating" ∷ []))
      ⊗ begins_lem fl _ _ _ _ _ _ n refl (status_conditions-Aligned fl n.conditions)
      ⊗ tt
