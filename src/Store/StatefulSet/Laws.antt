-- ===== src/Store/StatefulSet/Laws.antt =====
-- The labels and the texts of the families of stateful sets.
use kube_state_metrics.Prelude.{◌⊗◌, refl, All}
use kube_state_metrics.Metric.{Float64}
use kube_state_metrics.Store.Shapes.{object_labels-Aligned, optional_metric-Aligned}
use kube_state_metrics.Store.Render.{BeginsWith, begins_lem}
use kube_state_metrics.Store.StatefulSet.{
  StatefulSet, desc_stateful_set_labels_default_labels, stateful_set_values, wrap_stateful_set_func,
  stateful_set_family, stateful_set_metric_families, stateful_set_status_families,
  stateful_set_spec_families,
}

module _ (fl : Float64) where
  pub stateful_set_metric_families_lem :
      (s : StatefulSet)
      → All
          (BeginsWith fl desc_stateful_set_labels_default_labels (stateful_set_values s) s)
          (stateful_set_metric_families fl)
  unfolding stateful_set_metric_families stateful_set_status_families stateful_set_spec_families
      stateful_set_family wrap_stateful_set_func
  stateful_set_metric_families_lem s =
      begins_lem fl _ _ _ _ _ _ s refl (optional_metric-Aligned fl s.creation_timestamp)
      ⊗ begins_lem fl _ _ _ _ _ _ s refl (refl, tt)
      ⊗ begins_lem fl _ _ _ _ _ _ s refl (refl, tt)
      ⊗ begins_lem fl _ _ _ _ _ _ s refl (refl, tt)
      ⊗ begins_lem fl _ _ _ _ _ _ s refl (refl, tt)
      ⊗ begins_lem fl _ _ _ _ _ _ s refl (refl, tt)
      ⊗ begins_lem fl _ _ _ _ _ _ s refl (optional_metric-Aligned fl s.spec_replicas)
      ⊗ begins_lem fl _ _ _ _ _ _ s refl (refl, tt)
      ⊗ begins_lem fl _ _ _ _ _ _ s refl (object_labels-Aligned fl s.labels)
      ⊗ begins_lem fl _ _ _ _ _ _ s refl (refl, tt)
      ⊗ begins_lem fl _ _ _ _ _ _ s refl (refl, tt)
      ⊗ tt
