-- ===== src/Store/Pod/Resources.antt =====
-- What the families of internal/store/pod.go make of the resources and the volumes of a pod.
use kube_state_metrics.Prelude.{
  refl, inl, inr, Bool, ◌||◌, none, some, List, [], ◌∷◌, ◌++◌, All, All-append, if◌then◌else◌,
  Option-cases,
}
use kube_state_metrics.Prelude.Text.{Bytes, codes, ◌==◌}
use kube_state_metrics.Prelude.Int.{pos}
use kube_state_metrics.Metric.{Float64, Metric}
use kube_state_metrics.Metric.Lines.{Aligned}
use kube_state_metrics.Store.{
  bool_float64, sanitize_label_name, is_huge_page_resource_name, is_attachable_volume_resource_name,
  is_extended_resource_name,
}
use kube_state_metrics.Store.Packages.{Packages}
use kube_state_metrics.Store.Shapes.{
  labelled_metric, milli, flat_map, flat_map-Aligned, when, when-Aligned, if-Aligned,
}
use kube_state_metrics.Store.Pod.Objects.{Container, Volume}

module _ (fl : Float64) (pk : Packages) where
  open fl use {F, of_int}

  abbrev resource_metric : Bytes → Bytes → Bytes → F → Metric F
  resource_metric container name unit v =
      labelled_metric fl (codes "container" ∷ codes "resource" ∷ codes "unit" ∷ [])
        (container ∷ sanitize_label_name name ∷ unit ∷ []) v

  -- The body of the loop over the resources of a container, by the name of the resource.
  unfoldable pub container_resource : Bytes → Bytes × pk.Quantity → List (Metric F)
  container_resource container (name, val) =
      if name == codes "cpu"
      then resource_metric container name (codes "core") (milli fl pk val) ∷ []
      else if name == codes "storage" || name == codes "ephemeral-storage" || name == codes "memory"
      then resource_metric container name (codes "byte") (of_int (pk.value val)) ∷ []
      else when (is_huge_page_resource_name name)
          (resource_metric container name (codes "byte") (of_int (pk.value val)))
        ++ (when (is_attachable_volume_resource_name name)
              (resource_metric container name (codes "byte") (of_int (pk.value val)))
            ++ when (is_extended_resource_name pk.is_qualified_name name)
                (resource_metric container name (codes "integer") (of_int (pk.value val))))

  -- The metrics of kube_pod_container_resource_requests.
  unfoldable pub container_requests : List (Container pk) → List (Metric F)
  unfolding container_resource
  container_requests = flat_map (λ c. flat_map (container_resource c.name) c.requests)

  -- The metrics of kube_pod_container_resource_limits, and of init containers.
  unfoldable pub container_limits : List (Container pk) → List (Metric F)
  unfolding container_resource
  container_limits = flat_map (λ c. flat_map (container_resource c.name) c.limits)

  -- The body of the loop over the overhead of a pod.
  unfoldable pub overhead_metrics : Bytes × pk.Quantity → List (Metric F)
  overhead_metrics (name, val) =
      if name == codes "cpu"
      then labelled_metric fl (codes "resource" ∷ codes "unit" ∷ [])
          (sanitize_label_name name ∷ codes "core" ∷ []) (milli fl pk val)
        ∷ []
      else when (name == codes "memory") (
          labelled_metric fl (codes "resource" ∷ codes "unit" ∷ [])
            (sanitize_label_name name ∷ codes "byte" ∷ []) (of_int (pk.value val)))

module _ (fl : Float64) where
  open fl use {F, of_int}

  -- The metrics of kube_pod_spec_volumes_persistentvolumeclaims_info for one volume.
  unfoldable pub claim_infos : Volume → List (Metric F)
  claim_infos v = elim v.persistent_volume_claim [
    | none ↦ []
    | some claim ↦
        labelled_metric fl (codes "volume" ∷ codes "persistentvolumeclaim" ∷ [])
          (v.name ∷ claim.claim_name ∷ []) (of_int (pos 1))
        ∷ []
  ]

  -- The metrics of kube_pod_spec_volumes_persistentvolumeclaims_readonly for one volume.
  unfoldable pub claims_read_only : Volume → List (Metric F)
  claims_read_only v = elim v.persistent_volume_claim [
    | none ↦ []
    | some claim ↦
        labelled_metric fl (codes "volume" ∷ codes "persistentvolumeclaim" ∷ [])
          (v.name ∷ claim.claim_name ∷ []) (bool_float64 fl claim.read_only)
        ∷ []
  ]

  pub claim_infos-Aligned : (v : Volume) → All Aligned (claim_infos v)
  unfolding claim_infos
  claim_infos-Aligned v = elim (Option-cases v.persistent_volume_claim) [
    | inl unset ↦ rw (unset, claim_infos, All) tt
    | inr (claim, set) ↦ rw (set, claim_infos, All) (refl, tt)
  ]

  pub claims_read_only-Aligned : (v : Volume) → All Aligned (claims_read_only v)
  unfolding claims_read_only
  claims_read_only-Aligned v = elim (Option-cases v.persistent_volume_claim) [
    | inl unset ↦ rw (unset, claims_read_only, All) tt
    | inr (claim, set) ↦ rw (set, claims_read_only, All) (refl, tt)
  ]

module _ (fl : Float64) (pk : Packages) where
  container_resource-Aligned :
      (container : Bytes) (e : Bytes × pk.Quantity)
      → All Aligned (container_resource fl pk container e)
  unfolding container_resource
  container_resource-Aligned container (name, val) =
      let v = fl.of_int (pk.value val) in
      let aligned = λ (b : Bool) (unit : Bytes).
        when-Aligned b (resource_metric fl pk container name unit v) refl in
      if-Aligned (name == codes "cpu") (resource_metric fl pk container name (codes "core") _ ∷ [])
        _ (refl, tt)
        (if-Aligned
          (name == codes "storage" || name == codes "ephemeral-storage" || name == codes "memory")
          (resource_metric fl pk container name (codes "byte") v ∷ []) _ (refl, tt)
          (All-append Aligned (when (is_huge_page_resource_name name) _) _
            (aligned _ (codes "byte"))
            (All-append Aligned (when (is_attachable_volume_resource_name name) _) _
              (aligned _ (codes "byte"))
              (aligned (is_extended_resource_name pk.is_qualified_name name) (codes "integer")))))

  pub container_requests-Aligned :
      (cs : List (Container pk)) → All Aligned (container_requests fl pk cs)
  unfolding container_requests
  container_requests-Aligned cs =
      flat_map-Aligned _ cs
        (λ c. flat_map-Aligned _ c.requests (λ e. container_resource-Aligned c.name e))

  pub container_limits-Aligned :
      (cs : List (Container pk)) → All Aligned (container_limits fl pk cs)
  unfolding container_limits
  container_limits-Aligned cs =
      flat_map-Aligned _ cs
        (λ c. flat_map-Aligned _ c.limits (λ e. container_resource-Aligned c.name e))

  pub overhead_metrics-Aligned : (e : Bytes × pk.Quantity) → All Aligned (overhead_metrics fl pk e)
  unfolding overhead_metrics
  overhead_metrics-Aligned (name, val) =
      if-Aligned (name == codes "cpu") (labelled_metric fl _ _ _ ∷ []) _ (refl, tt)
        (when-Aligned (name == codes "memory") _ refl)
