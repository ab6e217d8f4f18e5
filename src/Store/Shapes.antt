-- ===== src/Store/Shapes.antt =====
-- Shapes of metrics that the families of many resources have, as in internal/store/job.go.
use kube_state_metrics.Prelude.{
  ◌≡◌, refl, ap, suc, Bool, true, false, Option, none, some, List, [], ◌∷◌, ◌++◌, length, All,
  All-append, inl, inr, Option-cases, if◌then◌else◌,
}
use kube_state_metrics.Prelude.Text.{Bytes, codes, ◌==◌}
use kube_state_metrics.Prelude.Assoc.{Map}
use kube_state_metrics.Prelude.Int.{ℤ, pos}
use kube_state_metrics.Api.{OwnerReference}
use kube_state_metrics.Metric.{Float64, Metric}
use kube_state_metrics.Metric.Lines.{Aligned}
use kube_state_metrics.Store.Packages.{Packages}
use kube_state_metrics.Store.{
  bool_float64, resource_version_metric, add_condition_metrics, condition_metrics,
  condition_statuses, label_pairs, map_to_prometheus_labels, kube_labels_to_prometheus_labels,
}

-- The loop that appends what each item gives.
unfoldable pub flat_map : {A B : Type 0} → (A → List B) → List A → List B
flat_map f [] = []
flat_map f (x ∷ xs) = f x ++ flat_map f xs

-- What is appended under a condition.
abbrev pub when : {A : Type 0} → Bool → A → List A
when b a = if b then a ∷ [] else []

-- A condition of an object's status, as far as the families read it.
pub record Condition : Type 0 where
  pub type : Bytes
  pub status : Bytes

-- strconv.FormatBool
unfoldable pub format_bool : Bool → Bytes
format_bool true = codes "true"
format_bool false = codes "false"

module _ (fl : Float64) where
  open fl use {F, of_int}

  -- A metric without labels.
  abbrev pub value_metric : F → Metric F
  value_metric v = record { label_keys = []; label_values = []; value = v }

  abbrev pub labelled_metric : List Bytes → List Bytes → F → Metric F
  labelled_metric keys values v = record { label_keys = keys; label_values = values; value = v }

  -- float64(q.MilliValue()) / 1000
  abbrev pub milli : (pk : Packages) → pk.Quantity → F
  milli pk q = fl.div (of_int (pk.milli_value q)) (of_int (pos 1000))

  -- A metric of value 1 for each item.
  unfoldable pub infos : {A : Type 0} → List Bytes → (A → List Bytes) → List A → List (Metric F)
  infos keys values [] = []
  infos keys values (x ∷ xs) =
      labelled_metric keys (values x) (of_int (pos 1)) ∷ infos keys values xs

  -- A metric for each item, with a value that depends on it.
  unfoldable pub series :
      {A : Type 0} → List Bytes → (A → List Bytes) → (A → F) → List A → List (Metric F)
  series keys values v [] = []
  series keys values v (x ∷ xs) = labelled_metric keys (values x) (v x) ∷ series keys values v xs

  -- A metric for each phase, whose value is 1 for the current one.
  unfoldable pub phases : Bytes → List Bytes → List (Metric F)
  phases current [] = []
  phases current (p ∷ ps) =
      labelled_metric (codes "phase" ∷ []) (p ∷ []) (bool_float64 fl (current == p))
      ∷ phases current ps

  -- One metric for a number that is there, none for one that is not.
  unfoldable pub optional_metric : Option ℤ → List (Metric F)
  optional_metric none = []
  optional_metric (some n) = value_metric (of_int n) ∷ []

  -- One metric with the labels of a map.
  unfoldable pub prefixed_labels : Bytes → Map Bytes → List (Metric F)
  prefixed_labels prefix m =
      let (label_keys, label_values) = map_to_prometheus_labels m prefix in
      record { label_keys = label_keys; label_values = label_values; value = of_int (pos 1) } ∷ []

  -- The metrics of kube_object_labels, kube_replicaset_labels and the like.
  unfoldable pub object_labels : Map Bytes → List (Metric F)
  object_labels labels =
      let (label_keys, label_values) = kube_labels_to_prometheus_labels labels in
      record { label_keys = label_keys; label_values = label_values; value = of_int (pos 1) } ∷ []

  unfoldable pub owner_metric : OwnerReference → Metric F
  unfolding format_bool
  owner_metric owner = record {
    label_keys = codes "owner_kind" ∷ codes "owner_name" ∷ codes "owner_is_controller" ∷ [];
    label_values =
        owner.kind
        ∷ owner.name
        ∷ (elim owner.controller [ none ↦ codes "false" | some b ↦ format_bool b ])
        ∷ [];
    value = of_int (pos 1);
  }

  unfoldable pub owner_metrics : List OwnerReference → List (Metric F)
  unfolding owner_metric
  owner_metrics [] = []
  owner_metrics (owner ∷ owners) = owner_metric owner ∷ owner_metrics owners

  -- The metrics of kube_job_owner and the like.
  unfoldable pub owners_or_none : List OwnerReference → List (Metric F)
  unfolding owner_metrics
  owners_or_none [] =
      record {
        label_keys = codes "owner_kind" ∷ codes "owner_name" ∷ codes "owner_is_controller" ∷ [];
        label_values = codes "<none>" ∷ codes "<none>" ∷ codes "<none>" ∷ [];
        value = of_int (pos 1);
      }
      ∷ []
  owners_or_none (owner ∷ owners) = owner_metrics (owner ∷ owners)

  -- The inner loop over the metrics of one condition, for jobs and pods.
  unfoldable pub label_conditions : List (Metric F) → List (Metric F)
  label_conditions [] = []
  label_conditions (m ∷ ms) = record m { label_keys = codes "condition" ∷ [] } ∷ label_conditions ms

  -- The loop over the metrics of one condition, for deployments and the like.
  unfoldable pub label_status : Bytes → List (Metric F) → List (Metric F)
  label_status type [] = []
  label_status type (m ∷ ms) =
      record m {
        label_keys = codes "condition" ∷ codes "status" ∷ [];
        label_values = type ∷ m.label_values;
      }
      ∷ label_status type ms

  -- The loop over the conditions.
  unfoldable pub status_conditions : List Condition → List (Metric F)
  unfolding label_status
  status_conditions [] = []
  status_conditions (c ∷ cs) =
      label_status c.type (add_condition_metrics fl c.status) ++ status_conditions cs

label_pairs_aligned :
    (m : Map Bytes) (prefix : Bytes) (ks : List Bytes)
    → length (label_pairs m prefix ks).0 ≡ length (label_pairs m prefix ks).1
unfolding label_pairs
label_pairs_aligned m prefix [] = refl
label_pairs_aligned m prefix (k ∷ ks) = ap suc (label_pairs_aligned m prefix ks)

module _ (fl : Float64) where
  pub object_labels-Aligned : (m : Map Bytes) → All Aligned (object_labels fl m)
  unfolding object_labels kube_labels_to_prometheus_labels map_to_prometheus_labels
  object_labels-Aligned m = (label_pairs_aligned m (codes "label") _, tt)

  pub prefixed_labels-Aligned :
      (prefix : Bytes) (m : Map Bytes) → All Aligned (prefixed_labels fl prefix m)
  unfolding prefixed_labels map_to_prometheus_labels
  prefixed_labels-Aligned prefix m = (label_pairs_aligned m prefix _, tt)

  pub optional_metric-Aligned : (o : Option ℤ) → All Aligned (optional_metric fl o)
  unfolding optional_metric
  optional_metric-Aligned none = tt
  optional_metric-Aligned (some n) = (refl, tt)

  owner_metrics-Aligned : (os : List OwnerReference) → All Aligned (owner_metrics fl os)
  unfolding owner_metrics owner_metric
  owner_metrics-Aligned [] = tt
  owner_metrics-Aligned (o ∷ os) = (refl, owner_metrics-Aligned os)

  pub owners_or_none-Aligned : (os : List OwnerReference) → All Aligned (owners_or_none fl os)
  unfolding owners_or_none
  owners_or_none-Aligned [] = (refl, tt)
  owners_or_none-Aligned (o ∷ os) = owner_metrics-Aligned (o ∷ os)

  condition_labels-Aligned :
      (cs : Bytes) (statuses : List Bytes)
      → All Aligned (label_conditions fl (condition_metrics fl cs statuses))
  unfolding label_conditions condition_metrics
  condition_labels-Aligned cs [] = tt
  condition_labels-Aligned cs (s ∷ statuses) = (refl, condition_labels-Aligned cs statuses)

  pub label_conditions-Aligned :
      (cs : Bytes) → All Aligned (label_conditions fl (add_condition_metrics fl cs))
  unfolding add_condition_metrics
  label_conditions-Aligned cs = condition_labels-Aligned cs condition_statuses

  label_status-Aligned :
      (type cs : Bytes) (statuses : List Bytes)
      → All Aligned (label_status fl type (condition_metrics fl cs statuses))
  unfolding label_status condition_metrics
  label_status-Aligned type cs [] = tt
  label_status-Aligned type cs (s ∷ statuses) = (refl, label_status-Aligned type cs statuses)

  pub status_conditions-Aligned : (cs : List Condition) → All Aligned (status_conditions fl cs)
  unfolding status_conditions add_condition_metrics
  status_conditions-Aligned [] = tt
  status_conditions-Aligned (c ∷ cs) =
      All-append Aligned (label_status fl c.type (add_condition_metrics fl c.status)) _
        (label_status-Aligned c.type c.status condition_statuses) (status_conditions-Aligned cs)

  pub infos-Aligned :
      {A : Type 0} (keys : List Bytes) (values : A → List Bytes) (xs : List A)
      → ((x : A) → length keys ≡ length (values x))
      → All Aligned (infos fl keys values xs)
  unfolding infos
  infos-Aligned keys values [] h = tt
  infos-Aligned keys values (x ∷ xs) h = (h x, infos-Aligned keys values xs h)

  pub series-Aligned :
      {A : Type 0} (keys : List Bytes) (values : A → List Bytes) (v : A → fl.F) (xs : List A)
      → ((x : A) → length keys ≡ length (values x))
      → All Aligned (series fl keys values v xs)
  unfolding series
  series-Aligned keys values v [] h = tt
  series-Aligned keys values v (x ∷ xs) h = (h x, series-Aligned keys values v xs h)

  pub phases-Aligned : (current : Bytes) (ps : List Bytes) → All Aligned (phases fl current ps)
  unfolding phases
  phases-Aligned current [] = tt
  phases-Aligned current (p ∷ ps) = (refl, phases-Aligned current ps)

  pub resource_version-Aligned : (rv : Bytes) → All Aligned (resource_version_metric fl rv)
  unfolding resource_version_metric
  resource_version-Aligned rv = elim (Option-cases (fl.parse_float rv)) [
    | inl fails ↦ rw (fails, resource_version_metric, All) tt
    | inr (v, parsed) ↦ rw (parsed, resource_version_metric, All) (refl, tt)
  ]

module _ {F : Type 0} where
  pub flat_map-Aligned :
      {A : Type 0} (f : A → List (Metric F)) (xs : List A)
      → ((x : A) → All Aligned (f x))
      → All Aligned (flat_map f xs)
  unfolding flat_map
  flat_map-Aligned f [] h = tt
  flat_map-Aligned f (x ∷ xs) h = All-append Aligned (f x) _ (h x) (flat_map-Aligned f xs h)

  pub when-Aligned : (b : Bool) (m : Metric F) → Aligned m → All Aligned (when b m)
  when-Aligned true m h = (h, tt)
  when-Aligned false m h = tt

  pub if-Aligned :
      (b : Bool) (ms ns : List (Metric F))
      → All Aligned ms
      → All Aligned ns
      → All Aligned (if b then ms else ns)
  if-Aligned true ms ns hm hn = hm
  if-Aligned false ms ns hm hn = hn
