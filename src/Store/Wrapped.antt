-- ===== src/Store/Wrapped.antt =====
-- The labels that each store puts before those of its metrics, as wrapJobFunc does.
use kube_state_metrics.Prelude.{◌≡◌, refl, List, [], ◌∷◌, ◌++◌, arith, length, length-append, All}
use kube_state_metrics.Prelude.Text.{Bytes}
use kube_state_metrics.Prelude.Result.{Result, ok, ◌>>=◌}
use kube_state_metrics.Metric.{Metric, Family}
use kube_state_metrics.Metric.Lines.{Aligned}

module _ {F : Type 0} where
  -- The loop over the metrics of a family, for the default labels and their values.
  unfoldable pub wrap_metrics : List Bytes → List Bytes → List (Metric F) → List (Metric F)
  wrap_metrics default_labels values [] = []
  wrap_metrics default_labels values (m ∷ ms) =
      record m {
        label_keys = default_labels ++ m.label_keys;
        label_values = values ++ m.label_values;
      }
      ∷ wrap_metrics default_labels values ms

  -- wrapJobFunc and the like, for what the function gives: the metrics of a family, or a panic.
  unfoldable pub wrap_func :
      {Obj : Type 0}
      → List Bytes
      → (Obj → List Bytes)
      → (Obj → Result (List (Metric F)))
      → Obj
      → Result (Family F)
  unfolding wrap_metrics
  wrap_func default_labels values f obj = do
    ms ← f obj
    ok (record { name = []; type = []; metrics = wrap_metrics default_labels (values obj) ms })

  -- The metric's label keys and values begin with these.
  abbrev pub Begins : List Bytes → List Bytes → Metric F → Type 0
  Begins default_labels values m =
      (ks : List Bytes) × (vs : List Bytes) × (m.label_keys ≡ default_labels ++ ks)
      × (m.label_values ≡ values ++ vs)
      × (length ks ≡ length vs)

  pub wrap_metrics_lem :
      (default_labels values : List Bytes) (ms : List (Metric F))
      → All Aligned ms
      → All (Begins default_labels values) (wrap_metrics default_labels values ms)
  unfolding wrap_metrics
  wrap_metrics_lem default_labels values [] h = tt
  wrap_metrics_lem default_labels values (m ∷ ms) (aligned, h) = (
    (m.label_keys, m.label_values, refl, refl, aligned),
    wrap_metrics_lem default_labels values ms h,
  )

  pub Aligned-of_Begins :
      (default_labels values : List Bytes) (ms : List (Metric F))
      → length default_labels ≡ length values
      → All (Begins default_labels values) ms
      → All Aligned ms
  Aligned-of_Begins default_labels values [] same h = tt
  Aligned-of_Begins default_labels values (m ∷ ms) same ((ks, vs, keys, vals, rest), h) = (
    rw (keys, vals)
        (omega (arith, length-append default_labels ks, length-append values vs, same, rest)),
    Aligned-of_Begins default_labels values ms same h,
  )
