-- ===== src/Store/Render.antt =====
-- Families whose metrics begin with the same labels render without a panic.
use kube_state_metrics.Prelude.{
  ◌≡◌, refl, inl, inr, Bool, List, [], ◌∷◌, map, length, All, keep_if, Bool-cases,
}
use kube_state_metrics.Prelude.Text.{Bytes}
use kube_state_metrics.Prelude.Result.{Result, ok}
use kube_state_metrics.Metric.{Float64, Metric, Family}
use kube_state_metrics.Metric.Lines.{Aligned, line, unlines, byte_slice-Aligned}
use kube_state_metrics.Generator.{
  AllowDenyLister, FamilyGenerator, generate, compose_metric_gen_funcs, filter_metric_families,
}
use kube_state_metrics.Generator.Laws.{filter_metric_families_lem}
use kube_state_metrics.MetricsStore.{family_strings}
use kube_state_metrics.MetricsStore.Refinement.{Renders}
use kube_state_metrics.Store.Wrapped.{
  wrap_func, wrap_metrics, wrap_metrics_lem, Begins, Aligned-of_Begins,
}

module _ (fl : Float64) where
  text : Family fl.F → Bytes
  text f = unlines (map (line fl f.name) f.metrics)

  -- What a generated family renders to.
  pub text_of : Result (Family fl.F) → Bytes
  unfolding text
  text_of (ok f) = text f
  text_of _ = []

module _ (fl : Float64) {Obj : Type 0} where
  -- The family is generated for an object, and its metrics begin with these labels.
  abbrev pub BeginsWith : List Bytes → List Bytes → Obj → FamilyGenerator fl.F Obj → Type 0
  BeginsWith default_labels values obj g =
      (f : Family fl.F) × (generate g obj ≡ ok f) × All (Begins default_labels values) f.metrics

  -- What the functions that a store wraps give has as many label values as label keys.
  pub begins_lem :
      (default_labels : List Bytes) (values : Obj → List Bytes) (name help type : Bytes)
      (f : Obj → Result (List (Metric fl.F))) (obj : Obj) {ms : List (Metric fl.F)}
      → f obj ≡ ok ms
      → All Aligned ms
      → BeginsWith default_labels (values obj) obj (record {
        name = name;
        help = help;
        type = type;
        generate_func = wrap_func default_labels values f;
      })
  unfolding generate wrap_func
  begins_lem default_labels values name help type f obj {ms} given aligned = (
    record { name = name; type = type; metrics = wrap_metrics default_labels (values obj) ms },
    rw given,
    wrap_metrics_lem default_labels (values obj) ms aligned,
  )

  All-keep_if :
      (P : FamilyGenerator fl.F Obj → Type 0) (p : FamilyGenerator fl.F Obj → Bool)
      (gens : List (FamilyGenerator fl.F Obj))
      → All P gens
      → All P (keep_if p gens)
  All-keep_if P p [] h = tt
  All-keep_if P p (g ∷ gens) (hg, h) = elim (Bool-cases (p g)) [
    | inl passes ↦ rw passes (hg, All-keep_if P p gens h)
    | inr fails ↦ rw fails (All-keep_if P p gens h)
  ]

  family_strings-BeginsWith :
      (default_labels values : List Bytes) (obj : Obj) (gens : List (FamilyGenerator fl.F Obj))
      → length default_labels ≡ length values
      → All (BeginsWith default_labels values obj) gens
      → (fams : List (Family fl.F)) × (compose_metric_gen_funcs gens obj ≡ ok fams)
        × (family_strings fl fams ≡ ok (map (λ g. text_of fl (generate g obj)) gens))
  unfolding family_strings compose_metric_gen_funcs text_of
  family_strings-BeginsWith ds vs obj [] same h = ([], refl, refl)
  family_strings-BeginsWith ds vs obj (g ∷ gens) same ((f, gen, begin), h) =
      let (fams, made, texts) = family_strings-BeginsWith ds vs obj gens same h in
      (
        f ∷ fams,
        rw (gen, made),
        rw (byte_slice-Aligned fl f (Aligned-of_Begins ds vs f.metrics same begin), texts, gen),
      )

  -- The included families of an object.
  abbrev pub texts : AllowDenyLister → List (FamilyGenerator fl.F Obj) → Obj → List Bytes
  texts l gens obj =
      map (λ g. text_of fl (generate g obj)) (keep_if (λ g. l.is_included g.name) gens)

  pub families_render :
      (default_labels values : List Bytes)
      → length default_labels ≡ length values
      → (l : AllowDenyLister) (gens : List (FamilyGenerator fl.F Obj)) (obj : Obj)
      → All (BeginsWith default_labels values obj) gens
      → Renders fl (compose_metric_gen_funcs (filter_metric_families l gens)) (texts l gens) obj
  families_render ds vs same l gens obj h =
      let (fams, made, strings) =
        family_strings-BeginsWith ds vs obj (keep_if (λ g. l.is_included g.name) gens) same
          (All-keep_if _ _ gens h) in
      rw (filter_metric_families_lem, made) strings
