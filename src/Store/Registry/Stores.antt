-- ===== src/Store/Registry/Stores.antt =====
-- What the store of a resource holds: its families in the store of pkg/metrics_store.
use mathlib.Core.Option
use kube_state_metrics.Prelude.{◌≡◌, none, List, [], ◌∷◌, All}
use kube_state_metrics.Prelude.Text.{Bytes}
use kube_state_metrics.Prelude.Assoc.{lookup}
use kube_state_metrics.Api.{Accessor}
use kube_state_metrics.Metric.{Float64}
use kube_state_metrics.Generator.{
  AllowDenyLister, extract_metric_family_headers, compose_metric_gen_funcs, filter_metric_families,
}
use kube_state_metrics.MetricsStore.{new_metrics_store}
use kube_state_metrics.MetricsStore.Operations.{
  Operation, add, update, delete, replace, resync, run,
}
use kube_state_metrics.MetricsStore.Refinement.{Each, expected_all, run_refines}
use kube_state_metrics.Builder.{Kind}
use kube_state_metrics.Store.Packages.{Packages}
use kube_state_metrics.Store.Render.{texts}
use kube_state_metrics.Store.Registry.{Object, store_families}
use kube_state_metrics.Store.Registry.Readable.{Readable}
use kube_state_metrics.Store.Registry.Laws.{store_families_render}

module _ {A : Type 0} {P Q : A → Type 0} (f : (a : A) → P a → Q a) where
  All-map : (xs : List A) → All P xs → All Q xs
  All-map [] h = tt
  All-map (x ∷ xs) (hx, h) = (f x hx, All-map xs h)

  Each-map : (op : Operation A) → Each P op → Each Q op
  Each-map (add o) h = f o h
  Each-map (update o) h = f o h
  Each-map (delete o) h = tt
  Each-map (replace list) h = All-map list h
  Each-map resync h = tt

  All-Each : (ops : List (Operation A)) → All (Each P) ops → All (Each Q) ops
  All-Each [] h = tt
  All-Each (op ∷ ops) (h, hs) = (Each-map op h, All-Each ops hs)

module _ (fl : Float64) (pk : Packages) where
  -- The store that is built for any resource under any allow- or denylist holds after any operations
  -- that add readable objects only, those that fail too, under each id the texts of the included
  -- families for the object that a map under the same operations holds, and nothing under an id for
  -- which it holds none.
  pub store_refines :
      (k : Kind) (accessor : Accessor (Object pk k)) (l : AllowDenyLister)
      (ops : List (Operation (Object pk k))) (uid : Bytes)
      → All (Each (Readable pk k)) ops
      → let families = filter_metric_families l (store_families fl pk k) in
        lookup uid
          (run fl accessor ops (
            new_metrics_store
              (extract_metric_family_headers families)
              (compose_metric_gen_funcs families))).metrics
        ≡ Option.map
            (texts fl l (store_families fl pk k))
            (expected_all accessor ops (λ o. none) uid)
  store_refines k accessor l ops uid readable =
      let families = filter_metric_families l (store_families fl pk k) in
      run_refines fl accessor (compose_metric_gen_funcs families)
        (texts fl l (store_families fl pk k)) (extract_metric_family_headers families) ops uid
        (All-Each (λ o r. (store_families_render fl pk k l o r).1) ops readable)
