-- ===== src/Builder/Listers/Tests.antt =====
-- The reflectors of three shards over two namespaces.
use mathlib.Core.List.{Permᴰ}
use kube_state_metrics.Prelude.{ℕ, suc, ◌≡◌, refl, inr, false, some, List, [], ◌∷◌, arith, keep_if}
use kube_state_metrics.Prelude.Text.{Bytes, codes}
use kube_state_metrics.Prelude.Int.{pos}
use kube_state_metrics.Api.{ListOptions, ObjectList, metav1_list, Event, ListerWatcher}
use kube_state_metrics.Sharding.Tests.{Obj, accessor, streams, streams_laws, modulo, modulo_laws}
use kube_state_metrics.Sharding.Partition.{parts}
use kube_state_metrics.Sharding.Lists.{keeps, numbered, delivers}
use kube_state_metrics.Instrumented.{ListWatchMetrics, InstrumentedListerWatcher}
use kube_state_metrics.Instrumented.Tests.{log_counters, log_counters_laws}
use kube_state_metrics.Builder.Listers.{instrumented_list_watch, reflector_list, reflector_watch}
use kube_state_metrics.Builder.Listers.Listing.{reflectors_cover_namespaces}
use kube_state_metrics.Builder.Listers.Watching.{reflector_watch_lem}

-- Each namespace has one object, of its own name.
abbrev object : Bytes → Obj
object ns = some (record { uid = ns; name = ns; namespace = ns; is_namespace = false })

abbrev added : Bytes → Event Obj
added ns = record { type = codes "ADDED"; object = object ns }

abbrev list_watch : Bytes → ListerWatcher Obj (List (Event Obj))
list_watch ns = record {
  list = λ o. inr (metav1_list (object ns ∷ []) (codes "7"));
  watch = λ o. inr (added ns ∷ []);
}

abbrev metrics : ListWatchMetrics log_counters
metrics = record { watch_total = []; list_total = [] }

abbrev options : ListOptions
options = record { resource_version = []; field_selector = [] }

abbrev both : List Obj
both = object (codes "a") ∷ object (codes "b") ∷ []

-- The list and watch of the namespaces; a multi watch delivers nothing here.
abbrev source : List Bytes → InstrumentedListerWatcher log_counters Obj (List (Event Obj))
source namespaces =
    instrumented_list_watch accessor streams log_counters (λ denylist w. w) (λ opened. inr [])
      namespaces list_watch metrics (codes "*v1.Pod")

reflectors_cover_namespaces_example :
    ((k : ℕ)
      → let (answer, i') =
          reflector_list accessor streams log_counters modulo
            (pos k)
            (pos 3)
            options
            (source (codes "a" ∷ codes "b" ∷ [])) in
        (r : ObjectList Obj) × (answer ≡ inr r)
        × (r.extract_list
            ≡ inr (keep_if (keeps modulo accessor (numbered modulo accessor 3 k)) both))
        × (log_counters.value i'.metrics.list_total (codes "success") (codes "*v1.Pod")
            ≡ suc (log_counters.value [] (codes "success") (codes "*v1.Pod"))))
    × Permᴰ both (parts (λ k. keeps modulo accessor (numbered modulo accessor 3 k)) 3 both)
reflectors_cover_namespaces_example =
    reflectors_cover_namespaces modulo accessor streams log_counters modulo_laws log_counters_laws
      (λ denylist w. w) (λ opened. inr []) 3 (codes "a" ∷ codes "b" ∷ []) list_watch metrics
      (codes "*v1.Pod") options
      ((object (codes "a") ∷ [], codes "7") ∷ (object (codes "b") ∷ [], codes "7") ∷ [])
      (omega arith) (omega arith) ((_, refl, refl, refl), ((_, refl, refl, refl), tt))
      ((_, refl), ((_, refl), tt))

abbrev one_namespace : InstrumentedListerWatcher log_counters Obj (List (Event Obj))
one_namespace = record {
  lw = list_watch (codes "a");
  metrics = metrics;
  resource = codes "*v1.Pod";
}

reflector_watch_lem_example :
    let (answer, i') =
      reflector_watch accessor streams log_counters modulo (pos 0) (pos 1) options one_namespace in
    (w' : List (Event Obj)) × (answer ≡ inr w')
    × (w'
        ≡ keep_if
            (delivers modulo accessor (numbered modulo accessor 1 0))
            (added (codes "a") ∷ []))
    × (log_counters.value i'.metrics.watch_total (codes "success") (codes "*v1.Pod")
        ≡ suc (log_counters.value [] (codes "success") (codes "*v1.Pod")))
reflector_watch_lem_example =
    reflector_watch_lem modulo accessor streams log_counters modulo_laws streams_laws
      log_counters_laws 1 0 options one_namespace (added (codes "a") ∷ []) (omega arith)
      (omega arith) refl
