-- ===== src/MetricsStore/Tests.antt =====
-- A store of two families over a few objects, and the theorems about stores applied to it.
use mathlib.Core.List.{Permᴰ}
use mathlib.Core.List.Permᴰ
use mathlib.Core.Option
use kube_state_metrics.Prelude.{
  map, keep_if, ◌<◌, ◌≢◌, arith, All, ◌⊗◌, ℕ, ◌≡◌, refl, inl, inr, false, Option, none, some, List,
  [], ◌∷◌, ◌++◌,
}
use kube_state_metrics.Prelude.Text.{Bytes, codes, ◌==◌}
use kube_state_metrics.Prelude.Assoc.{Map, lookup, insert, delete}
use kube_state_metrics.Prelude.Int.{ℤ, pos}
use kube_state_metrics.Prelude.Result.{ok}
use kube_state_metrics.Api.{Accessor, ObjectMeta}
use kube_state_metrics.Metric.{
  gauge, byte_slice, write, labels_to_string, escape_string, write_float, newline, quote,
}
use kube_state_metrics.Metric.Tests.{small_ints}
use kube_state_metrics.Generator.{
  FamilyGenerator, generate, generate_header, extract_metric_family_headers,
  compose_metric_gen_funcs,
}
use kube_state_metrics.MetricsStore
use kube_state_metrics.MetricsStore.{Iteration, new_metrics_store, family_strings, write_all}
use kube_state_metrics.MetricsStore.Operations.{
  Operation, add, update, delete as remove, replace, run,
}
use kube_state_metrics.MetricsStore.Refinement.{Each, Renders, expected_all, run_refines}
use kube_state_metrics.Sharding.Tests.{modulo, modulo_laws}
use kube_state_metrics.Sharding.Lists.{keeps, numbered}
use kube_state_metrics.MetricsStore.Refinement.Shards.{listed_into, shards_expose_once}
use kube_state_metrics.MetricsStore.Exposed.{IsExposition, IsShown, entries_of}
use kube_state_metrics.MetricsStore.WriteOrder.{IsIteration, built, write_all-run}

-- `none` is a value that is no Kubernetes object.
abbrev Obj : Type 0
Obj = Option ObjectMeta

abbrev accessor : Accessor Obj
accessor none = inl (codes "object does not implement the Object interfaces")
accessor (some m) = inr m

abbrev uid_of : Obj → Bytes
uid_of none = []
uid_of (some m) = m.uid

abbrev object : Bytes → Obj
object uid = some (record { uid = uid; name = codes "n"; namespace = []; is_namespace = false })

abbrev info : FamilyGenerator ℤ Obj
info = record {
  name = codes "kube_info";
  help = codes "Info.";
  type = gauge;
  generate_func = λ o. ok (record {
    name = [];
    type = [];
    metrics =
        record { label_keys = codes "uid" ∷ []; label_values = uid_of o ∷ []; value = pos 1 } ∷ [];
  });
}

abbrev count : FamilyGenerator ℤ Obj
count = record {
  name = codes "kube_count";
  help = codes "Count.";
  type = gauge;
  generate_func = λ o. ok (record {
    name = [];
    type = [];
    metrics = record { label_keys = []; label_values = []; value = pos 0 } ∷ [];
  });
}

abbrev gens : List (FamilyGenerator ℤ Obj)
gens = info ∷ count ∷ []

abbrev ops : List (Operation Obj)
ops =
    replace (object (codes "a") ∷ object (codes "b") ∷ [])
    ∷ add none
    ∷ add (object (codes "c"))
    ∷ update (object (codes "a"))
    ∷ remove (object (codes "b"))
    ∷ []

abbrev in_order : Iteration
in_order i m = m

-- The first entry comes last.
abbrev rotated : Iteration
rotated i [] = []
rotated i (e ∷ m) = m ++ e ∷ []

in_order-IsIteration : IsIteration in_order
in_order-IsIteration = record { visits = λ i m. Permᴰ.refl m }

rotated-perm : (i : ℕ) (m : Map (List Bytes)) → Permᴰ m (rotated i m)
rotated-perm i [] = Permᴰ.nil
rotated-perm i (e ∷ m) = Permᴰ.append_comm (e ∷ []) m

rotated-IsIteration : IsIteration rotated
rotated-IsIteration = record { visits = rotated-perm }

abbrev render : Obj → List Bytes
render o =
    (((((escape_string (codes "kube_info{uid=\"") (uid_of o) ++ quote ∷ []) ++ b'}' ∷ [])
          ++ b' ' ∷ [])
        ++ codes "1")
      ++ newline ∷ [])
    ∷ codes "kube_count 0\n"
    ∷ []

renders : (o : Obj) → Renders small_ints (compose_metric_gen_funcs gens) render o
unfolding family_strings compose_metric_gen_funcs generate byte_slice write labels_to_string
    write_float
renders o = refl

written :
    write_all in_order (run small_ints accessor ops (built gens)) []
    ≡ ok (
        codes "# HELP kube_info Info.\n# TYPE kube_info gauge"
        ∷ codes "\n"
        ∷ codes "kube_info{uid=\"a\"} 1\n"
        ∷ codes "kube_info{uid=\"c\"} 1\n"
        ∷ codes "# HELP kube_count Count.\n# TYPE kube_count gauge"
        ∷ codes "\n"
        ∷ codes "kube_count 0\n"
        ∷ codes "kube_count 0\n"
        ∷ [])
unfolding write_all run built new_metrics_store MetricsStore.add MetricsStore.update
    MetricsStore.delete MetricsStore.replace family_strings compose_metric_gen_funcs generate
    byte_slice write labels_to_string escape_string write_float extract_metric_family_headers
    generate_header insert delete ◌==◌
written = refl

all_render : All (Each (Renders small_ints (compose_metric_gen_funcs gens) render)) ops
all_render =
    (renders (object (codes "a")), (renders (object (codes "b")), tt))
    ⊗ renders none
    ⊗ renders (object (codes "c"))
    ⊗ renders (object (codes "a"))
    ⊗ tt
    ⊗ tt

run_refines_example :
    lookup
      (codes "c")
      (run small_ints accessor ops (
        new_metrics_store
          (extract_metric_family_headers gens)
          (compose_metric_gen_funcs gens))).metrics
    ≡ Option.map render (expected_all accessor ops (λ k. none) (codes "c"))
run_refines_example =
    run_refines small_ints accessor (compose_metric_gen_funcs gens) render
      (extract_metric_family_headers gens) ops (codes "c") all_render

write_all-run_example :
    let s = run small_ints accessor ops (built gens) in
    (held : Map Obj) × (out : List Bytes) × (s.metrics ≡ entries_of small_ints gens held)
    × All (IsShown small_ints accessor gens ops) held
    × (write_all rotated s [] ≡ ok ([] ++ out))
    × IsExposition small_ints gens (map (λ e. e.1) held) out
write_all-run_example = write_all-run small_ints accessor gens ops rotated [] rotated-IsIteration

shards_expose_once_example :
    let items = object (codes "a") ∷ object (codes "b") ∷ [] in
    let part : ℕ → Option (List Bytes) = λ k.
      lookup
        (codes "a")
        (listed_into modulo small_ints accessor
          (compose_metric_gen_funcs gens)
          []
          (keep_if (keeps modulo accessor (numbered modulo accessor 3 k)) items)).metrics in
    (b : ℕ) × (b < 3)
    × (part b
        ≡ lookup
            (codes "a")
            (listed_into modulo small_ints accessor
              (compose_metric_gen_funcs gens)
              []
              items).metrics)
    × ((k : ℕ) → k ≢ b → part k ≡ none)
shards_expose_once_example =
    shards_expose_once modulo small_ints accessor (compose_metric_gen_funcs gens) [] modulo_laws
      render 3 (object (codes "a") ∷ object (codes "b") ∷ []) (codes "a") (omega arith)
      (omega arith) ((_, refl), ((_, refl), tt))
      (renders (object (codes "a")), (renders (object (codes "b")), tt))
