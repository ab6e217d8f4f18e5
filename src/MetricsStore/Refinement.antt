-- ===== src/MetricsStore/Refinement.antt =====
-- The store refines a map from object ids to the objects last added under them.
pub mod Shards
use kube_state_metrics.Prelude.{
  ◌≡◌, refl, inl, inr, Option, none, some, List, [], ◌∷◌, All, arith, if◌then◌else◌,
}
use mathlib.Core.Option
use kube_state_metrics.Prelude.Text.{Bytes, ◌==◌}
use kube_state_metrics.Prelude.Assoc.{lookup, insert, lookup-insert, lookup-delete}
use kube_state_metrics.Prelude.Result.{Result, ok, err, panic, ◌>>=◌}
use kube_state_metrics.Api.{Accessor, ObjectMeta, Try, Try-cases}
use kube_state_metrics.Metric.{Float64, Family}
use kube_state_metrics.MetricsStore
use kube_state_metrics.MetricsStore.Operations.{
  Operation, add, update, delete, replace, resync, step, run,
}
use kube_state_metrics.MetricsStore.{MetricsStore, new_metrics_store, family_strings, add_all}

-- The objects that an operation adds have this property.
abbrev pub Each : {Obj : Type 0} → (Obj → Type 0) → Operation Obj → Type 0
Each P (add o) = P o
Each P (update o) = P o
Each P (delete o) = Unit
Each P (replace list) = All P list
Each P resync = Unit

-- The object that was last added under an id, and not deleted since.
abbrev pub Objects : Type 0 → Type 0
Objects Obj = Bytes → Option Obj

module _ {Obj : Type 0} where
  put_object : Try ObjectMeta → Obj → Objects Obj → Objects Obj
  put_object (inl e) obj h j = h j
  put_object (inr o) obj h j = if o.uid == j then some obj else h j

  remove_object : Try ObjectMeta → Objects Obj → Objects Obj
  remove_object (inl e) h j = h j
  remove_object (inr o) h j = if o.uid == j then none else h j

module _ {Obj : Type 0} (accessor : Accessor Obj) where
  -- A Replace stops at the first value that is no object.
  put_all : List Obj → Objects Obj → Objects Obj
  put_all [] h = h
  put_all (o ∷ list) h =
      let rest = put_all list (put_object (accessor o) o h) in
      elim (accessor o) [ inl e ↦ h | inr m ↦ rest ]

  pub expected : Operation Obj → Objects Obj → Objects Obj
  unfolding put_object remove_object put_all
  expected (add o) h = put_object (accessor o) o h
  expected (update o) h = put_object (accessor o) o h
  expected (delete o) h = remove_object (accessor o) h
  expected (replace list) h = put_all list (λ j. none)
  expected resync h = h

  pub expected_all : List (Operation Obj) → Objects Obj → Objects Obj
  expected_all [] h = h
  expected_all (op ∷ ops) h = expected_all ops (expected op h)

module _ (fl : Float64) {Obj : Type 0} where
  -- What an object renders to, if generating and rendering its families does not panic.
  abbrev pub Renders : (Obj → Result (List (Family fl.F))) → (Obj → List Bytes) → Obj → Type 0
  Renders generate_func render o = (generate_func o >>= family_strings fl) ≡ ok (render o)

module _ (fl : Float64) {Obj : Type 0} (accessor : Accessor Obj) where
  abbrev Store : Type 0
  Store = MetricsStore fl.F Obj

  -- `s` holds, under each id, what the object of `h` under it renders to, and nothing else.
  pub record Represents (generate_func : Obj → Result (List (Family fl.F)))
      (render : Obj → List Bytes) (s : Store) (h : Objects Obj) : Type 0 where
    pub entries : (j : Bytes) → lookup j s.metrics ≡ Option.map render (h j)
    pub same : (o : Obj) → s.generate_metrics_func o ≡ generate_func o

  -- A panic in a generator, or in the rendering, leaves the store as it was.
  pub add_panics :
      (o : Obj) (s : Store) (m : ObjectMeta)
      → accessor o ≡ inr m
      → (s.generate_metrics_func o >>= family_strings fl) ≡ panic
      → MetricsStore.add fl accessor o s ≡ (panic, s)
  unfolding MetricsStore.add
  add_panics o s m e h = rw (e, h)

  module _ (generate_func : Obj → Result (List (Family fl.F))) (render : Obj → List Bytes) where
    -- Add's effect, by what the accessor says.
    add_error :
        (o : Obj) (s : Store) (e : Bytes)
        → accessor o ≡ inl e
        → MetricsStore.add fl accessor o s ≡ (err e, s)
    unfolding MetricsStore.add
    add_error o s e h = rw h

    add_ok :
        (o : Obj) (s : Store) (h : Objects Obj) (m : ObjectMeta)
        → Represents generate_func render s h
        → Renders fl generate_func render o
        → accessor o ≡ inr m
        → MetricsStore.add fl accessor o s
          ≡ (ok tt, record s { metrics = insert m.uid (render o) s.metrics })
    unfolding MetricsStore.add
    add_ok o s h m r renders e = rw (e, r.same o, renders)

    insert-Represents :
        (o : Obj) (s : Store) (h : Objects Obj) (m : ObjectMeta)
        → Represents generate_func render s h
        → Represents generate_func render
            (record s { metrics = insert m.uid (render o) s.metrics })
            (put_object (inr m) o h)
    unfolding put_object
    insert-Represents o s h m r = record {
      entries = λ j. rw lookup-insert (ground (arith, r.entries j));
      same = r.same;
    }

    add-Represents :
        (o : Obj) (s : Store) (h : Objects Obj)
        → Renders fl generate_func render o
        → Represents generate_func render s h
        → Represents generate_func render
            (MetricsStore.add fl accessor o s).1
            (put_object (accessor o) o h)
    add-Represents o s h renders r = elim (Try-cases (accessor o)) [
      | inl (e, bad) ↦ rw (add_error o s e bad, bad) (unfold put_object in r)
      | inr (m, good) ↦ rw (add_ok o s h m r renders good, good) (insert-Represents o s h m r)
    ]

    delete-Represents :
        (o : Obj) (s : Store) (h : Objects Obj)
        → Represents generate_func render s h
        → Represents generate_func render
            (MetricsStore.delete fl accessor o s).1
            (remove_object (accessor o) h)
    unfolding MetricsStore.delete remove_object
    delete-Represents o s h r = elim (Try-cases (accessor o)) [
      | inl (e, bad) ↦ rw bad r
      | inr (m, good) ↦
          rw good (record {
            entries = λ j. rw lookup-delete (ground (arith, r.entries j));
            same = r.same;
          })
    ]

    add_all-Represents :
        (list : List Obj) (s : Store) (h : Objects Obj)
        → All (Renders fl generate_func render) list
        → Represents generate_func render s h
        → Represents generate_func render (add_all fl accessor list s).1 (put_all accessor list h)
    unfolding add_all put_all
    add_all-Represents [] s h _ r = r
    add_all-Represents (o ∷ list) s h (renders, all) r = elim (Try-cases (accessor o)) [
      | inl (e, bad) ↦ rw (add_error o s e bad, bad, put_all) r
      | inr (m, good) ↦
          let ih =
            add_all-Represents list (record s { metrics = insert m.uid (render o) s.metrics })
              (put_object (accessor o) o h) all (rw good (insert-Represents o s h m r)) in
          rw (add_ok o s h m r renders good) (rw (good, put_all) ih)
    ]

    step-Represents :
        (op : Operation Obj) (s : Store) (h : Objects Obj)
        → Each (Renders fl generate_func render) op
        → Represents generate_func render s h
        → Represents generate_func render (step fl accessor op s) (expected accessor op h)
    unfolding step expected MetricsStore.update MetricsStore.replace MetricsStore.resync
    step-Represents (add o) s h d r = add-Represents o s h d r
    step-Represents (update o) s h d r = add-Represents o s h d r
    step-Represents (delete o) s h d r = delete-Represents o s h r
    step-Represents (replace list) s h d r =
        add_all-Represents list (record s { metrics = [] }) (λ j. none) d
          (record { entries = λ j. unfold lookup in refl; same = r.same })
    step-Represents resync s h d r = r

    run-Represents :
        (ops : List (Operation Obj)) (s : Store) (h : Objects Obj)
        → All (Each (Renders fl generate_func render)) ops
        → Represents generate_func render s h
        → Represents generate_func render (run fl accessor ops s) (expected_all accessor ops h)
    unfolding run expected_all
    run-Represents [] s h _ r = r
    run-Represents (op ∷ ops) s h (d, ds) r =
        run-Represents ops (step fl accessor op s) (expected accessor op h) ds
          (step-Represents op s h d r)

    -- If the objects that are added render without a panic, then after any operations on a new
    -- store, with errors ignored, the store holds under each id the rendering of the object that a
    -- map under the same operations holds: the last one that Add, Update or Replace put there and
    -- that no later Delete or Replace took away. A Replace empties the map and puts the objects up
    -- to the first that is no Kubernetes object; on such a one every other operation does nothing.
    pub run_refines :
        (headers : List Bytes) (ops : List (Operation Obj)) (j : Bytes)
        → All (Each (Renders fl generate_func render)) ops
        → lookup j (run fl accessor ops (new_metrics_store headers generate_func)).metrics
          ≡ Option.map render (expected_all accessor ops (λ k. none) j)
    run_refines headers ops j renders =
        (run-Represents ops (new_metrics_store headers generate_func) (λ k. none) renders
            (unfold new_metrics_store lookup in
              record { entries = λ k. refl; same = λ o. refl })).entries
          j
