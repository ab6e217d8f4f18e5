-- ===== src/MetricsStore/Entries.antt =====
-- What holds of the entries of a store after any operations, where it holds of those that Add makes.
use mathlib.Core.List.{Memᴰ}
use kube_state_metrics.Prelude.{◌≡◌, refl, subst, inl, inr, List, [], ◌∷◌, ◌++◌, All, All-unappend}
use kube_state_metrics.Prelude.Text.{Bytes}
use kube_state_metrics.Prelude.Assoc.{insert, All-delete}
use kube_state_metrics.Prelude.Result.{Result, ok, err, panic, ◌>>=◌}
use kube_state_metrics.Api.{Accessor, ObjectMeta, Try}
use kube_state_metrics.Metric.{Float64, Family}
use kube_state_metrics.MetricsStore
use kube_state_metrics.MetricsStore.{
  MetricsStore, family_strings, assign, add_object, delete_object, after_add, add_all,
}
use kube_state_metrics.MetricsStore.Operations.{
  Operation, add, update, delete, replace, resync, step, run,
}
use kube_state_metrics.MetricsStore.Refinement.{Each}

-- The objects that an operation passes to Add.
abbrev pub added : {Obj : Type 0} → Operation Obj → List Obj
added (add o) = o ∷ []
added (update o) = o ∷ []
added (delete o) = []
added (replace list) = list
added resync = []

abbrev pub all_added : {Obj : Type 0} → List (Operation Obj) → List Obj
all_added [] = []
all_added (op ∷ ops) = added op ++ all_added ops

module _ {Obj : Type 0} (P : Obj → Type 0) where
  Each-added : (op : Operation Obj) → All P (added op) → Each P op
  Each-added (add o) (h, _) = h
  Each-added (update o) (h, _) = h
  Each-added (delete o) h = tt
  Each-added (replace list) h = h
  Each-added resync h = tt

  Each-all_added : (ops : List (Operation Obj)) → All P (all_added ops) → All (Each P) ops
  Each-all_added [] h = tt
  Each-all_added (op ∷ ops) h =
      let (first, rest) = All-unappend P (added op) (all_added ops) h in
      (Each-added op first, Each-all_added ops rest)

  always : ((o : Obj) → P o) → (os : List Obj) → All P os
  always f [] = tt
  always f (o ∷ os) = (f o, always f os)

  pub Each-always : ((o : Obj) → P o) → (ops : List (Operation Obj)) → All (Each P) ops
  Each-always f ops = Each-all_added ops (always f (all_added ops))

  all_of_mem : (os : List Obj) → ((o : Obj) → Memᴰ o os → P o) → All P os
  all_of_mem [] f = tt
  all_of_mem (o ∷ os) f = (f o (Memᴰ.head refl), all_of_mem os (λ o' h. f o' (Memᴰ.tail h)))

  -- What holds of every object that is passed to Add holds of each that an operation adds.
  pub Each-of_mem :
      (ops : List (Operation Obj)) → ((o : Obj) → Memᴰ o (all_added ops) → P o) → All (Each P) ops
  Each-of_mem ops f = Each-all_added ops (all_of_mem (all_added ops) f)

module _ (fl : Float64) {Obj : Type 0} (accessor : Accessor Obj) (headers : List Bytes)
    (generate_func : Obj → Result (List (Family fl.F))) (E : Bytes × List Bytes → Type 0) where
  -- A store with these headers and this function, all of whose entries are as `E` says.
  pub record HasEntries (s : MetricsStore fl.F Obj) : Type 0 where
    pub same_headers : s.headers ≡ headers
    pub same_func : (o : Obj) → s.generate_metrics_func o ≡ generate_func o
    pub entries : All E s.metrics

  -- An Add of such an object makes only entries that are as `E` says.
  abbrev pub Makes : Obj → Type 0
  Makes o =
      (m : ObjectMeta) (bs : List Bytes)
      → accessor o ≡ inr m
      → (generate_func o >>= family_strings fl) ≡ ok bs
      → E (m.uid, bs)

  assign-HasEntries :
      (uid : Bytes) (r : Result (List Bytes)) (s : MetricsStore fl.F Obj)
      → HasEntries s
      → ((bs : List Bytes) → r ≡ ok bs → E (uid, bs))
      → HasEntries (assign fl accessor uid r s).1
  unfolding assign insert
  assign-HasEntries uid (ok bs) s h makes = record {
    same_headers = h.same_headers;
    same_func = h.same_func;
    entries = (makes bs refl, All-delete E uid s.metrics h.entries);
  }
  assign-HasEntries uid (err e) s h makes = h
  assign-HasEntries uid panic s h makes = h

  add_object-HasEntries :
      (t : Try ObjectMeta) (o : Obj) (s : MetricsStore fl.F Obj)
      → accessor o ≡ t
      → HasEntries s
      → Makes o
      → HasEntries (add_object fl accessor t o s).1
  unfolding add_object
  add_object-HasEntries (inl e) o s at h makes = h
  add_object-HasEntries (inr m) o s at h makes =
      assign-HasEntries m.uid (s.generate_metrics_func o >>= family_strings fl) s h (λ bs made.
        makes m bs at (subst (λ r. (r >>= family_strings fl) ≡ ok bs) (h.same_func o) made))

  add-HasEntries :
      (o : Obj) (s : MetricsStore fl.F Obj)
      → HasEntries s
      → Makes o
      → HasEntries (MetricsStore.add fl accessor o s).1
  unfolding MetricsStore.add
  add-HasEntries o s h makes = add_object-HasEntries (accessor o) o s refl h makes

  delete_object-HasEntries :
      (t : Try ObjectMeta) (s : MetricsStore fl.F Obj)
      → HasEntries s
      → HasEntries (delete_object fl accessor t s).1
  unfolding delete_object
  delete_object-HasEntries (inl e) s h = h
  delete_object-HasEntries (inr m) s h = record {
    same_headers = h.same_headers;
    same_func = h.same_func;
    entries = All-delete E m.uid s.metrics h.entries;
  }

  after_add-HasEntries :
      (r : Result (Unit {0}) × MetricsStore fl.F Obj)
      (rest : MetricsStore fl.F Obj → Result (Unit {0}) × MetricsStore fl.F Obj)
      → HasEntries r.1
      → ((s : MetricsStore fl.F Obj) → HasEntries s → HasEntries (rest s).1)
      → HasEntries (after_add fl accessor r rest).1
  unfolding after_add
  after_add-HasEntries (ok _, s) rest h keep = keep s h
  after_add-HasEntries (err e, s) rest h keep = h
  after_add-HasEntries (panic, s) rest h keep = h

  add_all-HasEntries :
      (list : List Obj) (s : MetricsStore fl.F Obj)
      → HasEntries s
      → All Makes list
      → HasEntries (add_all fl accessor list s).1
  unfolding add_all
  add_all-HasEntries [] s h makes = h
  add_all-HasEntries (o ∷ list) s h (makes, all) =
      after_add-HasEntries (MetricsStore.add fl accessor o s) (add_all fl accessor list)
        (add-HasEntries o s h makes) (λ s' h'. add_all-HasEntries list s' h' all)

  step-HasEntries :
      (op : Operation Obj) (s : MetricsStore fl.F Obj)
      → HasEntries s
      → Each Makes op
      → HasEntries (step fl accessor op s)
  unfolding step MetricsStore.update MetricsStore.delete MetricsStore.replace MetricsStore.resync
  step-HasEntries (add o) s h makes = add-HasEntries o s h makes
  step-HasEntries (update o) s h makes = add-HasEntries o s h makes
  step-HasEntries (delete o) s h makes = delete_object-HasEntries (accessor o) s h
  step-HasEntries (replace list) s h makes =
      add_all-HasEntries list (record s { metrics = [] })
        (record { same_headers = h.same_headers; same_func = h.same_func; entries = tt }) makes
  step-HasEntries resync s h makes = h

  pub run-HasEntries :
      (ops : List (Operation Obj)) (s : MetricsStore fl.F Obj)
      → HasEntries s
      → All (Each Makes) ops
      → HasEntries (run fl accessor ops s)
  unfolding run
  run-HasEntries [] s h makes = h
  run-HasEntries (op ∷ ops) s h (makes, all) =
      run-HasEntries ops (step fl accessor op s) (step-HasEntries op s h makes) all
