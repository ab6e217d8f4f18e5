-- ===== src/Builder/Listers/Listing.antt =====
-- What the reflectors of all shards list and watch (internal/store/builder.go,
-- reflectorPerNamespace).
use mathlib.Core.List.{Permᴰ}
use kube_state_metrics.Prelude.{
  ℕ, suc, ◌^◌, ◌≤◌, ◌<◌, ◌≡◌, refl, sym, ap, ◌∙◌, inl, inr, Bool, true, ◌&&◌, List, [], ◌∷◌, map,
  append-nil, arith, nat_beq, keep_if, All, Bool-cases,
}
use kube_state_metrics.Prelude.Text.{Bytes, codes, eq_refl}
use kube_state_metrics.Prelude.Int.{pos, int_beq}
use kube_state_metrics.Prelude.Result.{Result}
use kube_state_metrics.Api.{
  Try, Accessor, ListOptions, ObjectList, metav1_list, WatchPackage, ListerWatcher,
}
use kube_state_metrics.AllowDenyList.{StringSet}
use kube_state_metrics.Sharding.{Jump, JumpLaws, new_sharded_list_watch}
use kube_state_metrics.Sharding.Partition.{parts, parts_perm}
use kube_state_metrics.Sharding.Lists
use kube_state_metrics.Sharding.Lists.{IsObject, keeps, numbered, All-numbered}
use kube_state_metrics.Instrumented
use kube_state_metrics.Instrumented.{
  CounterPackage, CounterLaws, ListWatchMetrics, InstrumentedListerWatcher,
  new_instrumented_lister_watcher,
}
use kube_state_metrics.Instrumented.Counts.{list_step, outcome}
use kube_state_metrics.ListWatch.{is_all_namespaces}
use kube_state_metrics.ListWatch.Denylist.{new_denylist_lister_watcher}
use kube_state_metrics.ListWatch.Multi.{multi_namespace_lister_watcher, multi}
use kube_state_metrics.ListWatch.Multi.RoundTrip
use kube_state_metrics.ListWatch.Multi.RoundTrip.{objects, Lists}
use kube_state_metrics.Builder.Listers.{instrumented_list_watch, answering, reflector_list}

pub keep_if_all :
    {A : Type 0} (p : A → Bool) (xs : List A) → All (λ x. p x ≡ true) xs → keep_if p xs ≡ xs
keep_if_all p [] h = refl
keep_if_all p (x ∷ xs) (hx, h) = rw hx (ap (λ ys. x ∷ ys) (keep_if_all p xs h))

module _ {Obj : Type 0} (accessor : Accessor Obj) (wp : WatchPackage Obj) where
  -- The combined list of the namespaces has their objects, in order, however many they are.
  multi_namespace_list :
      (new_denylist_watch : StringSet → wp.Watch → wp.Watch)
      (as_watch : Result (List wp.Watch) × List wp.Watch → Try wp.Watch) (namespaces : List Bytes)
      (lwf : Bytes → ListerWatcher Obj wp.Watch) (options : ListOptions)
      (rs : List (List Obj × Bytes))
      → Lists (map lwf namespaces) options rs
      → (l : ObjectList Obj) × ((multi_namespace_lister_watcher accessor new_denylist_watch as_watch
              namespaces [] lwf).list
            options
          ≡ inr l)
        × (l.extract_list ≡ inr (objects rs))
  unfolding multi_namespace_lister_watcher multi new_denylist_lister_watcher
  multi_namespace_list nd as_watch [] lwf options [] h = (_, refl, refl)
  multi_namespace_list nd as_watch [] lwf options (r ∷ rs) h = absurd h
  multi_namespace_list nd as_watch (ns ∷ []) lwf options [] h = absurd h
  multi_namespace_list nd as_watch (ns ∷ []) lwf options ((objs, v) ∷ []) ((l, e, x, _), _) =
      elim (Bool-cases (is_all_namespaces (ns ∷ []))) [
        | inl all ↦ (l, rw all e, x ∙ ap inr (sym (append-nil objs)))
        | inr one ↦ (l, rw one e, x ∙ ap inr (sym (append-nil objs)))
      ]
  multi_namespace_list nd as_watch (ns ∷ []) lwf options (r ∷ r' ∷ rs) (_, h) = absurd h
  multi_namespace_list nd as_watch (ns ∷ ns' ∷ namespaces) lwf options rs h =
      (_, RoundTrip.list_lem (map lwf (ns ∷ ns' ∷ namespaces)) options rs h, refl)

module _ (jump : Jump) {Obj : Type 0} (accessor : Accessor Obj) (wp : WatchPackage Obj) where
  all_kept :
      (n k : ℕ) (items : List Obj)
      → (int_beq (pos k) (pos 0) && int_beq (pos n) (pos 1)) ≡ true
      → All
          (λ o.
            (b : ℕ) × (b < n)
            × ((k : ℕ) → keeps jump accessor (numbered jump accessor n k) o ≡ nat_beq b k))
          items
      → All (λ o. keeps jump accessor (numbered jump accessor n k) o ≡ true) items
  unfolding int_beq
  all_kept n k [] alone h = tt
  all_kept n k (o ∷ items) alone ((b, below, only), h) =
      (only k ∙ (ground arith), all_kept n k items alone h)

  -- The list of a shard, also where there is one shard only and the sharding is left out.
  sharded_list :
      (laws : JumpLaws jump) (n k : ℕ) (lw : ListerWatcher Obj wp.Watch) (options : ListOptions)
      (l : ObjectList Obj) (items : List Obj)
      → 0 < n
      → n ≤ 2 ^ 31
      → lw.list options ≡ inr l
      → l.extract_list ≡ inr items
      → All (IsObject jump accessor) items
      → (r : ObjectList Obj) × ((new_sharded_list_watch jump accessor wp (pos k) (pos n) lw).list
            options
          ≡ inr r)
        × (r.extract_list ≡ inr (keep_if (keeps jump accessor (numbered jump accessor n k)) items))
  unfolding new_sharded_list_watch
  sharded_list laws n k lw options l items h fits listed extracted objects =
      elim (Bool-cases (int_beq (pos k) (pos 0) && int_beq (pos n) (pos 1))) [
        | inl alone ↦
            let all =
              keep_if_all _ items (
                all_kept n k items alone
                  (All-numbered jump accessor laws n items h fits objects)) in
            (l, rw alone listed, extracted ∙ ap inr (sym all))
        | inr several ↦ (
          metav1_list (keep_if (keeps jump accessor (numbered jump accessor n k)) items) [],
          rw several (
              Lists.list_lem jump accessor (numbered jump accessor n k) lw options l items listed
                extracted objects),
          refl,
        )
      ]

  module _ (cp : CounterPackage) where
    success_counted :
        (claws : CounterLaws cp) (options : ListOptions)
        (i : InstrumentedListerWatcher cp Obj wp.Watch) (l : ObjectList Obj)
        → i.lw.list options ≡ inr l
        → cp.value
            (Instrumented.list cp options i).1.metrics.list_total
            (codes "success")
            i.resource
          ≡ suc (cp.value i.metrics.list_total (codes "success") i.resource)
    success_counted claws options i l listed =
        rw (list_step cp options i, listed, outcome)
          (claws.value-inc i.metrics.list_total (codes "success") i.resource (codes "success")
              i.resource
            ∙ rw (eq_refl (codes "success"), eq_refl i.resource) refl)

    -- For 1 up to 2^31 shards and any namespaces, if each of them lists Kubernetes objects, the List of
    -- the reflector of each shard succeeds with those of the namespaces' objects that the shard keeps,
    -- and counts one success more for the resource; and what the shards 0, 1, … list, one after the
    -- other, is a permutation of the objects of all the namespaces.
    pub reflectors_cover_namespaces :
        (laws : JumpLaws jump) (claws : CounterLaws cp)
        (new_denylist_watch : StringSet → wp.Watch → wp.Watch)
        (as_watch : Result (List wp.Watch) × List wp.Watch → Try wp.Watch) (n : ℕ)
        (namespaces : List Bytes) (lwf : Bytes → ListerWatcher Obj wp.Watch)
        (metrics : ListWatchMetrics cp) (resource : Bytes) (options : ListOptions)
        (rs : List (List Obj × Bytes))
        → 0 < n
        → n ≤ 2 ^ 31
        → Lists (map lwf namespaces) options rs
        → All (IsObject jump accessor) (objects rs)
        → let i =
            instrumented_list_watch accessor wp cp new_denylist_watch as_watch namespaces lwf
              metrics resource in
          ((k : ℕ)
            → let (answer, i') = reflector_list accessor wp cp jump (pos k) (pos n) options i in
              (r : ObjectList Obj) × (answer ≡ inr r)
              × (r.extract_list
                  ≡ inr (keep_if (keeps jump accessor (numbered jump accessor n k)) (objects rs)))
              × (cp.value i'.metrics.list_total (codes "success") resource
                  ≡ suc (cp.value metrics.list_total (codes "success") resource)))
          × Permᴰ
              (objects rs)
              (parts (λ k. keeps jump accessor (numbered jump accessor n k)) n (objects rs))
    unfolding instrumented_list_watch reflector_list new_instrumented_lister_watcher
    reflectors_cover_namespaces laws claws nd as_watch n namespaces lwf metrics resource options rs
          h fits listed are_objects =
        let i =
          instrumented_list_watch accessor wp cp nd as_watch namespaces lwf metrics resource in
        let (l, all, extracted) =
          multi_namespace_list accessor wp nd as_watch namespaces lwf options rs listed in
        (
          λ k.
              let (r, answer, kept) =
                sharded_list laws n k (answering accessor wp cp i) options l (objects rs) h fits
                  (ap (λ t. t.0) (list_step cp options i) ∙ all) extracted are_objects in
              (r, answer, kept, success_counted claws options i l all),
          parts_perm (λ k. keeps jump accessor (numbered jump accessor n k)) n (objects rs)
              (All-numbered jump accessor laws n (objects rs) h fits are_objects),
        )
