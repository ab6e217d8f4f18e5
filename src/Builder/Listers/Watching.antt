-- ===== src/Builder/Listers/Watching.antt =====
-- What the reflector of a shard watches (internal/store/builder.go, reflectorPerNamespace).
use kube_state_metrics.Prelude.{
  ℕ, suc, ◌^◌, ◌≤◌, ◌<◌, ◌≡◌, refl, sym, ap, ◌∙◌, inl, inr, true, ◌&&◌, List, [], ◌∷◌, arith,
  keep_if, All, Bool-cases,
}
use kube_state_metrics.Prelude.Text.{codes, eq_refl}
use kube_state_metrics.Prelude.Int.{pos, int_beq}
use kube_state_metrics.Api.{Try-cases, Accessor, ListOptions, Event, WatchPackage, WatchLaws}
use kube_state_metrics.Sharding.{Jump, JumpLaws, keep, fnv64a, offset64, new_sharded_list_watch}
use kube_state_metrics.Sharding.Lists.{numbered, delivers, watch_lem}
use kube_state_metrics.Instrumented
use kube_state_metrics.Instrumented.{CounterPackage, CounterLaws, InstrumentedListerWatcher}
use kube_state_metrics.Instrumented.Counts.{watch_step, outcome}
use kube_state_metrics.Builder.Listers.{answering, reflector_watch}
use kube_state_metrics.Builder.Listers.Listing.{keep_if_all}

module _ (jump : Jump) {Obj : Type 0} (accessor : Accessor Obj) where
  -- Shard 0 of 1 keeps every object.
  alone_keeps :
      (laws : JumpLaws jump) (n k : ℕ) (e : Event Obj)
      → (int_beq (pos k) (pos 0) && int_beq (pos n) (pos 1)) ≡ true
      → 0 < n
      → n ≤ 2 ^ 31
      → delivers jump accessor (numbered jump accessor n k) e ≡ true
  unfolding keep int_beq
  alone_keeps laws n k e alone h fits = elim (Try-cases (accessor e.object)) [
    | inl (_, bad) ↦ rw (bad, delivers) refl
    | inr (a, good) ↦
        let (b, at, below) = laws.bucket (fnv64a offset64 a.uid) n h fits in
        rw (good, delivers, at) (ground arith)
  ]

  all_delivered :
      (laws : JumpLaws jump) (n k : ℕ) (es : List (Event Obj))
      → (int_beq (pos k) (pos 0) && int_beq (pos n) (pos 1)) ≡ true
      → 0 < n
      → n ≤ 2 ^ 31
      → All (λ e. delivers jump accessor (numbered jump accessor n k) e ≡ true) es
  all_delivered laws n k [] alone h fits = tt
  all_delivered laws n k (e ∷ es) alone h fits =
      (alone_keeps laws n k e alone h fits, all_delivered laws n k es alone h fits)

  module _ (wp : WatchPackage Obj) (cp : CounterPackage) where
    watch_counted :
        (claws : CounterLaws cp) (options : ListOptions)
        (i : InstrumentedListerWatcher cp Obj wp.Watch) (w : wp.Watch)
        → i.lw.watch options ≡ inr w
        → cp.value
            (Instrumented.watch cp options i).1.metrics.watch_total
            (codes "success")
            i.resource
          ≡ suc (cp.value i.metrics.watch_total (codes "success") i.resource)
    watch_counted claws options i w watched =
        rw (watch_step cp options i, watched, outcome)
          (claws.value-inc i.metrics.watch_total (codes "success") i.resource (codes "success")
              i.resource
            ∙ rw (eq_refl (codes "success"), eq_refl i.resource) refl)

    -- For 1 up to 2^31 shards, one among them too, if the watch of the namespaces opens, the Watch of a
    -- shard's reflector opens one that delivers the events whose object the shard keeps or is no
    -- Kubernetes object, in their order and unchanged, and counts one success more for the resource.
    pub reflector_watch_lem :
        (laws : JumpLaws jump) (wlaws : WatchLaws wp) (claws : CounterLaws cp) (n k : ℕ)
        (options : ListOptions) (i : InstrumentedListerWatcher cp Obj wp.Watch) (w : wp.Watch)
        → 0 < n
        → n ≤ 2 ^ 31
        → i.lw.watch options ≡ inr w
        → let (answer, i') = reflector_watch accessor wp cp jump (pos k) (pos n) options i in
          (w' : wp.Watch) × (answer ≡ inr w')
          × (wp.events w'
              ≡ keep_if (delivers jump accessor (numbered jump accessor n k)) (wp.events w))
          × (cp.value i'.metrics.watch_total (codes "success") i.resource
              ≡ suc (cp.value i.metrics.watch_total (codes "success") i.resource))
    unfolding reflector_watch new_sharded_list_watch
    reflector_watch_lem laws wlaws claws n k options i w h fits watched =
        let opened = ap (λ t. t.0) (watch_step cp options i) ∙ watched in
        elim (Bool-cases (int_beq (pos k) (pos 0) && int_beq (pos n) (pos 1))) [
          | inl alone ↦
              let all =
                keep_if_all _ (wp.events w) (all_delivered laws n k (wp.events w) alone h fits) in
              (w, rw alone opened, sym all, watch_counted claws options i w watched)
          | inr several ↦
              let (w', answer, kept) =
                watch_lem jump accessor wp wlaws (numbered jump accessor n k)
                  (answering accessor wp cp i) options w opened in
              (w', rw several answer, kept, watch_counted claws options i w watched)
        ]
