-- ===== src/Sharding/Lists.antt =====
-- What a sharded List and Watch return.
use mathlib.Core.List.{Permᴰ}
use kube_state_metrics.Prelude.{
  ℕ, ◌^◌, ◌≤◌, ◌<◌, ◌≡◌, refl, sym, ap, ◌∙◌, inl, inr, Bool, true, false, List, [], ◌∷◌, ◌++◌,
  append-nil, append_assoc, arith, nat_beq, keep_if, All, Bool-cases,
}
use kube_state_metrics.Prelude.Int.{pos, int_beq}
use kube_state_metrics.Api.{
  Try, Try-cases, ObjectMeta, Accessor, ListOptions, ObjectList, metav1_list, Event, WatchPackage,
  WatchLaws, ListerWatcher, kept,
}
use kube_state_metrics.Sharding.{
  Jump, JumpLaws, Sharding, keep, fnv64a, offset64, list_items, listed, list, watch_filter, watch,
}
use kube_state_metrics.Sharding.Partition.{parts, parts_perm}

module _ (jump : Jump) {Obj : Type 0} (accessor : Accessor Obj) where
  -- A Kubernetes object.
  abbrev pub IsObject : Obj → Type 0
  IsObject o = (a : ObjectMeta) × (accessor o ≡ inr a)

  -- A shard keeps an object by its metadata.
  abbrev pub keeps : Sharding → Obj → Bool
  keeps s o = elim (accessor o) [ inl e ↦ false | inr a ↦ keep jump s a ]

  list_items_lem :
      (s : Sharding) (items rest : List Obj)
      → All IsObject rest
      → list_items jump accessor s items rest ≡ inr (items ++ keep_if (keeps s) rest)
  unfolding list_items
  list_items_lem s items [] h = ap inr (sym (append-nil items))
  list_items_lem s items (o ∷ rest) ((a, good), h) = elim (Bool-cases (keep jump s a)) [
    | inl mine ↦
        let kept : keeps s o ≡ true = rw (good, keeps) mine in
        rw (kept, good, list_items, mine)
          (list_items_lem s (items ++ o ∷ []) rest h ∙ ap inr (append_assoc items (o ∷ []) _))
    | inr other ↦
        let dropped : keeps s o ≡ false = rw (good, keeps) other in
        rw (dropped, good, list_items, other) (list_items_lem s items rest h)
  ]

  pub list_lem :
      {Watch : Type 0} (s : Sharding) (lw : ListerWatcher Obj Watch) (options : ListOptions)
      (l : ObjectList Obj) (items : List Obj)
      → lw.list options ≡ inr l
      → l.extract_list ≡ inr items
      → All IsObject items
      → list jump accessor s lw options ≡ inr (metav1_list (keep_if (keeps s) items) [])
  unfolding list
  list_lem s lw options l items h e objects = rw (h, list, e, list_items_lem s [] items objects)

  abbrev pub numbered : ℕ → ℕ → Sharding
  numbered n k = record { shard = pos k; total_shards = pos n }

  has_number :
      (laws : JumpLaws jump) (n : ℕ) (o : Obj)
      → 0 < n
      → n ≤ 2 ^ 31
      → IsObject o
      → (b : ℕ) × (b < n) × ((k : ℕ) → keeps (numbered n k) o ≡ nat_beq b k)
  unfolding keep int_beq
  has_number laws n o h fits (a, good) =
      let (b, e, below) = laws.bucket (fnv64a offset64 a.uid) n h fits in
      (b, below, λ k. rw (good, keeps, e))

  pub All-numbered :
      (laws : JumpLaws jump) (n : ℕ) (items : List Obj)
      → 0 < n
      → n ≤ 2 ^ 31
      → All IsObject items
      → All (λ o. (b : ℕ) × (b < n) × ((k : ℕ) → keeps (numbered n k) o ≡ nat_beq b k)) items
  All-numbered laws n [] h fits objects = tt
  All-numbered laws n (o ∷ items) h fits (object, objects) =
      (has_number laws n o h fits object, All-numbered laws n items h fits objects)

  -- For 1 up to 2^31 shards over a list of Kubernetes objects, List of each shard returns the
  -- objects that it keeps, in their order, and what the shards 0, 1, … return, one after the
  -- other, is a permutation of the whole list: no object is lost and none is listed twice.
  shards_cover_list :
      {Watch : Type 0} (laws : JumpLaws jump) (n : ℕ) (lw : ListerWatcher Obj Watch)
      (options : ListOptions) (l : ObjectList Obj) (items : List Obj)
      → 0 < n
      → n ≤ 2 ^ 31
      → lw.list options ≡ inr l
      → l.extract_list ≡ inr items
      → All IsObject items
      → ((k : ℕ)
          → list jump accessor (numbered n k) lw options
            ≡ inr (metav1_list (keep_if (keeps (numbered n k)) items) []))
        × Permᴰ items (parts (λ k. keeps (numbered n k)) n items)
  shards_cover_list laws n lw options l items h fits listed extracted objects = (
    λ k. list_lem (numbered n k) lw options l items listed extracted objects,
    parts_perm (λ k. keeps (numbered n k)) n items (All-numbered laws n items h fits objects),
  )

  listed_version :
      (t : Try (List Obj)) (r : ObjectList Obj)
      → listed jump accessor t ≡ inr r
      → r.list_accessor ≡ inr []
  unfolding listed
  listed_version (inl e) r h = cc
  listed_version (inr items) r h = ground arith

  -- Whatever resource version the list under it has, a list that a sharded List returns has none.
  pub list_forgets_version :
      {Watch : Type 0} (s : Sharding) (lw : ListerWatcher Obj Watch) (options : ListOptions)
      (r : ObjectList Obj)
      → list jump accessor s lw options ≡ inr r
      → r.list_accessor ≡ inr []
  unfolding list
  list_forgets_version s lw options r h = elim (Try-cases (lw.list options)) [
    | inl (e, bad) ↦ let stop : inl e ≡ inr r = rw (bad, list) at h in cc stop
    | inr (l, good) ↦ elim (Try-cases l.extract_list) [
      | inl (e, bad) ↦ let stop : inl e ≡ inr r = rw (good, list, bad) at h in cc stop
      | inr (items, extracted) ↦
          listed_version (list_items jump accessor s [] items) r (rw (good, list, extracted) at h)
    ]
  ]

  -- Whether a sharded watch delivers an event.
  abbrev pub delivers : Sharding → Event Obj → Bool
  delivers s e = elim (accessor e.object) [ inl _ ↦ true | inr a ↦ keep jump s a ]

  watch_filter_lem :
      (s : Sharding) (e : Event Obj) → watch_filter jump accessor s e ≡ (e, delivers s e)
  unfolding watch_filter
  watch_filter_lem s e = elim (Try-cases (accessor e.object)) [
    | inl (_, bad) ↦ rw (bad, watch_filter, delivers)
    | inr (a, good) ↦ rw (good, watch_filter, delivers)
  ]

  kept-keep_if :
      (s : Sharding) (es : List (Event Obj))
      → kept (watch_filter jump accessor s) es ≡ keep_if (delivers s) es
  kept-keep_if s [] = refl
  kept-keep_if s (e ∷ es) = rw (watch_filter_lem s e, kept-keep_if s es)

  module _ (wp : WatchPackage Obj) where
    -- A sharded Watch fails as the watch under it does. Otherwise it delivers, in their order and
    -- unchanged, the events of the watch under it whose object it keeps or is no Kubernetes object.
    pub watch_lem :
        (wlaws : WatchLaws wp) (s : Sharding) (lw : ListerWatcher Obj wp.Watch)
        (options : ListOptions) (w : wp.Watch)
        → lw.watch options ≡ inr w
        → (w' : wp.Watch) × (watch jump accessor wp s lw options ≡ inr w')
          × (wp.events w' ≡ keep_if (delivers s) (wp.events w))
    unfolding watch
    watch_lem wlaws s lw options w h = (
      wp.filter w (watch_filter jump accessor s),
      rw (h, watch),
      wlaws.events-filter w (watch_filter jump accessor s) ∙ kept-keep_if s (wp.events w),
    )
