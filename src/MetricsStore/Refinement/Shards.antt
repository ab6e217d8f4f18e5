-- ===== src/MetricsStore/Refinement/Shards.antt =====
-- The stores of several shards (pkg/metrics_store and pkg/sharding) against one store of everything.
use mathlib.Core.Option
use kube_state_metrics.Prelude.{
  ℕ, ◌^◌, ◌≤◌, ◌<◌, ◌≡◌, ◌≢◌, refl, sym, ap, subst, ◌∙◌, inl, inr, Bool, true, false, Option, none,
  some, List, [], ◌∷◌, arith, nat_beq, nat_beq_iff, keep_if, All, Bool-cases, if◌then◌else◌,
}
use kube_state_metrics.Prelude.Text.{Bytes, ◌==◌, eq→path}
use kube_state_metrics.Prelude.Assoc.{lookup}
use kube_state_metrics.Prelude.Int.{pos, int_beq}
use kube_state_metrics.Prelude.Result.{Result}
use kube_state_metrics.Api.{Accessor, ObjectMeta}
use kube_state_metrics.Metric.{Float64, Family}
use kube_state_metrics.Sharding.{Jump, JumpLaws, keep, fnv64a, offset64}
use kube_state_metrics.Sharding.Lists.{IsObject, keeps, numbered}
use kube_state_metrics.MetricsStore.{MetricsStore, new_metrics_store}
use kube_state_metrics.MetricsStore.Operations.{replace, run}
use kube_state_metrics.MetricsStore.Refinement.{
  Objects, put_object, put_all, expected, expected_all, Renders, run_refines,
}

beq_same : (b : ℕ) → nat_beq b b ≡ true
beq_same b = ground arith

beq_other : (b k : ℕ) → k ≢ b → nat_beq b k ≡ false
beq_other b k other = elim (Bool-cases (nat_beq b k)) [
  | inl same ↦ absurd (other (sym ((nat_beq_iff b k).0 same)))
  | inr apart ↦ apart
]

All-keep_if :
    {A : Type 0} (P : A → Type 0) (p : A → Bool) (xs : List A) → All P xs → All P (keep_if p xs)
All-keep_if P p [] h = tt
All-keep_if P p (x ∷ xs) (hx, h) = elim (Bool-cases (p x)) [
  | inl keeps ↦ rw keeps (hx, All-keep_if P p xs h)
  | inr drops ↦ rw drops (All-keep_if P p xs h)
]

module _ {Obj : Type 0} (accessor : Accessor Obj) (j : Bytes) where
  put_same :
      (o : Obj) (m : ObjectMeta) (h h' : Objects Obj)
      → accessor o ≡ inr m
      → h j ≡ h' j
      → put_object (accessor o) o h j ≡ put_object (accessor o) o h' j
  unfolding put_object
  put_same o m h h' good same = rw good (ap (λ x. if m.uid == j then some o else x) same)

  put_other :
      (o : Obj) (m : ObjectMeta) (h : Objects Obj)
      → accessor o ≡ inr m
      → (m.uid == j) ≡ false
      → put_object (accessor o) o h j ≡ h j
  unfolding put_object
  put_other o m h good other = rw (good, other) refl

module _ {Obj : Type 0} (accessor : Accessor Obj) (p : Obj → Bool) (j : Bytes) where
  -- Whether the object is kept, if it has the id `j`.
  abbrev Decides : Bool → Obj → Type 0
  Decides b o = (m : ObjectMeta) × (accessor o ≡ inr m) × ((m.uid == j) ≡ true → p o ≡ b)

  put_all-kept :
      (items : List Obj) (h h' : Objects Obj)
      → All (Decides true) items
      → h j ≡ h' j
      → put_all accessor (keep_if p items) h j ≡ put_all accessor items h' j
  unfolding put_all
  put_all-kept [] h h' ds same = same
  put_all-kept (o ∷ items) h h' ((m, good, mine), ds) same = elim (Bool-cases (p o)) [
    | inl keeps ↦
        rw (keeps, good, put_all)
          (put_all-kept items _ _ ds (put_same accessor j o m h h' good same))
    | inr drops ↦
        let other : (m.uid == j) ≡ false = elim (Bool-cases (m.uid == j)) [
          | inl here ↦ cc (mine here, drops)
          | inr there ↦ there
        ] in
        rw (drops, good, put_all)
          (put_all-kept items _ _ ds (same ∙ sym (put_other accessor j o m h' good other)))
  ]

  put_all-dropped :
      (items : List Obj) (h : Objects Obj)
      → All (Decides false) items
      → put_all accessor (keep_if p items) h j ≡ h j
  unfolding put_all
  put_all-dropped [] h ds = refl
  put_all-dropped (o ∷ items) h ((m, good, not_mine), ds) = elim (Bool-cases (p o)) [
    | inl keeps ↦
        let other : (m.uid == j) ≡ false = elim (Bool-cases (m.uid == j)) [
          | inl here ↦ cc (not_mine here, keeps)
          | inr there ↦ there
        ] in
        rw (keeps, good, put_all)
          (put_all-dropped items _ ds ∙ put_other accessor j o m h good other)
    | inr drops ↦ rw (drops, put_all) (put_all-dropped items h ds)
  ]

module _ (jump : Jump) (fl : Float64) {Obj : Type 0} (accessor : Accessor Obj) where
  -- An id's objects are all kept by the shard of its number, and by no other.
  decided :
      (n k b : ℕ) (j : Bytes) (items : List Obj)
      → jump (fnv64a offset64 j) (pos n) ≡ pos b
      → All (IsObject jump accessor) items
      → All
          (Decides accessor (keeps jump accessor (numbered jump accessor n k)) j (nat_beq b k))
          items
  unfolding keep int_beq
  decided n k b j [] at h = tt
  decided n k b j (o ∷ items) at ((m, good), h) = (
    (
      m,
      good,
      λ here.
          let same : m.uid ≡ j = eq→path m.uid j here in
          let at' = ap (λ u. jump (fnv64a offset64 u) (pos n)) same ∙ at in
          rw (good, keeps, keep, at') refl,
    ),
    decided n k b j items at h,
  )

  module _ (generate_func : Obj → Result (List (Family fl.F))) (headers : List Bytes) where
    -- The store after a reflector replaced its content by these objects.
    abbrev pub listed_into : List Obj → MetricsStore fl.F Obj
    listed_into items =
        run fl accessor (replace items ∷ []) (new_metrics_store headers generate_func)

    holds :
        (render : Obj → List Bytes) (items : List Obj) (j : Bytes)
        → All (Renders fl generate_func render) items
        → lookup j (listed_into items).metrics
          ≡ Option.map render (put_all accessor items (λ i. none) j)
    unfolding expected_all expected
    holds render items j renders =
        run_refines fl accessor generate_func render headers (replace items ∷ []) j (renders, tt)

    -- For 1 up to 2^31 shards, and objects whose rendering does not panic, every id has one shard
    -- whose store, after it is filled with those of the objects that the shard keeps, holds under the
    -- id exactly what one store of all the objects would hold; the stores of the other shards hold
    -- nothing under it.
    pub shards_expose_once :
        (laws : JumpLaws jump) (render : Obj → List Bytes) (n : ℕ) (items : List Obj) (j : Bytes)
        → 0 < n
        → n ≤ 2 ^ 31
        → All (IsObject jump accessor) items
        → All (Renders fl generate_func render) items
        → let part : ℕ → Option (List Bytes) = λ k.
          lookup j
            (listed_into
              (keep_if (keeps jump accessor (numbered jump accessor n k)) items)).metrics in
          (b : ℕ) × (b < n)
          × (part b ≡ lookup j (listed_into items).metrics)
          × ((k : ℕ) → k ≢ b → part k ≡ none)
    shards_expose_once laws render n items j h fits objects renders =
        let (b, at, below) = laws.bucket (fnv64a offset64 j) n h fits in
        (
          b,
          below,
          holds render _ j (All-keep_if _ _ items renders)
              ∙ ap (Option.map render) (
                  put_all-kept accessor (keeps jump accessor (numbered jump accessor n b)) j items _
                    _
                    (subst
                      (λ d.
                        All
                          (Decides accessor (keeps jump accessor (numbered jump accessor n b)) j d)
                          items)
                      (beq_same b) (decided n b b j items at objects))
                    refl)
              ∙ sym (holds render items j renders),
          λ k other.
              holds render _ j (All-keep_if _ _ items renders)
              ∙ ap (Option.map render) (
                  put_all-dropped accessor (keeps jump accessor (numbered jump accessor n k)) j
                    items _
                    (subst
                      (λ d.
                        All
                          (Decides accessor (keeps jump accessor (numbered jump accessor n k)) j d)
                          items)
                      (beq_other b k other) (decided n k b j items at objects))),
        )
