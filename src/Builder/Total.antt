-- ===== src/Builder/Total.antt =====
-- Build with a list, a context and a store function does not panic; what its reflectors have.
use kube_state_metrics.Prelude.{
  ◌≡◌, refl, ap, ◌∙◌, inl, inr, Option, none, some, List, [], ◌∷◌, ◌++◌, All, All-append,
  Bool-cases, Option-cases,
}
use kube_state_metrics.Prelude.Text.{Bytes}
use kube_state_metrics.Prelude.Assoc.{lookup}
use kube_state_metrics.Prelude.Int.{ℤ}
use kube_state_metrics.Prelude.Result.{ok, panic}
use kube_state_metrics.Metric.{Float64}
use kube_state_metrics.Generator.{AllowDenyLister, FamilyGenerator}
use kube_state_metrics.Builder.{
  Kind, Clients, Builder, BuildStoreFunc, default, other, CacheStore, custom, metrics_store,
  by_func, by_default, construct, build_loop, build, available_stores,
}
use kube_state_metrics.Builder.Stores.{
  default_only, construct_lem, build_store_lem, run_func, store_of,
}

-- The reflector of a store runs until a context is done, and has this sharding.
abbrev pub Tracks :
    {c : Clients} {fl : Float64} {Obj : Kind → Type 0}
    → c.Context
    → ℤ
    → ℤ
    → CacheStore c fl Obj
    → Type 0
Tracks ctx shard total_shards (metrics_store k s r) =
    (r.ctx ≡ ctx) × (r.shard ≡ shard) × (r.total_shards ≡ total_shards)
Tracks ctx shard total_shards (custom s) = Unit

module _ {c : Clients} (fl : Float64) {Obj : Kind → Type 0}
    (families : (k : Kind) → List (FamilyGenerator fl.F (Obj k))) where
  construct_total :
      (k : Kind) (b : Builder c) (l : AllowDenyLister) (ctx : c.Context) (f : BuildStoreFunc c)
      → b.allow_deny_list ≡ some l
      → b.ctx ≡ some ctx
      → b.build_store_func ≡ some f
      → (s : CacheStore c fl Obj) × (construct fl families k b ≡ ok s)
        × Tracks ctx b.shard b.total_shards s
  unfolding by_func by_default
  construct_total k b l ctx f hl hc hf = elim (Bool-cases (default_only k)) [
    | inl ignores ↦ (
      store_of fl families l ctx b k,
      construct_lem fl families k b ∙ rw ignores (build_store_lem fl families k b l ctx hl hc),
      (refl, refl, refl),
    )
    | inr uses ↦
        by_its f (construct_lem fl families k b ∙ rw uses (ap (run_func fl families k b) hf))
  ]
    where
      by_its :
          (f : BuildStoreFunc c)
          → construct fl families k b ≡ run_func fl families k b (some f)
          → (s : CacheStore c fl Obj) × (construct fl families k b ≡ ok s)
            × Tracks ctx b.shard b.total_shards s
      by_its default h = (
        store_of fl families l ctx b k,
        h ∙ build_store_lem fl families k b l ctx hl hc,
        (refl, refl, refl),
      )
      by_its (other g) h = (custom (g k), h, tt)

  build_loop_total :
      (rs : List Bytes) (b : Builder c) (stores : List (CacheStore c fl Obj))
      (P : CacheStore c fl Obj → Type 0)
      → ((k : Kind) → (s : CacheStore c fl Obj) × (construct fl families k b ≡ ok s) × P s)
      → All P stores
      → (stores' : List (CacheStore c fl Obj)) × (build_loop fl families rs b stores ≡ ok stores')
        × All P stores'
  unfolding build_loop
  build_loop_total [] b stores P total all = (stores, refl, all)
  build_loop_total (r ∷ rs) b stores P total all = elim (Option-cases (lookup r available_stores)) [
    | inl unknown ↦
        let (stores', built, all') = build_loop_total rs b stores P total all in
        (stores', rw (unknown, build_loop) built, all')
    | inr (k, found) ↦
        let (s, made, holds) = total k in
        let (stores', built, all') =
          build_loop_total rs b (stores ++ s ∷ []) P total
            (All-append P stores (s ∷ []) all (holds, tt)) in
        (stores', rw (found, made, build_loop) built, all')
  ]

  -- Build returns stores, whose reflectors all have the builder's context and sharding.
  pub build_total :
      (b : Builder c) (l : AllowDenyLister) (ctx : c.Context) (f : BuildStoreFunc c)
      → b.allow_deny_list ≡ some l
      → b.ctx ≡ some ctx
      → b.build_store_func ≡ some f
      → (stores : List (CacheStore c fl Obj)) × (build fl families b ≡ ok stores)
        × All (Tracks ctx b.shard b.total_shards) stores
  unfolding build
  build_total b l ctx f hl hc hf =
      let (stores, built, all) =
        build_loop_total b.enabled_resources b [] (Tracks ctx b.shard b.total_shards)
          (λ k. construct_total k b l ctx f hl hc hf) tt in
      (
        stores,
        ap
              (λ (o : Option AllowDenyLister). elim o [
                | none ↦ panic
                | some l' ↦ build_loop fl families b.enabled_resources b []
              ])
              hl
            ∙ built,
        all,
      )
