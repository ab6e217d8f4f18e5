-- ===== src/Handler/Live.antt =====
-- Which contexts are done, and what the stores' reflectors run under.
use kube_state_metrics.Prelude.{
  ℕ, zero, suc, ◌≡◌, refl, ◌⊎◌, inl, inr, none, some, List, [], ◌∷◌, ◌++◌, All,
}
use kube_state_metrics.Prelude.Int.{ℤ}
use kube_state_metrics.Prelude.Result.{ok}
use kube_state_metrics.Metric.{Float64}
use kube_state_metrics.Generator.{AllowDenyLister, FamilyGenerator}
use kube_state_metrics.Builder.{Kind, Builder, BuildStoreFunc, with_sharding, with_context}
use kube_state_metrics.Builder.Total.{Tracks, build_total}
use kube_state_metrics.Handler.{
  Libraries, clients, Contexts, MetricsHandler, State, cancel_old, configure_sharding,
}

-- The numbers below n, in order.
abbrev pub numbers_below : ℕ → List ℕ
numbers_below zero = []
numbers_below (suc n) = numbers_below n ++ n ∷ []

-- A builder that has an allow- or denylist and a store function.
pub record Ready {t : Libraries} (b : Builder (clients t)) : Type 1 where
  pub l : AllowDenyLister
  pub f : BuildStoreFunc (clients t)
  pub has_list : b.allow_deny_list ≡ some l
  pub has_func : b.build_store_func ≡ some f

module _ {t : Libraries} {fl : Float64} {Obj : Kind → Type 0} where
  -- Before sharding was configured.
  pub record Fresh (s : State t fl Obj) : Type 0 where
    pub no_cancel : s.0.cancel ≡ none
    pub none_made : s.1.made ≡ 0
    pub none_cancelled : s.1.cancelled ≡ []
    pub no_stores : s.0.stores ≡ []

  -- The newest context is the one that the next configuration cancels, all before it were cancelled,
  -- each once, and it is not; the reflectors of the stores run under it and have the handler's
  -- sharding, and so has the builder.
  pub record Running (s : State t fl Obj) : Type 0 where
    pub ctx : ℕ
    pub to_cancel : s.0.cancel ≡ some ctx
    pub newest : s.1.made ≡ suc ctx
    pub older_cancelled : s.1.cancelled ≡ numbers_below ctx
    pub tracked : All (Tracks ctx s.0.cur_shard s.0.cur_total_shards) s.0.stores
    pub builder_shard : s.0.store_builder.shard ≡ s.0.cur_shard
    pub builder_total : s.0.store_builder.total_shards ≡ s.0.cur_total_shards

  abbrev pub Live : State t fl Obj → Type 0
  Live s = Fresh s ⊎ Running s

-- All contexts that were made are cancelled after ConfigureSharding's call of cancel.
module _ {t : Libraries} {fl : Float64} {Obj : Kind → Type 0} where
  all_cancelled :
      (s : State t fl Obj) → Live s → cancel_old s.0.cancel s.1.cancelled ≡ numbers_below s.1.made
  unfolding cancel_old
  all_cancelled s (inl h) = cc (h.no_cancel, h.none_made, h.none_cancelled)
  all_cancelled s (inr h) = cc (h.to_cancel, h.newest, h.older_cancelled)

module _ {t : Libraries} (fl : Float64) {Obj : Kind → Type 0}
    (families : (k : Kind) → List (FamilyGenerator fl.F (Obj k))) where
  -- ConfigureSharding of a handler whose builder has an allow- or denylist and a store function, and
  -- whose contexts before the newest were cancelled, does not panic: the handler has the given
  -- sharding then, and stores whose reflectors run with it under a new context; all older contexts
  -- are cancelled.
  pub configure_sharding_lem :
      (shard total_shards : ℤ) (s : State t fl Obj)
      → Ready s.0.store_builder
      → Live s
      → (s' : State t fl Obj) × (configure_sharding fl families shard total_shards s ≡ ok s')
        × Running s'
        × (s'.0.cur_shard ≡ shard)
        × (s'.0.cur_total_shards ≡ total_shards)
        × (s'.1.made ≡ suc s.1.made)
        × (s'.0.opts ≡ s.0.opts)
        × Ready s'.0.store_builder
  unfolding configure_sharding with_sharding with_context
  configure_sharding_lem shard total_shards s ready live =
      let b = with_context s.1.made (with_sharding shard total_shards s.0.store_builder) in
      let (stores, built, tracked) =
        build_total fl families b ready.l s.1.made ready.f ready.has_list refl ready.has_func in
      let m' : MetricsHandler t fl Obj = record s.0 {
        store_builder = b;
        cancel = some s.1.made;
        stores = stores;
        cur_shard = shard;
        cur_total_shards = total_shards;
      } in
      let w' : Contexts = record {
        made = suc s.1.made;
        cancelled = cancel_old s.0.cancel s.1.cancelled;
      } in
      (
        (m', w'),
        rw built,
        record {
          ctx = s.1.made;
          to_cancel = refl;
          newest = refl;
          older_cancelled = all_cancelled s live;
          tracked = tracked;
          builder_shard = refl;
          builder_total = refl;
        },
        refl,
        refl,
        refl,
        refl,
        record { l = ready.l; f = ready.f; has_list = ready.has_list; has_func = ready.has_func },
      )
