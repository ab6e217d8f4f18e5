-- ===== src/Handler.antt =====
-- The handler of /metrics and of re-sharding: pkg/metricshandler/metrics_handler.go. The mutex makes
-- ConfigureSharding one step, and the informer calls its handlers one after another. A context is the
-- number of the call of context.WithCancel that made it; logs are not modelled.
pub mod Detect
pub mod Live
pub mod Events
pub mod Run
pub mod Nominal
pub mod Serve
pub mod Answer
pub mod Tests
use kube_state_metrics.Prelude.{
  ℕ, suc, inl, inr, Bool, ◌&&◌, Option, none, some, List, [], ◌∷◌, ◌++◌, ltb, length, if◌then◌else◌,
}
use kube_state_metrics.Prelude.Text.{Bytes, codes, ◌==◌}
use kube_state_metrics.Prelude.Int.{ℤ, pos, int_beq}
use kube_state_metrics.Prelude.Result.{Result, ok, ◌>>=◌}
use kube_state_metrics.Api.{Try}
use kube_state_metrics.Metric.{Float64}
use kube_state_metrics.Generator.{FamilyGenerator}
use kube_state_metrics.Options.{Options}
use kube_state_metrics.Builder.{
  Kind, Clients, Builder, CacheStore, with_sharding, with_context, build,
}
use Detect.{StatefulSet, KubeApi, detect_stateful_set, sharding_settings_from_stateful_set}

-- The types of the client libraries' values, and of custom stores.
pub record Libraries : Type 1 where
  pub KubeClient : Type 0
  pub VpaClient : Type 0
  pub Metrics : Type 0
  pub CustomStore : Type 0

-- These, with the handler's contexts.
abbrev pub clients : Libraries → Clients
clients t = record {
  KubeClient = t.KubeClient;
  VpaClient = t.VpaClient;
  Context = ℕ;
  Metrics = t.Metrics;
  CustomStore = t.CustomStore;
}

-- How many contexts were made, and those that were cancelled.
pub record Contexts : Type 0 where
  pub made : ℕ
  pub cancelled : List ℕ

-- A call of the informer.
pub data Notification : Type 0 where
  add : StatefulSet → Notification
  update : (oldo curo : StatefulSet) → Notification

cancel_old : Option ℕ → List ℕ → List ℕ
cancel_old none cancelled = cancelled
cancel_old (some ctx) cancelled = cancelled ++ ctx ∷ []

module _ (t : Libraries) (fl : Float64) (Obj : Kind → Type 0) where
  pub record MetricsHandler : Type 0 where
    pub opts : Options
    pub kube_client : t.KubeClient
    pub store_builder : Builder (clients t)
    pub enable_gzip_encoding : Bool
    -- the context that the function cancels
    pub cancel : Option ℕ
    pub stores : List (CacheStore (clients t) fl Obj)
    pub cur_shard : ℤ
    pub cur_total_shards : ℤ

  -- New
  unfoldable pub new : Options → t.KubeClient → Builder (clients t) → Bool → MetricsHandler
  new opts kube_client store_builder enable_gzip_encoding = record {
    opts = opts;
    kube_client = kube_client;
    store_builder = store_builder;
    enable_gzip_encoding = enable_gzip_encoding;
    cancel = none;
    stores = [];
    cur_shard = pos 0;
    cur_total_shards = pos 0;
  }

  -- The handler and the contexts that it made.
  abbrev pub State : Type 0
  State = MetricsHandler × Contexts

module _ {t : Libraries} (fl : Float64) {Obj : Kind → Type 0}
    (families : (k : Kind) → List (FamilyGenerator fl.F (Obj k))) where
  -- ConfigureSharding
  unfoldable pub configure_sharding : ℤ → ℤ → State t fl Obj → Result (State t fl Obj)
  unfolding cancel_old
  configure_sharding shard total_shards (m, w) =
      let cancelled = cancel_old m.cancel w.cancelled in
      let ctx = w.made in
      let b = with_context ctx (with_sharding shard total_shards m.store_builder) in
      (do
        stores ← build fl families b
        ok (
          record m {
            store_builder = b;
            cancel = some ctx;
            stores = stores;
            cur_shard = shard;
            cur_total_shards = total_shards;
          },
          record { made = suc ctx; cancelled = cancelled },
        ))

  -- What both handlers do for a StatefulSet that passes their tests.
  reshard : Try (ℤ × ℤ) → State t fl Obj → Result (State t fl Obj)
  unfolding configure_sharding
  reshard (inl e) (m, w) = ok (m, w)
  reshard (inr (shard, total_shards)) (m, w) =
      if int_beq m.cur_shard shard && int_beq m.cur_total_shards total_shards
      then ok (m, w)
      else configure_sharding shard total_shards (m, w)

  -- The AddFunc and the UpdateFunc of Run.
  unfoldable pub handle : Bytes → Notification → State t fl Obj → Result (State t fl Obj)
  unfolding reshard
  handle stateful_set_name (add ss) (m, w) =
      if ss.name == stateful_set_name
      then reshard (sharding_settings_from_stateful_set ss m.opts.pod) (m, w)
      else ok (m, w)
  handle stateful_set_name (update old cur) (m, w) =
      if cur.name == stateful_set_name
      then if old.resource_version == cur.resource_version
        then ok (m, w)
        else reshard (sharding_settings_from_stateful_set cur m.opts.pod) (m, w)
      else ok (m, w)

  pub handle_all : Bytes → List Notification → State t fl Obj → Result (State t fl Obj)
  unfolding handle
  handle_all stateful_set_name [] s = ok s
  handle_all stateful_set_name (n ∷ ns) s = do
    s' ← handle stateful_set_name n s
    handle_all stateful_set_name ns s'

  -- Run, with what the informer calls until the context is done: the error it returns, and the state.
  -- `synced` is what WaitForCacheSync returns, and `done` the context's error.
  unfoldable pub run :
      KubeApi
      → List Notification
      → (synced : Bool) → (done : Bytes) → State t fl Obj
      → Result (Bytes × (State t fl Obj))
  unfolding configure_sharding handle_all
  run api ns synced done (m, w) =
      if ltb 0 (length m.opts.pod) && ltb 0 (length m.opts.namespace)
      then elim (detect_stateful_set api m.opts.pod m.opts.namespace) [
        | inl e ↦ ok (codes "detect StatefulSet: " ++ e, (m, w))
        | inr ss ↦ (do
          s' ← handle_all ss.name ns (m, w)
          ok (if synced then done else codes "waiting for informer cache to sync failed", s'))
      ]
      else (do s' ← configure_sharding m.opts.shard m.opts.total_shards (m, w); ok (done, s'))
