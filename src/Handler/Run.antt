-- ===== src/Handler/Run.antt =====
-- Run, from a new handler.
use kube_state_metrics.Prelude.{
  ◌≡◌, refl, inl, inr, Bool, ◌&&◌, List, [], ◌++◌, ltb, length, if◌then◌else◌, Bool-cases,
}
use kube_state_metrics.Prelude.Text.{Bytes, codes}
use kube_state_metrics.Prelude.Int.{ℤ, pos}
use kube_state_metrics.Prelude.Result.{ok}
use kube_state_metrics.Api.{Try, Try-cases}
use kube_state_metrics.Metric.{Float64}
use kube_state_metrics.Generator.{FamilyGenerator}
use kube_state_metrics.Options.{Options}
use kube_state_metrics.Builder.{Kind, Builder}
use kube_state_metrics.Handler.{Libraries, clients, Contexts, Notification, State, new, run}
use kube_state_metrics.Handler.Detect.{StatefulSet, KubeApi, detect_stateful_set}
use kube_state_metrics.Handler.Live.{Ready, Live, configure_sharding_lem}
use kube_state_metrics.Handler.Events.{last_asked, handle_all_lem}

-- Both the pod and its namespace are given.
abbrev pub auto_sharding : Options → Bool
auto_sharding opts = ltb 0 (length opts.pod) && ltb 0 (length opts.namespace)

detected : Bytes → List Notification → Try StatefulSet → ℤ × ℤ
detected pod ns (inl e) = (pos 0, pos 0)
detected pod ns (inr ss) = last_asked ss.name pod ns (pos 0, pos 0)

-- The sharding that a handler has in the end: the given one, or with autosharding the last that was
-- asked for, which is that of a new handler if its StatefulSet is not found or none was asked for.
unfoldable pub final_sharding : KubeApi → List Notification → Options → ℤ × ℤ
unfolding detected
final_sharding api ns opts =
    if auto_sharding opts
    then detected opts.pod ns (detect_stateful_set api opts.pod opts.namespace)
    else (opts.shard, opts.total_shards)

-- No context was made yet.
abbrev pub no_contexts : Contexts
no_contexts = record { made = 0; cancelled = [] }

module _ {t : Libraries} (fl : Float64) {Obj : Kind → Type 0}
    (families : (k : Kind) → List (FamilyGenerator fl.F (Obj k))) where
  -- Run of a new handler whose builder has an allow- or denylist and a store function does not panic,
  -- whatever the API server answers and whatever the informer calls. Then either sharding was not
  -- configured, and there is no context and no store; or the newest context is the one that the
  -- handler can cancel, every older one was cancelled, and the stores' reflectors run under it with
  -- the handler's sharding. That sharding is the given one, or with autosharding the last that was
  -- asked for.
  pub run_lem :
      (opts : Options) (k : t.KubeClient) (b : Builder (clients t)) (gzip : Bool) (api : KubeApi)
      (ns : List Notification) (synced : Bool) (done : Bytes)
      → Ready b
      → (e : Bytes) × (s' : State t fl Obj) × (run fl families api ns synced done
            (new t fl Obj opts k b gzip, no_contexts)
          ≡ ok (e, s'))
        × Live s'
        × ((s'.0.cur_shard, s'.0.cur_total_shards) ≡ final_sharding api ns opts)
  unfolding run new detected final_sharding
  run_lem opts k b gzip api ns synced done ready =
      let s : State t fl Obj = (new t fl Obj opts k b gzip, no_contexts) in
      let fresh : Live s =
        inl (record {
          no_cancel = refl;
          none_made = refl;
          none_cancelled = refl;
          no_stores = refl;
        }) in
      elim (Bool-cases (auto_sharding opts)) [
        | inr manual ↦
            let (s', configured, running, shard_is, total_is, _, _, _) =
              configure_sharding_lem fl families opts.shard opts.total_shards s ready fresh in
            (done, s', rw (manual, configured), inr running, rw (manual, shard_is, total_is))
        | inl auto ↦ elim (Try-cases (detect_stateful_set api opts.pod opts.namespace)) [
          | inl (e, fails) ↦
              (codes "detect StatefulSet: " ++ e, s, rw (auto, fails), fresh, rw (auto, fails))
          | inr (ss, found) ↦
              let (s', handled, live, cur) = handle_all_lem fl families ss.name ns s ready fresh in
              (
                if synced then done else codes "waiting for informer cache to sync failed",
                s',
                rw (auto, found, handled),
                live,
                rw (auto, found) cur,
              )
        ]
      ]
