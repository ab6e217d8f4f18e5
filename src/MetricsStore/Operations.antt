-- ===== src/MetricsStore/Operations.antt =====
-- The calls that a reflector makes on a store (k8s.io/client-go/tools/cache.Store), in sequence.
use kube_state_metrics.Prelude.{List, [], ◌∷◌}
use kube_state_metrics.Api.{Accessor}
use kube_state_metrics.Metric.{Float64}
use kube_state_metrics.MetricsStore
use kube_state_metrics.MetricsStore.{MetricsStore}

-- What the reflector may call on a store.
pub data Operation (Obj : Type 0) : Type 0 where
  add update delete : Obj → Operation Obj
  replace : List Obj → Operation Obj
  resync : Operation Obj

module _ (fl : Float64) {Obj : Type 0} (accessor : Accessor Obj) where
  abbrev Store : Type 0
  Store = MetricsStore fl.F Obj

  -- An error goes back to the caller, and the store goes on from the state that it left.
  unfoldable pub step : Operation Obj → Store → Store
  step (add o) s = (MetricsStore.add fl accessor o s).1
  step (update o) s = (MetricsStore.update fl accessor o s).1
  step (delete o) s = (MetricsStore.delete fl accessor o s).1
  step (replace list) s = (MetricsStore.replace fl accessor list s).1
  step resync s = (MetricsStore.resync s).1

  unfoldable pub run : List (Operation Obj) → Store → Store
  unfolding step
  run [] s = s
  run (op ∷ ops) s = run ops (step op s)
