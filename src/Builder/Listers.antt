-- ===== src/Builder/Listers.antt =====
-- The lister and watcher that reflectorPerNamespace of internal/store/builder.go hands to a reflector:
-- those of the namespaces, combined, counted and sharded.
pub mod Listing
pub mod Watching
pub mod Tests
use kube_state_metrics.Prelude.{List, []}
use kube_state_metrics.Prelude.Text.{Bytes}
use kube_state_metrics.Prelude.Int.{ℤ}
use kube_state_metrics.Prelude.Result.{Result}
use kube_state_metrics.Api.{Try, Accessor, ListOptions, ObjectList, WatchPackage, ListerWatcher}
use kube_state_metrics.AllowDenyList.{StringSet}
use kube_state_metrics.Sharding.{Jump, new_sharded_list_watch}
use kube_state_metrics.Instrumented
use kube_state_metrics.Instrumented.{
  CounterPackage, ListWatchMetrics, InstrumentedListerWatcher, new_instrumented_lister_watcher,
}
use kube_state_metrics.ListWatch.Multi.{multi_namespace_lister_watcher}

module _ {Obj : Type 0} (accessor : Accessor Obj) (wp : WatchPackage Obj)
    (cp : CounterPackage) where
  -- The lister and watcher under the sharded one, for the namespaces of the builder. The arguments
  -- are the denylist's watch, which nil denied namespaces leave unused, the multi watch, and the list
  -- and watch function of the resource for the client.
  unfoldable pub instrumented_list_watch :
      (StringSet → wp.Watch → wp.Watch)
      → (Result (List wp.Watch) × List wp.Watch → Try wp.Watch)
      → List Bytes
      → (Bytes → ListerWatcher Obj wp.Watch)
      → ListWatchMetrics cp
      → Bytes
      → InstrumentedListerWatcher cp Obj wp.Watch
  instrumented_list_watch new_denylist_watch as_watch namespaces lwf metrics resource =
      new_instrumented_lister_watcher cp
        (multi_namespace_lister_watcher accessor new_denylist_watch as_watch namespaces [] lwf)
        metrics resource

  -- The counted lister and watcher, as it answers in its state.
  abbrev pub answering : InstrumentedListerWatcher cp Obj wp.Watch → ListerWatcher Obj wp.Watch
  answering i = record {
    list = λ o. (Instrumented.list cp o i).0;
    watch = λ o. (Instrumented.watch cp o i).0;
  }

  module _ (jump : Jump) where
    -- What the reflector's call of List returns, and the counters after it: the sharded List calls the
    -- counted one once, with its own options.
    unfoldable pub reflector_list :
        ℤ
        → ℤ
        → ListOptions
        → InstrumentedListerWatcher cp Obj wp.Watch
        → Try (ObjectList Obj) × InstrumentedListerWatcher cp Obj wp.Watch
    unfolding new_sharded_list_watch
    reflector_list shard total_shards options i = (
      (new_sharded_list_watch jump accessor wp shard total_shards (answering i)).list options,
      (Instrumented.list cp options i).1,
    )

    -- The same of its call of Watch.
    unfoldable pub reflector_watch :
        ℤ
        → ℤ
        → ListOptions
        → InstrumentedListerWatcher cp Obj wp.Watch
        → Try wp.Watch × InstrumentedListerWatcher cp Obj wp.Watch
    unfolding new_sharded_list_watch
    reflector_watch shard total_shards options i = (
      (new_sharded_list_watch jump accessor wp shard total_shards (answering i)).watch options,
      (Instrumented.watch cp options i).1,
    )
