-- ===== src/Instrumented.antt =====
-- Counted calls of List and Watch: pkg/watch/watch.go. The counter vectors are those of
-- github.com/prometheus/client_golang, which enter as a record.
pub mod Counts
pub mod Tests
use kube_state_metrics.Prelude.{
  ℕ, suc, ◌≡◌, inl, inr, ◌&&◌, Option, none, some, List, [], ◌∷◌, ◌++◌, if◌then◌else◌,
}
use kube_state_metrics.Prelude.Text.{Bytes, codes, ◌==◌}
use kube_state_metrics.Api.{Try, ListOptions, ObjectList, ListerWatcher}

-- A counter vector with the labels `result` and `resource`.
pub record CounterPackage : Type 1 where
  pub CounterVec : Type 0
  pub new : Bytes → CounterVec
  -- v.WithLabelValues(result, resource).Inc()
  pub inc : CounterVec → Bytes → Bytes → CounterVec
  pub value : CounterVec → Bytes → Bytes → ℕ

pub record CounterLaws (cp : CounterPackage) : Type 0 where
  pub value-inc :
      (v : cp.CounterVec) (a b c d : Bytes)
      → cp.value (cp.inc v a b) c d
        ≡ (if a == c && b == d then suc (cp.value v c d) else cp.value v c d)

module _ (cp : CounterPackage) where
  open cp use {CounterVec, new, inc, value}

  pub record ListWatchMetrics : Type 0 where
    pub watch_total : CounterVec
    pub list_total : CounterVec

  -- NewListWatchMetrics, and the vectors that it registers if there is a registry.
  unfoldable pub new_list_watch_metrics :
      Option (List CounterVec) → ListWatchMetrics × Option (List CounterVec)
  new_list_watch_metrics registry =
      let watch_total = new (codes "kube_state_metrics_watch_total") in
      let list_total = new (codes "kube_state_metrics_list_total") in
      (
        record { watch_total = watch_total; list_total = list_total },
        elim registry [ none ↦ none | some r ↦ some (r ++ list_total ∷ watch_total ∷ []) ],
      )

  pub record InstrumentedListerWatcher (Obj Watch : Type 0) : Type 0 where
    pub lw : ListerWatcher Obj Watch
    pub metrics : ListWatchMetrics
    pub resource : Bytes

  module _ {Obj Watch : Type 0} where
    -- NewInstrumentedListerWatcher
    unfoldable pub new_instrumented_lister_watcher :
        ListerWatcher Obj Watch → ListWatchMetrics → Bytes → InstrumentedListerWatcher Obj Watch
    new_instrumented_lister_watcher lw metrics resource = record {
      lw = lw;
      metrics = metrics;
      resource = resource;
    }

    count_list :
        Try (ObjectList Obj)
        → InstrumentedListerWatcher Obj Watch
        → Try (ObjectList Obj) × InstrumentedListerWatcher Obj Watch
    count_list (inl e) i = (
      inl e,
      record i {
        metrics = record i.metrics {
          list_total = inc i.metrics.list_total (codes "error") i.resource;
        };
      },
    )
    count_list (inr res) i = (
      inr res,
      record i {
        metrics = record i.metrics {
          list_total = inc i.metrics.list_total (codes "success") i.resource;
        };
      },
    )

    -- (*InstrumentedListerWatcher).List
    unfoldable pub list :
        ListOptions
        → InstrumentedListerWatcher Obj Watch
        → Try (ObjectList Obj) × InstrumentedListerWatcher Obj Watch
    unfolding count_list
    list options i = count_list (i.lw.list options) i

    count_watch :
        Try Watch
        → InstrumentedListerWatcher Obj Watch
        → Try Watch × InstrumentedListerWatcher Obj Watch
    count_watch (inl e) i = (
      inl e,
      record i {
        metrics = record i.metrics {
          watch_total = inc i.metrics.watch_total (codes "error") i.resource;
        };
      },
    )
    count_watch (inr res) i = (
      inr res,
      record i {
        metrics = record i.metrics {
          watch_total = inc i.metrics.watch_total (codes "success") i.resource;
        };
      },
    )

    -- (*InstrumentedListerWatcher).Watch
    unfoldable pub watch :
        ListOptions
        → InstrumentedListerWatcher Obj Watch
        → Try Watch × InstrumentedListerWatcher Obj Watch
    unfolding count_watch
    watch options i = count_watch (i.lw.watch options) i
