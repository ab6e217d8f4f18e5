-- ===== src/Instrumented/Counts.antt =====
-- The counters after any calls, by what the calls under them returned.
use kube_state_metrics.Prelude.{ℕ, suc, ◌+◌, ◌≡◌, inl, inr, List, [], ◌∷◌, arith, if◌then◌else◌}
use kube_state_metrics.Prelude.Text.{Bytes, codes, ◌==◌}
use kube_state_metrics.Api.{Try, Try-cases, ListOptions, ListerWatcher}
use kube_state_metrics.Instrumented
use kube_state_metrics.Instrumented.{CounterPackage, CounterLaws, InstrumentedListerWatcher}

-- The reflector's calls, in sequence, each with the lister and watcher below as it answers then: the
-- API server may answer the same options otherwise at each call.
pub data Call (Obj Watch : Type 0) : Type 0 where
  list watch : ListOptions → ListerWatcher Obj Watch → Call Obj Watch

-- The label of an outcome.
abbrev pub outcome : {A : Type 0} → Try A → Bytes
outcome (inl e) = codes "error"
outcome (inr a) = codes "success"

module _ {Obj Watch : Type 0} (result : Bytes) where
  -- How many of the calls are of List, or of Watch, with that outcome.
  abbrev pub lists : List (Call Obj Watch) → ℕ
  lists [] = 0
  lists (list o lw ∷ cs) =
      let rest = lists cs in if outcome (lw.list o) == result then suc rest else rest
  lists (watch o lw ∷ cs) = lists cs

  abbrev pub watches : List (Call Obj Watch) → ℕ
  watches [] = 0
  watches (list o lw ∷ cs) = watches cs
  watches (watch o lw ∷ cs) =
      let rest = watches cs in if outcome (lw.watch o) == result then suc rest else rest

module _ (cp : CounterPackage) {Obj Watch : Type 0} where
  pub run :
      List (Call Obj Watch)
      → InstrumentedListerWatcher cp Obj Watch
      → InstrumentedListerWatcher cp Obj Watch
  run [] i = i
  run (list o lw ∷ cs) i = run cs (Instrumented.list cp o (record i { lw = lw })).1
  run (watch o lw ∷ cs) i = run cs (Instrumented.watch cp o (record i { lw = lw })).1

  pub list_step :
      (o : ListOptions) (i : InstrumentedListerWatcher cp Obj Watch)
      → Instrumented.list cp o i ≡ (
        i.lw.list o,
        record i {
          metrics = record i.metrics {
            list_total = cp.inc i.metrics.list_total (outcome (i.lw.list o)) i.resource;
          };
        },
      )
  unfolding Instrumented.list
  list_step o i = elim (Try-cases (i.lw.list o)) [
    | inl (e, bad) ↦ rw (bad, outcome)
    | inr (l, good) ↦ rw (good, outcome)
  ]

  pub watch_step :
      (o : ListOptions) (i : InstrumentedListerWatcher cp Obj Watch)
      → Instrumented.watch cp o i ≡ (
        i.lw.watch o,
        record i {
          metrics = record i.metrics {
            watch_total = cp.inc i.metrics.watch_total (outcome (i.lw.watch o)) i.resource;
          };
        },
      )
  unfolding Instrumented.watch
  watch_step o i = elim (Try-cases (i.lw.watch o)) [
    | inl (e, bad) ↦ rw (bad, outcome)
    | inr (w, good) ↦ rw (good, outcome)
  ]

  module _ (laws : CounterLaws cp) (result resource : Bytes) where
    -- After any calls of List and Watch, each answered in its own way, the counter of lists with an
    -- outcome and a resource has grown by the number of List calls with that outcome if the resource
    -- is the watcher's own, and is as before if not; the counter of watches likewise by the Watch
    -- calls.
    pub run_counts :
        (cs : List (Call Obj Watch)) (i : InstrumentedListerWatcher cp Obj Watch)
        → (cp.value (run cs i).metrics.list_total result resource
            ≡ cp.value i.metrics.list_total result resource
              + (if i.resource == resource then lists result cs else 0))
          × (cp.value (run cs i).metrics.watch_total result resource
              ≡ cp.value i.metrics.watch_total result resource
                + (if i.resource == resource then watches result cs else 0))
    unfolding run
    run_counts [] i = ground arith
    run_counts (list o lw ∷ cs) i =
        let i' : InstrumentedListerWatcher cp Obj Watch = record i {
          lw = lw;
          metrics = record i.metrics {
            list_total = cp.inc i.metrics.list_total (outcome (lw.list o)) i.resource;
          };
        } in
        let (l, w) = run_counts cs i' in
        rw (run, list_step o (record i { lw = lw }))
          (ground (
            arith,
            l,
            w,
            laws.value-inc i.metrics.list_total (outcome (lw.list o)) i.resource result resource,
          ))
    run_counts (watch o lw ∷ cs) i =
        let i' : InstrumentedListerWatcher cp Obj Watch = record i {
          lw = lw;
          metrics = record i.metrics {
            watch_total = cp.inc i.metrics.watch_total (outcome (lw.watch o)) i.resource;
          };
        } in
        let (l, w) = run_counts cs i' in
        rw (run, watch_step o (record i { lw = lw }))
          (ground (
            arith,
            l,
            w,
            laws.value-inc i.metrics.watch_total (outcome (lw.watch o)) i.resource result resource,
          ))
