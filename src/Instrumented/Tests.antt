-- ===== src/Instrumented/Tests.antt =====
-- Counters as lists of what was counted, and calls that fail in turn.
use kube_state_metrics.Prelude.{
  ℕ, suc, ◌+◌, ◌≡◌, refl, inl, inr, ◌&&◌, List, [], ◌∷◌, if◌then◌else◌,
}
use kube_state_metrics.Prelude.Text.{Bytes, codes, ◌==◌}
use kube_state_metrics.Api.{ListOptions, metav1_list, ListerWatcher}
use kube_state_metrics.Instrumented.{CounterPackage, CounterLaws, InstrumentedListerWatcher}
use kube_state_metrics.Instrumented.Counts.{Call, list, watch, lists, watches, run, run_counts}

abbrev occurrences : List (Bytes × Bytes) → Bytes → Bytes → ℕ
occurrences [] c d = 0
occurrences ((a, b) ∷ v) c d =
    let rest = occurrences v c d in if a == c && b == d then suc rest else rest

abbrev pub log_counters : CounterPackage
log_counters = record {
  CounterVec = List (Bytes × Bytes);
  new = λ name. [];
  inc = λ v result resource. (result, resource) ∷ v;
  value = occurrences;
}

pub log_counters_laws : CounterLaws log_counters
log_counters_laws = record { value-inc = λ v a b c d. refl }

-- A client that fails.
abbrev broken : ListerWatcher ℕ ℕ
broken = record { list = λ o. inl (codes "timeout"); watch = λ o. inl (codes "timeout") }

-- List works when it is asked for no field, and Watch never does.
abbrev source : ListerWatcher ℕ ℕ
source = record {
  list = λ o. elim o.field_selector [
    | [] ↦ inr (metav1_list (1 ∷ []) [])
    | c ∷ cs ↦ inl (codes "bad selector")
  ];
  watch = λ o. inl (codes "no watch");
}

abbrev plain : ListOptions
plain = record { resource_version = []; field_selector = [] }

abbrev selecting : ListOptions
selecting = record { resource_version = []; field_selector = codes "x=y" }

abbrev fresh : InstrumentedListerWatcher log_counters ℕ ℕ
fresh = record {
  lw = source;
  metrics = record { watch_total = []; list_total = [] };
  resource = codes "*v1.Pod";
}

-- The first call fails, and succeeds when it is made again.
abbrev script : List (Call ℕ ℕ)
script =
    list plain broken
    ∷ list plain source
    ∷ list selecting source
    ∷ watch plain source
    ∷ list plain source
    ∷ []

two_lists : lists (codes "success") script ≡ 2
unfolding ◌==◌
two_lists = refl

run_counts_example :
    ((occurrences
          (run log_counters script fresh).metrics.list_total
          (codes "success")
          (codes "*v1.Pod")
        ≡ 0 + (if codes "*v1.Pod" == codes "*v1.Pod" then lists (codes "success") script else 0))
      × (occurrences
            (run log_counters script fresh).metrics.watch_total
            (codes "success")
            (codes "*v1.Pod")
          ≡ 0
            + (if codes "*v1.Pod" == codes "*v1.Pod" then watches (codes "success") script else 0)))
run_counts_example =
    run_counts log_counters log_counters_laws (codes "success") (codes "*v1.Pod") script fresh
