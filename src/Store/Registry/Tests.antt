-- ===== src/Store/Registry/Tests.antt =====
-- A job, a cron job and their stores, and the theorems about the stores of all resources applied.
use mathlib.Core.Option
use kube_state_metrics.Prelude.{ℕ, ◌≡◌, refl, inl, inr, true, false, none, some, List, [], ◌∷◌, All}
use kube_state_metrics.Prelude.Text.{Bytes, codes, ◌==◌}
use kube_state_metrics.Prelude.Assoc.{Map, lookup}
use kube_state_metrics.Prelude.Int.{ℤ, pos}
use kube_state_metrics.Prelude.Result.{panic}
use kube_state_metrics.Api.{Accessor}
use kube_state_metrics.Metric.Tests.{small_ints}
use kube_state_metrics.Generator.{
  AllowDenyLister, extract_metric_family_headers, compose_metric_gen_funcs, filter_metric_families,
}
use kube_state_metrics.MetricsStore
use kube_state_metrics.MetricsStore.{MetricsStore, new_metrics_store}
use kube_state_metrics.MetricsStore.Operations.{Operation, add, update, run}
use kube_state_metrics.MetricsStore.Refinement.{Renders, expected_all}
use kube_state_metrics.Builder.{job, cron_job, config_map}
use kube_state_metrics.Store.Packages.{Packages}
use kube_state_metrics.Store.Render.{BeginsWith, texts}
use kube_state_metrics.Store.Job.{Job}
use kube_state_metrics.Store.CronJob.{CronJob, get_next_scheduled_time, cron_job_metric_families}
use kube_state_metrics.Store.CronJob.Panics.{unreadable_schedule_panics}
use kube_state_metrics.Store.Registry.{store_families, default_labels, label_values}
use kube_state_metrics.Store.Registry.Readable.{ReadableCronJob}
use kube_state_metrics.Store.Registry.Laws.{store_families_render}
use kube_state_metrics.Store.Registry.Stores.{store_refines}
use kube_state_metrics.Store.ConfigMap.{config_map_metric_families, config_map_family}
use kube_state_metrics.Store.Registry.Names.{family_names_distinct}

-- A schedule is a text that is not empty, and its next time is the one after.
abbrev packages : Packages
packages = record {
  Schedule = Bytes;
  parse_standard = λ s. elim s [ [] ↦ inl (codes "empty spec string") | c ∷ cs ↦ inr (c ∷ cs) ];
  next = λ s t. t;
  IntOrString = ℤ;
  get_value_from_int_or_percent = λ o n up. elim o [ none ↦ inl (codes "nil") | some v ↦ inr v ];
  text_of_int_or_string = λ v. codes "80";
  Quantity = ℤ;
  value = λ q. q;
  milli_value = λ q. q;
  as_int64 = λ q. (q, true);
  get_controller_of = λ owners. none;
  is_qualified_name = λ name. [];
}

abbrev labels : Map Bytes
labels = (codes "b/c", codes "2") ∷ (codes "a", codes "1") ∷ []

abbrev backup : Job
backup = record {
  namespace = codes "ns";
  name = codes "backup";
  labels = labels;
  creation_timestamp = some (pos 5);
  owner_references = [];
  parallelism = some (pos 1);
  completions = none;
  active_deadline_seconds = none;
  succeeded = pos 1;
  failed = pos 0;
  active = pos 0;
  conditions = record { type = codes "Complete"; status = codes "True" } ∷ [];
  start_time = some (pos 6);
  completion_time = none;
}

abbrev nightly : CronJob
nightly = record {
  namespace = codes "ns";
  name = codes "nightly";
  labels = labels;
  creation_timestamp = some (pos 5);
  schedule = codes "0 0 * * *";
  concurrency_policy = codes "Forbid";
  active = codes "nightly-1" ∷ [];
  last_schedule_time = none;
  suspend = some false;
  starting_deadline_seconds = none;
}

nightly-Readable : ReadableCronJob packages nightly
nightly-Readable = record {
  schedule = codes "0 0 * * *";
  parsed = refl;
  created = pos 5;
  has_created = refl;
  suspended = false;
  has_suspend = refl;
}

abbrev no_owner : AllowDenyLister
no_owner = record {
  is_included = λ f. elim (f == codes "kube_job_owner") [ true ↦ false | false ↦ true ];
  is_excluded = λ f. f == codes "kube_job_owner";
}

store_families_render_example :
    All
      (BeginsWith small_ints
        (default_labels cron_job)
        (label_values packages cron_job nightly)
        nightly)
      (store_families small_ints packages cron_job)
    × Renders small_ints
        (compose_metric_gen_funcs
          (filter_metric_families no_owner (store_families small_ints packages cron_job)))
        (texts small_ints no_owner (store_families small_ints packages cron_job))
        nightly
store_families_render_example =
    store_families_render small_ints packages cron_job no_owner nightly nightly-Readable

abbrev job_accessor : Accessor Job
job_accessor j =
    inr (record { uid = j.name; name = j.name; namespace = j.namespace; is_namespace = false })

abbrev job_ops : List (Operation Job)
job_ops = add backup ∷ update (record backup { active = pos 1 }) ∷ []

store_refines_example :
    let families = filter_metric_families no_owner (store_families small_ints packages job) in
    lookup
      (codes "backup")
      (run small_ints job_accessor job_ops (
        new_metrics_store
          (extract_metric_family_headers families)
          (compose_metric_gen_funcs families))).metrics
    ≡ Option.map
        (texts small_ints no_owner (store_families small_ints packages job))
        (expected_all job_accessor job_ops (λ k. none) (codes "backup"))
store_refines_example =
    store_refines small_ints packages job job_accessor no_owner job_ops (codes "backup")
      (tt, (tt, tt))

abbrev cron_job_accessor : Accessor CronJob
cron_job_accessor j =
    inr (record { uid = j.name; name = j.name; namespace = j.namespace; is_namespace = false })

abbrev all : AllowDenyLister
all = record { is_included = λ f. true; is_excluded = λ f. false }

abbrev broken : CronJob
broken = record nightly { schedule = [] }

broken_unreadable :
    get_next_scheduled_time packages broken.schedule broken.last_schedule_time
      broken.creation_timestamp
    ≡ inl (codes "Failed to parse cron job schedule '': empty spec string")
unfolding get_next_scheduled_time
broken_unreadable = refl

abbrev empty_store : MetricsStore ℤ CronJob
unfolding new_metrics_store
empty_store = new_metrics_store [] (compose_metric_gen_funcs [])

unreadable_schedule_panics_example :
    let store = record empty_store {
      generate_metrics_func =
          compose_metric_gen_funcs
            (filter_metric_families all (cron_job_metric_families small_ints packages));
    } in
    MetricsStore.add small_ints cron_job_accessor broken store ≡ (panic, store)
unreadable_schedule_panics_example =
    unreadable_schedule_panics small_ints packages cron_job_accessor all empty_store broken _ _ refl
      refl broken_unreadable

family_names_distinct_example : (config_map ≡ config_map) × (◌≡◌ {A = ℕ} 0 0)
unfolding store_families config_map_metric_families config_map_family
family_names_distinct_example =
    family_names_distinct small_ints packages config_map config_map 0 0 _ _ refl refl refl
