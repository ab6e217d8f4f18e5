-- ===== src/Store/CronJob/Panics.antt =====
-- A cron job whose schedule cannot be read: adding it to the store of cron jobs panics.
use kube_state_metrics.Prelude.{
  ◌⊎◌, ◌≡◌, refl, inl, inr, Bool, true, List, [], ◌∷◌, keep_if, Bool-cases,
}
use kube_state_metrics.Prelude.Text.{Bytes, codes}
use kube_state_metrics.Prelude.Result.{ok, panic}
use kube_state_metrics.Api.{Accessor, ObjectMeta}
use kube_state_metrics.Metric.{Float64, Metric, Family}
use kube_state_metrics.Generator.{
  AllowDenyLister, FamilyGenerator, generate, compose_metric_gen_funcs, filter_metric_families,
}
use kube_state_metrics.Generator.Laws.{filter_metric_families_lem}
use kube_state_metrics.MetricsStore.{MetricsStore, add}
use kube_state_metrics.MetricsStore.Refinement.{add_panics}
use kube_state_metrics.Store.Packages.{Packages}
use kube_state_metrics.Store.Wrapped.{wrap_func}
use kube_state_metrics.Store.CronJob.{
  CronJob, get_next_scheduled_time, next_schedule_metrics, wrap_cron_job_func, cron_job_family,
  cron_job_metric_families,
}

abbrev pub next_schedule_name : Bytes
next_schedule_name = codes "kube_cronjob_next_schedule_time"

module _ {F Obj : Type 0} (included : FamilyGenerator F Obj → Bool) (obj : Obj) where
  -- The families up to one that is included and panics are generated.
  abbrev RunsIntoPanic : List (FamilyGenerator F Obj) → Type 0
  RunsIntoPanic [] = ⊥
  RunsIntoPanic (g ∷ gens) =
      ((f : Family F) × (generate g obj ≡ ok f) × RunsIntoPanic gens)
      ⊎ ((included g ≡ true) × (generate g obj ≡ panic))

  compose_panics :
      (gens : List (FamilyGenerator F Obj))
      → RunsIntoPanic gens
      → compose_metric_gen_funcs (keep_if included gens) obj ≡ panic
  unfolding compose_metric_gen_funcs
  compose_panics [] h = absurd h
  compose_panics (g ∷ gens) (inl (f, gen, h)) = elim (Bool-cases (included g)) [
    | inl passes ↦ rw (passes, compose_metric_gen_funcs, gen, compose_panics gens h) refl
    | inr fails ↦ rw fails (compose_panics gens h)
  ]
  compose_panics (g ∷ gens) (inr (passes, panics)) =
      rw (passes, compose_metric_gen_funcs, panics) refl

module _ (fl : Float64) (pk : Packages) where
  generated :
      (name help : Bytes) (ms : CronJob → List (Metric fl.F)) (j : CronJob)
      → (f : Family fl.F) × (generate (cron_job_family fl pk name help (λ o. ok (ms o))) j ≡ ok f)
  unfolding generate cron_job_family wrap_cron_job_func wrap_func
  generated name help ms j = (_, refl)

  next_panics :
      (name help : Bytes) (j : CronJob) (e : Bytes)
      → get_next_scheduled_time pk j.schedule j.last_schedule_time j.creation_timestamp ≡ inl e
      → generate (cron_job_family fl pk name help (λ o. next_schedule_metrics fl pk o)) j ≡ panic
  unfolding generate cron_job_family wrap_cron_job_func wrap_func next_schedule_metrics
  next_panics name help j e h = rw h

  families_panic :
      (l : AllowDenyLister) (j : CronJob) (e : Bytes)
      → l.is_included next_schedule_name ≡ true
      → get_next_scheduled_time pk j.schedule j.last_schedule_time j.creation_timestamp ≡ inl e
      → RunsIntoPanic (λ f. l.is_included f.name) j (cron_job_metric_families fl pk)
  unfolding cron_job_metric_families
  families_panic l j e name_included h = inl (
    _,
    (generated _ _ _ j).1,
    inl (
      _,
      (generated _ _ _ j).1,
      inl (
        _,
        (generated _ _ _ j).1,
        inl (
          _,
          (generated _ _ _ j).1,
          inl (
            _,
            (generated _ _ _ j).1,
            inl (
              _,
              (generated _ _ _ j).1,
              inl (_, (generated _ _ _ j).1, inr (name_included, next_panics _ _ j e h)),
            ),
          ),
        ),
      ),
    ),
  )

  -- If the list includes the family of the next schedule time, and the schedule of a cron job does not
  -- parse or its creation and last schedule times are both missing, then adding the cron job to a
  -- store of cron jobs panics, and the store is as before.
  pub unreadable_schedule_panics :
      (accessor : Accessor CronJob) (l : AllowDenyLister) (s : MetricsStore fl.F CronJob)
      (j : CronJob) (m : ObjectMeta) (e : Bytes)
      → accessor j ≡ inr m
      → l.is_included next_schedule_name ≡ true
      → get_next_scheduled_time pk j.schedule j.last_schedule_time j.creation_timestamp ≡ inl e
      → let store = record s {
        generate_metrics_func =
            compose_metric_gen_funcs (filter_metric_families l (cron_job_metric_families fl pk));
      } in
        add fl accessor j store ≡ (panic, store)
  unreadable_schedule_panics accessor l s j m e object included h =
      add_panics fl accessor j _ m object (
        rw
          (
            filter_metric_families_lem,
            compose_panics _ j (cron_job_metric_families fl pk) (families_panic l j e included h),
          )
          refl)
