-- ===== src/Store/Registry/Laws.antt =====
-- The labels and the texts of the families of every resource, for a readable object.
use kube_state_metrics.Prelude.{
  ◌≡◌, refl, sym, ap, subst, inl, inr, Bool, true, false, Option, none, some, List, [], ◌∷◌, ◌++◌,
  length, All, if◌then◌else◌, Option-cases,
}
use kube_state_metrics.Prelude.Text.{codes, ◌==◌}
use kube_state_metrics.Prelude.Int.{ℤ}
use kube_state_metrics.Prelude.Result.{Result, ok, ◌>>=◌, deref}
use kube_state_metrics.Metric.{Float64}
use kube_state_metrics.Generator.{AllowDenyLister, compose_metric_gen_funcs, filter_metric_families}
use kube_state_metrics.MetricsStore.Refinement.{Renders}
use kube_state_metrics.Builder.{
  Kind, csr, config_map, cron_job, daemon_set, deployment, endpoints, hpa, ingress, job, leases,
  limit_range, mutating_webhook_configuration, namespace, network_policy, node,
  persistent_volume_claim, persistent_volume, pod_disruption_budget, pod, replica_set,
  replication_controller, resource_quota, secret, service, stateful_set, storage_class,
  validating_webhook_configuration, volume_attachment, vpa,
}
use kube_state_metrics.Store.Packages.{Packages}
use kube_state_metrics.Store.Render.{BeginsWith, texts, families_render}
use kube_state_metrics.Store.CronJob.{CronJob, non_zero, get_next_scheduled_time}
use kube_state_metrics.Store.HorizontalPodAutoscaler.{
  MetricSpec, HorizontalPodAutoscaler, targets_of, spec_metrics, target_metrics,
}
use kube_state_metrics.Store.VerticalPodAutoscaler.{VerticalPodAutoscaler, vpa_metric_families}
use kube_state_metrics.Store.Registry.{
  Object, store_families, default_labels, vpa_label_values, label_values,
}
use kube_state_metrics.Store.Registry.Readable.{
  ReadableCronJob, ReadableHpa, ReadableVpa, is_set, has_source, Readable,
}
use kube_state_metrics.Store.CertificateSigningRequest.Laws.{csr_metric_families_lem}
use kube_state_metrics.Store.ConfigMap.Laws.{config_map_metric_families_lem}
use kube_state_metrics.Store.CronJob.Laws.{cron_job_metric_families_lem}
use kube_state_metrics.Store.DaemonSet.Laws.{daemon_set_metric_families_lem}
use kube_state_metrics.Store.Deployment.Laws.{deployment_metric_families_lem}
use kube_state_metrics.Store.Endpoints.Laws.{endpoint_metric_families_lem}
use kube_state_metrics.Store.HorizontalPodAutoscaler.Laws.{hpa_metric_families_lem}
use kube_state_metrics.Store.Ingress.Laws.{ingress_metric_families_lem}
use kube_state_metrics.Store.Job.Laws.{job_metric_families_lem}
use kube_state_metrics.Store.Lease.Laws.{lease_metric_families_lem}
use kube_state_metrics.Store.LimitRange.Laws.{limit_range_metric_families_lem}
use kube_state_metrics.Store.MutatingWebhookConfiguration.Laws.{
  mutating_webhook_configuration_metric_families_lem,
}
use kube_state_metrics.Store.Namespace.Laws.{namespace_metric_families_lem}
use kube_state_metrics.Store.NetworkPolicy.Laws.{network_policy_metric_families_lem}
use kube_state_metrics.Store.Node.Laws.{node_metric_families_lem}
use kube_state_metrics.Store.PersistentVolumeClaim.Laws.{
  persistent_volume_claim_metric_families_lem,
}
use kube_state_metrics.Store.PersistentVolume.Laws.{persistent_volume_metric_families_lem}
use kube_state_metrics.Store.PodDisruptionBudget.Laws.{pod_disruption_budget_metric_families_lem}
use kube_state_metrics.Store.Pod.Laws.{pod_metric_families_lem}
use kube_state_metrics.Store.ReplicaSet.Laws.{replica_set_metric_families_lem}
use kube_state_metrics.Store.ReplicationController.Laws.{replication_controller_metric_families_lem}
use kube_state_metrics.Store.ResourceQuota.Laws.{resource_quota_metric_families_lem}
use kube_state_metrics.Store.Secret.Laws.{secret_metric_families_lem}
use kube_state_metrics.Store.Service.Laws.{service_metric_families_lem}
use kube_state_metrics.Store.StatefulSet.Laws.{stateful_set_metric_families_lem}
use kube_state_metrics.Store.StorageClass.Laws.{storage_class_metric_families_lem}
use kube_state_metrics.Store.ValidatingWebhookConfiguration.Laws.{
  validating_webhook_configuration_metric_families_lem,
}
use kube_state_metrics.Store.VolumeAttachment.Laws.{volume_attachment_metric_families_lem}
use kube_state_metrics.Store.VerticalPodAutoscaler.Laws.{vpa_metric_families_lem}

next_of :
    {pk : Packages} (j : CronJob)
    → ReadableCronJob pk j
    → (t : ℤ) × (get_next_scheduled_time pk j.schedule j.last_schedule_time j.creation_timestamp
        ≡ inr t)
unfolding get_next_scheduled_time
next_of {pk} j r = elim (Option-cases (non_zero j.last_schedule_time)) [
  | inl never ↦ (
    pk.next r.schedule r.created,
    rw (get_next_scheduled_time, r.parsed, never, r.has_created) refl,
  )
  | inr (t, last) ↦ (pk.next r.schedule t, rw (get_next_scheduled_time, r.parsed, last) refl)
]

-- A result that is no panic and no error.
abbrev Returns {ℓ} : {A : Type ℓ} → Result A → Type ℓ
Returns {A} r = (a : A) × (r ≡ ok a)

if-Returns :
    {A : Type 0} (b p q : Bool) (r s : Result A)
    → (p ≡ true → Returns r)
    → (q ≡ true → Returns s)
    → (if b then p else q) ≡ true
    → Returns (if b then r else s)
if-Returns true p q r s hr hs h = hr h
if-Returns false p q r s hr hs h = hs h

deref-Returns :
    {A B : Type 0} (o : Option A) (f : A → B)
    → is_set o ≡ true
    → Returns (deref o >>= λ a. ok (f a))
deref-Returns none f h = cc h
deref-Returns (some a) f h = (f a, refl)

targets_of-Returns :
    {pk : Packages} (m : MetricSpec pk) → has_source m ≡ true → Returns (targets_of pk m)
unfolding targets_of
targets_of-Returns m h =
    if-Returns (m.type == codes "Object") _ _ _ _ (deref-Returns m.object _)
      (if-Returns (m.type == codes "Pods") _ _ _ _ (deref-Returns m.pods _) (
        if-Returns (m.type == codes "Resource") _ _ _ _ (deref-Returns m.resource _) (
          if-Returns (m.type == codes "External") _ _ _ _ (deref-Returns m.external _)
            (λ e. (none, refl)))))
      h

target_metrics-Returns :
    (fl : Float64) {pk : Packages} (ms : List (MetricSpec pk))
    → All (λ m. has_source m ≡ true) ms
    → Returns (target_metrics fl pk ms)
unfolding target_metrics
target_metrics-Returns fl [] h = ([], refl)
target_metrics-Returns fl {pk} (m ∷ ms) (hm, h) =
    let (targets, made) = targets_of-Returns m hm in
    let (rest, made_rest) = target_metrics-Returns fl ms h in
    (spec_metrics fl pk targets ++ rest, rw (made, made_rest))

module _ (fl : Float64) (pk : Packages) where
  hpa_begins :
      (a : HorizontalPodAutoscaler pk)
      → ReadableHpa a
      → All
          (BeginsWith fl (default_labels hpa) (label_values pk hpa a) a)
          (store_families fl pk hpa)
  unfolding store_families
  hpa_begins a r =
      let (ms, given) = target_metrics-Returns fl a.metrics r.sources in
      hpa_metric_families_lem fl pk a r.min_replicas ms r.has_min given

  cron_job_begins :
      (j : CronJob)
      → ReadableCronJob pk j
      → All
          (BeginsWith fl (default_labels cron_job) (label_values pk cron_job j) j)
          (store_families fl pk cron_job)
  unfolding store_families
  cron_job_begins j r =
      let (t, next) = next_of j r in
      cron_job_metric_families_lem fl pk j t r.suspended next r.has_suspend

  vpa_begins :
      (a : VerticalPodAutoscaler pk)
      → ReadableVpa a
      → All
          (BeginsWith fl (default_labels vpa) (label_values pk vpa a) a)
          (store_families fl pk vpa)
  unfolding store_families
  vpa_begins a r =
      subst
        (λ values. All (BeginsWith fl (default_labels vpa) values a) (vpa_metric_families fl pk))
        (sym (ap (λ o. vpa_label_values o a) r.has_target))
        (vpa_metric_families_lem fl pk a r.target r.has_target)

  begins :
      (k : Kind) (o : Object pk k)
      → Readable pk k o
      → All (BeginsWith fl (default_labels k) (label_values pk k o) o) (store_families fl pk k)
  unfolding store_families
  begins csr o r = csr_metric_families_lem fl o
  begins config_map o r = config_map_metric_families_lem fl o
  begins cron_job o r = cron_job_begins o r
  begins daemon_set o r = daemon_set_metric_families_lem fl o
  begins deployment o r =
      deployment_metric_families_lem fl pk o r.replicas r.has_replicas r.resolves
  begins endpoints o r = endpoint_metric_families_lem fl o
  begins hpa o r = hpa_begins o r
  begins ingress o r = ingress_metric_families_lem fl pk o
  begins job o r = job_metric_families_lem fl o
  begins leases o r = lease_metric_families_lem fl o
  begins limit_range o r = limit_range_metric_families_lem fl pk o
  begins mutating_webhook_configuration o r =
      mutating_webhook_configuration_metric_families_lem fl o
  begins namespace o r = namespace_metric_families_lem fl o
  begins network_policy o r = network_policy_metric_families_lem fl o
  begins node o r = node_metric_families_lem fl pk o
  begins persistent_volume_claim o r = persistent_volume_claim_metric_families_lem fl pk o
  begins persistent_volume o r = persistent_volume_metric_families_lem fl pk o
  begins pod_disruption_budget o r = pod_disruption_budget_metric_families_lem fl o
  begins pod o r = pod_metric_families_lem fl pk o
  begins replica_set o r = replica_set_metric_families_lem fl o
  begins replication_controller o r = replication_controller_metric_families_lem fl o
  begins resource_quota o r = resource_quota_metric_families_lem fl pk o
  begins secret o r = secret_metric_families_lem fl o
  begins service o r = service_metric_families_lem fl o
  begins stateful_set o r = stateful_set_metric_families_lem fl o
  begins storage_class o r = storage_class_metric_families_lem fl o
  begins validating_webhook_configuration o r =
      validating_webhook_configuration_metric_families_lem fl o
  begins volume_attachment o r = volume_attachment_metric_families_lem fl o
  begins vpa o r = vpa_begins o r

  labels_aligned :
      (k : Kind) (o : Object pk k)
      → Readable pk k o
      → length (default_labels k) ≡ length (label_values pk k o)
  labels_aligned csr o r = refl
  labels_aligned config_map o r = refl
  labels_aligned cron_job o r = refl
  labels_aligned daemon_set o r = refl
  labels_aligned deployment o r = refl
  labels_aligned endpoints o r = refl
  labels_aligned hpa o r = refl
  labels_aligned ingress o r = refl
  labels_aligned job o r = refl
  labels_aligned leases o r = refl
  labels_aligned limit_range o r = refl
  labels_aligned mutating_webhook_configuration o r = refl
  labels_aligned namespace o r = refl
  labels_aligned network_policy o r = refl
  labels_aligned node o r = refl
  labels_aligned persistent_volume_claim o r = refl
  labels_aligned persistent_volume o r = refl
  labels_aligned pod_disruption_budget o r = refl
  labels_aligned pod o r = refl
  labels_aligned replica_set o r = refl
  labels_aligned replication_controller o r = refl
  labels_aligned resource_quota o r = refl
  labels_aligned secret o r = refl
  labels_aligned service o r = refl
  labels_aligned stateful_set o r = refl
  labels_aligned storage_class o r = refl
  labels_aligned validating_webhook_configuration o r = refl
  labels_aligned volume_attachment o r = refl
  labels_aligned vpa o r = rw r.has_target refl

  -- For each of the resources and each of its objects that is readable: every metric of every family
  -- of the resource has the resource's labels first, with the object's values (its namespace and
  -- name, for most), and as many label values as label keys; and whatever families an allow- or
  -- denylist leaves, generating and rendering them does not panic: it gives the text of each in
  -- order, a line for each metric. Readable are: cron jobs whose schedule parses, with a creation
  -- time and a suspend flag; deployments with a number of replicas and a rolling update that can be
  -- read; horizontal autoscalers with a minimum and the sources that their metrics name; vertical
  -- autoscalers with a target; and all objects of all other resources.
  pub store_families_render :
      (k : Kind) (l : AllowDenyLister) (o : Object pk k)
      → Readable pk k o
      → All (BeginsWith fl (default_labels k) (label_values pk k o) o) (store_families fl pk k)
        × Renders fl
            (compose_metric_gen_funcs (filter_metric_families l (store_families fl pk k)))
            (texts fl l (store_families fl pk k))
            o
  store_families_render k l o r = (
    begins k o r,
    families_render fl (default_labels k) (label_values pk k o) (labels_aligned k o r) l
        (store_families fl pk k) o (begins k o r),
  )
