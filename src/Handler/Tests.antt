-- ===== src/Handler/Tests.antt =====
-- A handler for two kinds of Objects, and the theorems about handlers applied to it.
use mathlib.Core.List.Permᴰ
use kube_state_metrics.Prelude.{
  length, ℕ, suc, ◌≡◌, refl, ap, ◌↔◌, inl, inr, true, false, Option, none, some, List, [], ◌∷◌,
  ◌++◌, All, arith, if◌then◌else◌,
}
use kube_state_metrics.Prelude.Text.{Bytes, codes, ◌==◌}
use kube_state_metrics.Prelude.Assoc.{lookup}
use kube_state_metrics.Prelude.Int.{ℤ, pos}
use kube_state_metrics.Prelude.Result.{ok}
use kube_state_metrics.Api.{OwnerReference}
use kube_state_metrics.Metric.{gauge}
use kube_state_metrics.Metric.Tests.{small_ints}
use kube_state_metrics.Generator.{AllowDenyLister, FamilyGenerator}
use kube_state_metrics.Go.Numbers.{is_digit, decimal}
use kube_state_metrics.MetricsStore.{Iteration}
use kube_state_metrics.MetricsStore.WriteOrder.{IsIteration}
use kube_state_metrics.Options.{Options, new_options}
use kube_state_metrics.Builder.{Kind, Builder, CacheStore, default}
use kube_state_metrics.Handler.{
  Libraries, clients, add, State, MetricsHandler, new, configure_sharding, handle, run,
}
use kube_state_metrics.Handler.Detect.{
  StatefulSet, KubeApi, detect_nominal_from_pod, detect_stateful_set, skipped,
}
use kube_state_metrics.Handler.Live.{Ready, Live, Running, configure_sharding_lem}
use kube_state_metrics.Handler.Events.{asks, or_else, handle_unchanged}
use kube_state_metrics.Handler.Run.{no_contexts, final_sharding, run_lem}
use kube_state_metrics.Handler.Nominal.{FirstOwner, detect_nominal_lem, detect_stateful_set_lem}
use kube_state_metrics.Handler.Serve.{GzipPackage, Response, serve_http}
use kube_state_metrics.Handler.Answer.{accepted, zipped, Sound, exposition, serve_http_lem}

abbrev libraries : Libraries
libraries = record { KubeClient = ℕ; VpaClient = ℕ; Metrics = ℕ; CustomStore = ℕ }

abbrev Objects : Kind → Type 0
Objects k = Unit {0}

abbrev info : FamilyGenerator ℤ (Unit {0})
info = record {
  name = codes "kube_info";
  help = codes "Info.";
  type = gauge;
  generate_func = λ o. ok (record { name = []; type = []; metrics = [] });
}

abbrev families : (k : Kind) → List (FamilyGenerator ℤ (Unit {0}))
families k = info ∷ []

abbrev everything : AllowDenyLister
everything = record { is_included = λ f. true; is_excluded = λ f. false }

abbrev builder : Builder (clients libraries)
builder = record {
  kube_client = some 1;
  vpa_client = none;
  namespaces = codes "a" ∷ [];
  ctx = none;
  enabled_resources = codes "nodes" ∷ codes "pods" ∷ [];
  allow_deny_list = some everything;
  metrics = none;
  shard = pos 0;
  total_shards = pos 1;
  build_store_func = some default;
}

ready : Ready builder
ready = record { l = everything; f = default; has_list = refl; has_func = refl }

abbrev opts : Options
opts = record new_options { pod = codes "ksm-1"; namespace = codes "kube-system" }

abbrev start : State libraries small_ints Objects
start = (new libraries small_ints Objects opts 1 builder false, no_contexts)

abbrev set : Bytes → ℤ → StatefulSet
set version replicas = record {
  name = codes "ksm";
  resource_version = version;
  replicas = some replicas;
}

abbrev owner : Bytes → OwnerReference
owner kind = record {
  api_version = codes "apps/v1";
  kind = kind;
  controller = some true;
  name = codes "ksm";
}

abbrev owners : List OwnerReference
owners = owner (codes "ReplicaSet") ∷ owner (codes "StatefulSet") ∷ []

abbrev api : KubeApi
api = record {
  pod_owners = λ namespace pod. inr owners;
  stateful_set = λ namespace name. inr (set (codes "5") (pos 3));
}

skips_other : skipped (owner (codes "ReplicaSet")) ≡ true
unfolding skipped ◌==◌
skips_other = refl

takes_set : skipped (owner (codes "StatefulSet")) ≡ false
unfolding skipped ◌==◌
takes_set = refl

detect_stateful_set_lem_example :
    (detect_stateful_set api (codes "ksm-1") (codes "kube-system") ≡ inr (set (codes "5") (pos 3)))
    ↔ FirstOwner api (codes "ksm-1") (codes "kube-system") (set (codes "5") (pos 3))
detect_stateful_set_lem_example =
    detect_stateful_set_lem api (codes "ksm-1") (codes "kube-system") (set (codes "5") (pos 3))

digits_of_twelve : All (λ d. is_digit d ≡ true) (codes "012")
unfolding is_digit
digits_of_twelve = (refl, (refl, (refl, tt)))

detect_nominal_lem_example :
    detect_nominal_from_pod (codes "ksm") ((codes "ksm" ++ codes "-") ++ codes "012")
    ≡ inr (pos (decimal (codes "012")))
detect_nominal_lem_example =
    detect_nominal_lem (codes "ksm") b'0' (codes "12") digits_of_twelve (omega arith)

configure_sharding_lem_example :
    (s' : State libraries small_ints Objects) × (configure_sharding small_ints families
        (pos 1)
        (pos 3)
        start
      ≡ ok s')
    × Running s'
    × (s'.0.cur_shard ≡ pos 1)
    × (s'.0.cur_total_shards ≡ pos 3)
    × (s'.1.made ≡ suc start.1.made)
    × (s'.0.opts ≡ start.0.opts)
    × Ready s'.0.store_builder
unfolding new
configure_sharding_lem_example =
    configure_sharding_lem small_ints families (pos 1) (pos 3) start ready
      (inl (record { no_cancel = refl; none_made = refl; none_cancelled = refl; no_stores = refl }))

foreign :
    ◌≡◌ {A = Option (ℤ × ℤ)}
      (asks (codes "ksm") (codes "ksm-1") (add (record (set [] (pos 3)) { name = codes "web" })))
      none
unfolding ◌==◌ asks
foreign = refl

run_lem_example :
    (e : Bytes) × (s' : State libraries small_ints Objects) × (run small_ints families api
        (add (set (codes "5") (pos 3)) ∷ [])
        true
        (codes "done")
        start
      ≡ ok (e, s'))
    × Live s'
    × (◌≡◌ {A = ℤ × ℤ}
        (s'.0.cur_shard, s'.0.cur_total_shards)
        (final_sharding api (add (set (codes "5") (pos 3)) ∷ []) opts))
run_lem_example =
    run_lem small_ints families opts 1 builder false api (add (set (codes "5") (pos 3)) ∷ []) true
      (codes "done") ready

handle_unchanged_example :
    handle small_ints families
      (codes "ksm")
      (add (record (set [] (pos 3)) { name = codes "web" }))
      start
    ≡ ok start
unfolding new
handle_unchanged_example =
    handle_unchanged small_ints families (codes "ksm")
      (add (record (set [] (pos 3)) { name = codes "web" })) start
      (ap (λ (o : Option (ℤ × ℤ)). or_else o (pos 0, pos 0)) foreign)

abbrev in_order : ℕ → Iteration
in_order i j m = m

in_order-IsIteration : (i : ℕ) → IsIteration (in_order i)
in_order-IsIteration i = record { visits = λ j m. Permᴰ.refl m }

-- A handler that may use gzip, and one store without Objects.
abbrev served : MetricsHandler libraries small_ints Objects
served = record start.0 {
  enable_gzip_encoding = true;
  stores =
      CacheStore.metrics_store Kind.pod
        (record {
          metrics = [];
          headers = codes "# HELP kube_info Info." ∷ [];
          generate_metrics_func = λ o. ok (record { name = []; type = []; metrics = [] } ∷ []);
        })
        (record {
          kind = Kind.pod;
          kube_client = none;
          namespaces = [];
          metrics = none;
          shard = pos 0;
          total_shards = pos 1;
          ctx = 0;
        })
      ∷ [];
}

abbrev gzip_stream : GzipPackage
gzip_stream = record { close_unwritten = λ n. (31 ∷ 139 ∷ []) ∷ [] }

abbrev empty_response : Response
empty_response = record { header = []; body = [] }

sound : All Sound served.stores
sound = (record { same = refl; entries = tt; generates = λ o. refl }, tt)

serve_http_lem_example :
    (r' : Response) × (serve_http gzip_stream in_order (codes "gzip, deflate") served empty_response
      ≡ ok r')
    × (lookup (codes "Content-Type") r'.header ≡ some (codes "text/plain; version=0.0.4"))
    × (lookup (codes "Content-Encoding") r'.header
        ≡ (if zipped true (codes "gzip, deflate") then some (codes "gzip") else none))
    × (r'.body
        ≡ ([] ++ exposition in_order 0 served.stores)
          ++ (if zipped true (codes "gzip, deflate")
              then gzip_stream.close_unwritten (length (accepted (codes "gzip, deflate")))
              else []))
unfolding lookup
serve_http_lem_example =
    serve_http_lem in_order in_order-IsIteration gzip_stream (codes "gzip, deflate") served
      empty_response sound
