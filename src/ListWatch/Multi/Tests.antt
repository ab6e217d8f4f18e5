-- ===== src/ListWatch/Multi/Tests.antt =====
-- Two namespaces listed and watched together.
use kube_state_metrics.Prelude.{
  ℕ, ◌≡◌, refl, ◌⊎◌, inl, inr, Bool, true, false, Option, none, some, List, [], ◌∷◌, ◌++◌, arith,
  map, All, keep_if,
}
use kube_state_metrics.Prelude.Text.{Bytes, codes, ◌==◌}
use kube_state_metrics.Prelude.Assoc.{lookup}
use kube_state_metrics.Prelude.Result.{ok, err}
use kube_state_metrics.Go.Strings.{split}
use kube_state_metrics.Go.Numbers.{format_int}
use kube_state_metrics.Api.{ObjectMeta, Accessor, ListOptions, metav1_list, Event, ListerWatcher}
use kube_state_metrics.AllowDenyList.{StringSet}
use kube_state_metrics.ListWatch.Denylist.{passes, get_namespace, new_denylist_lister_watcher}
use kube_state_metrics.ListWatch.Denylist.Lists.{outside, denied_list}
use kube_state_metrics.ListWatch.Denylist.Goroutine.{
  Goroutine, start, Reach, receive, drop, send, close, here, later, delivered_prefix,
  returned_complete,
}
use kube_state_metrics.ListWatch.Multi.{list, watch, new_multi_watch, resource_versions}
use kube_state_metrics.ListWatch.Multi.RoundTrip.{objects, watch_resumes_list}
use kube_state_metrics.ListWatch.Multi.Failures.{new_multi_watch_leak}
use kube_state_metrics.ListWatch.Multi.Senders
use kube_state_metrics.ListWatch.Multi.Senders.{Sender, MultiWatch, Merged}
use kube_state_metrics.ListWatch.Multi.Watching.{merges_watches, closed_complete}
use kube_state_metrics.ListWatch.Multi.Stopping.{stopped_can_close, stops_race}

-- A watcher whose watch is the version that it resumes from; it does not resume from "gone".
abbrev from : ℕ → Bytes → ListerWatcher ℕ Bytes
from n version = record {
  list = λ options. inr (metav1_list (n ∷ []) version);
  watch = λ options. inr options.resource_version;
}

abbrev broken : ListerWatcher ℕ Bytes
broken = record { list = λ options. inl (codes "gone"); watch = λ options. inl (codes "gone") }

abbrev both : List (ListerWatcher ℕ Bytes)
both = from 1 (codes "17") ∷ from 2 (codes "42") ∷ []

abbrev options : ListOptions
options = record { resource_version = []; field_selector = [] }

one_part : watch both (record options { resource_version = codes "17" }) ≡ (
  err (codes "expected resource version to have 2 parts to match the number of ListerWatchers"),
  [],
)
unfolding watch resource_versions format_int split ◌==◌
one_part = refl

one_hundred_twenty : format_int 120 ≡ codes "120"
unfolding format_int
one_hundred_twenty = refl

abbrev results : List (List ℕ × Bytes)
results = (1 ∷ [], codes "17") ∷ (2 ∷ [], codes "42") ∷ []

watch_resumes_list_example :
    (version : Bytes) × (list both options ≡ inr (metav1_list (objects results) version))
    × (watch both (record options { resource_version = version })
        ≡ (ok (codes "17" ∷ codes "42" ∷ []), codes "17" ∷ codes "42" ∷ []))
watch_resumes_list_example =
    watch_resumes_list both options options results (codes "17" ∷ codes "42" ∷ [])
      ((_, refl, refl, refl), ((_, refl, refl, refl), tt)) (omega arith) (refl, (refl, tt))

new_multi_watch_leak_example :
    new_multi_watch (from 1 [] ∷ broken ∷ []) (codes "17" ∷ codes "42" ∷ []) options []
    ≡ (err (codes "gone"), codes "17" ∷ [])
new_multi_watch_leak_example =
    new_multi_watch_leak (from 1 [] ∷ []) broken [] (codes "17" ∷ []) (codes "42") [] options
      (codes "17" ∷ []) (codes "gone") (refl, tt) refl

-- Objects for the denylist: `none` is no object.
abbrev Obj : Type 0
Obj = Option ObjectMeta

abbrev accessor : Accessor Obj
accessor none = inl (codes "no object")
accessor (some m) = inr m

abbrev pod : Bytes → Obj
pod ns = some (record { uid = []; name = codes "p"; namespace = ns; is_namespace = false })

abbrev listed : ListerWatcher Obj ℕ
listed = record {
  list =
      λ o. inr (metav1_list (pod (codes "default") ∷ pod (codes "kube-system") ∷ []) (codes "5"));
  watch = λ o. inl [];
}

denied_list_example :
    (new_denylist_lister_watcher accessor (λ denylist w. w) (codes "kube-system" ∷ []) listed).list
      options
    ≡ inr (
        metav1_list
          (keep_if
            (outside accessor (codes "kube-system" ∷ []))
            (pod (codes "default") ∷ pod (codes "kube-system") ∷ []))
          (codes "5"))
denied_list_example =
    denied_list accessor (λ denylist w. w) (codes "kube-system") [] listed options
      (metav1_list (pod (codes "default") ∷ pod (codes "kube-system") ∷ []) (codes "5"))
      (pod (codes "default") ∷ pod (codes "kube-system") ∷ []) (codes "5") refl refl refl
      ((_, refl), ((_, refl), tt))

abbrev denylist : StringSet
denylist = (codes "kube-system", tt) ∷ []

abbrev event : Bytes → Event Obj
event ns = record { type = codes "ADDED"; object = pod ns }

abbrev events : List (Event Obj)
events = event (codes "kube-system") ∷ event (codes "default") ∷ []

abbrev finished : Goroutine Obj
finished = record (start events) {
  input = [];
  delivered = event (codes "default") ∷ [];
  returned = true;
}

run_to_end : Reach accessor denylist (start events) finished
unfolding passes get_namespace lookup ◌==◌
run_to_end =
    later
      (later
        (later
          (later here
            (drop (event (codes "kube-system")) (event (codes "default") ∷ []) refl refl refl refl))
          (receive (event (codes "default")) [] refl refl refl refl))
        (send (event (codes "default")) refl refl))
      (close refl refl refl)

delivered_prefix_example :
    (rest : List (Event Obj)) × ((event (codes "default") ∷ []) ++ rest
      ≡ keep_if (passes accessor denylist) events)
delivered_prefix_example = delivered_prefix accessor denylist events run_to_end

returned_complete_example :
    ((◌≡◌ {A = Bool} false true) × (◌≡◌ {A = Bool} false true))
    ⊎ ((event (codes "default") ∷ []) ≡ keep_if (passes accessor denylist) events)
returned_complete_example = returned_complete accessor denylist events run_to_end refl

-- Two watches, of which the first delivers one event.
abbrev streams : List (List (Event Obj))
streams = (event (codes "default") ∷ []) ∷ [] ∷ []

abbrev idle : Sender Obj
idle = Senders.new_sender []

abbrev sending : Sender Obj
sending = record (Senders.new_sender (event (codes "default") ∷ [])) {
  input = [];
  held = some (event (codes "default"));
}

abbrev sent : Sender Obj
sent = record sending { held = none; sent = event (codes "default") ∷ [] }

abbrev merged : MultiWatch Obj
merged = record (Senders.start streams) {
  senders = record sent { returned = true } ∷ record idle { returned = true } ∷ [];
  delivered = event (codes "default") ∷ [];
  closed = true;
}

run_merged : Senders.Reach (Senders.start streams) merged
run_merged =
    Senders.later
      (Senders.later
        (Senders.later
          (Senders.later
            (Senders.later Senders.here (
              Senders.receive [] (Senders.new_sender (event (codes "default") ∷ [])) (idle ∷ [])
                (event (codes "default")) [] refl refl refl refl))
            (Senders.send [] sending (idle ∷ []) (event (codes "default")) refl refl refl))
          (Senders.end (sent ∷ []) idle [] refl refl refl refl))
        (Senders.end [] sent (record idle { returned = true } ∷ []) refl refl refl refl))
      (Senders.close_result (refl, (refl, tt)) refl)

merges_watches_example :
    (map (λ (x : Sender Obj). x.events) merged.senders ≡ streams)
    × All
        (λ (x : Sender Obj). (rest : List (Event Obj)) × (x.sent ++ rest ≡ x.events))
        merged.senders
    × Merged (map (λ (x : Sender Obj). x.sent) merged.senders) merged.delivered
merges_watches_example = merges_watches streams run_merged

closed_complete_example :
    (◌≡◌ {A = Bool} false true) ⊎ Merged streams (event (codes "default") ∷ [])
closed_complete_example = closed_complete streams run_merged refl

-- A sender holds an event when Stop is called.
abbrev stopped_early : MultiWatch Obj
stopped_early = record (Senders.start streams) { senders = sending ∷ idle ∷ []; stopped = true }

stopped_can_close_example :
    (t : MultiWatch Obj) × Senders.Reach stopped_early t
    × (t.closed ≡ true)
    × All (λ (x : Sender Obj). x.returned ≡ true) t.senders
    × (t.delivered ≡ [])
stopped_can_close_example = stopped_can_close stopped_early refl

stops_race_example :
    (t : MultiWatch Obj) × Senders.Reach (Senders.start streams) t × (t.panicked ≡ true)
stops_race_example = stops_race (Senders.start streams) refl refl
