-- ===== src/ListWatch/Multi.antt =====
-- One lister and watcher made of several, each for one namespace: multiListerWatcher and
-- MultiNamespaceListerWatcher of pkg/listwatch/listwatch.go.
pub mod RoundTrip
pub mod Failures
pub mod Senders
pub mod Merging
pub mod Watching
pub mod Stopping
pub mod Tests
use kube_state_metrics.Prelude.{
  ℕ, zero, suc, inl, inr, not, List, [], ◌∷◌, ◌++◌, map, nat_beq, length, if◌then◌else◌,
}
use kube_state_metrics.Prelude.Text.{Bytes, codes, ◌==◌, join}
use kube_state_metrics.Prelude.Result.{Result, ok, err, panic}
use kube_state_metrics.Go.Numbers.{format_int}
use kube_state_metrics.Go.Strings.{split}
use kube_state_metrics.Api.{Try, Accessor, ListOptions, ObjectList, metav1_list, ListerWatcher}
use kube_state_metrics.AllowDenyList.{StringSet}
use kube_state_metrics.ListWatch.{is_all_namespaces}
use kube_state_metrics.ListWatch.Denylist.{new_denylist_lister_watcher}

module _ {Obj : Type 0} where
  combined : Try (List Obj × List Bytes) → Try (ObjectList Obj)
  combined (inl e) = inl e
  combined (inr (items, versions)) = inr (metav1_list items (join versions (codes "/")))

module _ {Obj Watch : Type 0} where
  -- The loop of List, with the items and the resource versions so far.
  list_loop :
      List (ListerWatcher Obj Watch)
      → ListOptions
      → List Obj
      → List Bytes
      → Try (List Obj × List Bytes)
  list_loop [] options items versions = inr (items, versions)
  list_loop (lw ∷ mlw) options items versions = elim (lw.list options) [
    | inl e ↦ inl e
    | inr l ↦ elim l.extract_list [
      | inl e ↦ inl e
      | inr objs ↦ elim l.list_accessor [
        | inl e ↦ inl e
        | inr version ↦ list_loop mlw options (items ++ objs) (versions ++ version ∷ [])
      ]
    ]
  ]

  -- (multiListerWatcher).List
  unfoldable pub list : List (ListerWatcher Obj Watch) → ListOptions → Try (ObjectList Obj)
  unfolding list_loop combined
  list mlw options = combined (list_loop mlw options [] [])

  -- The watchers opened so far stand beside the result: newMultiWatch returns on the first error,
  -- and a list of versions that is too short is an index out of range.
  unfoldable pub new_multi_watch :
      List (ListerWatcher Obj Watch)
      → List Bytes
      → ListOptions
      → List Watch
      → Result (List Watch) × List Watch
  new_multi_watch [] versions options opened = (ok opened, opened)
  new_multi_watch (lw ∷ lws) [] options opened = (panic, opened)
  new_multi_watch (lw ∷ lws) (version ∷ versions) options opened =
      elim (lw.watch (record options { resource_version = version })) [
        | inl e ↦ (err e, opened)
        | inr w ↦ new_multi_watch lws versions options (opened ++ w ∷ [])
      ]

-- make([]string, n)
abbrev pub blanks : ℕ → List Bytes
blanks zero = []
blanks (suc n) = [] ∷ blanks n

-- The error for a resource version without n parts.
abbrev pub wrong_parts : ℕ → Bytes
wrong_parts n =
    codes "expected resource version to have "
    ++ format_int n
    ++ codes " parts to match the number of ListerWatchers"

-- The versions that Watch hands to the watchers.
unfoldable pub resource_versions : ℕ → Bytes → Try (List Bytes)
resource_versions n version =
    if version == []
    then inr (blanks n)
    else if not (nat_beq (length (split version b'/')) n)
    then inl (wrong_parts n)
    else inr (split version b'/')

module _ {Obj Watch : Type 0} where
  opened_with :
      Try (List Bytes)
      → List (ListerWatcher Obj Watch)
      → ListOptions
      → Result (List Watch) × List Watch
  opened_with (inl e) mlw options = (err e, [])
  opened_with (inr versions) mlw options = new_multi_watch mlw versions options []

  -- (multiListerWatcher).Watch
  unfoldable pub watch :
      List (ListerWatcher Obj Watch) → ListOptions → Result (List Watch) × List Watch
  unfolding opened_with resource_versions
  watch mlw options =
      opened_with (resource_versions (length mlw) options.resource_version) mlw options

module _ {Obj Watch : Type 0} where
  -- A multiListerWatcher as a lister and watcher.
  unfoldable pub multi :
      (Result (List Watch) × List Watch → Try Watch)
      → List (ListerWatcher Obj Watch)
      → ListerWatcher Obj Watch
  unfolding list watch
  multi as_watch mlw = record { list = list mlw; watch = λ options. as_watch (watch mlw options) }

-- MultiNamespaceListerWatcher; the multi watch itself is the argument `as_watch`.
unfoldable pub multi_namespace_lister_watcher :
    {Obj Watch : Type 0}
    → Accessor Obj
    → (StringSet → Watch → Watch)
    → (Result (List Watch) × List Watch → Try Watch)
    → List Bytes
    → List Bytes
    → (Bytes → ListerWatcher Obj Watch)
    → ListerWatcher Obj Watch
unfolding is_all_namespaces multi
multi_namespace_lister_watcher accessor start as_watch [] denied f = multi as_watch []
multi_namespace_lister_watcher accessor start as_watch (ns ∷ []) denied f =
    if is_all_namespaces (ns ∷ [])
    then new_denylist_lister_watcher accessor start denied (f ns)
    else f ns
multi_namespace_lister_watcher accessor start as_watch (ns ∷ ns' ∷ allowed) denied f =
    multi as_watch (map f (ns ∷ ns' ∷ allowed))
