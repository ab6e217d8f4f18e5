-- ===== src/ListWatch/Denylist.antt =====
-- Lists and watches without denied namespaces: pkg/listwatch/namespace_denylist.go.
pub mod Lists
pub mod Goroutine
use kube_state_metrics.Prelude.{inl, inr, Bool, false, not, List, [], ◌∷◌, ◌++◌, if◌then◌else◌}
use kube_state_metrics.Prelude.Text.{Bytes}
use kube_state_metrics.Prelude.Assoc.{has, insert}
use kube_state_metrics.Api.{
  Try, ObjectMeta, Accessor, ListOptions, ObjectList, metav1_list, Event, ListerWatcher,
}
use kube_state_metrics.AllowDenyList.{StringSet}

-- getNamespace
unfoldable pub get_namespace : ObjectMeta → Bytes
get_namespace obj = if obj.is_namespace then obj.name else obj.namespace

-- The loop of newDenylistListerWatcher.
unfoldable pub denylist_of : List Bytes → StringSet → StringSet
denylist_of [] denylist = denylist
denylist_of (ns ∷ namespaces) denylist = denylist_of namespaces (insert ns tt denylist)

module _ {Obj : Type 0} (accessor : Accessor Obj) where
  -- The loop of List: a denied object is passed over, what is no object ends the loop.
  list_objs : StringSet → List Obj → List Obj → Try (List Obj)
  list_objs denylist items [] = inr items
  list_objs denylist items (obj ∷ objs) = elim (accessor obj) [
    | inl e ↦ inl e
    | inr acc ↦
        list_objs denylist (if has (get_namespace acc) denylist then items else items ++ obj ∷ [])
          objs
  ]

  with_version : Try (List Obj) → Bytes → Try (ObjectList Obj)
  with_version (inl e) version = inl e
  with_version (inr items) version = inr (metav1_list items version)

  -- (*denylistListerWatcher).List
  unfoldable pub list :
      {Watch : Type 0} → StringSet → ListerWatcher Obj Watch → ListOptions → Try (ObjectList Obj)
  unfolding list_objs with_version
  list denylist next options = elim (next.list options) [
    | inl e ↦ inl e
    | inr l ↦ elim l.extract_list [
      | inl e ↦ inl e
      | inr objs ↦ elim l.list_accessor [
        | inl e ↦ inl e
        | inr version ↦ with_version (list_objs denylist [] objs) version
      ]
    ]
  ]

  -- Whether the goroutine of newDenylistWatch passes an event on.
  unfoldable pub passes : StringSet → Event Obj → Bool
  passes denylist event = elim (accessor event.object) [
    | inl e ↦ false
    | inr acc ↦ not (has (get_namespace acc) denylist)
  ]

  -- newDenylistListerWatcher, with newDenylistWatch as an argument: it starts the goroutine.
  unfoldable pub new_denylist_lister_watcher :
      {Watch : Type 0}
      → (StringSet → Watch → Watch)
      → List Bytes
      → ListerWatcher Obj Watch
      → ListerWatcher Obj Watch
  unfolding list denylist_of
  new_denylist_lister_watcher new_denylist_watch [] next = next
  new_denylist_lister_watcher new_denylist_watch (ns ∷ namespaces) next = record {
    list = list (denylist_of (ns ∷ namespaces) []) next;
    watch = λ options. elim (next.watch options) [
      | inl e ↦ inl e
      | inr w ↦ inr (new_denylist_watch (denylist_of (ns ∷ namespaces) []) w)
    ];
  }
