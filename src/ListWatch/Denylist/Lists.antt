-- ===== src/ListWatch/Denylist/Lists.antt =====
-- What a denylisted List returns.
use kube_state_metrics.Prelude.{
  ◌≡◌, refl, sym, ap, ◌∙◌, inl, inr, Bool, true, false, not, ◌||◌, List, [], ◌∷◌, ◌++◌, append-nil,
  append_assoc, arith, keep_if, All, Bool-cases,
}
use kube_state_metrics.Prelude.Text.{Bytes}
use kube_state_metrics.Prelude.Assoc.{has, lookup, insert, has-insert}
use kube_state_metrics.Api.{
  ObjectMeta, Accessor, ListOptions, ObjectList, metav1_list, ListerWatcher,
}
use kube_state_metrics.AllowDenyList.{StringSet}
use kube_state_metrics.AllowDenyList.Sets.{member}
use kube_state_metrics.ListWatch.Denylist.{
  get_namespace, denylist_of, list_objs, list, new_denylist_lister_watcher,
}

pub has-denylist_of :
    (j : Bytes) (namespaces : List Bytes) (denylist : StringSet)
    → has j (denylist_of namespaces denylist) ≡ (member j namespaces || has j denylist)
unfolding denylist_of
has-denylist_of j [] denylist = refl
has-denylist_of j (ns ∷ namespaces) denylist =
    ground
      (arith, has-denylist_of j namespaces (insert ns tt denylist), has-insert ns j tt denylist)

module _ {Obj : Type 0} (accessor : Accessor Obj) where
  abbrev pub IsObject : Obj → Type 0
  IsObject o = (a : ObjectMeta) × (accessor o ≡ inr a)

  -- Whether an object stands outside the namespaces, itself if it is one.
  abbrev pub outside : List Bytes → Obj → Bool
  outside namespaces o = elim (accessor o) [
    | inl e ↦ false
    | inr a ↦ not (member (get_namespace a) namespaces)
  ]

  list_objs_lem :
      (namespaces : List Bytes) (items objs : List Obj)
      → All IsObject objs
      → list_objs accessor (denylist_of namespaces []) items objs
        ≡ inr (items ++ keep_if (outside namespaces) objs)
  unfolding list_objs
  list_objs_lem namespaces items [] h = ap inr (sym (append-nil items))
  list_objs_lem namespaces items (o ∷ objs) ((a, good), h) =
      elim (Bool-cases (member (get_namespace a) namespaces)) [
        | inl denied ↦
            let in_list : has (get_namespace a) (denylist_of namespaces []) ≡ true =
              has-denylist_of (get_namespace a) namespaces [] ∙ (unfold lookup in ground arith) in
            let dropped : outside namespaces o ≡ false = rw (good, outside) (ap not denied) in
            rw (dropped, good, list_objs, in_list) (list_objs_lem namespaces items objs h)
        | inr allowed ↦
            let not_in_list : has (get_namespace a) (denylist_of namespaces []) ≡ false =
              has-denylist_of (get_namespace a) namespaces [] ∙ (unfold lookup in ground arith) in
            let kept : outside namespaces o ≡ true = rw (good, outside) (ap not allowed) in
            rw (kept, good, list_objs, not_in_list)
              (list_objs_lem namespaces (items ++ o ∷ []) objs h
                ∙ ap inr (append_assoc items (o ∷ []) _))
      ]

  -- Over a list of Kubernetes objects, List of a denylisted watcher returns, in their order, those
  -- outside the denied namespaces (a Namespace object is in the namespace that it names), under
  -- the resource version of the list under it.
  pub denied_list :
      {Watch : Type 0} (start : StringSet → Watch → Watch) (ns : Bytes) (namespaces : List Bytes)
      (next : ListerWatcher Obj Watch) (options : ListOptions) (l : ObjectList Obj)
      (objs : List Obj) (version : Bytes)
      → next.list options ≡ inr l
      → l.extract_list ≡ inr objs
      → l.list_accessor ≡ inr version
      → All IsObject objs
      → (new_denylist_lister_watcher accessor start (ns ∷ namespaces) next).list options
        ≡ inr (metav1_list (keep_if (outside (ns ∷ namespaces)) objs) version)
  unfolding new_denylist_lister_watcher
  denied_list start ns namespaces next options l objs version h e v objects =
      rw (h, list, e, v, list_objs_lem (ns ∷ namespaces) [] objs objects)
