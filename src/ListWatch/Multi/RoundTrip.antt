-- ===== src/ListWatch/Multi/RoundTrip.antt =====
-- The combined resource version that List returns is what Watch needs to resume each watcher.
use kube_state_metrics.Prelude.{
  ℕ, suc, ◌≡◌, refl, ap, ◌∙◌, inr, true, false, List, [], ◌∷◌, ◌++◌, append-nil, append_assoc,
  arith, nat_beq, length, All,
}
use kube_state_metrics.Prelude.Text.{Bytes, codes, Lacks, ◌==◌, join}
use kube_state_metrics.Prelude.Result.{ok}
use kube_state_metrics.Go.Strings.{split-join}
use kube_state_metrics.Api.{ListOptions, ObjectList, metav1_list, ListerWatcher}
use kube_state_metrics.ListWatch.Multi.{list_loop, list, new_multi_watch, resource_versions, watch}

same_length : (n : ℕ) → nat_beq n n ≡ true
same_length n = ground arith

split_versions :
    (v : Bytes) (vs : List Bytes)
    → All (Lacks b'/') (v ∷ vs)
    → (join (v ∷ vs) (codes "/") == []) ≡ false
    → resource_versions (length (v ∷ vs)) (join (v ∷ vs) (codes "/")) ≡ inr (v ∷ vs)
unfolding resource_versions
split_versions v vs (h, hs) filled = simp (filled, split-join v vs b'/' h hs, same_length)

resource_versions-join :
    (vs : List Bytes)
    → All (Lacks b'/') vs
    → resource_versions (length vs) (join vs (codes "/")) ≡ inr vs
resource_versions-join [] h = unfold resource_versions join ◌==◌ in refl
resource_versions-join ([] ∷ []) h = unfold resource_versions join ◌==◌ in refl
resource_versions-join ((c ∷ v) ∷ []) h = split_versions (c ∷ v) [] h (unfold join ◌==◌ in refl)
resource_versions-join ([] ∷ w ∷ vs) h = split_versions [] (w ∷ vs) h (unfold join ◌==◌ in refl)
resource_versions-join ((c ∷ v) ∷ w ∷ vs) h =
    split_versions (c ∷ v) (w ∷ vs) h (unfold join ◌==◌ in refl)

module _ {Obj : Type 0} where
  abbrev pub objects : List (List Obj × Bytes) → List Obj
  objects [] = []
  objects ((objs, version) ∷ rs) = objs ++ objects rs

  abbrev pub versions : List (List Obj × Bytes) → List Bytes
  versions [] = []
  versions ((objs, version) ∷ rs) = version ∷ versions rs

module _ {Obj Watch : Type 0} where
  -- Each lister returns these objects under this version.
  abbrev pub Lists : List (ListerWatcher Obj Watch) → ListOptions → List (List Obj × Bytes) → Type 0
  Lists [] options [] = Unit
  Lists [] options (r ∷ rs) = ⊥
  Lists (lw ∷ mlw) options [] = ⊥
  Lists (lw ∷ mlw) options ((objs, version) ∷ rs) =
      ((l : ObjectList Obj) × (lw.list options ≡ inr l)
        × (l.extract_list ≡ inr objs)
        × (l.list_accessor ≡ inr version))
      × Lists mlw options rs

  -- Each watcher, asked to resume at its version, returns this watch.
  abbrev pub Watches : List (ListerWatcher Obj Watch) → Bytes → List Bytes → List Watch → Type 0
  Watches [] selector [] [] = Unit
  Watches (lw ∷ mlw) selector (v ∷ vs) (w ∷ ws) =
      (lw.watch (record { resource_version = v; field_selector = selector }) ≡ inr w)
      × Watches mlw selector vs ws
  Watches _ selector _ _ = ⊥

  list_loop_lem :
      (mlw : List (ListerWatcher Obj Watch)) (options : ListOptions) (rs : List (List Obj × Bytes))
      (items : List Obj) (vs : List Bytes)
      → Lists mlw options rs
      → list_loop mlw options items vs ≡ inr (items ++ objects rs, vs ++ versions rs)
  unfolding list_loop
  list_loop_lem [] options [] items vs h = cc (append-nil items, append-nil vs)
  list_loop_lem [] options (r ∷ rs) items vs h = absurd h
  list_loop_lem (lw ∷ mlw) options [] items vs h = absurd h
  list_loop_lem (lw ∷ mlw) options ((objs, version) ∷ rs) items vs ((l, listed, e, v), h) =
      rw (listed, list_loop, e, v)
        (list_loop_lem mlw options rs (items ++ objs) (vs ++ version ∷ []) h ∙ simp append_assoc)

  -- List combines what the listers return.
  pub list_lem :
      (mlw : List (ListerWatcher Obj Watch)) (options : ListOptions) (rs : List (List Obj × Bytes))
      → Lists mlw options rs
      → list mlw options ≡ inr (metav1_list (objects rs) (join (versions rs) (codes "/")))
  unfolding list
  list_lem mlw options rs h = rw (list_loop_lem mlw options rs [] [] h) refl

  length-versions :
      (mlw : List (ListerWatcher Obj Watch)) (options : ListOptions) (rs : List (List Obj × Bytes))
      → Lists mlw options rs
      → length mlw ≡ length (versions rs)
  length-versions [] options [] h = refl
  length-versions [] options (r ∷ rs) h = absurd h
  length-versions (lw ∷ mlw) options [] h = absurd h
  length-versions (lw ∷ mlw) options ((objs, version) ∷ rs) (_, h) =
      ap suc (length-versions mlw options rs h)

  new_multi_watch_lem :
      (mlw : List (ListerWatcher Obj Watch)) (options : ListOptions) (vs : List Bytes)
      (ws opened : List Watch)
      → Watches mlw options.field_selector vs ws
      → new_multi_watch mlw vs options opened ≡ (ok (opened ++ ws), opened ++ ws)
  unfolding new_multi_watch
  new_multi_watch_lem [] options [] [] opened h = cc (append-nil opened)
  new_multi_watch_lem [] options [] (w ∷ ws) opened h = absurd h
  new_multi_watch_lem [] options (v ∷ vs) ws opened h = absurd h
  new_multi_watch_lem (lw ∷ mlw) options [] ws opened h = absurd h
  new_multi_watch_lem (lw ∷ mlw) options (v ∷ vs) [] opened h = absurd h
  new_multi_watch_lem (lw ∷ mlw) options (v ∷ vs) (w ∷ ws) opened (watched, h) =
      rw (watched, new_multi_watch)
        (new_multi_watch_lem mlw options vs ws (opened ++ w ∷ []) h ∙ simp append_assoc)

  -- If each of several listers, one or none of them too, returns objects and a resource version
  -- without `/`, List returns all the objects in the listers' order under one version, and Watch
  -- from that version asks each watcher to resume at its own and, if each can, succeeds with their
  -- watches in order.
  pub watch_resumes_list :
      (mlw : List (ListerWatcher Obj Watch)) (options woptions : ListOptions)
      (rs : List (List Obj × Bytes)) (ws : List Watch)
      → Lists mlw options rs
      → All (Lacks b'/') (versions rs)
      → Watches mlw woptions.field_selector (versions rs) ws
      → (version : Bytes) × (list mlw options ≡ inr (metav1_list (objects rs) version))
        × (watch mlw (record woptions { resource_version = version }) ≡ (ok ws, ws))
  unfolding watch
  watch_resumes_list mlw options woptions rs ws h lacks hw = (
    join (versions rs) (codes "/"),
    list_lem mlw options rs h,
    rw (length-versions mlw options rs h, resource_versions-join (versions rs) lacks)
        (new_multi_watch_lem mlw
          (record woptions { resource_version = join (versions rs) (codes "/") }) (versions rs) ws
          [] hw),
  )
