-- ===== src/ListWatch/Multi/Failures.antt =====
-- The error paths of the combined Watch.
use kube_state_metrics.Prelude.{
  ◌≡◌, ◌≢◌, sym, ap, ◌∙◌, append-nil, inl, false, List, [], ◌∷◌, ◌++◌, append_assoc, arith, nat_beq,
  length,
}
use kube_state_metrics.Prelude.Text.{Bytes, ◌==◌, eq_iff}
use kube_state_metrics.Prelude.Result.{err}
use kube_state_metrics.Go.Strings.{split}
use kube_state_metrics.Api.{ListOptions, ListerWatcher}
use kube_state_metrics.ListWatch.Multi.{new_multi_watch, resource_versions, watch, wrong_parts}
use kube_state_metrics.ListWatch.Multi.RoundTrip.{Watches}

module _ {Obj Watch : Type 0} where
  -- Watch refuses a resource version that is not empty and has not one part for each watcher; it
  -- opens no watch then.
  watch_wrong_parts :
      (mlw : List (ListerWatcher Obj Watch)) (options : ListOptions)
      → options.resource_version ≢ []
      → length (split options.resource_version b'/') ≢ length mlw
      → watch mlw options ≡ (err (wrong_parts (length mlw)), [])
  unfolding watch resource_versions
  watch_wrong_parts mlw options filled other = simp (not_empty, wrong)
    where
      not_empty : (options.resource_version == []) ≡ false
      not_empty = ground (arith, eq_iff options.resource_version [])

      wrong : nat_beq (length (split options.resource_version b'/')) (length mlw) ≡ false
      wrong = ground arith

  failing_from :
      (mlw : List (ListerWatcher Obj Watch)) (lw : ListerWatcher Obj Watch)
      (after : List (ListerWatcher Obj Watch)) (vs : List Bytes) (v : Bytes) (vs' : List Bytes)
      (options : ListOptions) (ws opened : List Watch) (e : Bytes)
      → Watches mlw options.field_selector vs ws
      → lw.watch (record options { resource_version = v }) ≡ inl e
      → new_multi_watch (mlw ++ lw ∷ after) (vs ++ v ∷ vs') options opened ≡ (err e, opened ++ ws)
  unfolding new_multi_watch
  failing_from [] lw after [] v vs' options [] opened e h bad =
      rw (bad, new_multi_watch) (ap (λ l. (err e, l)) (sym (append-nil opened)))
  failing_from [] lw after [] v vs' options (w ∷ ws) opened e h bad = absurd h
  failing_from [] lw after (u ∷ vs) v vs' options ws opened e h bad = absurd h
  failing_from (l ∷ mlw) lw after [] v vs' options ws opened e h bad = absurd h
  failing_from (l ∷ mlw) lw after (u ∷ vs) v vs' options [] opened e h bad = absurd h
  failing_from (l ∷ mlw) lw after (u ∷ vs) v vs' options (w ∷ ws) opened e (good, h) bad =
      rw (good, new_multi_watch)
        (failing_from mlw lw after vs v vs' options ws (opened ++ w ∷ []) e h bad
          ∙ ap (λ l. (err e, l)) (append_assoc opened (w ∷ []) ws))

  -- When a watcher fails after others have opened their watches, newMultiWatch returns its error
  -- and opens no more; the watches that were opened before it stay open, and the result, an error,
  -- gives no hold of them to stop them by.
  pub new_multi_watch_leak :
      (mlw : List (ListerWatcher Obj Watch)) (lw : ListerWatcher Obj Watch)
      (after : List (ListerWatcher Obj Watch)) (vs : List Bytes) (v : Bytes) (vs' : List Bytes)
      (options : ListOptions) (ws : List Watch) (e : Bytes)
      → Watches mlw options.field_selector vs ws
      → lw.watch (record options { resource_version = v }) ≡ inl e
      → new_multi_watch (mlw ++ lw ∷ after) (vs ++ v ∷ vs') options [] ≡ (err e, ws)
  new_multi_watch_leak mlw lw after vs v vs' options ws e =
      failing_from mlw lw after vs v vs' options ws [] e
