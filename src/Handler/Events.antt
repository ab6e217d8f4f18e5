-- ===== src/Handler/Events.antt =====
-- The handlers of Run's informer.
use kube_state_metrics.Prelude.{
  ◌≡◌, refl, ap, ◌∙◌, sym, inl, inr, Bool, true, ◌&&◌, not, Option, none, some, List, [], ◌∷◌,
  arith, if◌then◌else◌, Bool-cases,
}
use kube_state_metrics.Prelude.Text.{Bytes, ◌==◌}
use kube_state_metrics.Prelude.Int.{ℤ, int_beq, int_beq_iff}
use kube_state_metrics.Prelude.Result.{Result, ok}
use kube_state_metrics.Api.{Try}
use kube_state_metrics.Metric.{Float64}
use kube_state_metrics.Generator.{FamilyGenerator}
use kube_state_metrics.Options.{Options}
use kube_state_metrics.Builder.{Kind}
use kube_state_metrics.Handler.{
  Libraries, Notification, add, update, State, configure_sharding, reshard, handle, handle_all,
}
use kube_state_metrics.Handler.Detect.{sharding_settings_from_stateful_set}
use kube_state_metrics.Handler.Live.{Ready, Live, configure_sharding_lem}

settings : Try (ℤ × ℤ) → Option (ℤ × ℤ)
settings (inl e) = none
settings (inr s) = some s

-- The sharding that a notification asks the handler of a pod for: that of the pod's own StatefulSet,
-- if it is added, or changed, and its sharding can be told.
unfoldable pub asks : Bytes → Bytes → Notification → Option (ℤ × ℤ)
unfolding settings
asks name pod (add ss) =
    if ss.name == name then settings (sharding_settings_from_stateful_set ss pod) else none
asks name pod (update old cur) =
    if cur.name == name && not (old.resource_version == cur.resource_version)
    then settings (sharding_settings_from_stateful_set cur pod)
    else none

abbrev pub or_else : Option (ℤ × ℤ) → ℤ × ℤ → ℤ × ℤ
or_else none s = s
or_else (some s) _ = s

-- The sharding that the last notification asks for that asks for any.
abbrev pub last_asked : Bytes → Bytes → List Notification → ℤ × ℤ → ℤ × ℤ
last_asked name pod [] s = s
last_asked name pod (n ∷ ns) s = last_asked name pod ns (or_else (asks name pod n) s)

-- The test of the two handlers compares the pairs.
same_of_eq :
    (a b : ℤ) (p : ℤ × ℤ) → ◌≡◌ {A = ℤ × ℤ} p (a, b) → (int_beq a p.0 && int_beq b p.1) ≡ true
same_of_eq a b p h =
    rw
      ((int_beq_iff a p.0).1 (ap (λ q. q.0) (sym h)), (int_beq_iff b p.1).1 (ap (λ q. q.1) (sym h)))

eq_of_same : (a b c d : ℤ) → (int_beq a c && int_beq b d) ≡ true → ◌≡◌ {A = ℤ × ℤ} (a, b) (c, d)
eq_of_same a b c d h =
    let (first, second) = both (int_beq a c) (int_beq b d) h in
    cc ((int_beq_iff a c).0 first, (int_beq_iff b d).0 second)
  where
    both : (x y : Bool) → (x && y) ≡ true → (x ≡ true) × (y ≡ true)
    both x y h = (ground arith, ground arith)

module _ {t : Libraries} (fl : Float64) {Obj : Kind → Type 0}
    (families : (k : Kind) → List (FamilyGenerator fl.F (Obj k))) where
  -- Re-sharding if it is asked for and new.
  act : Option (ℤ × ℤ) → State t fl Obj → Result (State t fl Obj)
  act none s = ok s
  act (some (shard, total_shards)) s =
      if int_beq s.0.cur_shard shard && int_beq s.0.cur_total_shards total_shards
      then ok s
      else configure_sharding fl families shard total_shards s

  reshard_lem :
      (r : Try (ℤ × ℤ)) (s : State t fl Obj) → reshard fl families r s ≡ act (settings r) s
  unfolding reshard act settings
  reshard_lem (inl e) s = refl
  reshard_lem (inr r) s = refl

  handle-act :
      (name : Bytes) (n : Notification) (s : State t fl Obj)
      → handle fl families name n s ≡ act (asks name s.0.opts.pod n) s
  unfolding handle act settings asks
  handle-act name (add ss) s = elim (Bool-cases (ss.name == name)) [
    | inl own ↦ rw own (reshard_lem (sharding_settings_from_stateful_set ss s.0.opts.pod) s)
    | inr foreign ↦ rw foreign
  ]
  handle-act name (update old cur) s = elim (Bool-cases (cur.name == name)) [
    | inl own ↦ elim (Bool-cases (old.resource_version == cur.resource_version)) [
      | inl same ↦ rw (own, same)
      | inr changed ↦
          rw (own, changed) (reshard_lem (sharding_settings_from_stateful_set cur s.0.opts.pod) s)
    ]
    | inr foreign ↦ rw foreign
  ]

  act_unchanged :
      (o : Option (ℤ × ℤ)) (s : State t fl Obj)
      → or_else o (s.0.cur_shard, s.0.cur_total_shards) ≡ (s.0.cur_shard, s.0.cur_total_shards)
      → act o s ≡ ok s
  unfolding act
  act_unchanged none s h = refl
  act_unchanged (some p) s h = rw (same_of_eq s.0.cur_shard s.0.cur_total_shards p h)

  -- A notification that asks for no sharding, or for the one that the handler has, changes nothing:
  -- no store is built anew, and no context is cancelled or made.
  pub handle_unchanged :
      (name : Bytes) (n : Notification) (s : State t fl Obj)
      → or_else (asks name s.0.opts.pod n) (s.0.cur_shard, s.0.cur_total_shards)
        ≡ (s.0.cur_shard, s.0.cur_total_shards)
      → handle fl families name n s ≡ ok s
  handle_unchanged name n s h = handle-act name n s ∙ act_unchanged (asks name s.0.opts.pod n) s h

  act_lem :
      (o : Option (ℤ × ℤ)) (s : State t fl Obj)
      → Ready s.0.store_builder
      → Live s
      → (s' : State t fl Obj) × (act o s ≡ ok s')
        × Live s'
        × ((s'.0.cur_shard, s'.0.cur_total_shards)
            ≡ or_else o (s.0.cur_shard, s.0.cur_total_shards))
        × (s'.0.opts ≡ s.0.opts)
        × Ready s'.0.store_builder
  unfolding act
  act_lem none s ready live = (s, refl, live, refl, refl, ready)
  act_lem (some (shard, total_shards)) s ready live =
      elim (Bool-cases (int_beq s.0.cur_shard shard && int_beq s.0.cur_total_shards total_shards)) [
        | inl same ↦ (
          s,
          rw same,
          live,
          eq_of_same s.0.cur_shard s.0.cur_total_shards shard total_shards same,
          refl,
          ready,
        )
        | inr new ↦
            let (s', done, running, shard_is, total_is, _, opts_kept, ready') =
              configure_sharding_lem fl families shard total_shards s ready live in
            (s', rw new done, inr running, cc (shard_is, total_is), opts_kept, ready')
      ]

  -- Whatever the informer calls, handling it returns: the handler has the sharding that was asked for
  -- last, or its old one if none was, and stays live.
  pub handle_all_lem :
      (name : Bytes) (ns : List Notification) (s : State t fl Obj)
      → Ready s.0.store_builder
      → Live s
      → (s' : State t fl Obj) × (handle_all fl families name ns s ≡ ok s')
        × Live s'
        × ((s'.0.cur_shard, s'.0.cur_total_shards)
            ≡ last_asked name s.0.opts.pod ns (s.0.cur_shard, s.0.cur_total_shards))
  unfolding handle_all
  handle_all_lem name [] s ready live = (s, refl, live, refl)
  handle_all_lem name (n ∷ ns) s ready live =
      let (s', done, live', cur, opts_kept, ready') =
        act_lem (asks name s.0.opts.pod n) s ready live in
      let (s'', done', live'', cur') = handle_all_lem name ns s' ready' live' in
      (
        s'',
        rw (handle-act name n s, done, handle_all) done',
        live'',
        cur'
            ∙ ap (λ (o : Options). last_asked name o.pod ns (s'.0.cur_shard, s'.0.cur_total_shards))
                opts_kept
            ∙ ap (last_asked name s.0.opts.pod ns) cur,
      )
