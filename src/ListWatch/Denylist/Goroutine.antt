-- ===== src/ListWatch/Denylist/Goroutine.antt =====
-- The goroutine that newDenylistWatch starts, as a step relation: it takes events from the watch
-- under it, holds one that passes until the consumer takes it, and returns when the channel of
-- that watch is closed or Stop was called. Which case of a `select` runs is left open, and so is
-- when the consumer calls Stop.
use kube_state_metrics.Prelude.{
  ◌≡◌, refl, sym, ◌∙◌, ◌⊎◌, inl, inr, Bool, true, false, Bool-cases, Option, none, some, List, [],
  ◌∷◌, ◌++◌, append-nil, append_assoc, keep_if,
}
use kube_state_metrics.Api.{Accessor, Event}
use kube_state_metrics.AllowDenyList.{StringSet}
use kube_state_metrics.ListWatch.Denylist.{passes}

pub record Goroutine (Obj : Type 0) : Type 0 where
  -- what the channel under it will deliver before it is closed
  pub input : List (Event Obj)
  -- an event that waits in the inner `select`
  pub held : Option (Event Obj)
  -- what the consumer has received
  pub delivered : List (Event Obj)
  -- Stop was called on the proxy
  pub stopping : Bool
  -- Stop was called on the watch under it
  pub next_stopped : Bool
  -- it has returned, and the result channel is closed
  pub returned : Bool

abbrev pub start : {Obj : Type 0} → List (Event Obj) → Goroutine Obj
start events = record {
  input = events;
  held = none;
  delivered = [];
  stopping = false;
  next_stopped = false;
  returned = false;
}

module _ {Obj : Type 0} (accessor : Accessor Obj) (denylist : StringSet) where
  pub data Step (s : Goroutine Obj) : Goroutine Obj → Type 0 where
    receive :
        (e : Event Obj) (es : List (Event Obj))
        → s.returned ≡ false
        → s.held ≡ none
        → s.input ≡ e ∷ es
        → passes accessor denylist e ≡ true
        → Step s (record s { input = es; held = some e })
    drop :
        (e : Event Obj) (es : List (Event Obj))
        → s.returned ≡ false
        → s.held ≡ none
        → s.input ≡ e ∷ es
        → passes accessor denylist e ≡ false
        → Step s (record s { input = es })
    close :
        s.returned ≡ false → s.held ≡ none → s.input ≡ [] → Step s (record s { returned = true })
    send :
        (e : Event Obj)
        → s.returned ≡ false
        → s.held ≡ some e
        → Step s (record s { held = none; delivered = s.delivered ++ e ∷ [] })
    stop :
        s.returned ≡ false
        → s.stopping ≡ true
        → Step s (record s { next_stopped = true; returned = true })
    call_stop : Step s (record s { stopping = true })

  pub data Reach (s : Goroutine Obj) : Goroutine Obj → Type 0 where
    here : Reach s s
    later : {t u : Goroutine Obj} → Reach s t → Step t u → Reach s u

  abbrev pub waiting : Option (Event Obj) → List (Event Obj)
  waiting none = []
  waiting (some e) = e ∷ []

  -- With the events that the watch under it delivers in all.
  pub record IsFiltering (events : List (Event Obj)) (s : Goroutine Obj) : Type 0 where
    pub all :
        s.delivered ++ (waiting s.held ++ keep_if (passes accessor denylist) s.input)
        ≡ keep_if (passes accessor denylist) events
    -- it returns without a Stop only at the end
    pub ended : s.returned ≡ true → s.next_stopped ≡ false → (s.held ≡ none) × (s.input ≡ [])
    pub stopped : s.next_stopped ≡ true → (s.stopping ≡ true) × (s.returned ≡ true)

  Step-IsFiltering :
      {events : List (Event Obj)} {s t : Goroutine Obj}
      → Step s t
      → IsFiltering events s
      → IsFiltering events t
  Step-IsFiltering (receive e es running free more passing) inv = record {
    all = rw (free, more, passing) at inv.all;
    ended = λ r _. cc;
    stopped = inv.stopped;
  }
  Step-IsFiltering (drop e es running free more failing) inv = record {
    all = rw (more, failing) at inv.all;
    ended = λ r _. cc;
    stopped = inv.stopped;
  }
  Step-IsFiltering (close running free done) inv = record {
    all = inv.all;
    ended = λ _ _. (free, done);
    stopped = λ q. ((inv.stopped q).0, refl);
  }
  Step-IsFiltering {s = s} (send e running holding) inv = record {
    all = append_assoc s.delivered (e ∷ []) _ ∙ (rw holding at inv.all);
    ended = λ r _. cc;
    stopped = inv.stopped;
  }
  Step-IsFiltering (stop running asked) inv = record {
    all = inv.all;
    ended = λ _ q. cc;
    stopped = λ _. (asked, refl);
  }
  Step-IsFiltering call_stop inv = record {
    all = inv.all;
    ended = inv.ended;
    stopped = λ q. (refl, (inv.stopped q).1);
  }

  Reach-IsFiltering :
      (events : List (Event Obj)) {s : Goroutine Obj}
      → Reach (start events) s
      → IsFiltering events s
  Reach-IsFiltering events here = record { all = refl; ended = λ q. cc; stopped = λ q. cc }
  Reach-IsFiltering events (later r st) = Step-IsFiltering st (Reach-IsFiltering events r)

  -- However the goroutine, its consumer and the calls of Stop interleave, what the consumer has
  -- received is, in order, a first part of those events of the watch under it that pass: whose
  -- object is a Kubernetes object outside the denied namespaces.
  pub delivered_prefix :
      (events : List (Event Obj)) {s : Goroutine Obj}
      → Reach (start events) s
      → (rest : List (Event Obj)) × (s.delivered ++ rest
          ≡ keep_if (passes accessor denylist) events)
  delivered_prefix events {s} r = (
    waiting s.held ++ keep_if (passes accessor denylist) s.input,
    (Reach-IsFiltering events r).all,
  )

  -- When the goroutine has returned, either Stop was called on it and it has stopped the watch
  -- under it, or the consumer has received all the events that pass, in order.
  pub returned_complete :
      (events : List (Event Obj)) {s : Goroutine Obj}
      → Reach (start events) s
      → s.returned ≡ true
      → ((s.stopping ≡ true) × (s.next_stopped ≡ true))
        ⊎ (s.delivered ≡ keep_if (passes accessor denylist) events)
  returned_complete events {s} r over = elim (Bool-cases s.next_stopped) [
    | inl stopped ↦ inl (((Reach-IsFiltering events r).stopped stopped).0, stopped)
    | inr not_stopped ↦
        let inv = Reach-IsFiltering events r in
        let (free, done) = inv.ended over not_stopped in
        let all : s.delivered ++ [] ≡ keep_if (passes accessor denylist) events =
          rw (free, done) at inv.all in
        inr (sym (append-nil s.delivered) ∙ all)
  ]
