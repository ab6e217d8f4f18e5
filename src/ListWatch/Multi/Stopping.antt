-- ===== src/ListWatch/Multi/Stopping.antt =====
-- What a Stop of a multi watch leads to, and what two of them at once do
-- (pkg/listwatch/listwatch.go, newMultiWatch and Stop).
use kube_state_metrics.Prelude.{
  suc, ◌≡◌, refl, sym, ap, subst, ◌∙◌, true, false, Bool-cases, inl, inr, none, some, Option-cases,
  List, [], ◌∷◌, ◌++◌, append-nil, append_assoc, All, All-append,
}
use kube_state_metrics.Api.{Event}
use kube_state_metrics.ListWatch.Multi.Senders.{
  Sender, MultiWatch, receive, end, quit, close_result, enter_stop, finish_stop, close_again, Reach,
  here, later,
}

module _ {Obj : Type 0} where
  Reach-trans : {s t u : MultiWatch Obj} → Reach s t → Reach t u → Reach s u
  Reach-trans r here = r
  Reach-trans r (later q st) = later (Reach-trans r q) st

  abbrev HasReturned : Sender Obj → Type 0
  HasReturned x = x.returned ≡ true

  -- One sender of a stopped multi watch has returned, and the others are as they were.
  record OneReturned (s : MultiWatch Obj) (before after : List (Sender Obj)) : Type 0 where
    sender : Sender Obj
    has_returned : HasReturned sender
    next : MultiWatch Obj
    reached : Reach s next
    senders_are : next.senders ≡ before ++ sender ∷ after
    is_stopped : next.stopped ≡ true
    same_delivered : next.delivered ≡ s.delivered

  -- The watch of a sender that holds no event is at its end, or delivers one event more.
  return_free :
      (s : MultiWatch Obj) (before : List (Sender Obj)) (x : Sender Obj) (after : List (Sender Obj))
      (input : List (Event Obj))
      → s.senders ≡ before ++ x ∷ after
      → s.stopped ≡ true
      → x.returned ≡ false
      → x.held ≡ none
      → x.input ≡ input
      → OneReturned s before after
  return_free s before x after [] at stopped running free done = record {
    sender = record x { returned = true };
    has_returned = refl;
    next = record s { senders = before ++ record x { returned = true } ∷ after };
    reached = later here (end before x after at running free done);
    senders_are = refl;
    is_stopped = stopped;
    same_delivered = refl;
  }
  return_free s before x after (e ∷ es) at stopped running free more =
      let y : Sender Obj = record x { input = es; held = some e } in
      record {
        sender = record y { returned = true };
        has_returned = refl;
        next = record s { senders = before ++ record y { returned = true } ∷ after };
        reached =
            later (later here (receive before x after e es at running free more))
              (quit before y after e refl running refl stopped);
        senders_are = refl;
        is_stopped = stopped;
        same_delivered = refl;
      }

  return_one :
      (s : MultiWatch Obj) (before : List (Sender Obj)) (x : Sender Obj) (after : List (Sender Obj))
      → s.senders ≡ before ++ x ∷ after
      → s.stopped ≡ true
      → OneReturned s before after
  return_one s before x after at stopped = elim (Bool-cases x.returned) [
    | inl over ↦ record {
      sender = x;
      has_returned = over;
      next = s;
      reached = here;
      senders_are = at;
      is_stopped = stopped;
      same_delivered = refl;
    }
    | inr running ↦ elim (Option-cases x.held) [
      | inl free ↦ return_free s before x after x.input at stopped running free refl
      | inr (e, holding) ↦ record {
        sender = record x { returned = true };
        has_returned = refl;
        next = record s { senders = before ++ record x { returned = true } ∷ after };
        reached = later here (quit before x after e at running holding stopped);
        senders_are = refl;
        is_stopped = stopped;
        same_delivered = refl;
      }
    ]
  ]

  -- From a stopped state, all senders after the first ones can return.
  return_all :
      (s : MultiWatch Obj) (before after : List (Sender Obj))
      → s.senders ≡ before ++ after
      → s.stopped ≡ true
      → All HasReturned before
      → (t : MultiWatch Obj) × Reach s t × All HasReturned t.senders × (t.delivered ≡ s.delivered)
  return_all s before [] at stopped over =
      (s, here, subst (All HasReturned) (sym (at ∙ append-nil before)) over, refl)
  return_all s before (x ∷ after) at stopped over =
      let one = return_one s before x after at stopped in
      let (t, r, all, same) =
        return_all one.next (before ++ one.sender ∷ []) after
          (one.senders_are ∙ sym (append_assoc before (one.sender ∷ []) after)) one.is_stopped
          (All-append HasReturned before (one.sender ∷ []) over (one.has_returned, tt)) in
      (t, Reach-trans one.reached r, all, same ∙ one.same_delivered)

  -- Once the channel `stopped` is closed, and in whatever state the senders are then, there is a run
  -- at whose end all senders have returned, the result channel is closed, and the consumer has
  -- received nothing that it had not received before: no sender depends on the consumer to end.
  pub stopped_can_close :
      (s : MultiWatch Obj)
      → s.stopped ≡ true
      → (t : MultiWatch Obj) × Reach s t
        × (t.closed ≡ true)
        × All (λ (x : Sender Obj). x.returned ≡ true) t.senders
        × (t.delivered ≡ s.delivered)
  stopped_can_close s stopped =
      let (t, r, all, same) = return_all s [] s.senders refl stopped tt in
      elim (Bool-cases t.closed) [
        | inl closed ↦ (t, r, closed, all, same)
        | inr not_closed ↦
            (record t { closed = true }, later r (close_result all not_closed), refl, all, same)
      ]

  -- Two calls of Stop can both find the channel `stopped` open, and then the second one closes it
  -- again, which panics, for any watches and any state in which the multi watch is not stopped and
  -- no other call of Stop has begun.
  pub stops_race :
      (s : MultiWatch Obj)
      → s.stopped ≡ false
      → s.stopping ≡ 0
      → (t : MultiWatch Obj) × Reach s t × (t.panicked ≡ true)
  stops_race s running none_yet = (
    record s { stopping = 0; stopped = true; panicked = true },
    later
        (later (later (later here (enter_stop running)) (enter_stop running))
          (finish_stop 1 (ap suc (ap suc none_yet)) running))
        (close_again 0 refl refl),
    refl,
  )
