-- ===== src/ListWatch/Multi/Merging.antt =====
-- What every step of the senders and of Stop keeps (pkg/listwatch/listwatch.go, newMultiWatch).
use kube_state_metrics.Prelude.{
  ◌≡◌, refl, sym, ap, subst, ◌∙◌, ◌⊎◌, inl, inr, Bool, true, false, Option, none, some, List, [],
  ◌∷◌, ◌++◌, map, append-nil, append_assoc, All, All-append, All-unappend,
}
use kube_state_metrics.Api.{Event}
use kube_state_metrics.ListWatch.Multi.Senders.{
  Sender, MultiWatch, new_sender, start, Step, receive, end, send, quit, close_result, enter_stop,
  finish_stop, close_again, Reach, here, later, Merged, none_sent, one_more,
}

module _ {A : Type 0} (P : A → Type 0) where
  -- A list stays as it is but for one item, which still has the property.
  All-update :
      (xs : List A) (x y : A) (ys : List A)
      → (P x → P y)
      → All P (xs ++ x ∷ ys)
      → All P (xs ++ y ∷ ys)
  All-update xs x y ys f h =
      let (hs, (hx, ht)) = All-unappend P xs (x ∷ ys) h in All-append P xs (y ∷ ys) hs (f hx, ht)

map-append : {A B : Type 0} (f : A → B) (xs ys : List A) → map f (xs ++ ys) ≡ map f xs ++ map f ys
map-append f [] ys = refl
map-append f (x ∷ xs) ys = ap (λ zs. f x ∷ zs) (map-append f xs ys)

module _ {Obj : Type 0} where
  abbrev pub waiting : Option (Event Obj) → List (Event Obj)
  waiting none = []
  waiting (some e) = e ∷ []

  -- No event of a watch is lost, and a sender returns only at the end of its events or after a Stop.
  pub record Keeps (stopped : Bool) (x : Sender Obj) : Type 0 where
    pub in_order : x.sent ++ (waiting x.held ++ x.input) ≡ x.events
    pub ended : x.returned ≡ true → (stopped ≡ true) ⊎ (x.sent ≡ x.events)

  pub record IsMerging (streams : List (List (Event Obj))) (s : MultiWatch Obj) : Type 0 where
    pub kept : All (Keeps s.stopped) s.senders
    pub streams_same : map (λ (x : Sender Obj). x.events) s.senders ≡ streams
    pub merged : Merged (map (λ (x : Sender Obj). x.sent) s.senders) s.delivered
    pub over : s.closed ≡ true → All (λ (x : Sender Obj). x.returned ≡ true) s.senders

  start-Keeps : (streams : List (List (Event Obj))) → All (Keeps false) (map new_sender streams)
  start-Keeps [] = tt
  start-Keeps (es ∷ streams) = (record { in_order = refl; ended = λ h. cc h }, start-Keeps streams)

  start_same :
      (streams : List (List (Event Obj)))
      → map (λ (x : Sender Obj). x.events) (map new_sender streams) ≡ streams
  start_same [] = refl
  start_same (es ∷ streams) = ap (λ ss. es ∷ ss) (start_same streams)

  start_empty :
      (streams : List (List (Event Obj)))
      → All (λ xs. xs ≡ []) (map (λ (x : Sender Obj). x.sent) (map new_sender streams))
  start_empty [] = tt
  start_empty (es ∷ streams) = (refl, start_empty streams)

  start-IsMerging : (streams : List (List (Event Obj))) → IsMerging streams (start streams)
  start-IsMerging streams = record {
    kept = start-Keeps streams;
    streams_same = start_same streams;
    merged = none_sent (start_empty streams);
    over = λ h. cc h;
  }

  -- One sender is replaced by one with the same events.
  replaced :
      {B : Type 0} (f : Sender Obj → B) (before : List (Sender Obj)) (x y : Sender Obj)
      (after : List (Sender Obj))
      → f y ≡ f x
      → map f (before ++ y ∷ after) ≡ map f (before ++ x ∷ after)
  replaced f before x y after h =
      map-append f before (y ∷ after)
      ∙ ap (λ b. map f before ++ b ∷ map f after) h
      ∙ sym (map-append f before (x ∷ after))

  Keeps-stop : (xs : List (Sender Obj)) → All (Keeps false) xs → All (Keeps true) xs
  Keeps-stop [] h = tt
  Keeps-stop (x ∷ xs) (hx, h) =
      (record { in_order = hx.in_order; ended = λ r. inl refl }, Keeps-stop xs h)

  still_running :
      (before : List (Sender Obj)) (x : Sender Obj) (after : List (Sender Obj))
      → x.returned ≡ false
      → All (λ (z : Sender Obj). z.returned ≡ true) (before ++ x ∷ after)
      → ⊥
  still_running before x after running all =
      let (_, (hx, _)) = All-unappend _ before (x ∷ after) all in cc (running, hx)

  -- A step of one sender, whose events stay, and whose part of what was delivered does.
  moved :
      {streams : List (List (Event Obj))} (s : MultiWatch Obj) (before : List (Sender Obj))
      (x y : Sender Obj) (after : List (Sender Obj))
      → IsMerging streams s
      → s.senders ≡ before ++ x ∷ after
      → x.returned ≡ false
      → y.events ≡ x.events
      → y.sent ≡ x.sent
      → (Keeps s.stopped x → Keeps s.stopped y)
      → IsMerging streams (record s { senders = before ++ y ∷ after })
  moved s before x y after inv at running events sent keeps = record {
    kept = All-update (Keeps s.stopped) before x y after keeps (subst (All _) at inv.kept);
    streams_same =
        replaced (λ z. z.events) before x y after events
        ∙ ap (map (λ (z : Sender Obj). z.events)) (sym at)
        ∙ inv.streams_same;
    merged =
        subst (λ l. Merged l s.delivered)
          (ap (map (λ (z : Sender Obj). z.sent)) at
            ∙ sym (replaced (λ z. z.sent) before x y after sent))
          inv.merged;
    over = λ c. absurd (still_running before x after running (subst (All _) at (inv.over c)));
  }

  Step-IsMerging :
      {streams : List (List (Event Obj))} {s t : MultiWatch Obj}
      → Step s t
      → IsMerging streams s
      → IsMerging streams t
  Step-IsMerging {s = s} (receive before x after e es at running free more) inv =
      moved s before x _ after inv at running refl refl
        (λ k. record { in_order = rw (free, more) at k.in_order; ended = λ r. cc (r, running) })
  Step-IsMerging {s = s} (end before x after at running free done) inv =
      moved s before x _ after inv at running refl refl (λ k. record {
        in_order = k.in_order;
        ended = λ _. inr (sym (append-nil x.sent) ∙ (rw (free, done) at k.in_order));
      })
  Step-IsMerging {s = s} (quit before x after e at running holding stopped) inv =
      moved s before x _ after inv at running refl refl
        (λ k. record { in_order = k.in_order; ended = λ _. inl stopped })
  Step-IsMerging {s = s} (send before x after e at running holding) inv =
      let kept' =
        All-update (Keeps s.stopped) before x _ after
          (λ k. record {
            in_order = append_assoc x.sent (e ∷ []) x.input ∙ (rw holding at k.in_order);
            ended = λ r. cc (r, running);
          })
          (subst (All (Keeps s.stopped)) at inv.kept) in
      record {
        kept = kept';
        streams_same =
            replaced (λ z. z.events) before x _ after refl
            ∙ ap (map (λ (z : Sender Obj). z.events)) (sym at)
            ∙ inv.streams_same;
        merged =
            one_more (map (λ (z : Sender Obj). z.sent) before) x.sent
              (map (λ (z : Sender Obj). z.sent) after) e inv.merged
              (ap (map (λ (z : Sender Obj). z.sent)) at ∙ map-append _ before (x ∷ after))
              (map-append _ before (_ ∷ after)) refl;
        over = λ c. absurd (still_running before x after running (subst (All _) at (inv.over c)));
      }
  Step-IsMerging (close_result all not_closed) inv = record {
    kept = inv.kept;
    streams_same = inv.streams_same;
    merged = inv.merged;
    over = λ _. all;
  }
  Step-IsMerging (enter_stop running) inv = record {
    kept = inv.kept;
    streams_same = inv.streams_same;
    merged = inv.merged;
    over = inv.over;
  }
  Step-IsMerging {s = s} (finish_stop n calls running) inv = record {
    kept = Keeps-stop s.senders (subst (λ b. All (Keeps b) s.senders) running inv.kept);
    streams_same = inv.streams_same;
    merged = inv.merged;
    over = inv.over;
  }
  Step-IsMerging (close_again n calls stopped) inv = record {
    kept = inv.kept;
    streams_same = inv.streams_same;
    merged = inv.merged;
    over = inv.over;
  }

  pub Reach-IsMerging :
      (streams : List (List (Event Obj))) {s : MultiWatch Obj}
      → Reach (start streams) s
      → IsMerging streams s
  Reach-IsMerging streams here = start-IsMerging streams
  Reach-IsMerging streams (later r st) = Step-IsMerging st (Reach-IsMerging streams r)
