-- ===== src/ListWatch/Multi/Watching.antt =====
-- What the consumer of a multi watch receives (pkg/listwatch/listwatch.go, newMultiWatch).
use kube_state_metrics.Prelude.{
  ◌≡◌, refl, subst, ◌∙◌, ◌⊎◌, inl, inr, Bool, true, false, Bool-cases, List, [], ◌∷◌, ◌++◌, map,
  All,
}
use kube_state_metrics.Api.{Event}
use kube_state_metrics.ListWatch.Multi.Senders.{Sender, MultiWatch, start, Reach, Merged}
use kube_state_metrics.ListWatch.Multi.Merging.{waiting, Keeps, Reach-IsMerging}

module _ {Obj : Type 0} where
  Prefix-of_Keeps :
      (b : Bool) (xs : List (Sender Obj))
      → All (Keeps b) xs
      → All (λ (x : Sender Obj). (rest : List (Event Obj)) × (x.sent ++ rest ≡ x.events)) xs
  Prefix-of_Keeps b [] h = tt
  Prefix-of_Keeps b (x ∷ xs) (hx, h) =
      ((waiting x.held ++ x.input, hx.in_order), Prefix-of_Keeps b xs h)

  -- However the senders, the consumer and the calls of Stop interleave, what the consumer has received
  -- is a merge of a first part of what each of the watches delivers: in the order of each watch, with
  -- no event lost, doubled or made up.
  pub merges_watches :
      (streams : List (List (Event Obj))) {s : MultiWatch Obj}
      → Reach (start streams) s
      → (map (λ (x : Sender Obj). x.events) s.senders ≡ streams)
        × All
            (λ (x : Sender Obj). (rest : List (Event Obj)) × (x.sent ++ rest ≡ x.events))
            s.senders
        × Merged (map (λ (x : Sender Obj). x.sent) s.senders) s.delivered
  merges_watches streams {s} r =
      let inv = Reach-IsMerging streams r in
      (inv.streams_same, Prefix-of_Keeps s.stopped s.senders inv.kept, inv.merged)

  all_sent :
      (xs : List (Sender Obj))
      → All (Keeps false) xs
      → All (λ (x : Sender Obj). x.returned ≡ true) xs
      → map (λ (x : Sender Obj). x.sent) xs ≡ map (λ (x : Sender Obj). x.events) xs
  all_sent [] h r = refl
  all_sent (x ∷ xs) (hx, h) (rx, r) = elim (hx.ended rx) [
    | inl stopped ↦ cc stopped
    | inr sent ↦ cc (sent, all_sent xs h r)
  ]

  -- When the result channel is closed, Stop was called, or the consumer has received all events of all
  -- watches.
  pub closed_complete :
      (streams : List (List (Event Obj))) {s : MultiWatch Obj}
      → Reach (start streams) s
      → s.closed ≡ true
      → (s.stopped ≡ true) ⊎ Merged streams s.delivered
  closed_complete streams {s} r over = elim (Bool-cases s.stopped) [
    | inl stopped ↦ inl stopped
    | inr running ↦
        let inv = Reach-IsMerging streams r in
        inr (
          subst (λ l. Merged l s.delivered)
            (all_sent s.senders (subst (λ b. All (Keeps b) s.senders) running inv.kept)
                (inv.over over)
              ∙ inv.streams_same)
            inv.merged)
  ]
