-- ===== src/ListWatch/Multi/Senders.antt =====
-- The goroutines that newMultiWatch starts, and Stop, as a step relation (pkg/listwatch/listwatch.go).
-- Each sender takes events from its watch and hands each to the consumer, unless the multi watch was
-- stopped in between; the result channel is closed when all senders returned. Which case of a
-- `select` runs is left open, and so is when, how often and by how many goroutines Stop is called. A
-- watch that is stopped may close early: its events are those that it delivers until then. The steps
-- after a panic are those of a program that recovers from it.
use kube_state_metrics.Prelude.{
  ℕ, suc, ◌≡◌, Bool, true, false, Option, none, some, List, [], ◌∷◌, ◌++◌, map, All,
}
use kube_state_metrics.Api.{Event}

pub record Sender (Obj : Type 0) : Type 0 where
  -- what its watch delivers in all, before its channel is closed
  pub events : List (Event Obj)
  -- what its watch has not delivered yet
  pub input : List (Event Obj)
  -- an event that waits in the inner `select`
  pub held : Option (Event Obj)
  -- what of it the consumer has received
  pub sent : List (Event Obj)
  pub returned : Bool

pub record MultiWatch (Obj : Type 0) : Type 0 where
  pub senders : List (Sender Obj)
  -- what the consumer has received
  pub delivered : List (Event Obj)
  -- the calls of Stop that have found the channel `stopped` open, and have not closed it yet
  pub stopping : ℕ
  -- the channel `stopped` is closed
  pub stopped : Bool
  -- the result channel is closed
  pub closed : Bool
  -- a closed channel was closed again
  pub panicked : Bool

module _ {Obj : Type 0} where
  abbrev pub new_sender : List (Event Obj) → Sender Obj
  new_sender events = record {
    events = events;
    input = events;
    held = none;
    sent = [];
    returned = false;
  }

  -- The state that newMultiWatch returns, for what the watches deliver.
  abbrev pub start : List (List (Event Obj)) → MultiWatch Obj
  start streams = record {
    senders = map new_sender streams;
    delivered = [];
    stopping = 0;
    stopped = false;
    closed = false;
    panicked = false;
  }

  pub data Step (s : MultiWatch Obj) : MultiWatch Obj → Type 0 where
    receive :
        (before : List (Sender Obj)) (x : Sender Obj) (after : List (Sender Obj)) (e : Event Obj)
        (es : List (Event Obj))
        → s.senders ≡ before ++ x ∷ after
        → x.returned ≡ false
        → x.held ≡ none
        → x.input ≡ e ∷ es
        → Step s (record s { senders = before ++ record x { input = es; held = some e } ∷ after })
    end :
        (before : List (Sender Obj)) (x : Sender Obj) (after : List (Sender Obj))
        → s.senders ≡ before ++ x ∷ after
        → x.returned ≡ false
        → x.held ≡ none
        → x.input ≡ []
        → Step s (record s { senders = before ++ record x { returned = true } ∷ after })
    send :
        (before : List (Sender Obj)) (x : Sender Obj) (after : List (Sender Obj)) (e : Event Obj)
        → s.senders ≡ before ++ x ∷ after
        → x.returned ≡ false
        → x.held ≡ some e
        → Step s (record s {
          senders = before ++ record x { held = none; sent = x.sent ++ e ∷ [] } ∷ after;
          delivered = s.delivered ++ e ∷ [];
        })
    quit :
        (before : List (Sender Obj)) (x : Sender Obj) (after : List (Sender Obj)) (e : Event Obj)
        → s.senders ≡ before ++ x ∷ after
        → x.returned ≡ false
        → x.held ≡ some e
        → s.stopped ≡ true
        → Step s (record s { senders = before ++ record x { returned = true } ∷ after })
    close_result :
        All (λ (x : Sender Obj). x.returned ≡ true) s.senders
        → s.closed ≡ false
        → Step s (record s { closed = true })
    enter_stop : s.stopped ≡ false → Step s (record s { stopping = suc s.stopping })
    finish_stop :
        (n : ℕ)
        → s.stopping ≡ suc n
        → s.stopped ≡ false
        → Step s (record s { stopping = n; stopped = true })
    close_again :
        (n : ℕ)
        → s.stopping ≡ suc n
        → s.stopped ≡ true
        → Step s (record s { stopping = n; panicked = true })

  pub data Reach (s : MultiWatch Obj) : MultiWatch Obj → Type 0 where
    here : Reach s s
    later : {t u : MultiWatch Obj} → Reach s t → Step t u → Reach s u

  -- The second list is a merge of the lists of the first: it has their items, and those of each list
  -- in its order.
  pub data Merged : List (List (Event Obj)) → List (Event Obj) → Type 0 where
    none_sent :
        {streams : List (List (Event Obj))} → All (λ xs. xs ≡ []) streams → Merged streams []
    one_more :
        {streams streams' : List (List (Event Obj))} {all all' : List (Event Obj)}
        (before : List (List (Event Obj))) (xs : List (Event Obj)) (after : List (List (Event Obj)))
        (e : Event Obj)
        → Merged streams all
        → streams ≡ before ++ xs ∷ after
        → streams' ≡ before ++ (xs ++ e ∷ []) ∷ after
        → all' ≡ all ++ e ∷ []
        → Merged streams' all'
