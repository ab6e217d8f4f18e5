-- ===== src/MetricsStore.antt =====
-- The store of rendered metrics: pkg/metrics_store/metrics_store.go. Each method takes the state and
-- returns the new one beside its result; the lock makes each call (each Add of a Replace) one step.
-- Go iterates over a map in an order that it chooses anew for each loop: WriteAll takes it as an
-- argument. An `io.Writer` is the list of the chunks written to it, since WriteAll ignores errors.
pub mod Operations
pub mod Refinement
pub mod Entries
pub mod Exposed
pub mod Zipped
pub mod WriteOrder
pub mod Tests
use kube_state_metrics.Prelude.{
  ℕ, suc, inl, inr, Bool, false, Option, none, some, List, [], ◌∷◌, ◌++◌, get_elem?,
}
use kube_state_metrics.Prelude.Text.{Bytes}
use kube_state_metrics.Prelude.Assoc
use kube_state_metrics.Prelude.Assoc.{Map}
use kube_state_metrics.Prelude.Result.{Result, ok, err, panic, ◌>>=◌}
use kube_state_metrics.Api.{Accessor, ObjectMeta, Try}
use kube_state_metrics.Metric.{Float64, Family, byte_slice, newline}

pub record MetricsStore (F Obj : Type 0) : Type 0 where
  pub metrics : Map (List Bytes)
  pub headers : List Bytes
  pub generate_metrics_func : Obj → Result (List (Family F))

-- The order in which the i-th loop over a map visits its entries.
abbrev pub Iteration : Type 0
Iteration = ℕ → Map (List Bytes) → Map (List Bytes)

-- NewMetricsStore
unfoldable pub new_metrics_store :
    {F Obj : Type 0} → List Bytes → (Obj → Result (List (Family F))) → MetricsStore F Obj
new_metrics_store headers generate_func = record {
  metrics = [];
  headers = headers;
  generate_metrics_func = generate_func;
}

module _ (fl : Float64) where
  open fl use {F}

  -- The loop of Add over the families.
  unfoldable pub family_strings : List (Family F) → Result (List Bytes)
  family_strings [] = ok []
  family_strings (f ∷ families) = do
    b ← byte_slice fl f
    rest ← family_strings families
    ok (b ∷ rest)

module _ (fl : Float64) {Obj : Type 0} (accessor : Accessor Obj) where
  open fl use {F}

  abbrev Store : Type 0
  Store = MetricsStore F Obj

  -- Add's assignment, which a panic before it, in a generator or the loop, does not reach.
  assign : Bytes → Result (List Bytes) → Store → Result (Unit {0}) × Store
  assign uid (ok strings) s = (ok tt, record s { metrics = Assoc.insert uid strings s.metrics })
  assign uid (err e) s = (err e, s)
  assign uid panic s = (panic, s)

  add_object : Try ObjectMeta → Obj → Store → Result (Unit {0}) × Store
  add_object (inl e) obj s = (err e, s)
  add_object (inr o) obj s = assign o.uid (s.generate_metrics_func obj >>= family_strings fl) s

  -- (*MetricsStore).Add
  unfoldable pub add : Obj → Store → Result (Unit {0}) × Store
  unfolding assign add_object
  add obj s = add_object (accessor obj) obj s

  -- (*MetricsStore).Update
  unfoldable pub update : Obj → Store → Result (Unit {0}) × Store
  unfolding add
  update obj s = add obj s

  delete_object : Try ObjectMeta → Store → Result (Unit {0}) × Store
  delete_object (inl e) s = (err e, s)
  delete_object (inr o) s = (ok tt, record s { metrics = Assoc.delete o.uid s.metrics })

  -- (*MetricsStore).Delete
  unfoldable pub delete : Obj → Store → Result (Unit {0}) × Store
  unfolding delete_object
  delete obj s = delete_object (accessor obj) s

  -- Replace's loop goes on only from an Add that returned no error.
  after_add :
      Result (Unit {0}) × Store → (Store → Result (Unit {0}) × Store) → Result (Unit {0}) × Store
  after_add (ok _, s) rest = rest s
  after_add (err e, s) rest = (err e, s)
  after_add (panic, s) rest = (panic, s)

  add_all : List Obj → Store → Result (Unit {0}) × Store
  unfolding add after_add
  add_all [] s = (ok tt, s)
  add_all (o ∷ list) s = after_add (add o s) (add_all list)

  -- (*MetricsStore).Replace
  unfoldable pub replace : List Obj → Store → Result (Unit {0}) × Store
  unfolding add_all
  replace list s = add_all list (record s { metrics = [] })

-- The inner loop of WriteAll: the i-th family of every object; a missing one is out of range.
write_families : ℕ → Map (List Bytes) → List Bytes → Result (List Bytes)
write_families i [] w = ok w
write_families i ((uid, metric_families) ∷ rest) w = elim (get_elem? metric_families i) [
  | none ↦ panic
  | some b ↦ write_families i rest (w ++ b ∷ [])
]

write_headers : Iteration → Map (List Bytes) → ℕ → List Bytes → List Bytes → Result (List Bytes)
write_headers order metrics i [] w = ok w
write_headers order metrics i (help ∷ headers) w = do
  w' ← write_families i (order i metrics) (w ++ help ∷ (newline ∷ []) ∷ [])
  write_headers order metrics (suc i) headers w'

module _ {F Obj : Type 0} where
  -- List, ListKeys, Get, GetByKey and Resync: the store keeps no objects to return.
  unfoldable pub list : MetricsStore F Obj → List Obj
  list s = []

  unfoldable pub list_keys : MetricsStore F Obj → List Bytes
  list_keys s = []

  unfoldable pub get : Obj → MetricsStore F Obj → Option Obj × Bool
  get obj s = (none, false)

  unfoldable pub get_by_key : Bytes → MetricsStore F Obj → Option Obj × Bool
  get_by_key key s = (none, false)

  unfoldable pub resync : MetricsStore F Obj → Result (Unit {0}) × MetricsStore F Obj
  resync s = (ok tt, s)

  -- (*MetricsStore).WriteAll
  unfoldable pub write_all : Iteration → MetricsStore F Obj → List Bytes → Result (List Bytes)
  unfolding write_families write_headers
  write_all order s w = write_headers order s.metrics 0 s.headers w
