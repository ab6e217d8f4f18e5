-- ===== src/Sharding/Tests.antt =====
-- Shards of a small list, with a hash that takes the remainder.
use kube_state_metrics.Prelude.{
  ℕ, ◌%◌, ◌<◌, ◌≡◌, refl, ◌↔◌, inl, inr, true, false, Option, none, some, List, [], ◌∷◌, arith,
  keep_if,
}
use kube_state_metrics.Prelude.Text.{Bytes, codes}
use kube_state_metrics.Prelude.Int.{ℤ, pos, negsuc, int_beq}
use kube_state_metrics.Api.{
  ObjectMeta, Accessor, ListOptions, ObjectList, metav1_list, Event, WatchPackage, WatchLaws,
  ListerWatcher, kept,
}
use kube_state_metrics.Sharding.{Jump, JumpLaws, fnv64a, offset64, keep, list}
use kube_state_metrics.Sharding.Partition.{keep_exactly_one}
use kube_state_metrics.Sharding.Lists.{keeps, numbered, list_forgets_version}

abbrev pub modulo : Jump
modulo h (pos n) = pos (h % n)
modulo h (negsuc n) = pos 0

pub modulo_laws : JumpLaws modulo
modulo_laws = record { bucket = λ h n positive fits. (h % n, refl, omega arith) }

-- The test vectors of FNV-1a.
fnv_vectors :
    (fnv64a offset64 [] ≡ 0xcbf29ce484222325)
    × (fnv64a offset64 (codes "a") ≡ 0xaf63dc4c8601ec8c)
    × (fnv64a offset64 (codes "foobar") ≡ 0x85944171f73967e8)
unfolding fnv64a
fnv_vectors = (refl, refl, refl)

abbrev pub Obj : Type 0
Obj = Option ObjectMeta

abbrev pub accessor : Accessor Obj
accessor none = inl (codes "object does not implement the Object interfaces")
accessor (some m) = inr m

abbrev meta : Bytes → ObjectMeta
meta uid = record { uid = uid; name = []; namespace = []; is_namespace = false }

abbrev items : List Obj
items = some (meta (codes "a")) ∷ some (meta (codes "b")) ∷ some (meta (codes "c")) ∷ []

-- A stream is the list of its events.
abbrev pub streams : WatchPackage Obj
streams = record { Watch = List (Event Obj); events = λ w. w; filter = λ w f. kept f w }

pub streams_laws : WatchLaws streams
streams_laws = record { events-filter = λ w f. refl }

abbrev stream : List (Event Obj)
stream =
    record { type = codes "ADDED"; object = some (meta (codes "a")) }
    ∷ record { type = codes "ERROR"; object = none }
    ∷ []

abbrev source : ListerWatcher Obj (List (Event Obj))
source = record {
  list = λ options. inr (metav1_list items (codes "42"));
  watch = λ options. inr stream;
}

abbrev options : ListOptions
options = record { resource_version = []; field_selector = [] }

keep_exactly_one_example :
    (k : ℕ) × (k < 3)
    × ((shard : ℤ)
        → (keep modulo (record { shard = shard; total_shards = pos 3 }) (meta (codes "a")) ≡ true)
          ↔ (shard ≡ pos k))
keep_exactly_one_example =
    keep_exactly_one modulo modulo_laws 3 (meta (codes "a")) (omega arith) (omega arith)

abbrev shard_0 : ObjectList Obj
shard_0 = metav1_list (keep_if (keeps modulo accessor (numbered modulo accessor 3 0)) items) []

shard_0_listed : list modulo accessor (numbered modulo accessor 3 0) source options ≡ inr shard_0
unfolding list fnv64a keep int_beq
shard_0_listed = refl

list_forgets_version_example : shard_0.list_accessor ≡ inr []
list_forgets_version_example =
    list_forgets_version modulo accessor (numbered modulo accessor 3 0) source options shard_0
      shard_0_listed
