-- ===== src/Sharding.antt =====
-- Horizontal sharding: pkg/sharding/listwatch.go. FNV-1a is Go's `hash/fnv`, over 64-bit words; the
-- jump hash (github.com/dgryski/go-jump) is a parameter, and so are the client's lists and watches.
pub mod Partition
pub mod Lists
pub mod Tests
use Prim.Native.Nat.{bit_xor}
use kube_state_metrics.Prelude.{
  ℕ, ◌*◌, ◌%◌, ◌^◌, ◌≤◌, ◌<◌, ◌≡◌, inl, inr, Bool, true, ◌&&◌, List, [], ◌∷◌, ◌++◌, if◌then◌else◌,
}
use kube_state_metrics.Prelude.Text.{Bytes}
use kube_state_metrics.Prelude.Int.{ℤ, pos, int_beq}
use kube_state_metrics.Api.{
  Try, ObjectMeta, Accessor, ListOptions, ObjectList, metav1_list, Event, WatchPackage,
  ListerWatcher,
}

-- jump.Hash(key, buckets)
abbrev pub Jump : Type 0
Jump = ℕ → ℤ → ℤ

-- It returns one of the buckets, for as many buckets as an int32 can number.
pub record JumpLaws (jump : Jump) : Type 0 where
  pub bucket : (h n : ℕ) → 0 < n → n ≤ 2 ^ 31 → (k : ℕ) × (jump h (pos n) ≡ pos k) × (k < n)

-- fnv.New64a, and the loop of its Write.
unfoldable pub fnv64a : ℕ → Bytes → ℕ
fnv64a hash [] = hash
fnv64a hash (c ∷ data') = fnv64a ((bit_xor hash c * 1099511628211) % 2 ^ 64) data'

abbrev pub offset64 : ℕ
offset64 = 14695981039346656037

pub record Sharding : Type 0 where
  pub shard : ℤ
  pub total_shards : ℤ

module _ (jump : Jump) where
  -- (*sharding).keep
  unfoldable pub keep : Sharding → ObjectMeta → Bool
  unfolding fnv64a
  keep s o = int_beq (jump (fnv64a offset64 o.uid) s.total_shards) s.shard

  module _ {Obj : Type 0} (accessor : Accessor Obj) where
    -- The loop of List.
    list_items : Sharding → List Obj → List Obj → Try (List Obj)
    list_items s items [] = inr items
    list_items s items (item ∷ rest) = elim (accessor item) [
      | inl e ↦ inl e
      | inr a ↦ list_items s (if keep s a then items ++ item ∷ [] else items) rest
    ]

    -- The `metav1.List` that List builds has no resource version.
    listed : Try (List Obj) → Try (ObjectList Obj)
    listed (inl e) = inl e
    listed (inr items) = inr (metav1_list items [])

    -- (*shardedListWatch).List
    unfoldable pub list :
        {Watch : Type 0} → Sharding → ListerWatcher Obj Watch → ListOptions → Try (ObjectList Obj)
    unfolding list_items listed
    list s lw options = elim (lw.list options) [
      | inl e ↦ inl e
      | inr l ↦ elim l.extract_list [ inl e ↦ inl e | inr items ↦ listed (list_items s [] items) ]
    ]

    -- The function that Watch filters by: what is no object is kept.
    unfoldable pub watch_filter : Sharding → Event Obj → Event Obj × Bool
    watch_filter s in' = elim (accessor in'.object) [
      | inl e ↦ (in', true)
      | inr a ↦ (in', keep s a)
    ]

    module _ (wp : WatchPackage Obj) where
      -- (*shardedListWatch).Watch
      unfoldable pub watch : Sharding → ListerWatcher Obj wp.Watch → ListOptions → Try wp.Watch
      unfolding watch_filter
      watch s lw options = elim (lw.watch options) [
        | inl e ↦ inl e
        | inr w ↦ inr (wp.filter w (watch_filter s))
      ]

      -- NewShardedListWatch
      unfoldable pub new_sharded_list_watch :
          ℤ → ℤ → ListerWatcher Obj wp.Watch → ListerWatcher Obj wp.Watch
      unfolding list watch
      new_sharded_list_watch shard total_shards lw =
          let s : Sharding = record { shard = shard; total_shards = total_shards } in
          if int_beq shard (pos 0) && int_beq total_shards (pos 1)
          then lw
          else record { list = list s lw; watch = watch s lw }
