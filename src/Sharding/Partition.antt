-- ===== src/Sharding/Partition.antt =====
-- Each object belongs to exactly one shard; a list that is cut by such a test loses nothing.
use mathlib.Core.List.{Permᴰ}
use mathlib.Core.List.Permᴰ
use kube_state_metrics.Prelude.{
  ℕ, zero, suc, ◌^◌, ◌≤◌, ◌<◌, ◌≡◌, refl, sym, ap, ◌∙◌, ◌↔◌, inl, inr, Bool, true, false, List, [],
  ◌∷◌, ◌++◌, arith, nat_beq, keep_if, All, Bool-cases,
}
use kube_state_metrics.Prelude.Int.{ℤ, pos, int_beq_iff}
use kube_state_metrics.Api.{ObjectMeta}
use kube_state_metrics.Sharding.{Jump, JumpLaws, keep, fnv64a, offset64}

-- For 1 up to 2^31 shards, every object has one shard number, below their number, and a shard
-- keeps the object exactly if it has that number.
pub keep_exactly_one :
    (jump : Jump) (laws : JumpLaws jump) (n : ℕ) (o : ObjectMeta)
    → 0 < n
    → n ≤ 2 ^ 31
    → (k : ℕ) × (k < n)
      × ((shard : ℤ)
          → (keep jump (record { shard = shard; total_shards = pos n }) o ≡ true) ↔ (shard ≡ pos k))
unfolding keep
keep_exactly_one jump laws n o h fits =
    let (k, e, below) = laws.bucket (fnv64a offset64 o.uid) n h fits in
    (
      k,
      below,
      λ shard.
          rw e (
            λ q. sym ((int_beq_iff (pos k) shard).0 q),
            λ q. (int_beq_iff (pos k) shard).1 (sym q),
          ),
    )

module _ {A : Type 0} (p : ℕ → A → Bool) where
  -- The parts of a list that the first `n` tests keep, one after the other.
  pub parts : ℕ → List A → List A
  parts zero xs = []
  parts (suc n) xs = parts n xs ++ keep_if (p n) xs

  -- `x` passes the test of number `b` alone.
  abbrev pub OnlyAt : A → ℕ → Type 0
  OnlyAt x b = (k : ℕ) → p k x ≡ nat_beq b k

  parts_above : (x : A) (b n : ℕ) (xs : List A) → OnlyAt x b → n ≤ b → parts n (x ∷ xs) ≡ parts n xs
  unfolding parts
  parts_above x b zero xs only h = refl
  parts_above x b (suc n) xs only h =
      let fails : p n x ≡ false = only n ∙ (ground arith) in
      rw fails (ap (λ l. l ++ keep_if (p n) xs) (parts_above x b n xs only (omega arith)))

  parts_cons :
      (x : A) (b n : ℕ) (xs : List A)
      → OnlyAt x b
      → b < n
      → Permᴰ (x ∷ parts n xs) (parts n (x ∷ xs))
  unfolding parts
  parts_cons x b zero xs only h = absurd (omega arith)
  parts_cons x b (suc n) xs only h = elim (Bool-cases (nat_beq b n)) [
    | inl here ↦
        rw (only n ∙ here, parts_above x b n xs only (ground arith))
          (Permᴰ.symm (Permᴰ.middle x (parts n xs) (keep_if (p n) xs)))
    | inr before ↦
        rw (only n ∙ before)
          (Permᴰ.append_right (keep_if (p n) xs) (parts_cons x b n xs only (ground arith)))
  ]

  parts_nil : (n : ℕ) → Permᴰ [] (parts n [])
  unfolding parts
  parts_nil zero = Permᴰ.nil
  parts_nil (suc n) = Permᴰ.append_right [] (parts_nil n)

  pub parts_perm :
      (n : ℕ) (xs : List A) → All (λ x. (b : ℕ) × (b < n) × OnlyAt x b) xs → Permᴰ xs (parts n xs)
  parts_perm n [] h = parts_nil n
  parts_perm n (x ∷ xs) ((b, below, only), h) =
      Permᴰ.trans (Permᴰ.cons refl (parts_perm n xs h)) (parts_cons x b n xs only below)
