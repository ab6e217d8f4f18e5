-- ===== src/Prelude/Assoc.antt =====
-- Go's map with string keys, as a list of its entries. Code that iterates over a map takes the
-- order of this list; the theorems about it say where the order matters.
use mathlib.Core.Path.{◌≡◌, refl, ap}
use mathlib.Core.Bool.{Bool, true, false, not, ◌&&◌, ◌||◌}
use mathlib.Core.Logic.{inl, inr}
use mathlib.Core.Option.{Option, none, some}
use mathlib.Core.List.{List, [], ◌∷◌, Permᴰ}
use native.Mathlib.Omega.{arith}
use kube_state_metrics.Prelude.Tests.{if◌then◌else◌, Bool-cases}
use kube_state_metrics.Prelude.Lists.{All, any}
use kube_state_metrics.Prelude.Text.{Bytes, ◌==◌, eq_iff, eq_refl}

abbrev pub Map {ℓ} : Type ℓ → Type ℓ
Map V = List (Bytes × V)

module _ {ℓ} {V : Type ℓ} where
  -- The keys that a loop over the map visits, in its order.
  abbrev pub keys : Map V → List Bytes
  keys [] = []
  keys ((k, v) ∷ m) = k ∷ keys m

  -- m[k]
  unfoldable pub lookup : Bytes → Map V → Option V
  lookup k [] = none
  lookup k ((j, v) ∷ m) = if j == k then some v else lookup k m

  -- _, ok := m[k]
  abbrev pub has : Bytes → Map V → Bool
  has k m = elim (lookup k m) [ none ↦ false | some v ↦ true ]

  -- delete(m, k)
  unfoldable pub delete : Bytes → Map V → Map V
  delete k [] = []
  delete k ((j, v) ∷ m) = let rest = delete k m in if j == k then rest else (j, v) ∷ rest

  -- m[k] = v
  unfoldable pub insert : Bytes → V → Map V → Map V
  insert k v m = (k, v) ∷ delete k m

  pub lookup-delete :
      (k j : Bytes) (m : Map V) → lookup j (delete k m) ≡ (if k == j then none else lookup j m)
  unfolding lookup delete
  lookup-delete k j [] = ground arith
  lookup-delete k j ((i, v) ∷ m) =
      ground (arith, lookup-delete k j m, eq_iff i k, eq_iff i j, eq_iff k j)

  pub lookup-insert :
      (k j : Bytes) (v : V) (m : Map V)
      → lookup j (insert k v m) ≡ (if k == j then some v else lookup j m)
  unfolding lookup insert
  lookup-insert k j v m = ground (arith, lookup-delete k j m)

module _ {ℓ κ} {V : Type ℓ} (P : Bytes × V → Type κ) where
  pub All-delete : (k : Bytes) (m : Map V) → All P m → All P (delete k m)
  unfolding delete
  All-delete k [] h = tt
  All-delete k ((j, v) ∷ m) (p, h) =
      elim (j == k) as (λ b. All P (if b then delete k m else (j, v) ∷ delete k m)) [
        | true ↦ All-delete k m h
        | false ↦ (p, All-delete k m h)
      ]

module _ {ℓ} {V : Type ℓ} where
  pub has-insert : (k j : Bytes) (v : V) (m : Map V) → has j (insert k v m) ≡ (k == j || has j m)
  has-insert k j v m = ground (arith, lookup-insert k j v m)

  pub has-delete : (k j : Bytes) (m : Map V) → has j (delete k m) ≡ (not (k == j) && has j m)
  has-delete k j m = ground (arith, lookup-delete k j m)

  -- A test passes at a key that the loop visits exactly if it passes at a key that the map has.
  pub any-keys :
      (p : Bytes → Bool) (m : Map V)
      → any p (keys m) ≡ true
      → (k : Bytes) × (has k m ≡ true) × (p k ≡ true)
  unfolding lookup
  any-keys p [] h = cc
  any-keys p ((j, v) ∷ m) h = elim (Bool-cases (p j)) [
    | inl passes ↦ (j, ground (arith, eq_refl j), passes)
    | inr fails ↦ let (k, there, passes) = any-keys p m (rw fails at h) in (k, ground arith, passes)
  ]

  pub any-keys_of_has :
      (p : Bytes → Bool) (m : Map V) (k : Bytes)
      → has k m ≡ true
      → p k ≡ true
      → any p (keys m) ≡ true
  unfolding lookup
  any-keys_of_has p [] k h passes = cc
  any-keys_of_has p ((j, v) ∷ m) k h passes = ground (arith, eq_iff j k, any-keys_of_has p m k)

module _ {ℓ} {V : Type ℓ} where
  -- A map has the keys that a loop visits.
  pub has-keys : (j : Bytes) (m : Map V) → has j m ≡ any (λ k. k == j) (keys m)
  unfolding lookup
  has-keys j [] = refl
  has-keys j ((k, v) ∷ m) = ground (arith, has-keys j m)

  pub keys-perm : {m m' : Map V} → Permᴰ m m' → Permᴰ (keys m) (keys m')
  keys-perm Permᴰ.nil = Permᴰ.nil
  keys-perm (Permᴰ.cons e p) = Permᴰ.cons (ap (λ q. q.0) e) (keys-perm p)
  keys-perm (Permᴰ.swap e e') = Permᴰ.swap (ap (λ q. q.0) e) (ap (λ q. q.0) e')
  keys-perm (Permᴰ.trans p q) = Permᴰ.trans (keys-perm p) (keys-perm q)

  pub lookup_of_has : (k : Bytes) (m : Map V) → has k m ≡ true → (v : V) × (lookup k m ≡ some v)
  lookup_of_has k m h = found (lookup k m) h
    where
      found :
          (o : Option V) → (elim o [ none ↦ false | some v ↦ true ]) ≡ true → (v : V) × (o ≡ some v)
      found none h = cc
      found (some v) h = (v, refl)
