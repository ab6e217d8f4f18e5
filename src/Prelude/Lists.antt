-- ===== src/Prelude/Lists.antt =====
-- Lists measured and indexed by native numbers, and predicates on lists by recursion.
use Prim.Native.Nat.{ℕ, zero, suc, ◌+◌, ◌<◌}
use mathlib.Core.Path.{◌≡◌, refl, ap, subst, ◌∙◌}
use mathlib.Core.Bool.{Bool, true, false}
use mathlib.Core.List.{List, [], ◌∷◌, ◌++◌, map, Permᴰ}
use mathlib.Core.Option.{Option, none, some}
use mathlib.Core.Logic.{◌⊎◌, inl, inr}
use native.Mathlib.Omega.{arith}
use kube_state_metrics.Prelude.Tests.{if◌then◌else◌}

module _ {ℓ} {A : Type ℓ} where
  abbrev pub length : List A → ℕ
  length [] = 0
  length (x ∷ xs) = suc (length xs)

  abbrev pub get_elem? : List A → ℕ → Option A
  get_elem? [] i = none
  get_elem? (x ∷ xs) zero = some x
  get_elem? (x ∷ xs) (suc i) = get_elem? xs i

  abbrev pub get_or : List A → ℕ → A → A
  get_or [] i d = d
  get_or (x ∷ xs) zero d = x
  get_or (x ∷ xs) (suc i) d = get_or xs i d

  pub get_elem?-get_or :
      (xs : List A) (i : ℕ) (d : A) → i < length xs → get_elem? xs i ≡ some (get_or xs i d)
  get_elem?-get_or [] i d h = elim h [ ]
  get_elem?-get_or (x ∷ xs) zero d h = refl
  get_elem?-get_or (x ∷ xs) (suc i) d h = get_elem?-get_or xs i d (omega arith)

  pub length-append : (xs ys : List A) → length (xs ++ ys) ≡ length xs + length ys
  length-append [] ys = omega arith
  length-append (x ∷ xs) ys = omega (arith, length-append xs ys)

  pub length-append_singleton : (xs : List A) (y : A) → length (xs ++ y ∷ []) ≡ suc (length xs)
  length-append_singleton xs y = omega (arith, length-append xs (y ∷ []))

  -- A loop that appends to its result the elements that pass a test, in order.
  abbrev pub keep_if : (A → Bool) → List A → List A
  keep_if p [] = []
  keep_if p (x ∷ xs) = let rest = keep_if p xs in if p x then x ∷ rest else rest

  abbrev pub any : (A → Bool) → List A → Bool
  any p [] = false
  any p (x ∷ xs) = let rest = any p xs in if p x then true else rest

module _ {ℓ} {A : Type ℓ} where
  pub keep_if-true :
      (p : A → Bool) (xs : List A) (i : ℕ) (x : A)
      → get_elem? (keep_if p xs) i ≡ some x
      → p x ≡ true
  keep_if-true p [] i x h = ground arith
  keep_if-true p (y ∷ xs) zero x h = ground (arith, keep_if-true p xs zero x)
  keep_if-true p (y ∷ xs) (suc i) x h =
      ground (arith, keep_if-true p xs i x, keep_if-true p xs (suc i) x)

module _ {ℓ κ} {A : Type ℓ} {B : Type κ} where
  pub length-map : (f : A → B) (xs : List A) → length (map f xs) ≡ length xs
  length-map f [] = refl
  length-map f (x ∷ xs) = ap suc (length-map f xs)

  pub get_elem?-map-some :
      (f : A → B) (xs : List A) (i : ℕ) (x : A)
      → get_elem? xs i ≡ some x
      → get_elem? (map f xs) i ≡ some (f x)
  get_elem?-map-some f [] i x h = ground arith
  get_elem?-map-some f (y ∷ xs) zero x h = ground arith
  get_elem?-map-some f (y ∷ xs) (suc i) x h = get_elem?-map-some f xs i x h

module _ {ℓ κ} {A : Type ℓ} (P : A → Type κ) where
  abbrev pub All : List A → Type κ
  All [] = Unit
  All (x ∷ xs) = P x × All xs

  pub All-append : (xs ys : List A) → All xs → All ys → All (xs ++ ys)
  All-append [] ys _ hy = hy
  All-append (x ∷ xs) ys (px, hx) hy = (px, All-append xs ys hx hy)

  pub All-unappend : (xs ys : List A) → All (xs ++ ys) → All xs × All ys
  All-unappend [] ys h = (tt, h)
  All-unappend (x ∷ xs) ys (hx, h) = let (hs, ht) = All-unappend xs ys h in ((hx, hs), ht)

  pub All-perm : {xs ys : List A} → Permᴰ xs ys → All xs → All ys
  All-perm Permᴰ.nil h = h
  All-perm (Permᴰ.cons e p) (hx, h) = (subst P e hx, All-perm p h)
  All-perm (Permᴰ.swap e e') (hx, (hy, h)) = (subst P e' hy, (subst P e hx, h))
  All-perm (Permᴰ.trans p q) h = All-perm q (All-perm p h)

module _ {ℓ} {A : Type ℓ} where
  pub any_perm : {xs ys : List A} (p : A → Bool) → Permᴰ xs ys → any p xs ≡ any p ys
  any_perm p Permᴰ.nil = refl
  any_perm p (Permᴰ.cons e q) = cc (e, any_perm p q)
  any_perm p (Permᴰ.swap {a = a} {b = b} e e') = ground (arith, ap p e, ap p e')
  any_perm p (Permᴰ.trans q r) = any_perm p q ∙ any_perm p r

pub Option-cases {ℓ} : {A : Type ℓ} (o : Option A) → (o ≡ none) ⊎ ((a : A) × (o ≡ some a))
Option-cases none = inl refl
Option-cases (some a) = inr (a, refl)

-- A pair, to the right: the proofs for the items of a list that is written out.
infixr 4 ◌⊗◌
abbrev pub ◌⊗◌ {ℓ κ} : {A : Type ℓ} {B : Type κ} → A → B → A × B
a ⊗ b = (a, b)
