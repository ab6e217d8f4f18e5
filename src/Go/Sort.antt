-- ===== src/Go/Sort.antt =====
-- The order of Go's strings, and sort.Strings. Any sort gives the same list, since texts that are
-- equal in the order are the same: it is modelled by insertion.
use mathlib.Core.List.{Permᴰ}
use mathlib.Core.List.Permᴰ
use kube_state_metrics.Prelude.{
  ◌≡◌, refl, ◌∙◌, Bool, true, false, List, [], ◌∷◌, arith, ltb, if◌then◌else◌, All, All-perm,
  Bool-cases, inl, inr,
}
use kube_state_metrics.Prelude.Text.{Bytes}

-- s <= t
unfoldable pub le : Bytes → Bytes → Bool
le [] t = true
le (c ∷ s) [] = false
le (c ∷ s) (d ∷ t) = let rest = le s t in if ltb c d then true else if ltb d c then false else rest

unfoldable pub insert : Bytes → List Bytes → List Bytes
insert x [] = x ∷ []
insert x (y ∷ l) = let rest = insert x l in if le x y then x ∷ y ∷ l else y ∷ rest

-- sort.Strings
unfoldable pub sort_strings : List Bytes → List Bytes
unfolding insert
sort_strings [] = []
sort_strings (x ∷ l) = insert x (sort_strings l)

le_total : (s t : Bytes) → le s t ≡ false → le t s ≡ true
unfolding le
le_total [] t h = cc
le_total (c ∷ s) [] h = refl
le_total (c ∷ s) (d ∷ t) h = ground (arith, le_total s t)

le_antisymm : (s t : Bytes) → le s t ≡ true → le t s ≡ true → s ≡ t
unfolding le
le_antisymm [] [] h k = refl
le_antisymm [] (d ∷ t) h k = cc
le_antisymm (c ∷ s) [] h k = cc
le_antisymm (c ∷ s) (d ∷ t) h k = ground (arith, le_antisymm s t)

le_trans : (s t u : Bytes) → le s t ≡ true → le t u ≡ true → le s u ≡ true
unfolding le
le_trans [] t u h k = refl
le_trans (c ∷ s) [] u h k = cc
le_trans (c ∷ s) (d ∷ t) [] h k = cc
le_trans (c ∷ s) (d ∷ t) (e ∷ u) h k = ground (arith, le_trans s t u)

insert_comm : (x y : Bytes) (l : List Bytes) → insert x (insert y l) ≡ insert y (insert x l)
unfolding insert
insert_comm x y [] = ground (arith, le_total x y, le_total y x, le_antisymm x y)
insert_comm x y (z ∷ l) = ground (
  arith,
  insert_comm x y l,
  le_total x y,
  le_total y x,
  le_antisymm x y,
  le_trans x y z,
  le_trans y x z,
)

-- The sorted list does not depend on the order of the list before.
pub sort_strings-perm : {xs ys : List Bytes} → Permᴰ xs ys → sort_strings xs ≡ sort_strings ys
unfolding sort_strings
sort_strings-perm Permᴰ.nil = refl
sort_strings-perm (Permᴰ.cons e p) = cc (e, sort_strings-perm p)
sort_strings-perm (Permᴰ.swap {a = a} {b = b} {l = l} e e') =
    cc (e, e', insert_comm a b (sort_strings l))
sort_strings-perm (Permᴰ.trans p q) = sort_strings-perm p ∙ sort_strings-perm q

pub insert-perm : (x : Bytes) (l : List Bytes) → Permᴰ (x ∷ l) (insert x l)
unfolding insert
insert-perm x [] = Permᴰ.cons refl Permᴰ.nil
insert-perm x (y ∷ l) = elim (Bool-cases (le x y)) [
  | inl first ↦ rw first (Permᴰ.refl (x ∷ y ∷ l))
  | inr later ↦ rw later (Permᴰ.trans (Permᴰ.swap refl refl) (Permᴰ.cons refl (insert-perm x l)))
]

-- Sorting loses and adds nothing.
pub perm-sort_strings : (l : List Bytes) → Permᴰ l (sort_strings l)
unfolding sort_strings
perm-sort_strings [] = Permᴰ.nil
perm-sort_strings (x ∷ l) =
    Permᴰ.trans (Permᴰ.cons refl (perm-sort_strings l)) (insert-perm x (sort_strings l))

-- Each text is at most all behind it.
abbrev pub IsSorted : List Bytes → Type 0
IsSorted [] = Unit
IsSorted (x ∷ l) = All (λ y. le x y ≡ true) l × IsSorted l

All-le :
    (x y : Bytes) (l : List Bytes)
    → le x y ≡ true
    → All (λ z. le y z ≡ true) l
    → All (λ z. le x z ≡ true) l
All-le x y [] h all = tt
All-le x y (z ∷ l) h (hz, all) = (le_trans x y z h hz, All-le x y l h all)

insert-IsSorted : (x : Bytes) (l : List Bytes) → IsSorted l → IsSorted (insert x l)
unfolding insert
insert-IsSorted x [] h = (tt, tt)
insert-IsSorted x (y ∷ l) (hy, h) = elim (Bool-cases (le x y)) [
  | inl first ↦ rw first ((first, All-le x y l first hy), (hy, h))
  | inr later ↦ rw later (
    All-perm (λ z. le y z ≡ true) (insert-perm x l) (le_total x y later, hy),
    insert-IsSorted x l h,
  )
]

pub sort_strings-IsSorted : (l : List Bytes) → IsSorted (sort_strings l)
unfolding sort_strings
sort_strings-IsSorted [] = tt
sort_strings-IsSorted (x ∷ l) = insert-IsSorted x (sort_strings l) (sort_strings-IsSorted l)
