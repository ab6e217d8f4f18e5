-- ===== src/Prelude/Text.antt =====
-- Text as the list of its bytes, with Go's tests on strings.
use Prim.Native.Char.{code}
use Prim.Native.String.{String}
use Prim.Native.Nat.{ℕ}
use mathlib.Core.Path.{◌≡◌, refl}
use mathlib.Core.Bool.{Bool, true, false, ◌&&◌}
use mathlib.Core.Logic.{◌≢◌, ◌↔◌}
use mathlib.Core.List.{List, [], ◌∷◌, ◌++◌}
use native.Mathlib.Omega.{arith}
use kube_state_metrics.Prelude.Tests.{nat_beq}
use kube_state_metrics.Prelude.Lists.{All}

abbrev pub Bytes : Type 0
Bytes = List ℕ

-- The code points of a literal: its bytes, since the program's literals are ASCII.
abbrev pub codes : String → Bytes
codes String.[] = []
codes (String.◌∷◌ c s) = code c ∷ codes s

infix 50 ◌==◌
unfoldable pub ◌==◌ : Bytes → Bytes → Bool
[] == [] = true
[] == (d ∷ t) = false
(c ∷ s) == [] = false
(c ∷ s) == (d ∷ t) = nat_beq c d && s == t

pub eq→path : (s t : Bytes) → (s == t) ≡ true → s ≡ t
unfolding ◌==◌
eq→path [] [] h = refl
eq→path [] (d ∷ t) h = cc
eq→path (c ∷ s) [] h = cc
eq→path (c ∷ s) (d ∷ t) h = ground (arith, eq→path s t)

pub eq_refl : (s : Bytes) → (s == s) ≡ true
unfolding ◌==◌
eq_refl [] = refl
eq_refl (c ∷ s) = ground (arith, eq_refl s)

pub eq_iff : (s t : Bytes) → ((s == t) ≡ true) ↔ (s ≡ t)
eq_iff s t = (eq→path s t, λ p. rw p (eq_refl t))

-- A test that fails at equal texts is absurd.
pub ne_of_eq-false : (s t : Bytes) → (s == t) ≡ false → s ≢ t
ne_of_eq-false s t h p = cc (h, (eq_iff s t).1 p)

abbrev pub Lacks : ℕ → Bytes → Type 0
Lacks b = All (λ c. c ≢ b)

-- strings.Join
unfoldable pub join_rest : List Bytes → Bytes → Bytes
join_rest [] sep = []
join_rest (p ∷ ps) sep = sep ++ (p ++ join_rest ps sep)

unfoldable pub join : List Bytes → Bytes → Bytes
unfolding join_rest
join [] sep = []
join (p ∷ ps) sep = p ++ join_rest ps sep
