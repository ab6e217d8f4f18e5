-- ===== src/Options/NamespaceList.antt =====
-- NamespaceList: pkg/options/types.go.
use kube_state_metrics.Prelude.{
  ◌≡◌, ◌≢◌, refl, sym, ap, ◌∙◌, Bool, false, List, [], ◌∷◌, ◌++◌, append-nil, append_assoc, arith,
  nat_beq, length, All, All-append, if◌then◌else◌, Bool-cases, inl, inr,
}
use kube_state_metrics.Prelude.Text.{Bytes, codes, ◌==◌, eq_iff, join}
use kube_state_metrics.Go.Strings.{split, trim_space}
use kube_state_metrics.Options.Plain.{IsPlain, split_plain, trim_plain, length_plain}

-- metav1.NamespaceAll
abbrev pub namespace_all : Bytes
namespace_all = []

-- (*NamespaceList).String
unfoldable pub string : List Bytes → Bytes
string n = join n (codes ",")

-- (*NamespaceList).IsAllNamespaces
unfoldable pub is_all_namespaces : List Bytes → Bool
is_all_namespaces [] = false
is_all_namespaces (ns ∷ []) = ns == namespace_all
is_all_namespaces (ns ∷ ns' ∷ n) = false

-- The loop of Set.
unfoldable pub set_parts : List Bytes → List Bytes → List Bytes
set_parts [] n = n
set_parts (ns ∷ namespaces) n =
    let trimmed = trim_space ns in
    set_parts namespaces (if nat_beq (length trimmed) 0 then n else n ++ trimmed ∷ [])

-- (*NamespaceList).Set
unfoldable pub set : Bytes → List Bytes → List Bytes
unfolding set_parts
set value n = set_parts (split value b',') n

set_parts_plain : (ps n : List Bytes) → All IsPlain ps → set_parts ps n ≡ n ++ ps
unfolding set_parts
set_parts_plain [] n h = sym (append-nil n)
set_parts_plain (p ∷ ps) n (h, hs) =
    rw (trim_plain p h, length_plain p h)
      (set_parts_plain ps (n ++ p ∷ []) hs ∙ append_assoc n (p ∷ []) ps)

-- A list of plain names that is printed and read back by Set is appended, in order, to the list
-- that the flag had.
pub set-string_appends : (ns old : List Bytes) → All IsPlain ns → set (string ns) old ≡ old ++ ns
unfolding set string
set-string_appends [] old h = unfold set_parts split trim_space join in sym (append-nil old)
set-string_appends (p ∷ ps) old h = rw (split_plain p ps h) (set_parts_plain (p ∷ ps) old h)

set_parts_filled : (ps n : List Bytes) → All (λ p. p ≢ []) n → All (λ p. p ≢ []) (set_parts ps n)
unfolding set_parts
set_parts_filled [] n h = h
set_parts_filled (p ∷ ps) n h = elim (Bool-cases (nat_beq (length (trim_space p)) 0)) [
  | inl blank ↦ rw blank (set_parts_filled ps n h)
  | inr filled ↦ rw filled (
      set_parts_filled ps (n ++ trim_space p ∷ [])
        (All-append (λ q. q ≢ []) n (trim_space p ∷ []) h (not_empty (trim_space p) filled, tt)))
]
  where
    not_empty : (q : Bytes) → nat_beq (length q) 0 ≡ false → q ≢ []
    not_empty q h e = ground (arith, ap length e)

-- Whatever value Set is given, the namespaces of a flag that had none are never empty texts, so
-- IsAllNamespaces does not hold of them: all namespaces are selected by default only.
pub is_all_namespaces-set :
    (value : Bytes) → All (λ p. p ≢ []) (set value []) × (is_all_namespaces (set value []) ≡ false)
unfolding set
is_all_namespaces-set value =
    let filled = set_parts_filled (split value b',') [] tt in
    (filled, not_all (set_parts (split value b',') []) filled)
  where
    not_all : (n : List Bytes) → All (λ p. p ≢ []) n → is_all_namespaces n ≡ false
    not_all [] h = unfold is_all_namespaces in refl
    not_all (p ∷ []) (h, _) = unfold is_all_namespaces in ground (arith, eq_iff p [])
    not_all (p ∷ q ∷ n) h = unfold is_all_namespaces in refl
