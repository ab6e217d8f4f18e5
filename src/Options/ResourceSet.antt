-- ===== src/Options/ResourceSet.antt =====
-- ResourceSet: pkg/options/types.go.
use kube_state_metrics.Prelude.{
  ◌≡◌, refl, sym, ◌∙◌, ◌||◌, List, [], ◌∷◌, nat_beq, length, All, if◌then◌else◌,
}
use mathlib.Core.List.{Permᴰ}
use kube_state_metrics.Prelude.Text.{Bytes, codes, join}
use kube_state_metrics.Prelude.Assoc.{has, keys, insert}
use kube_state_metrics.Go.Strings.{split, trim_space}
use kube_state_metrics.Go.Sort.{sort_strings}
use kube_state_metrics.AllowDenyList.{StringSet}
use kube_state_metrics.Options.MetricSet
use kube_state_metrics.Options.Plain.{IsPlain}

-- (ResourceSet).AsSlice
unfoldable pub as_slice : StringSet → List Bytes
as_slice r = keys r

-- (*ResourceSet).String
unfoldable pub string : StringSet → Bytes
unfolding as_slice
string r = join (sort_strings (as_slice r)) (codes ",")

-- The loop of Set.
unfoldable pub set_parts : List Bytes → StringSet → StringSet
set_parts [] s = s
set_parts (col ∷ cols) s =
    let trimmed = trim_space col in
    set_parts cols (if nat_beq (length trimmed) 0 then s else insert trimmed tt s)

-- (*ResourceSet).Set
unfoldable pub set : Bytes → StringSet → StringSet
unfolding set_parts
set value s = set_parts (split value b',') s

-- The two sets are printed and read by the same code.
pub string-eq : (s : StringSet) → string s ≡ MetricSet.string s
unfolding string MetricSet.string
string-eq s = refl

set_parts-eq : (ps : List Bytes) (s : StringSet) → set_parts ps s ≡ MetricSet.set_parts ps s
unfolding set_parts MetricSet.set_parts
set_parts-eq [] s = refl
set_parts-eq (p ∷ ps) s =
    set_parts-eq ps (if nat_beq (length (trim_space p)) 0 then s else insert (trim_space p) tt s)

pub set-eq : (value : Bytes) (s : StringSet) → set value s ≡ MetricSet.set value s
unfolding set MetricSet.set
set-eq value s = set_parts-eq (split value b',') s

-- A set of plain names that is printed and read back by Set adds just its members to the set that
-- the flag had, and is printed alike in whatever order Go visits it.
pub set-string_adds :
    (s s' old : StringSet) (j : Bytes)
    → All IsPlain (keys s)
    → Permᴰ s s'
    → (has j (set (string s) old) ≡ (has j s || has j old)) × (string s ≡ string s')
set-string_adds s s' old j plain p = (
  rw (set-eq, string-eq) (MetricSet.has-set-string s old j plain),
  rw string-eq (MetricSet.string-perm s s' p ∙ sym (string-eq s')),
)
