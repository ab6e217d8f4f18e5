-- ===== src/Options/MetricSet.antt =====
-- MetricSet: pkg/options/types.go.
use kube_state_metrics.Prelude.{
  ◌≡◌, refl, sym, ap, ◌∙◌, ◌||◌, List, [], ◌∷◌, arith, nat_beq, length, any_perm, All, All-perm,
  if◌then◌else◌,
}
use mathlib.Core.List.{Permᴰ}
use kube_state_metrics.Prelude.Text.{Bytes, codes, ◌==◌, join}
use kube_state_metrics.Prelude.Assoc.{has, keys, insert, has-insert, has-keys, keys-perm}
use kube_state_metrics.Go.Strings.{split, trim_space}
use kube_state_metrics.Go.Sort.{sort_strings, sort_strings-perm, perm-sort_strings}
use kube_state_metrics.AllowDenyList.{StringSet}
use kube_state_metrics.AllowDenyList.Sets.{member}
use kube_state_metrics.Options.Plain.{IsPlain, split_plain, trim_plain, length_plain}

-- (MetricSet).asSlice
unfoldable pub as_slice : StringSet → List Bytes
as_slice ms = keys ms

-- (*MetricSet).String
unfoldable pub string : StringSet → Bytes
unfolding as_slice
string ms = join (sort_strings (as_slice ms)) (codes ",")

-- The loop of Set.
unfoldable pub set_parts : List Bytes → StringSet → StringSet
set_parts [] s = s
set_parts (metric ∷ metrics) s =
    let trimmed = trim_space metric in
    set_parts metrics (if nat_beq (length trimmed) 0 then s else insert trimmed tt s)

-- (*MetricSet).Set
unfoldable pub set : Bytes → StringSet → StringSet
unfolding set_parts
set value s = set_parts (split value b',') s

-- String prints the same text whatever the order in which Go visits the set.
pub string-perm : (s s' : StringSet) → Permᴰ s s' → string s ≡ string s'
unfolding string
string-perm s s' p = ap (λ l. join l (codes ",")) (sort_strings-perm (keys-perm p))

set_parts_plain :
    (ps : List Bytes) (s : StringSet) (j : Bytes)
    → All IsPlain ps
    → has j (set_parts ps s) ≡ (member j ps || has j s)
unfolding set_parts
set_parts_plain [] s j h = refl
set_parts_plain (p ∷ ps) s j (h, hs) =
    rw (trim_plain p h, length_plain p h)
      (ground (arith, set_parts_plain ps (insert p tt s) j hs, has-insert p j tt s))

set_joined :
    (l : List Bytes)
    → All IsPlain l
    → (s : StringSet) (j : Bytes) → has j (set (join l (codes ",")) s) ≡ (member j l || has j s)
unfolding set
set_joined [] h s j = unfold set_parts split trim_space join in refl
set_joined (p ∷ ps) h s j = rw (split_plain p ps h) (set_parts_plain (p ∷ ps) s j h)

-- A set of plain names that is printed and read back by Set adds just its members to the set that
-- the flag had.
pub has-set-string :
    (s old : StringSet) (j : Bytes)
    → All IsPlain (keys s)
    → has j (set (string s) old) ≡ (has j s || has j old)
unfolding string as_slice
has-set-string s old j plain =
    let sorted = All-perm IsPlain (perm-sort_strings (keys s)) plain in
    set_joined (sort_strings (keys s)) sorted old j
    ∙ ap (λ b. b || has j old)
        (sym (has-keys j s ∙ any_perm (λ k. k == j) (perm-sort_strings (keys s))))
