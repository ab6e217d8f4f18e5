-- ===== src/Options/Plain.antt =====
-- Names that a flag takes as they are.
use kube_state_metrics.Prelude.{◌≡◌, ◌≢◌, refl, false, List, [], ◌∷◌, arith, nat_beq, length, All}
use kube_state_metrics.Prelude.Text.{Bytes, codes, Lacks, join}
use kube_state_metrics.Go.Strings.{split, split-join, trim_space, trim_space_plain, is_space}

-- Not empty, with no comma and no space in it.
pub record IsPlain (name : Bytes) : Type 0 where
  pub filled : name ≢ []
  pub no_comma : Lacks b',' name
  pub no_space : All (λ c. is_space c ≡ false) name

pub split_plain :
    (p : Bytes) (ps : List Bytes)
    → All IsPlain (p ∷ ps)
    → split (join (p ∷ ps) (codes ",")) b',' ≡ p ∷ ps
split_plain p ps (h, hs) = split-join p ps b',' h.no_comma (no_commas ps hs)
  where
    no_commas : (ps : List Bytes) → All IsPlain ps → All (Lacks b',') ps
    no_commas [] h = tt
    no_commas (p ∷ ps) (h, hs) = (h.no_comma, no_commas ps hs)

-- A part that is trimmed and is not empty is a plain name.
pub trim_plain : (p : Bytes) → IsPlain p → trim_space p ≡ p
trim_plain p h = trim_space_plain p h.no_space

pub length_plain : (p : Bytes) → IsPlain p → nat_beq (length p) 0 ≡ false
length_plain [] h = absurd (h.filled refl)
length_plain (c ∷ p) h = ground arith
