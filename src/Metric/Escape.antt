-- ===== src/Metric/Escape.antt =====
-- Escaped label values: a reader of the text format gets the value back.
use kube_state_metrics.Prelude.{
  ℕ, ◌≡◌, sym, [], ◌∷◌, ◌++◌, append-nil, append_assoc, arith, All-append,
}
use kube_state_metrics.Prelude.Text.{Bytes, Lacks}
use kube_state_metrics.Metric.{newline, replace, escape_string}

-- All replacements, one after the other.
unfoldable pub escaped : Bytes → Bytes
escaped [] = []
escaped (c ∷ v) = replace c ++ escaped v

pub escape_string-escaped : (m v : Bytes) → escape_string m v ≡ m ++ escaped v
unfolding escape_string escaped
escape_string-escaped m [] = sym (append-nil m)
escape_string-escaped m (c ∷ v) = simp (escape_string-escaped (m ++ replace c) v, append_assoc)

replace-Lacks : (c : ℕ) → Lacks newline (replace c)
unfolding replace
replace-Lacks c = ground arith

pub escaped-Lacks : (v : Bytes) → Lacks newline (escaped v)
unfolding escaped
escaped-Lacks [] = tt
escaped-Lacks (c ∷ v) = All-append _ (replace c) (escaped v) (replace-Lacks c) (escaped-Lacks v)
