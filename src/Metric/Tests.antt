-- ===== src/Metric/Tests.antt =====
-- Concrete families, and the theorems about the text format applied to them.
use kube_state_metrics.Prelude.{
  none, ◌≡◌, refl, arith, false, some, [], ◌∷◌, ◌++◌, All, map, Bool, nat_beq,
}
use mathlib.Core.List.{zip}
use kube_state_metrics.Prelude.Text.{codes, Lacks}
use kube_state_metrics.Prelude.Int.{ℤ, pos, negsuc}
use kube_state_metrics.Prelude.Result.{ok, ◌>>=◌}
use kube_state_metrics.Metric.{
  Float64, Float64Laws, Metric, Family, newline, gauge, write, labels_to_string, escape_string,
  write_float, byte_slice,
}
use kube_state_metrics.Metric.Labels.{
  IsLabelName, starts_name, continues_name, read_labels, read_labels-labels_to_string,
}
use kube_state_metrics.Metric.Lines.{line, unlines, byte_slice_lines}

abbrev int_beq : ℤ → ℤ → Bool
int_beq (pos a) (pos b) = nat_beq a b
int_beq (negsuc a) (negsuc b) = nat_beq a b
int_beq _ _ = false

-- Integers below ten stand for floats.
abbrev pub small_ints : Float64
small_ints = record {
  F = ℤ;
  of_int = λ a. a;
  equal = int_beq;
  is_nan = λ a. false;
  is_pos_inf = λ a. false;
  is_neg_inf = λ a. false;
  append_float = λ a. codes "7";
  less = λ a b. false;
  div = λ a b. a;
  parse_float = λ s. none;
}

pub small_ints_laws : Float64Laws small_ints
small_ints_laws = record { append_float-Lacks = λ a. omega arith }

abbrev pod_info : Metric ℤ
pod_info = record {
  label_keys = codes "namespace" ∷ codes "pod" ∷ [];
  label_values = codes "a\"b" ∷ codes "c\\\n" ∷ [];
  value = pos 1;
}

abbrev bare : Metric ℤ
bare = record { label_keys = []; label_values = []; value = pos 7 }

abbrev ragged : Metric ℤ
ragged = record { label_keys = codes "pod" ∷ []; label_values = []; value = pos 7 }

abbrev family : Family ℤ
family = record { name = codes "kube_pod_info"; type = gauge; metrics = pod_info ∷ bare ∷ [] }

byte_slice-family :
    byte_slice small_ints family
    ≡ ok (codes "kube_pod_info{namespace=\"a\\\"b\",pod=\"c\\\\\\n\"} 1\nkube_pod_info 7\n")
unfolding byte_slice write labels_to_string escape_string write_float
byte_slice-family = refl

pod_info-IsLabelName : All IsLabelName pod_info.label_keys
unfolding continues_name starts_name
pod_info-IsLabelName = (
  (refl, (refl, (refl, (refl, (refl, (refl, (refl, (refl, (refl, tt))))))))),
  ((refl, (refl, (refl, tt))), tt),
)

-- A line break in a value is no text that the format allows, and neither is a name with a space.
refused :
    (read_labels (codes "{pod=\"a\nb\"} 1") ≡ none) × (read_labels (codes "{a b=\"c\"} 1") ≡ none)
unfolding read_labels continues_name starts_name
refused = (refl, refl)

read_labels-labels_to_string_example :
    (do
      s ← labels_to_string [] pod_info.label_keys pod_info.label_values
      ok (read_labels (s ++ b' ' ∷ codes "1")))
    ≡ ok (some (zip pod_info.label_keys pod_info.label_values, b' ' ∷ codes "1"))
read_labels-labels_to_string_example =
    read_labels-labels_to_string pod_info.label_keys pod_info.label_values (codes "1") refl
      pod_info-IsLabelName

byte_slice_lines_example :
    (byte_slice small_ints family ≡ ok (unlines (map (line small_ints family.name) family.metrics)))
    × All (Lacks newline) (map (line small_ints family.name) family.metrics)
byte_slice_lines_example =
    byte_slice_lines small_ints small_ints_laws family (refl, (refl, tt)) (omega arith)
      (omega arith)
