-- ===== src/Metric/Lines.antt =====
-- What ByteSlice writes is one line for each metric of the family.
use native.Mathlib.Decide.{ℕ_discrete}
use kube_state_metrics.Prelude.{
  ℕ, ◌≡◌, ◌≢◌, sym, ap, ◌∙◌, List, [], ◌∷◌, ◌++◌, map, append-nil, append_assoc, arith, length, All,
  All-append, nat_beq_iff,
}
use kube_state_metrics.Prelude.Text.{Bytes, Lacks}
use kube_state_metrics.Prelude.Result.{ok, panic}
use kube_state_metrics.Metric.{
  Float64, Float64Laws, Metric, Family, newline, write_float, write, write_metrics, byte_slice,
}
use kube_state_metrics.Metric.Escape.{escaped, escaped-Lacks}
use kube_state_metrics.Metric.Labels.{rendered, label_set, labels_to_string-label_set}

-- A metric has a value for each of its label keys.
abbrev pub Aligned : {F : Type 0} → Metric F → Type 0
Aligned m = length m.label_keys ≡ length m.label_values

abbrev pub unlines : List Bytes → Bytes
unlines [] = []
unlines (l ∷ ls) = l ++ newline ∷ unlines ls

rendered-Lacks :
    (separator : ℕ) (keys values : List Bytes)
    → separator ≢ newline
    → All (Lacks newline) keys
    → Lacks newline (rendered separator keys values)
unfolding rendered
rendered-Lacks separator [] values h ks = tt
rendered-Lacks separator (k ∷ keys) [] h ks = tt
rendered-Lacks separator (k ∷ keys) (v ∷ values) h (lack, ks) = (
  h,
  All-append _ k _ lack (
    omega arith,
    (
      omega arith,
      All-append _ (escaped v) _ (escaped-Lacks v)
          (omega arith, rendered-Lacks b',' keys values (omega arith) ks),
    ),
  ),
)

label_set-Lacks :
    (keys values : List Bytes) → All (Lacks newline) keys → Lacks newline (label_set keys values)
unfolding label_set
label_set-Lacks [] values h = tt
label_set-Lacks (k ∷ keys) values h =
    All-append _ (rendered b'{' (k ∷ keys) values) _
      (rendered-Lacks b'{' (k ∷ keys) values (omega arith) h) (omega arith)

module _ (fl : Float64) where
  write_float-append : (w : Bytes) (f : fl.F) → write_float fl w f ≡ w ++ write_float fl [] f
  unfolding write_float
  write_float-append w f = ground arith

  write_float-Lacks : (laws : Float64Laws fl) (f : fl.F) → Lacks newline (write_float fl [] f)
  unfolding write_float
  write_float-Lacks laws f = ground (arith, laws.append_float-Lacks f)

  -- The line of one metric, without its line break.
  pub line : Bytes → Metric fl.F → Bytes
  line name m = name ++ (label_set m.label_keys m.label_values ++ b' ' ∷ write_float fl [] m.value)

  write_lem :
      (m : Metric fl.F) (name b : Bytes)
      → Aligned m
      → write fl m (b ++ name) ≡ ok (b ++ line name m ++ newline ∷ [])
  unfolding write line
  write_lem m name b h =
      simp ((nat_beq_iff _ _).1 h, labels_to_string-label_set (b ++ name) _ _ h)
        (ap ok (rw write_float-append (simp append_assoc)))

  write_panic : (m : Metric fl.F) (s : Bytes) → ¬ Aligned m → write fl m s ≡ panic
  unfolding write
  write_panic m s h = ground arith

  write_metrics_lem :
      (name : Bytes) (ms : List (Metric fl.F)) (b : Bytes)
      → All Aligned ms
      → write_metrics fl name ms b ≡ ok (b ++ unlines (map (line name) ms))
  unfolding write_metrics
  write_metrics_lem name [] b h = ap ok (sym (append-nil b))
  write_metrics_lem name (m ∷ ms) b (hm, hms) =
      rw (write_lem m name b hm) (
        write_metrics_lem name ms (b ++ line name m ++ newline ∷ []) hms
        ∙ ap ok (simp append_assoc))

  write_metrics_panic :
      (name : Bytes) (ms : List (Metric fl.F)) (b : Bytes)
      → ¬ All Aligned ms
      → write_metrics fl name ms b ≡ panic
  unfolding write_metrics
  write_metrics_panic name [] b h = absurd (h tt)
  write_metrics_panic name (m ∷ ms) b h =
      elim (ℕ_discrete (length m.label_keys) (length m.label_values)) [
        | yes hm ↦ rw (write_lem m name b hm) (write_metrics_panic name ms _ (λ hms. h (hm, hms)))
        | no hm ↦ rw (write_panic m (b ++ name) hm)
      ]

  lines-Lacks :
      (laws : Float64Laws fl) (name : Bytes) (ms : List (Metric fl.F))
      → Lacks newline name
      → All (λ m. All (Lacks newline) m.label_keys) ms
      → All (Lacks newline) (map (line name) ms)
  unfolding line
  lines-Lacks laws name [] h ks = tt
  lines-Lacks laws name (m ∷ ms) h (k, ks) = (
    All-append _ name _ h (
        All-append _ (label_set m.label_keys m.label_values) _
          (label_set-Lacks m.label_keys m.label_values k)
          (omega arith, write_float-Lacks laws m.value)),
    lines-Lacks laws name ms h ks,
  )

  -- If every metric of a family has a value for each label key, and neither the family's name nor
  -- any label key holds a line break, ByteSlice does not panic: it writes as many lines as there
  -- are metrics, each ended by a line break and holding no other, and each is the family's name,
  -- the label set, a space and the number, in the order of the metrics.
  pub byte_slice_lines :
      (laws : Float64Laws fl) (f : Family fl.F)
      → All Aligned f.metrics
      → Lacks newline f.name
      → All (λ m. All (Lacks newline) m.label_keys) f.metrics
      → (byte_slice fl f ≡ ok (unlines (map (line f.name) f.metrics)))
        × All (Lacks newline) (map (line f.name) f.metrics)
  unfolding byte_slice
  byte_slice_lines laws f aligned name keys =
      (write_metrics_lem f.name f.metrics [] aligned, lines-Lacks laws f.name f.metrics name keys)

  pub byte_slice-Aligned :
      (f : Family fl.F)
      → All Aligned f.metrics
      → byte_slice fl f ≡ ok (unlines (map (line f.name) f.metrics))
  unfolding byte_slice
  byte_slice-Aligned f aligned = write_metrics_lem f.name f.metrics [] aligned

  -- ByteSlice panics as soon as one metric of the family has not a value for each label key.
  pub byte_slice_panics : (f : Family fl.F) → ¬ All Aligned f.metrics → byte_slice fl f ≡ panic
  unfolding byte_slice
  byte_slice_panics f h = write_metrics_panic f.name f.metrics [] h
