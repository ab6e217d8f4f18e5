-- ===== src/Metric.antt =====
-- A time series and its text form: pkg/metric/metric.go and pkg/metric/family.go.
-- A `strings.Builder` is the bytes that it holds; a function that writes to it returns them.
pub mod Escape
pub mod Labels
pub mod Lines
pub mod Tests
use kube_state_metrics.Prelude.{
  Option, ℕ, Bool, not, List, [], ◌∷◌, ◌++◌, length, nat_beq, if◌then◌else◌,
}
use kube_state_metrics.Prelude.Text.{Bytes, codes, Lacks}
use kube_state_metrics.Prelude.Int.{ℤ, pos, negsuc}
use kube_state_metrics.Prelude.Result.{Result, ok, panic, ◌>>=◌}

-- Go's float64 and what the code uses of it: the conversion from integers, `==`, `<`, `/`, the tests
-- of `math`, strconv.ParseFloat (none is an error), and the digits that `strconv.AppendFloat(…, f, 'g', -1, 64)` appends.
pub record Float64 : Type 1 where
  pub F : Type 0
  pub of_int : ℤ → F
  pub equal : F → F → Bool
  pub is_nan : F → Bool
  pub is_pos_inf : F → Bool
  pub is_neg_inf : F → Bool
  pub append_float : F → Bytes
  pub less : F → F → Bool
  pub div : F → F → F
  pub parse_float : Bytes → Option F

abbrev pub newline : ℕ
newline = b'\n'

abbrev pub quote : ℕ
quote = b'"'

abbrev pub backslash : ℕ
backslash = b'\\'

-- `AppendFloat` writes digits, a sign, a point and an exponent: never a line break.
pub record Float64Laws (fl : Float64) : Type 1 where
  pub append_float-Lacks : (f : fl.F) → Lacks newline (fl.append_float f)

-- Type
abbrev pub MetricType : Type 0
MetricType = Bytes

abbrev pub gauge : MetricType
gauge = codes "gauge"

abbrev pub counter : MetricType
counter = codes "counter"

pub record Metric (F : Type 0) : Type 0 where
  pub label_keys : List Bytes
  pub label_values : List Bytes
  pub value : F

pub record Family (F : Type 0) : Type 0 where
  pub name : Bytes
  pub type : MetricType
  pub metrics : List (Metric F)

-- What the replacer writes for one byte.
pub replace : ℕ → Bytes
replace c =
    if nat_beq c backslash
    then backslash ∷ backslash ∷ []
    else if nat_beq c newline
    then backslash ∷ b'n' ∷ []
    else if nat_beq c quote
    then backslash ∷ quote ∷ []
    else c ∷ []

-- escapeString
unfoldable pub escape_string : Bytes → Bytes → Bytes
unfolding replace
escape_string m [] = m
escape_string m (c ∷ v) = escape_string (m ++ replace c) v

-- The loop of labelsToString; a value that is missing is an index out of range.
labels_loop : Bytes → ℕ → List Bytes → List Bytes → Result Bytes
labels_loop m separator [] values = ok m
labels_loop m separator (k ∷ keys) [] = panic
labels_loop m separator (k ∷ keys) (v ∷ values) =
    labels_loop (escape_string (m ++ separator ∷ (k ++ codes "=\"")) v ++ quote ∷ []) b',' keys
      values

-- labelsToString
unfoldable pub labels_to_string : Bytes → List Bytes → List Bytes → Result Bytes
unfolding labels_loop
labels_to_string m [] values = ok m
labels_to_string m (k ∷ keys) values = do
  m' ← labels_loop m b'{' (k ∷ keys) values
  ok (m' ++ b'}' ∷ [])

module _ (fl : Float64) where
  open fl use {F, of_int, equal, is_nan, is_pos_inf, is_neg_inf, append_float}

  -- writeFloat
  unfoldable pub write_float : Bytes → F → Bytes
  write_float w f =
      if equal f (of_int (pos 1))
      then w ++ codes "1"
      else if equal f (of_int (pos 0))
      then w ++ codes "0"
      else if equal f (of_int (negsuc 0))
      then w ++ codes "-1"
      else if is_nan f
      then w ++ codes "NaN"
      else if is_pos_inf f
      then w ++ codes "+Inf"
      else if is_neg_inf f
      then w ++ codes "-Inf"
      else w ++ append_float f

  -- (*Metric).Write
  unfoldable pub write : Metric F → Bytes → Result Bytes
  write m s = if not (nat_beq (length m.label_keys) (length m.label_values)) then panic else do
    s' ← labels_to_string s m.label_keys m.label_values
    ok (write_float (s' ++ b' ' ∷ []) m.value ++ newline ∷ [])

  -- The loop of ByteSlice.
  write_metrics : Bytes → List (Metric F) → Bytes → Result Bytes
  write_metrics name [] b = ok b
  write_metrics name (m ∷ ms) b = do b' ← write m (b ++ name); write_metrics name ms b'

  -- (Family).ByteSlice
  unfoldable pub byte_slice : Family F → Result Bytes
  unfolding write_metrics
  byte_slice f = write_metrics f.name f.metrics []
