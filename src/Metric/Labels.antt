-- ===== src/Metric/Labels.antt =====
-- The label sets that labelsToString writes, and an independent reader of them.
use mathlib.Core.List.{zip}
use kube_state_metrics.Prelude.{
  Bool, true, leb, ◌&&◌, ◌||◌, ℕ, ◌≡◌, refl, sym, ap, ◌∙◌, Option, none, some, List, [], ◌∷◌, ◌++◌,
  append-nil, append_assoc, arith, length, All, nat_beq, if◌then◌else◌,
}
use kube_state_metrics.Prelude.Text.{Bytes, codes}
use kube_state_metrics.Prelude.Result.{ok, ◌>>=◌}
use kube_state_metrics.Metric.{
  newline, quote, backslash, replace, escape_string, labels_loop, labels_to_string,
}
use kube_state_metrics.Metric.Escape.{escaped, escape_string-escaped}

-- A text's labels, each behind its separator.
unfoldable pub rendered : ℕ → List Bytes → List Bytes → Bytes
rendered separator [] values = []
rendered separator (k ∷ keys) [] = []
rendered separator (k ∷ keys) (v ∷ values) =
    separator ∷ (k ++ b'=' ∷ quote ∷ (escaped v ++ quote ∷ rendered b',' keys values))

labels_loop-rendered :
    (m : Bytes) (separator : ℕ) (keys values : List Bytes)
    → length keys ≡ length values
    → labels_loop m separator keys values ≡ ok (m ++ rendered separator keys values)
unfolding labels_loop rendered
labels_loop-rendered m separator [] values h = ap ok (sym (append-nil m))
labels_loop-rendered m separator (k ∷ keys) [] h = absurd (omega arith)
labels_loop-rendered m separator (k ∷ keys) (v ∷ values) h =
    labels_loop-rendered (escape_string (m ++ separator ∷ (k ++ codes "=\"")) v ++ quote ∷ []) b','
      keys values (omega arith)
    ∙ ap ok (simp (escape_string-escaped, append_assoc))

-- The whole label set: nothing when there are no labels.
unfoldable pub label_set : List Bytes → List Bytes → Bytes
label_set [] values = []
label_set (k ∷ keys) values = rendered b'{' (k ∷ keys) values ++ b'}' ∷ []

pub labels_to_string-label_set :
    (m : Bytes) (keys values : List Bytes)
    → length keys ≡ length values
    → labels_to_string m keys values ≡ ok (m ++ label_set keys values)
unfolding labels_to_string label_set
labels_to_string-label_set m [] values h = ap ok (sym (append-nil m))
labels_to_string-label_set m (k ∷ keys) values h =
    rw (labels_loop-rendered m b'{' (k ∷ keys) values h) (ap ok (append_assoc m _ _))

-- What the reader of a label set has seen of the current label.
pub data Mode : Type 0 where
  begin : Mode
  key : Bytes → Mode
  opening : Bytes → Mode
  text : Bytes → Bytes → Mode
  escape : Bytes → Bytes → Mode
  closed : Mode

-- A label name of the text format is [a-zA-Z_][a-zA-Z0-9_]*.
unfoldable pub starts_name : ℕ → Bool
starts_name c = (leb b'a' c && leb c b'z') || (leb b'A' c && leb c b'Z') || nat_beq c b'_'

unfoldable pub continues_name : ℕ → Bool
unfolding starts_name
continues_name c = starts_name c || (leb b'0' c && leb c b'9')

abbrev pub IsLabelName : Bytes → Type 0
IsLabelName [] = ⊥
IsLabelName (c ∷ k) = (starts_name c ≡ true) × All (λ d. continues_name d ≡ true) k

-- The byte that a backslash and `c` stand for.
unescape : ℕ → Option ℕ
unescape c =
    if nat_beq c backslash
    then some backslash
    else if nat_beq c b'n'
    then some newline
    else if nat_beq c quote
    then some quote
    else none

-- A reader of `k="v",…}` from the grammar of the text format; it returns the labels and the rest.
-- It refuses a name that is no label name, a line break in a value, and an unknown escape.
read : Mode → List (Bytes × Bytes) → Bytes → Option (List (Bytes × Bytes) × Bytes)
unfolding unescape starts_name continues_name
read mode done [] = none
read begin done (c ∷ s) =
    let more = read (key (c ∷ [])) done s in if starts_name c then more else none
read (key k) done (c ∷ s) =
    let value = read (opening k) done s in
    let more = read (key (k ++ c ∷ [])) done s in
    if nat_beq c b'=' then value else if continues_name c then more else none
read (opening k) done (c ∷ s) =
    let value = read (text k []) done s in if nat_beq c quote then value else none
read (text k v) done (c ∷ s) =
    let stop = read closed (done ++ (k, v) ∷ []) s in
    let special = read (escape k v) done s in
    let more = read (text k (v ++ c ∷ [])) done s in
    if nat_beq c quote
    then stop
    else if nat_beq c backslash
    then special
    else if nat_beq c newline
    then none
    else more
read (escape k v) done (c ∷ s) = elim (unescape c) [
  | none ↦ none
  | some d ↦ read (text k (v ++ d ∷ [])) done s
]
read closed done (c ∷ s) =
    let more = read begin done s in
    if nat_beq c b',' then more else if nat_beq c b'}' then some (done, s) else none

unfoldable pub read_labels : Bytes → Option (List (Bytes × Bytes) × Bytes)
unfolding read
read_labels [] = some ([], [])
read_labels (c ∷ s) = if nat_beq c b'{' then read begin [] s else some ([], c ∷ s)

module _ (done : List (Bytes × Bytes)) where
  read_key :
      (k a rest : Bytes)
      → All (λ d. continues_name d ≡ true) k
      → read (key a) done (k ++ b'=' ∷ quote ∷ rest) ≡ read (text (a ++ k) []) done rest
  unfolding read continues_name starts_name
  read_key [] a rest h = rw append-nil
  read_key (c ∷ k) a rest (hc, h) =
      ground (arith, read_key k (a ++ c ∷ []) rest h, append_assoc a (c ∷ []) k)

  read_name :
      (k rest : Bytes)
      → IsLabelName k
      → read begin done (k ++ b'=' ∷ quote ∷ rest) ≡ read (text k []) done rest
  unfolding read
  read_name [] rest h = absurd h
  read_name (c ∷ k) rest (hc, h) = rw hc (read_key k (c ∷ []) rest h)

  read-replace :
      (k v rest : Bytes) (c : ℕ)
      → read (text k v) done (replace c ++ rest) ≡ read (text k (v ++ c ∷ [])) done rest
  unfolding read replace
  read-replace k v rest c = ground arith

  read-escaped :
      (k v a rest : Bytes)
      → read (text k a) done (escaped v ++ quote ∷ rest)
        ≡ read closed (done ++ (k, a ++ v) ∷ []) rest
  unfolding escaped
  read-escaped k [] a rest = rw append-nil (unfold read in refl)
  read-escaped k (c ∷ v) a rest =
      simp (append_assoc, read-replace, read-escaped k v (a ++ c ∷ []) rest)

read_label :
    (done : List (Bytes × Bytes)) (k v rest : Bytes)
    → IsLabelName k
    → read begin done (k ++ b'=' ∷ quote ∷ (escaped v ++ quote ∷ rest))
      ≡ read closed (done ++ (k, v) ∷ []) rest
read_label done k v rest h =
    read_name done k (escaped v ++ quote ∷ rest) h ∙ read-escaped done k v [] rest

read_comma :
    (done : List (Bytes × Bytes)) (s : Bytes) → read closed done (b',' ∷ s) ≡ read begin done s
unfolding read
read_comma done s = refl

read-rendered :
    (done : List (Bytes × Bytes)) (keys values : List Bytes) (rest : Bytes)
    → length keys ≡ length values
    → All IsLabelName keys
    → read closed done (rendered b',' keys values ++ b'}' ∷ rest)
      ≡ some (done ++ zip keys values, rest)
unfolding rendered zip
read-rendered done [] values rest h lacks = rw append-nil (unfold read in refl)
read-rendered done (k ∷ keys) [] rest h lacks = absurd (omega arith)
read-rendered done (k ∷ keys) (v ∷ values) rest h (lack, lacks) =
    let ih = read-rendered (done ++ (k, v) ∷ []) keys values rest (omega arith) lacks in
    rw read_comma (simp append_assoc (rw (read_label done k v _ lack) (ih ∙ simp append_assoc)))

-- For as many keys as values, if every key is a label name of the text format, labelsToString does
-- not panic, and a reader of the format, which refuses line breaks in a value and unknown escapes,
-- returns from what it wrote exactly those pairs, in order, and stops at the space behind them,
-- whatever follows. The values are arbitrary bytes.
pub read_labels-labels_to_string :
    (keys values : List Bytes) (rest : Bytes)
    → length keys ≡ length values
    → All IsLabelName keys
    → (do s ← labels_to_string [] keys values; ok (read_labels (s ++ b' ' ∷ rest)))
      ≡ ok (some (zip keys values, b' ' ∷ rest))
unfolding read_labels label_set rendered zip
read_labels-labels_to_string [] values rest h lacks = rw (labels_to_string-label_set [] [] values h)
read_labels-labels_to_string (k ∷ keys) [] rest h lacks = absurd (omega arith)
read_labels-labels_to_string (k ∷ keys) (v ∷ values) rest h (lack, lacks) =
    let ih = read-rendered ((k, v) ∷ []) keys values (b' ' ∷ rest) (omega arith) lacks in
    rw (labels_to_string-label_set [] (k ∷ keys) (v ∷ values) h)
      (ap ok (simp append_assoc (rw (read_label [] k v _ lack) ih)))
