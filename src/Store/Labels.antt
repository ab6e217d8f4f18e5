-- ===== src/Store/Labels.antt =====
-- Kubernetes labels as Prometheus labels.
use mathlib.Core.List.{Permᴰ, zip}
use mathlib.Core.List.Permᴰ
use kube_state_metrics.Prelude.{
  ℕ, ◌≡◌, ◌≢◌, refl, ap, sym, ◌∙◌, inl, inr, true, false, List, [], ◌∷◌, ◌++◌, map, length,
  length-map, subst, All, All-perm, if◌then◌else◌, Bool-cases,
}
use kube_state_metrics.Prelude.Text.{Bytes, codes, ◌==◌, eq_iff, eq_refl}
use kube_state_metrics.Prelude.Assoc.{Map, lookup, keys, keys-perm}
use kube_state_metrics.Go.Sort.{sort_strings, sort_strings-perm, perm-sort_strings}
use kube_state_metrics.Store.{
  is_label_char, sanitize_label_name, value_of, label_pairs, map_to_prometheus_labels,
}

abbrev pub IsLabelName : Bytes → Type 0
IsLabelName = All (λ c. is_label_char c ≡ true)

sanitize-IsLabelName : (s : Bytes) → IsLabelName (sanitize_label_name s)
unfolding sanitize_label_name
sanitize-IsLabelName [] = tt
sanitize-IsLabelName (c ∷ s) = (valid c, sanitize-IsLabelName s)
  where
    valid : (c : ℕ) → is_label_char (if is_label_char c then c else b'_') ≡ true
    valid c = elim (Bool-cases (is_label_char c)) [
      | inl ok ↦ rw (ok, ok)
      | inr bad ↦ rw bad (unfold is_label_char in refl)
    ]

-- Two keys that differ in characters that are not allowed in label names only have one label name.
sanitize_same :
    (s t : Bytes) (c d : ℕ)
    → is_label_char c ≡ false
    → is_label_char d ≡ false
    → sanitize_label_name (s ++ c ∷ t) ≡ sanitize_label_name (s ++ d ∷ t)
unfolding sanitize_label_name
sanitize_same [] t c d hc hd = rw (hc, hd)
sanitize_same (x ∷ s) t c d hc hd =
    ap (λ (r : Bytes). (if is_label_char x then x else b'_') ∷ r) (sanitize_same s t c d hc hd)

-- A map that is visited in another order has the same values, if no key is twice in it.
abbrev pub Distinct : List Bytes → Type 0
Distinct [] = Unit
Distinct (k ∷ ks) = All (λ j. j ≢ k) ks × Distinct ks

label_pairs_lem :
    (labels : Map Bytes) (prefix : Bytes) (ks : List Bytes)
    → label_pairs labels prefix ks
      ≡ (map (λ k. prefix ++ codes "_" ++ sanitize_label_name k) ks, map (value_of labels) ks)
unfolding label_pairs
label_pairs_lem labels prefix [] = refl
label_pairs_lem labels prefix (k ∷ ks) = rw (label_pairs_lem labels prefix ks)

Distinct-perm : {ks js : List Bytes} → Permᴰ ks js → Distinct ks → Distinct js
Distinct-perm Permᴰ.nil h = h
Distinct-perm (Permᴰ.cons {b = b} {l₁ = l} e p) (h, hs) =
    (All-perm (λ j. j ≢ b) p (subst (λ x. All (λ j. j ≢ x) l) e h), Distinct-perm p hs)
Distinct-perm (Permᴰ.swap {l = l} e e') ((ne, h), (h', hs)) = (
  (λ q. ne (e' ∙ sym q ∙ sym e), subst (λ x. All (λ j. j ≢ x) l) e' h'),
  (subst (λ x. All (λ j. j ≢ x) l) e h, hs),
)
Distinct-perm (Permᴰ.trans p q) h = Distinct-perm q (Distinct-perm p h)

lookup_other :
    (k j : Bytes) (v : Bytes) (m : Map Bytes) → j ≢ k → value_of ((k, v) ∷ m) j ≡ value_of m j
unfolding value_of lookup
lookup_other k j v m ne = elim (Bool-cases (k == j)) [
  | inl same ↦ absurd (ne (sym ((eq_iff k j).0 same)))
  | inr other ↦ rw (other, value_of)
]

values_other :
    (k v : Bytes) (m : Map Bytes) (ks : List Bytes)
    → All (λ j. j ≢ k) ks
    → map (value_of ((k, v) ∷ m)) ks ≡ map (value_of m) ks
values_other k v m [] h = refl
values_other k v m (j ∷ ks) (ne, h) = cc (lookup_other k j v m ne, values_other k v m ks h)

value_head : (k v : Bytes) (m : Map Bytes) → value_of ((k, v) ∷ m) k ≡ v
unfolding value_of lookup
value_head k v m = rw (eq_refl k, value_of)

values_of_keys : (m : Map Bytes) → Distinct (keys m) → map (value_of m) (keys m) ≡ map (λ e. e.1) m
values_of_keys [] h = refl
values_of_keys ((k, v) ∷ m) (h, hs) =
    cc (value_head k v m, values_other k v m (keys m) h, values_of_keys m hs)

value_cons :
    (e : Bytes × Bytes) (l l' : Map Bytes) (j : Bytes)
    → value_of l j ≡ value_of l' j
    → value_of (e ∷ l) j ≡ value_of (e ∷ l') j
unfolding value_of lookup
value_cons e l l' j h = elim (Bool-cases (e.0 == j)) [
  | inl same ↦ rw (same, value_of)
  | inr other ↦ rw (other, value_of) h
]

value_swap :
    (a b : Bytes × Bytes) (l : Map Bytes) (j : Bytes)
    → b.0 ≢ a.0
    → value_of (a ∷ b ∷ l) j ≡ value_of (b ∷ a ∷ l) j
unfolding value_of lookup
value_swap a b l j ne = elim (Bool-cases (a.0 == j)) [
  | inl first ↦ elim (Bool-cases (b.0 == j)) [
    | inl second ↦ absurd (ne ((eq_iff b.0 j).0 second ∙ sym ((eq_iff a.0 j).0 first)))
    | inr other ↦ rw (first, other, value_of)
  ]
  | inr other ↦ elim (Bool-cases (b.0 == j)) [
    | inl second ↦ rw (other, second, value_of)
    | inr other' ↦ rw (other, other', value_of)
  ]
]

value_perm :
    {m m' : Map Bytes} (j : Bytes) → Permᴰ m m' → Distinct (keys m) → value_of m j ≡ value_of m' j
value_perm j Permᴰ.nil h = refl
value_perm j (Permᴰ.cons {a = a} {l₁ = l} {l₂ = l'} e p) (h, hs) =
    subst (λ x. value_of (a ∷ l) j ≡ value_of (x ∷ l') j) e
      (value_cons a l l' j (value_perm j p hs))
value_perm j (Permᴰ.swap {a = a} {b = b} {a' = a'} {l = l} e e') ((ne, h), hs) =
    subst (λ x. value_of (a ∷ b ∷ l) j ≡ value_of (a' ∷ x ∷ l) j) e
      (subst (λ x. value_of (a ∷ b ∷ l) j ≡ value_of (x ∷ a ∷ l) j) e' (value_swap a b l j ne))
value_perm j (Permᴰ.trans p q) h = value_perm j p h ∙ value_perm j q (Distinct-perm (keys-perm p) h)

values_ext :
    (m m' : Map Bytes) (ks : List Bytes)
    → ((j : Bytes) → value_of m j ≡ value_of m' j)
    → map (value_of m) ks ≡ map (value_of m') ks
values_ext m m' [] h = refl
values_ext m m' (k ∷ ks) h = cc (h k, values_ext m m' ks h)

-- The label name for a key.
abbrev pub label_name : Bytes → Bytes → Bytes
label_name prefix k = prefix ++ codes "_" ++ sanitize_label_name k

zip-map :
    (f g : Bytes → Bytes) (ks : List Bytes) → zip (map f ks) (map g ks) ≡ map (λ k. (f k, g k)) ks
unfolding zip
zip-map f g [] = refl
zip-map f g (k ∷ ks) = ap (λ (l : List (Bytes × Bytes)). (f k, g k) ∷ l) (zip-map f g ks)

zip_entries :
    (f : Bytes → Bytes) (m : Map Bytes)
    → zip (map f (keys m)) (map (λ e. e.1) m) ≡ map (λ (e : Bytes × Bytes). (f e.0, e.1)) m
unfolding zip
zip_entries f [] = refl
zip_entries f ((k, v) ∷ m) = ap (λ (l : List (Bytes × Bytes)). (f k, v) ∷ l) (zip_entries f m)

pairs_of_map :
    (f : Bytes → Bytes) (m : Map Bytes)
    → Distinct (keys m)
    → Permᴰ
        (zip (map f (sort_strings (keys m))) (map (value_of m) (sort_strings (keys m))))
        (map (λ (e : Bytes × Bytes). (f e.0, e.1)) m)
pairs_of_map f m h =
    let pair : Bytes → Bytes × Bytes = λ k. (f k, value_of m k) in
    rw (zip-map f (value_of m) (sort_strings (keys m))) (
      subst (Permᴰ (map pair (sort_strings (keys m))))
        (sym (zip-map f (value_of m) (keys m))
          ∙ ap (zip (map f (keys m))) (values_of_keys m h)
          ∙ zip_entries f m)
        (Permᴰ.map pair (Permᴰ.symm (perm-sort_strings (keys m)))))

-- For a map without a key twice, as every map of Go, mapToPrometheusLabels gives as many names as
-- values; they are the map's entries, each key with the prefix and each character that a label name
-- may not have replaced, none lost and none added; and they are the same in whatever order Go visits
-- the map.
pub map_to_prometheus_labels_lem :
    (m m' : Map Bytes) (prefix : Bytes)
    → Distinct (keys m)
    → Permᴰ m m'
    → let (names, values) = map_to_prometheus_labels m prefix in
      (length names ≡ length values)
      × Permᴰ (zip names values) (map (λ (e : Bytes × Bytes). (label_name prefix e.0, e.1)) m)
      × (map_to_prometheus_labels m' prefix ≡ map_to_prometheus_labels m prefix)
unfolding map_to_prometheus_labels
map_to_prometheus_labels_lem m m' prefix h p =
    let ks = sort_strings (keys m) in
    rw (label_pairs_lem m prefix ks) (
      length-map _ ks ∙ sym (length-map _ ks),
      pairs_of_map (label_name prefix) m h,
      rw (sort_strings-perm (keys-perm p), label_pairs_lem)
          (ap (λ (vs : List Bytes). (map (label_name prefix) (sort_strings (keys m')), vs))
            (values_ext m' m _ (λ j. sym (value_perm j p h)))),
    )

-- Two different keys that differ in one character that a label name may not have, such as `/` and
-- `-`, are given one and the same label name.
pub label_names_collide :
    (prefix s t : Bytes) (c d : ℕ)
    → is_label_char c ≡ false
    → is_label_char d ≡ false
    → c ≢ d
    → ((s ++ c ∷ t) ≢ (s ++ d ∷ t))
      × (label_name prefix (s ++ c ∷ t) ≡ label_name prefix (s ++ d ∷ t))
label_names_collide prefix s t c d hc hd ne =
    (differ s, ap (λ (k : Bytes). prefix ++ codes "_" ++ k) (sanitize_same s t c d hc hd))
  where
    differ : (s : Bytes) → (s ++ c ∷ t) ≢ (s ++ d ∷ t)
    differ [] e = ne (cc e)
    differ (x ∷ s) e = differ s (cc e)
