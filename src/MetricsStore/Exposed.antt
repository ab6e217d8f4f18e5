-- ===== src/MetricsStore/Exposed.antt =====
-- What WriteAll writes, said by the objects whose texts a store holds and by the generators.
use mathlib.Core.List.{Permᴰ, Memᴰ}
use kube_state_metrics.Prelude.{
  ◌≡◌, refl, sym, ap, subst, ◌∙◌, inr, List, [], ◌∷◌, ◌++◌, map, length, get_or, All,
}
use kube_state_metrics.Prelude.Text.{Bytes}
use kube_state_metrics.Prelude.Assoc.{Map}
use kube_state_metrics.Prelude.Result.{Result, ok, err, panic, ◌>>=◌, ok_of_bind, ok_injective}
use kube_state_metrics.Api.{Accessor, ObjectMeta}
use kube_state_metrics.Metric.{Float64, Family, byte_slice, newline}
use kube_state_metrics.Generator.{
  FamilyGenerator, generate, generate_header, extract_metric_family_headers,
  compose_metric_gen_funcs,
}
use kube_state_metrics.MetricsStore.{family_strings}
use kube_state_metrics.MetricsStore.Operations.{Operation}
use kube_state_metrics.MetricsStore.Entries.{Makes, all_added}

abbrev pub text_of : Result Bytes → Bytes
text_of (ok b) = b
text_of (err e) = []
text_of panic = []

module _ (fl : Float64) {Obj : Type 0} where
  -- The text of a generator's family for an object, or none if there is a panic.
  abbrev pub slice : FamilyGenerator fl.F Obj → Obj → Bytes
  slice g o = text_of (generate g o >>= byte_slice fl)

  -- For each generator in order: its header, a line break, and its family's text for each of the
  -- objects, in some order.
  abbrev pub IsExposition : List (FamilyGenerator fl.F Obj) → List Obj → List Bytes → Type 0
  IsExposition [] objs out = out ≡ []
  IsExposition (g ∷ gens) objs out =
      (texts : List Bytes) × (rest : List Bytes) × (out
        ≡ generate_header g ∷ (newline ∷ []) ∷ (texts ++ rest))
      × Permᴰ (map (slice g) objs) texts
      × IsExposition gens objs rest

  -- The object was added under its own id, and each generator's family for it has a text.
  pub record IsShown (accessor : Accessor Obj) (gens : List (FamilyGenerator fl.F Obj))
      (ops : List (Operation Obj)) (e : Bytes × Obj) : Type 0 where
    pub meta : ObjectMeta
    pub is_object : accessor e.1 ≡ inr meta
    pub its_id : meta.uid ≡ e.0
    pub was_added : Memᴰ e.1 (all_added ops)
    pub has_texts : All (λ g. (generate g e.1 >>= byte_slice fl) ≡ ok (slice g e.1)) gens

  pub texts_lem :
      (gens : List (FamilyGenerator fl.F Obj)) (o : Obj) (fams : List (Family fl.F))
      (bs : List Bytes)
      → compose_metric_gen_funcs gens o ≡ ok fams
      → family_strings fl fams ≡ ok bs
      → All (λ g. (generate g o >>= byte_slice fl) ≡ ok (slice g o)) gens
        × (bs ≡ map (λ g. slice g o) gens)
  unfolding compose_metric_gen_funcs family_strings
  texts_lem [] o fams bs made texts =
      let none_made : [] ≡ fams = ok_injective made in
      (tt, sym (ok_injective (subst (λ fs. family_strings fl fs ≡ ok bs) (sym none_made) texts)))
  texts_lem (g ∷ gens) o fams bs made texts =
      let (f, gen, more) = ok_of_bind (generate g o) _ made in
      let (fs, made', all) = ok_of_bind (compose_metric_gen_funcs gens o) _ more in
      let texts' = subst (λ l. family_strings fl l ≡ ok bs) (sym (ok_injective all)) texts in
      let (b, text, more') = ok_of_bind (byte_slice fl f) _ texts' in
      let (bs', strings, all') = ok_of_bind (family_strings fl fs) _ more' in
      let (has, same) = texts_lem gens o fs bs' made' strings in
      let whole : (generate g o >>= byte_slice fl) ≡ ok b =
        ap (λ r. r >>= byte_slice fl) gen ∙ text in
      let sliced : slice g o ≡ b = ap text_of whole in
      (
        (whole ∙ ap ok (sym sliced), has),
        sym (ok_injective all')
            ∙ ap (λ l. b ∷ l) same
            ∙ ap (λ c. c ∷ map (λ g'. slice g' o) gens) (sym sliced),
      )

-- The entries of the store, for the objects that they are of.
abbrev pub entries_of :
    (fl : Float64) {Obj : Type 0} → List (FamilyGenerator fl.F Obj) → Map Obj → Map (List Bytes)
entries_of fl gens held = map (λ e. (e.0, map (λ g. slice fl g e.1) gens)) held

get_or-map :
    {A : Type 0} (f : A → Bytes) (pre rest : List A) (a : A)
    → get_or (map f (pre ++ a ∷ rest)) (length pre) [] ≡ f a
get_or-map f [] rest a = refl
get_or-map f (p ∷ pre) rest a = get_or-map f pre rest a

pub column_lem :
    (fl : Float64) {Obj : Type 0} (pre rest : List (FamilyGenerator fl.F Obj))
    (g : FamilyGenerator fl.F Obj) (held : Map Obj)
    → map (λ e. get_or e.1 (length pre) []) (entries_of fl (pre ++ g ∷ rest) held)
      ≡ map (slice fl g) (map (λ e. e.1) held)
column_lem fl pre rest g [] = refl
column_lem fl pre rest g ((uid, o) ∷ held) =
    ap (λ b. b ∷ map (λ e. get_or e.1 (length pre) []) (entries_of fl (pre ++ g ∷ rest) held))
      (get_or-map (λ g'. slice fl g' o) pre rest g)
    ∙ ap (λ bs. slice fl g o ∷ bs) (column_lem fl pre rest g held)

module _ (fl : Float64) {Obj : Type 0} (accessor : Accessor Obj)
    (gens : List (FamilyGenerator fl.F Obj)) (ops : List (Operation Obj)) where
  -- An entry of an object that is shown.
  abbrev pub IsEntry : Bytes × List Bytes → Type 0
  IsEntry (uid, bs) =
      (o : Obj) × IsShown fl accessor gens ops (uid, o) × (bs ≡ map (λ g. slice fl g o) gens)

  pub Makes-IsEntry :
      (o : Obj)
      → Memᴰ o (all_added ops)
      → Makes fl accessor
          (extract_metric_family_headers gens)
          (compose_metric_gen_funcs gens)
          IsEntry
          o
  Makes-IsEntry o mem m bs good made =
      let (fams, generated, strings) = ok_of_bind (compose_metric_gen_funcs gens o) _ made in
      let (has, same) = texts_lem fl gens o fams bs generated strings in
      (
        o,
        record { meta = m; is_object = good; its_id = refl; was_added = mem; has_texts = has },
        same,
      )

  pub held_of :
      (m : Map (List Bytes))
      → All IsEntry m
      → (held : Map Obj) × (m ≡ entries_of fl gens held) × All (IsShown fl accessor gens ops) held
  held_of [] h = ([], refl, tt)
  held_of ((uid, bs) ∷ m) ((o, shown, texts), h) =
      let (held, same, all) = held_of m h in
      (
        (uid, o) ∷ held,
        ap (λ l. (uid, l) ∷ m) texts ∙ ap (λ l. (uid, map (λ g. slice fl g o) gens) ∷ l) same,
        (shown, all),
      )
