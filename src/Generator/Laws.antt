-- ===== src/Generator/Laws.antt =====
-- The filtered generators, and how headers and families line up.
use kube_state_metrics.Prelude.{
  ℕ, suc, ◌≡◌, refl, sym, ap, ◌∙◌, true, some, List, [], ◌∷◌, ◌++◌, append-nil, inl, inr,
  Bool-cases, zero, append_assoc, length, get_elem?, keep_if, keep_if-true,
}
use mathlib.Core.Option
use kube_state_metrics.Prelude.Result.{Result, ok, err, panic, ◌>>=◌, ok_of_bind, ok_injective}
use kube_state_metrics.Metric.{Family}
use kube_state_metrics.Generator.{
  AllowDenyLister, FamilyGenerator, generate, generate_header, extract_metric_family_headers,
  compose_metric_gen_funcs, filter_loop, filter_metric_families,
}

-- A list of the given length, when there is one.
abbrev pub HasLength : {A : Type 0} → ℕ → Result (List A) → Type 0
HasLength n (ok xs) = length xs ≡ n
HasLength n _ = Unit

pub cons-HasLength :
    {A : Type 0} (n : ℕ) (r : Result A) (rest : Result (List A))
    → HasLength n rest
    → HasLength (suc n) (r >>= λ a. rest >>= λ xs. ok (a ∷ xs))
cons-HasLength n (ok a) (ok xs) h = ap suc h
cons-HasLength n (ok a) (err e) h = tt
cons-HasLength n (ok a) panic h = tt
cons-HasLength n (err e) rest h = tt
cons-HasLength n panic rest h = tt

module _ {F Obj : Type 0} where
  pub compose-HasLength :
      (gens : List (FamilyGenerator F Obj)) (obj : Obj)
      → HasLength (length (extract_metric_family_headers gens)) (compose_metric_gen_funcs gens obj)
  unfolding compose_metric_gen_funcs extract_metric_family_headers
  compose-HasLength [] obj = refl
  compose-HasLength (g ∷ gens) obj =
      cons-HasLength _ (generate g obj) (compose_metric_gen_funcs gens obj)
        (compose-HasLength gens obj)

  filter_loop_lem :
      (l : AllowDenyLister) (filtered families : List (FamilyGenerator F Obj))
      → filter_loop l filtered families ≡ filtered ++ keep_if (λ f. l.is_included f.name) families
  unfolding filter_loop
  filter_loop_lem l filtered [] = sym (append-nil filtered)
  filter_loop_lem l filtered (f ∷ families) = elim (Bool-cases (l.is_included f.name)) [
    | inl included ↦
        rw included (filter_loop_lem l (filtered ++ f ∷ []) families ∙ append_assoc filtered _ _)
    | inr excluded ↦ rw excluded (filter_loop_lem l filtered families)
  ]

  -- FilterMetricFamilies returns the families whose name the list includes, in their order.
  pub filter_metric_families_lem :
      (l : AllowDenyLister) (families : List (FamilyGenerator F Obj))
      → filter_metric_families l families ≡ keep_if (λ f. l.is_included f.name) families
  unfolding filter_metric_families
  filter_metric_families_lem l families = filter_loop_lem l [] families

  get_elem?-headers :
      (gens : List (FamilyGenerator F Obj)) (i : ℕ)
      → get_elem? (extract_metric_family_headers gens) i
        ≡ Option.map generate_header (get_elem? gens i)
  unfolding extract_metric_family_headers
  get_elem?-headers [] i = refl
  get_elem?-headers (g ∷ gens) zero = refl
  get_elem?-headers (g ∷ gens) (suc i) = get_elem?-headers gens i

  get_elem?-compose :
      (gens : List (FamilyGenerator F Obj)) (obj : Obj) (fams : List (Family F)) (i : ℕ)
      (g : FamilyGenerator F Obj)
      → compose_metric_gen_funcs gens obj ≡ ok fams
      → get_elem? gens i ≡ some g
      → (f : Family F) × (g.generate_func obj ≡ ok f)
        × (get_elem? fams i ≡ some (record f { name = g.name; type = g.type }))
  unfolding compose_metric_gen_funcs generate
  get_elem?-compose [] obj fams i g made h = cc h
  get_elem?-compose (g' ∷ gens) obj fams zero g made h =
      let (f, gen, more) = ok_of_bind (generate g' obj) _ made in
      let (f0, gen0, same) = ok_of_bind (g'.generate_func obj) _ gen in
      let (rest, _, all) = ok_of_bind (compose_metric_gen_funcs gens obj) _ more in
      (f0, cc (gen0, h), rw (← ok_injective all) (cc (ok_injective same, h)))
  get_elem?-compose (g' ∷ gens) obj fams (suc i) g made h =
      let (f, gen, more) = ok_of_bind (generate g' obj) _ made in
      let (rest, made_rest, all) = ok_of_bind (compose_metric_gen_funcs gens obj) _ more in
      rw (← ok_injective all) (get_elem?-compose gens obj rest i g made_rest h)

  -- If the families that a list keeps are generated for an object without a panic, then the i-th
  -- generator that is kept is one whose name the list includes, its header is the i-th header, and
  -- the i-th family is what its function generates for the object, under its name and type.
  pub headers_match_families :
      (l : AllowDenyLister) (families : List (FamilyGenerator F Obj)) (obj : Obj)
      (fams : List (Family F)) (i : ℕ) (g : FamilyGenerator F Obj)
      → let kept = filter_metric_families l families in
        compose_metric_gen_funcs kept obj ≡ ok fams
        → get_elem? kept i ≡ some g
        → (l.is_included g.name ≡ true)
          × (get_elem? (extract_metric_family_headers kept) i ≡ some (generate_header g))
          × (f : Family F) × (g.generate_func obj ≡ ok f)
          × (get_elem? fams i ≡ some (record f { name = g.name; type = g.type }))
  headers_match_families l families obj fams i g made h =
      let (f, gen, at_i) =
        get_elem?-compose (filter_metric_families l families) obj fams i g made h in
      (
        keep_if-true _ families i g (rw filter_metric_families_lem at h),
        rw (get_elem?-headers, h),
        f,
        gen,
        at_i,
      )
