-- ===== src/MetricsStore/WriteOrder.antt =====
-- What WriteAll writes, in whatever order Go visits the entries of the map.
use mathlib.Core.List.{Permᴰ}
use mathlib.Core.List.Permᴰ
use kube_state_metrics.Prelude.{
  subst, length-append_singleton, ℕ, suc, ◌+◌, ◌<◌, ◌≡◌, refl, sym, ap, ◌∙◌, List, [], ◌∷◌, ◌++◌,
  map, append-nil, append_assoc, arith, length, get_or, get_elem?-get_or, All, All-perm,
}
use kube_state_metrics.Prelude.Text.{Bytes}
use kube_state_metrics.Prelude.Assoc.{Map}
use kube_state_metrics.Prelude.Result.{ok}
use kube_state_metrics.Api.{Accessor}
use kube_state_metrics.Metric.{Float64, newline}
use kube_state_metrics.Generator.{
  FamilyGenerator, extract_metric_family_headers, compose_metric_gen_funcs,
}
use kube_state_metrics.Generator.Laws.{compose-HasLength}
use kube_state_metrics.MetricsStore.{
  MetricsStore, Iteration, new_metrics_store, write_families, write_headers, write_all,
}
use kube_state_metrics.MetricsStore.Operations.{Operation, run}
use kube_state_metrics.MetricsStore.Entries.{Each-of_mem, run-HasEntries}
use kube_state_metrics.MetricsStore.Exposed.{
  IsExposition, IsShown, IsEntry, Makes-IsEntry, held_of, entries_of, column_lem,
}
use kube_state_metrics.MetricsStore.Zipped.{HasFamilies, IsZipped, run-IsZipped}

-- Each loop over a map visits each entry once.
pub record IsIteration (order : Iteration) : Type 0 where
  pub visits : (i : ℕ) (m : Map (List Bytes)) → Permᴰ m (order i m)

-- The i-th family of every object.
abbrev pub column : ℕ → Map (List Bytes) → List Bytes
column i m = map (λ e. get_or e.1 i []) m

-- Each header and a line break, then that family of every object.
pub sections : Iteration → Map (List Bytes) → ℕ → List Bytes → List Bytes
sections order metrics i [] = []
sections order metrics i (help ∷ headers) =
    help ∷ (newline ∷ []) ∷ (column i (order i metrics) ++ sections order metrics (suc i) headers)

write_families_lem :
    (n i : ℕ) (m : Map (List Bytes)) (w : List Bytes)
    → i < n
    → All (HasFamilies n) m
    → write_families i m w ≡ ok (w ++ column i m)
unfolding write_families
write_families_lem n i [] w h all = ap ok (sym (append-nil w))
write_families_lem n i ((uid, bs) ∷ m) w h (full, all) =
    rw (get_elem?-get_or bs i [] (omega arith), write_families)
      (write_families_lem n i m (w ++ get_or bs i [] ∷ []) h all ∙ ap ok (append_assoc w _ _))

write_headers_lem :
    (order : Iteration) (n : ℕ) (m : Map (List Bytes)) (i : ℕ) (headers w : List Bytes)
    → IsIteration order
    → i + length headers ≡ n
    → All (HasFamilies n) m
    → write_headers order m i headers w ≡ ok (w ++ sections order m i headers)
unfolding write_headers sections
write_headers_lem order n m i [] w visit h all = ap ok (sym (append-nil w))
write_headers_lem order n m i (help ∷ headers) w visit h all =
    let all' = All-perm (HasFamilies n) (visit.visits i m) all in
    rw (write_families_lem n i (order i m) (w ++ help ∷ (newline ∷ []) ∷ []) (omega arith) all') (
      write_headers_lem order n m (suc i) headers
        ((w ++ help ∷ (newline ∷ []) ∷ []) ++ column i (order i m)) visit (omega arith) all
      ∙ ap ok (simp append_assoc))

pub write_all_zipped :
    {F Obj : Type 0} (order : Iteration) (hs : List Bytes) (s : MetricsStore F Obj) (w : List Bytes)
    → IsIteration order
    → IsZipped hs s
    → write_all order s w ≡ ok (w ++ sections order s.metrics 0 hs)
unfolding write_all
write_all_zipped order hs s w visit z =
    rw z.same (write_headers_lem order (length hs) s.metrics 0 hs w visit (omega arith) z.entries)

sections_perm :
    (order order' : Iteration) (m : Map (List Bytes)) (i : ℕ) (headers : List Bytes)
    → IsIteration order
    → IsIteration order'
    → Permᴰ (sections order m i headers) (sections order' m i headers)
unfolding sections
sections_perm order order' m i [] v v' = Permᴰ.nil
sections_perm order order' m i (help ∷ headers) v v' =
    let columns =
      Permᴰ.map (λ (e : Bytes × List Bytes). get_or e.1 i [])
        (Permᴰ.trans (Permᴰ.symm (v.visits i m)) (v'.visits i m)) in
    Permᴰ.cons refl (
      Permᴰ.cons refl (
        Permᴰ.trans (Permᴰ.append_right _ columns)
          (Permᴰ.append_left _ (sections_perm order order' m (suc i) headers v v'))))

-- The store that the builder makes of some family generators.
unfoldable pub built : {F Obj : Type 0} → List (FamilyGenerator F Obj) → MetricsStore F Obj
built gens = new_metrics_store (extract_metric_family_headers gens) (compose_metric_gen_funcs gens)

-- The sections of a store that holds the texts of some objects are their exposition.
sections-IsExposition :
    (fl : Float64) {Obj : Type 0} (order : Iteration) (m : Map (List Bytes)) (held : Map Obj)
    (pre gens : List (FamilyGenerator fl.F Obj)) (i : ℕ)
    → IsIteration order
    → i ≡ length pre
    → m ≡ entries_of fl (pre ++ gens) held
    → IsExposition fl gens
        (map (λ e. e.1) held)
        (sections order m i (extract_metric_family_headers gens))
unfolding sections extract_metric_family_headers
sections-IsExposition fl order m held pre [] i visit at same = refl
sections-IsExposition fl order m held pre (g ∷ gens) i visit at same =
    let texts =
      ap (column i) same
      ∙ ap (λ n. column n (entries_of fl (pre ++ g ∷ gens) held)) at
      ∙ column_lem fl pre gens g held in
    (
      column i (order i m),
      sections order m (suc i) (extract_metric_family_headers gens),
      refl,
      subst (λ l. Permᴰ l (column i (order i m))) texts
          (Permᴰ.map (λ (e : Bytes × List Bytes). get_or e.1 i []) (visit.visits i m)),
      sections-IsExposition fl order m held (pre ++ g ∷ []) gens (suc i) visit
          (omega (arith, at, length-append_singleton pre g))
          (same ∙ ap (λ l. entries_of fl l held) (sym (append_assoc pre (g ∷ []) gens))),
    )

module _ (fl : Float64) {Obj : Type 0} (accessor : Accessor Obj) where
  built-IsZipped :
      (gens : List (FamilyGenerator fl.F Obj))
      → IsZipped (extract_metric_family_headers gens) (built gens)
  unfolding built new_metrics_store
  built-IsZipped gens = record { same = refl; entries = tt; generates = compose-HasLength gens }

  write_all-sections :
      (gens : List (FamilyGenerator fl.F Obj)) (ops : List (Operation Obj)) (order : Iteration)
      (w : List Bytes)
      → IsIteration order
      → let s = run fl accessor ops (built gens) in
        write_all order s w
        ≡ ok (w ++ sections order s.metrics 0 (extract_metric_family_headers gens))
  write_all-sections gens ops order w visit =
      write_all_zipped order (extract_metric_family_headers gens) (run fl accessor ops (built gens))
        w visit
        (run-IsZipped fl accessor (extract_metric_family_headers gens) ops (built gens)
          (built-IsZipped gens))

  run-IsEntry :
      (gens : List (FamilyGenerator fl.F Obj)) (ops : List (Operation Obj))
      → All (IsEntry fl accessor gens ops) (run fl accessor ops (built gens)).metrics
  unfolding built new_metrics_store
  run-IsEntry gens ops =
      (run-HasEntries fl accessor (extract_metric_family_headers gens)
        (compose_metric_gen_funcs gens) (IsEntry fl accessor gens ops) ops (built gens)
        (record { same_headers = refl; same_func = λ o. refl; entries = tt })
        (Each-of_mem _ ops (Makes-IsEntry fl accessor gens ops))).entries

  -- After any operations, failing and panicking ones too, on the store built of any generators, the
  -- store holds for some objects, each of which was passed to Add, Update or Replace and stands under
  -- its own id, the texts of the generators' families for the object, in the generators' order; and
  -- WriteAll does not panic, whatever the order in which Go visits the entries: it appends, for each
  -- generator in order, its header, a line break, and the text of this generator's family for each of
  -- those objects once.
  pub write_all-run :
      (gens : List (FamilyGenerator fl.F Obj)) (ops : List (Operation Obj)) (order : Iteration)
      (w : List Bytes)
      → IsIteration order
      → let s = run fl accessor ops (built gens) in
        (held : Map Obj) × (out : List Bytes) × (s.metrics ≡ entries_of fl gens held)
        × All (IsShown fl accessor gens ops) held
        × (write_all order s w ≡ ok (w ++ out))
        × IsExposition fl gens (map (λ e. e.1) held) out
  write_all-run gens ops order w visit =
      let s = run fl accessor ops (built gens) in
      let (held, same, all) = held_of fl accessor gens ops s.metrics (run-IsEntry gens ops) in
      (
        held,
        sections order s.metrics 0 (extract_metric_family_headers gens),
        same,
        all,
        write_all-sections gens ops order w visit,
        sections-IsExposition fl order s.metrics held [] gens 0 visit refl same,
      )

  -- After any operations on the store built of any generators, two calls of WriteAll that visit
  -- the entries in different orders write the same chunks, in orders that are permutations of each
  -- other.
  write_all_any_order :
      (gens : List (FamilyGenerator fl.F Obj)) (ops : List (Operation Obj))
      (order order' : Iteration)
      → IsIteration order
      → IsIteration order'
      → let s = run fl accessor ops (built gens) in
        (w w' : List Bytes) × (write_all order s [] ≡ ok w)
        × (write_all order' s [] ≡ ok w')
        × Permᴰ w w'
  write_all_any_order gens ops order order' visit visit' = (
    _,
    _,
    write_all-sections gens ops order [] visit,
    write_all-sections gens ops order' [] visit',
    sections_perm order order' _ 0 (extract_metric_family_headers gens) visit visit',
  )
