-- ===== src/Generator.antt =====
-- Family generators: pkg/metric_generator/generator.go. A generator's function may panic. A Go pointer
-- to a family that it returns is the family itself: Generate is the only one that writes to it.
pub mod Laws
pub mod Tests
use kube_state_metrics.Prelude.{Bool, List, [], ◌∷◌, ◌++◌, if◌then◌else◌}
use kube_state_metrics.Prelude.Text.{Bytes, codes}
use kube_state_metrics.Prelude.Result.{Result, ok, ◌>>=◌}
use kube_state_metrics.Metric.{MetricType, Family, newline}

-- allowDenyLister
pub record AllowDenyLister : Type 0 where
  pub is_included : Bytes → Bool
  pub is_excluded : Bytes → Bool

pub record FamilyGenerator (F Obj : Type 0) : Type 0 where
  pub name : Bytes
  pub help : Bytes
  pub type : MetricType
  pub generate_func : Obj → Result (Family F)

module _ {F Obj : Type 0} where
  -- (*FamilyGenerator).Generate
  unfoldable pub generate : FamilyGenerator F Obj → Obj → Result (Family F)
  generate g obj = do
    family ← g.generate_func obj
    ok (record family { name = g.name; type = g.type })

  -- (*FamilyGenerator).generateHeader
  unfoldable pub generate_header : FamilyGenerator F Obj → Bytes
  generate_header g =
      codes "# HELP "
      ++ g.name
      ++ b' ' ∷ []
      ++ g.help
      ++ newline ∷ []
      ++ codes "# TYPE "
      ++ g.name
      ++ b' ' ∷ []
      ++ g.type

  -- ExtractMetricFamilyHeaders: the loop fills a slice of the same length.
  unfoldable pub extract_metric_family_headers : List (FamilyGenerator F Obj) → List Bytes
  extract_metric_family_headers [] = []
  extract_metric_family_headers (f ∷ families) =
      generate_header f ∷ extract_metric_family_headers families

  -- ComposeMetricGenFuncs
  unfoldable pub compose_metric_gen_funcs :
      List (FamilyGenerator F Obj) → Obj → Result (List (Family F))
  compose_metric_gen_funcs [] obj = ok []
  compose_metric_gen_funcs (gen ∷ family_gens) obj = do
    family ← generate gen obj
    families ← compose_metric_gen_funcs family_gens obj
    ok (family ∷ families)

  filter_loop :
      AllowDenyLister
      → List (FamilyGenerator F Obj)
      → List (FamilyGenerator F Obj)
      → List (FamilyGenerator F Obj)
  filter_loop l filtered [] = filtered
  filter_loop l filtered (f ∷ families) =
      filter_loop l (if l.is_included f.name then filtered ++ f ∷ [] else filtered) families

  -- FilterMetricFamilies
  unfoldable pub filter_metric_families :
      AllowDenyLister → List (FamilyGenerator F Obj) → List (FamilyGenerator F Obj)
  unfolding filter_loop
  filter_metric_families l families = filter_loop l [] families
