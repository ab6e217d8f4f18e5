-- ===== src/Generator/Tests.antt =====
-- The theorems about generators at concrete families.
use kube_state_metrics.Prelude.{◌≡◌, refl, true, some, List, [], ◌∷◌, get_elem?, not}
use kube_state_metrics.Prelude.Text.{codes, ◌==◌}
use kube_state_metrics.Prelude.Int.{ℤ, pos}
use kube_state_metrics.Prelude.Result.{ok}
use kube_state_metrics.Metric.{Family, gauge, counter}
use kube_state_metrics.Generator.{
  AllowDenyLister, FamilyGenerator, generate, generate_header, extract_metric_family_headers,
  compose_metric_gen_funcs, filter_metric_families,
}
use kube_state_metrics.Generator.Laws.{headers_match_families}

-- An object that is a number, and two families about it.
abbrev ready : FamilyGenerator ℤ ℤ
ready = record {
  name = codes "kube_ready";
  help = codes "Whether it is ready.";
  type = gauge;
  generate_func = λ obj. ok (record {
    name = [];
    type = [];
    metrics = record { label_keys = []; label_values = []; value = obj } ∷ [];
  });
}

abbrev created : FamilyGenerator ℤ ℤ
created = record {
  name = codes "kube_created";
  help = codes "When.";
  type = counter;
  generate_func = λ obj. ok (record { name = []; type = []; metrics = [] });
}

abbrev pub families : List (FamilyGenerator ℤ ℤ)
families = created ∷ ready ∷ []

abbrev no_created : AllowDenyLister
unfolding ◌==◌
no_created = record {
  is_included = λ item. not (item == codes "kube_created");
  is_excluded = λ item. item == codes "kube_created";
}

ready_header :
    generate_header ready ≡ codes "# HELP kube_ready Whether it is ready.\n# TYPE kube_ready gauge"
unfolding generate_header
ready_header = refl

abbrev generated : List (Family ℤ)
generated =
    record {
      name = codes "kube_ready";
      type = gauge;
      metrics = record { label_keys = []; label_values = []; value = pos 1 } ∷ [];
    }
    ∷ []

ready_generated :
    compose_metric_gen_funcs (filter_metric_families no_created families) (pos 1) ≡ ok generated
unfolding compose_metric_gen_funcs filter_metric_families ◌==◌ generate
ready_generated = refl

headers_match_families_example :
    (no_created.is_included ready.name ≡ true)
    × (get_elem? (extract_metric_family_headers (filter_metric_families no_created families)) 0
        ≡ some (generate_header ready))
    × (f : Family ℤ) × (ready.generate_func (pos 1) ≡ ok f)
    × (get_elem? generated 0 ≡ some (record f { name = ready.name; type = ready.type }))
unfolding filter_metric_families ◌==◌
headers_match_families_example =
    headers_match_families no_created families (pos 1) generated 0 ready ready_generated refl
