-- ===== src/Store/Conditions.antt =====
-- The metrics of a condition.
use kube_state_metrics.Prelude.{
  ◌≡◌, refl, sym, subst, ◌⊎◌, inl, inr, Bool, true, false, [], ◌∷◌, map, arith, keep_if, length,
  All, if◌then◌else◌, Bool-cases,
}
use kube_state_metrics.Prelude.Text.{Bytes, codes, ◌==◌, eq_iff}
use kube_state_metrics.Prelude.Int.{pos}
use kube_state_metrics.Metric.{Float64, Metric}
use kube_state_metrics.Store.{
  condition_statuses, to_lower, bool_float64, condition_metrics, add_condition_metrics,
}
use kube_state_metrics.AllowDenyList.Sets.{member}

-- The metric's only label value is this text.
abbrev pub labelled : {F : Type 0} → Bytes → Metric F → Bool
labelled v m = elim m.label_values [ [] ↦ false | w ∷ ws ↦ elim ws [ [] ↦ w == v | _ ∷ _ ↦ false ] ]

-- What add_condition_metrics is to give for a status.
abbrev pub OneSet : Float64 → Bytes → Type 0
OneSet fl cs =
    let ms = add_condition_metrics fl cs in
    (map (λ m. m.label_values) ms
      ≡ (codes "true" ∷ []) ∷ (codes "false" ∷ []) ∷ (codes "unknown" ∷ []) ∷ [])
    × All
        (λ m. m.value ≡ (if labelled (to_lower cs) m then fl.of_int (pos 1) else fl.of_int (pos 0)))
        ms
    × (length (keep_if (labelled (to_lower cs)) ms) ≡ 1)

known_statuses :
    (cs : Bytes)
    → member cs condition_statuses ≡ true
    → (cs ≡ codes "True") ⊎ ((cs ≡ codes "False") ⊎ (cs ≡ codes "Unknown"))
known_statuses cs known = elim (Bool-cases (codes "True" == cs)) [
  | inl is_true ↦ inl (sym ((eq_iff (codes "True") cs).0 is_true))
  | inr not_true ↦ elim (Bool-cases (codes "False" == cs)) [
    | inl is_false ↦ inr (inl (sym ((eq_iff (codes "False") cs).0 is_false)))
    | inr not_false ↦
        inr (inr (sym ((eq_iff (codes "Unknown") cs).0 (ground (arith, not_true, not_false)))))
  ]
]

module _ (fl : Float64) where
  -- For each of the statuses that Kubernetes has, AddConditionMetrics gives three metrics, labelled
  -- true, false and unknown, of which just one has the status as its label: that one is 1, and the
  -- others are 0.
  pub add_condition_metrics_lem : (cs : Bytes) → member cs condition_statuses ≡ true → OneSet fl cs
  unfolding add_condition_metrics condition_metrics bool_float64 to_lower ◌==◌
  add_condition_metrics_lem cs known = elim (known_statuses cs known) [
    | inl e ↦ subst (OneSet fl) (sym e) (refl, (refl, (refl, (refl, tt))), refl)
    | inr h ↦ elim h [
      | inl e ↦ subst (OneSet fl) (sym e) (refl, (refl, (refl, (refl, tt))), refl)
      | inr e ↦ subst (OneSet fl) (sym e) (refl, (refl, (refl, (refl, tt))), refl)
    ]
  ]
