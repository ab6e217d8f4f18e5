-- ===== src/Handler/Nominal.antt =====
-- What detectNominalFromPod and detectStatefulSet find.
use kube_state_metrics.Prelude.{
  ℕ, ◌<◌, ◌^◌, ◌≡◌, refl, ap, ◌∙◌, ◌↔◌, inl, inr, true, false, List, [], ◌∷◌, ◌++◌, arith, All,
  Bool-cases,
}
use kube_state_metrics.Prelude.Text.{Bytes, codes}
use kube_state_metrics.Prelude.Int.{pos}
use kube_state_metrics.Api.{OwnerReference, Try-cases}
use kube_state_metrics.Go.Strings.{trim_prefix-append}
use kube_state_metrics.Go.Numbers.{is_digit, decimal, atoi-decimal, int32_small}
use kube_state_metrics.Handler.Detect.{
  StatefulSet, KubeApi, detect_nominal_from_pod, skipped, first_owner, detect_stateful_set,
}

-- The pod that a StatefulSet names by an ordinal below 2^31 has that ordinal as its nominal, however
-- many zeros it is written with.
pub detect_nominal_lem :
    (name : Bytes) (c : ℕ) (ordinal : Bytes)
    → All (λ d. is_digit d ≡ true) (c ∷ ordinal)
    → decimal (c ∷ ordinal) < 2 ^ 31
    → detect_nominal_from_pod name ((name ++ codes "-") ++ c ∷ ordinal)
      ≡ inr (pos (decimal (c ∷ ordinal)))
unfolding detect_nominal_from_pod
detect_nominal_lem name c ordinal h small = rw (
  trim_prefix-append (name ++ codes "-") (c ∷ ordinal),
  atoi-decimal c ordinal h (omega (arith, small)),
  int32_small (decimal (c ∷ ordinal)) small,
  detect_nominal_from_pod,
)

-- The search stops at the first owner that is not skipped.
first_owner_lem :
    (api : KubeApi) (pod namespace : Bytes) (before : List OwnerReference) (o : OwnerReference)
    (after : List OwnerReference) (ss : StatefulSet)
    → All (λ p. skipped p ≡ true) before
    → skipped o ≡ false
    → api.stateful_set namespace o.name ≡ inr ss
    → first_owner api pod namespace (before ++ o ∷ after) ≡ inr ss
unfolding first_owner
first_owner_lem api pod namespace [] o after ss _ taken found = rw (taken, found)
first_owner_lem api pod namespace (p ∷ before) o after ss (skip, all) taken found =
    rw skip (first_owner_lem api pod namespace before o after ss all taken found)

-- The API server's pod has owners among which the first that is not skipped is a StatefulSet that the
-- API server has.
abbrev pub FirstOwner : KubeApi → Bytes → Bytes → StatefulSet → Type 0
FirstOwner api pod namespace ss =
    (before : List OwnerReference) × (o : OwnerReference) × (after : List OwnerReference)
    × (api.pod_owners namespace pod ≡ inr (before ++ o ∷ after))
    × All (λ p. skipped p ≡ true) before
    × (skipped o ≡ false)
    × (api.stateful_set namespace o.name ≡ inr ss)

from_owners :
    (api : KubeApi) (pod namespace : Bytes) (owners : List OwnerReference) (ss : StatefulSet)
    → first_owner api pod namespace owners ≡ inr ss
    → (before : List OwnerReference) × (o : OwnerReference) × (after : List OwnerReference)
      × (owners ≡ before ++ o ∷ after)
      × All (λ p. skipped p ≡ true) before
      × (skipped o ≡ false)
      × (api.stateful_set namespace o.name ≡ inr ss)
unfolding first_owner
from_owners api pod namespace [] ss h = cc
from_owners api pod namespace (o ∷ owners) ss h = elim (Bool-cases (skipped o)) [
  | inl skip ↦
      let (before, o', after, parts, all, taken, found) =
        from_owners api pod namespace owners ss (rw (skip, first_owner) at h) in
      (o ∷ before, o', after, rw parts, (skip, all), taken, found)
  | inr taken ↦ elim (Try-cases (api.stateful_set namespace o.name)) [
    | inl (e, fails) ↦ cc (rw (taken, fails, first_owner) at h)
    | inr (ss', found) ↦
        ([], o, owners, refl, tt, taken, found ∙ (rw (taken, found, first_owner) at h))
  ]
]

-- detectStatefulSet finds a StatefulSet exactly if it is the first owner of the pod that is an
-- `apps/v1` StatefulSet and its controller, and both API calls succeed.
pub detect_stateful_set_lem :
    (api : KubeApi) (pod namespace : Bytes) (ss : StatefulSet)
    → (detect_stateful_set api pod namespace ≡ inr ss) ↔ FirstOwner api pod namespace ss
unfolding detect_stateful_set
detect_stateful_set_lem api pod namespace ss = (
  λ h. elim (Try-cases (api.pod_owners namespace pod)) [
    | inl (e, fails) ↦ cc (rw (fails, detect_stateful_set) at h)
    | inr (owners, answer) ↦
        let (before, o, after, parts, all, taken, found) =
          from_owners api pod namespace owners ss (rw (answer, detect_stateful_set) at h) in
        (before, o, after, answer ∙ ap inr parts, all, taken, found)
  ],
  λ (before, o, after, answer, all, taken, found).
      rw (answer, detect_stateful_set)
        (first_owner_lem api pod namespace before o after ss all taken found),
)
