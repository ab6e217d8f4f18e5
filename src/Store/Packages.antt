-- ===== src/Store/Packages.antt =====
-- The packages that the stores call: github.com/robfig/cron and, of k8s.io/apimachinery, intstr,
-- resource and validation. A time is its Unix time.
use kube_state_metrics.Prelude.{inl, inr, Bool, List, Option}
use kube_state_metrics.Prelude.Text.{Bytes}
use kube_state_metrics.Prelude.Int.{ℤ}
use kube_state_metrics.Prelude.Result.{Result, ok, panic}
use kube_state_metrics.Api.{OwnerReference, Try}

pub record Packages : Type 1 where
  -- cron.ParseStandard and cron.Schedule's Next
  pub Schedule : Type 0
  pub parse_standard : Bytes → Try Schedule
  pub next : Schedule → ℤ → ℤ
  -- intstr.IntOrString and GetValueFromIntOrPercent, which takes a pointer
  pub IntOrString : Type 0
  pub get_value_from_int_or_percent : Option IntOrString → ℤ → Bool → Try ℤ
  -- IntOrString's String
  pub text_of_int_or_string : IntOrString → Bytes
  -- resource.Quantity with Value, MilliValue and AsInt64, which says whether the value is exact
  pub Quantity : Type 0
  pub value : Quantity → ℤ
  pub milli_value : Quantity → ℤ
  pub as_int64 : Quantity → ℤ × Bool
  -- metav1.GetControllerOf, of the owner references of an object
  pub get_controller_of : List OwnerReference → Option OwnerReference
  -- validation.IsQualifiedName
  pub is_qualified_name : Bytes → List Bytes

-- The code panics with the error.
abbrev pub or_panic : {A : Type 0} → Try A → Result A
or_panic (inl e) = panic
or_panic (inr a) = ok a
