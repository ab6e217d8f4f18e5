-- ===== src/MetricsStore/Zipped.antt =====
-- Every entry of a store has one slice of bytes for each header, so WriteAll finds them all.
use kube_state_metrics.Prelude.{ℕ, ◌≡◌, refl, sym, subst, List, [], ◌∷◌, length, All}
use kube_state_metrics.Prelude.Text.{Bytes}
use kube_state_metrics.Prelude.Result.{Result, ok, err, panic, ◌>>=◌}
use kube_state_metrics.Api.{Accessor}
use kube_state_metrics.Metric.{Float64, Family, byte_slice}
use kube_state_metrics.Generator.Laws.{HasLength, cons-HasLength}
use kube_state_metrics.MetricsStore.{MetricsStore, family_strings}
use kube_state_metrics.MetricsStore.Operations.{Operation, run}
use kube_state_metrics.MetricsStore.Entries.{Makes, Each-always, run-HasEntries}

family_strings-HasLength :
    (fl : Float64) (fs : List (Family fl.F)) → HasLength (length fs) (family_strings fl fs)
unfolding family_strings
family_strings-HasLength fl [] = refl
family_strings-HasLength fl (f ∷ fs) =
    cons-HasLength (length fs) (byte_slice fl f) (family_strings fl fs)
      (family_strings-HasLength fl fs)

-- Add's texts are as many as the families that it renders.
strings-HasLength :
    (fl : Float64) (n : ℕ) (r : Result (List (Family fl.F)))
    → HasLength n r
    → HasLength n (r >>= family_strings fl)
strings-HasLength fl n (ok fs) h =
    subst (λ k. HasLength k (family_strings fl fs)) h (family_strings-HasLength fl fs)
strings-HasLength fl n (err e) h = tt
strings-HasLength fl n panic h = tt

-- An entry of a store with `n` headers.
abbrev pub HasFamilies : ℕ → Bytes × List Bytes → Type 0
HasFamilies n e = length e.1 ≡ n

-- A store whose headers are `hs`.
pub record IsZipped {F Obj : Type 0} (hs : List Bytes) (s : MetricsStore F Obj) : Type 0 where
  pub same : s.headers ≡ hs
  pub entries : All (HasFamilies (length hs)) s.metrics
  pub generates : (obj : Obj) → HasLength (length hs) (s.generate_metrics_func obj)

module _ (fl : Float64) {Obj : Type 0} (accessor : Accessor Obj) (hs : List Bytes) where
  -- An Add makes an entry with a slice for each family that is generated.
  Makes-HasFamilies :
      (generate_func : Obj → Result (List (Family fl.F)))
      → ((o : Obj) → HasLength (length hs) (generate_func o))
      → (o : Obj) → Makes fl accessor hs generate_func (HasFamilies (length hs)) o
  Makes-HasFamilies generate_func generates o m bs good made =
      subst (HasLength (length hs)) made
        (strings-HasLength fl (length hs) (generate_func o) (generates o))

  pub run-IsZipped :
      (ops : List (Operation Obj)) (s : MetricsStore fl.F Obj)
      → IsZipped hs s
      → IsZipped hs (run fl accessor ops s)
  run-IsZipped ops s z =
      let after =
        run-HasEntries fl accessor hs s.generate_metrics_func (HasFamilies (length hs)) ops s
          (record { same_headers = z.same; same_func = λ o. refl; entries = z.entries })
          (Each-always _ (Makes-HasFamilies s.generate_metrics_func z.generates) ops) in
      record {
        same = after.same_headers;
        entries = after.entries;
        generates = λ o. subst (HasLength (length hs)) (sym (after.same_func o)) (z.generates o);
      }
