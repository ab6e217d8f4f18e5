-- ===== src/Api.antt =====
-- What the code uses of the Kubernetes client libraries (k8s.io/apimachinery, k8s.io/client-go),
-- which it does not implement: parameters of the functions that call them.
use kube_state_metrics.Prelude.{
  ◌≡◌, refl, ◌⊎◌, inl, inr, Bool, Option, List, [], ◌∷◌, if◌then◌else◌,
}
use kube_state_metrics.Prelude.Text.{Bytes}

-- A Go function that returns a value or an error.
abbrev pub Try {ℓ} : Type ℓ → Type ℓ
Try A = Bytes ⊎ A

-- metav1.Object, as far as the code reads it.
pub record ObjectMeta : Type 0 where
  pub uid : Bytes
  pub name : Bytes
  pub namespace : Bytes
  -- the object is a `*v1.Namespace`
  pub is_namespace : Bool

-- meta.Accessor fails on values that are no Kubernetes objects.
abbrev pub Accessor : Type 0 → Type 0
Accessor Obj = Obj → Try ObjectMeta

pub Try-cases {ℓ} : {A : Type ℓ} (t : Try A) → ((e : Bytes) × (t ≡ inl e)) ⊎ ((a : A) × (t ≡ inr a))
Try-cases (inl e) = inl (e, refl)
Try-cases (inr a) = inr (a, refl)

-- metav1.OwnerReference
pub record OwnerReference : Type 0 where
  pub api_version : Bytes
  pub kind : Bytes
  pub controller : Option Bool
  pub name : Bytes

-- metav1.ListOptions, as far as the code reads and writes it.
pub record ListOptions : Type 0 where
  pub resource_version : Bytes
  pub field_selector : Bytes

-- A runtime.Object that stands for a list: what meta.ExtractList makes of it, and the resource
-- version behind meta.ListAccessor.
pub record ObjectList (Obj : Type 0) : Type 0 where
  pub extract_list : Try (List Obj)
  pub list_accessor : Try Bytes

-- A `metav1.List` with these items and this resource version.
abbrev pub metav1_list : {Obj : Type 0} → List Obj → Bytes → ObjectList Obj
metav1_list items version = record { extract_list = inr items; list_accessor = inr version }

-- watch.Event
pub record Event (Obj : Type 0) : Type 0 where
  pub type : Bytes
  pub object : Obj

-- k8s.io/apimachinery/pkg/watch: a stream, as the events that it delivers, and watch.Filter, which
-- hands every event to a function and delivers what it returns if the function says so.
pub record WatchPackage (Obj : Type 0) : Type 1 where
  pub Watch : Type 0
  pub events : Watch → List (Event Obj)
  pub filter : Watch → (Event Obj → Event Obj × Bool) → Watch

-- Those of the events that the function keeps, as the function returns them.
abbrev pub kept :
    {Obj : Type 0} → (Event Obj → Event Obj × Bool) → List (Event Obj) → List (Event Obj)
kept f [] = []
kept f (e ∷ es) = let rest = kept f es in let (e', keep) = f e in if keep then e' ∷ rest else rest

pub record WatchLaws {Obj : Type 0} (wp : WatchPackage Obj) : Type 1 where
  pub events-filter :
      (w : wp.Watch) (f : Event Obj → Event Obj × Bool)
      → wp.events (wp.filter w f) ≡ kept f (wp.events w)

-- cache.ListerWatcher: what a call of List or Watch gives back as things stand. The API server may
-- answer a later call otherwise, so a theorem about several calls has one of these for each call.
pub record ListerWatcher (Obj Watch : Type 0) : Type 0 where
  pub list : ListOptions → Try (ObjectList Obj)
  pub watch : ListOptions → Try Watch
