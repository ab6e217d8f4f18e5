-- ===== src/Builder/Resources.antt =====
-- WithEnabledResources, and the defaults of pkg/options/resource.go.
use mathlib.Core.List.{Permᴰ}
use kube_state_metrics.Prelude.{
  ◌≡◌, refl, ◌⊎◌, inl, inr, true, false, List, [], ◌∷◌, ◌++◌, All, All-perm, Bool-cases,
}
use kube_state_metrics.Prelude.Text.{Bytes, codes, ◌==◌}
use kube_state_metrics.Prelude.Assoc.{lookup, keys, keys-perm}
use kube_state_metrics.Go.Sort.{
  sort_strings, sort_strings-perm, perm-sort_strings, IsSorted, sort_strings-IsSorted,
}
use kube_state_metrics.AllowDenyList.{StringSet}
use kube_state_metrics.Options.{default_resources}
use kube_state_metrics.Builder.{
  Clients, Builder, check_resources, enabled, with_enabled_resources, resource_exists,
}

-- The resources all have a store.
abbrev pub AllExist : List Bytes → Type 0
AllExist = All (λ col. resource_exists col ≡ true)

-- The text of the error for a resource.
abbrev missing : Bytes → Bytes
missing col = codes "resource " ++ col ++ codes " does not exist."

-- The loop passes over resources that exist up to one that does not, if there is one.
check_resources_lem :
    (r : List Bytes)
    → ((check_resources r ≡ inr tt) × AllExist r)
      ⊎ ((before : List Bytes) × (col : Bytes) × (after : List Bytes) × (r ≡ before ++ col ∷ after)
          × AllExist before
          × (resource_exists col ≡ false)
          × (check_resources r ≡ inl (missing col)))
unfolding check_resources
check_resources_lem [] = inl (refl, tt)
check_resources_lem (col ∷ r) = elim (Bool-cases (resource_exists col)) [
  | inr unknown ↦ inr ([], col, r, refl, tt, unknown, rw unknown)
  | inl known ↦ elim (check_resources_lem r) [
    | inl (passes, all) ↦ inl (rw known passes, (known, all))
    | inr (before, col', after, parts, all, unknown, fails) ↦
        inr (col ∷ before, col', after, rw parts, (known, all), unknown, rw known fails)
  ]
]

module _ {c : Clients} where
  -- WithEnabledResources either accepts the resources, which all have a store then, and keeps them
  -- sorted, none lost and none added; or it fails for the first resource without a store, which
  -- its error names, and leaves the builder as it was.
  pub with_enabled_resources_lem :
      (r : List Bytes) (b : Builder c)
      → (AllExist r
          × (s : List Bytes) × (with_enabled_resources r b
              ≡ (inr tt, record b { enabled_resources = s }))
          × Permᴰ r s
          × IsSorted s)
        ⊎ ((before : List Bytes) × (col : Bytes) × (after : List Bytes) × (r
              ≡ before ++ col ∷ after)
            × AllExist before
            × (resource_exists col ≡ false)
            × (with_enabled_resources r b
                ≡ (inl (codes "resource " ++ col ++ codes " does not exist."), b)))
  unfolding with_enabled_resources enabled
  with_enabled_resources_lem r b = elim (check_resources_lem r) [
    | inl (passes, all) ↦
        inl (all, sort_strings r, rw passes, perm-sort_strings r, sort_strings-IsSorted r)
    | inr (before, col, after, parts, all, unknown, fails) ↦
        inr (before, col, after, parts, all, unknown, rw fails)
  ]

all_accepted : (r : List Bytes) → check_resources r ≡ inr tt → AllExist r
all_accepted r passes = elim (check_resources_lem r) [
  | inl (_, all) ↦ all
  | inr (_, _, _, _, _, _, fails) ↦ cc (fails, passes)
]

defaults_exist : AllExist (keys default_resources)
defaults_exist =
    all_accepted (keys default_resources)
      (unfold check_resources resource_exists lookup ◌==◌ in refl)

-- The check accepts resources that all have a store.
accepted : (r : List Bytes) → AllExist r → check_resources r ≡ inr tt
unfolding check_resources
accepted [] all = refl
accepted (col ∷ r) (known, all) = rw known (accepted r all)

refused :
    (before after : List Bytes) (col : Bytes)
    → resource_exists col ≡ false
    → (e : Bytes) × (check_resources (before ++ col ∷ after) ≡ inl e)
unfolding check_resources
refused [] after col unknown = (missing col, rw unknown)
refused (x ∷ before) after col unknown = elim (Bool-cases (resource_exists x)) [
  | inl known ↦ let (e, fails) = refused before after col unknown in (e, rw known fails)
  | inr also ↦ (missing x, rw also)
]

module _ {c : Clients} where
  -- The default resources, in whatever order Go visits them, are accepted, and the builder keeps
  -- the same sorted list for each order.
  default_resources_accepted :
      (r : StringSet) (b : Builder c)
      → Permᴰ default_resources r
      → with_enabled_resources (keys r) b
        ≡ (inr tt, record b { enabled_resources = sort_strings (keys default_resources) })
  unfolding with_enabled_resources enabled
  default_resources_accepted r b p = rw (
    accepted (keys r) (All-perm (λ col. resource_exists col ≡ true) (keys-perm p) defaults_exist),
    sort_strings-perm (keys-perm p),
  )

  pub with_all_existing :
      (r : List Bytes) (b : Builder c)
      → AllExist r
      → with_enabled_resources r b ≡ (inr tt, record b { enabled_resources = sort_strings r })
  unfolding with_enabled_resources enabled
  with_all_existing r b all = rw (accepted r all)

  pub with_one_missing :
      (before after : List Bytes) (col : Bytes) (b : Builder c)
      → resource_exists col ≡ false
      → (e : Bytes) × (with_enabled_resources (before ++ col ∷ after) b ≡ (inl e, b))
  unfolding with_enabled_resources enabled
  with_one_missing before after col b unknown =
      let (e, fails) = refused before after col unknown in (e, rw fails)
