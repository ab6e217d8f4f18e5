-- ===== src/AllowDenyList/Laws.antt =====
-- What an allow- or denylist includes.
use kube_state_metrics.Prelude.{
  ◌≡◌, refl, sym, ap, ◌↔◌, ◌⊎◌, inl, inr, Bool, true, false, not, ◌&&◌, ◌||◌, List, [], ◌∷◌, ◌++◌,
  arith, any, if◌then◌else◌, Bool-cases,
}
use kube_state_metrics.Prelude.Text.{Bytes}
use kube_state_metrics.Prelude.Assoc.{has, lookup, keys, any-keys, any-keys_of_has}
use kube_state_metrics.Api.{Try-cases}
use kube_state_metrics.AllowDenyList.{
  StringSet, RegexpPackage, AllowDenyList, is_empty, copy_list, new, compile_all, parsed, parse,
  include, exclude, matched, is_included,
}
use kube_state_metrics.AllowDenyList.Sets.{member, has-copy_list, has-insert_all, has-delete_all}

has-copied : (j : Bytes) (l : StringSet) → has j (copy_list l []) ≡ has j l
unfolding lookup
has-copied j l = ground (arith, has-copy_list j l [])

module _ (re : RegexpPackage) where
  open re use {Regexp, compile, match_string}

  -- New fails if both sets have members, and only then. Otherwise the list is an allowlist exactly
  -- if the allow set has members; it has the members of that set then, and those of the deny set
  -- if not; and it matches nothing before Parse.
  new_lem :
      (allow deny : StringSet)
      → ((is_empty allow || is_empty deny) ≡ false × (e : Bytes) × (new re allow deny ≡ inl e))
        ⊎ ((is_empty allow || is_empty deny) ≡ true
            × (l : AllowDenyList re) × (new re allow deny ≡ inr l)
            × (l.is_allow_list ≡ not (is_empty allow))
            × ((j : Bytes) → has j l.list ≡ (if l.is_allow_list then has j allow else has j deny))
            × (l.r_list ≡ []))
  unfolding new
  new_lem allow deny = elim (Bool-cases (is_empty allow)) [
    | inl no_allow ↦ inr (
        rw no_allow (
          refl,
          record { list = copy_list deny []; r_list = []; is_allow_list = false },
          refl,
          refl,
          (λ j. has-copied j deny),
          refl,
        ))
    | inr allow_set ↦ elim (Bool-cases (is_empty deny)) [
      | inl no_deny ↦ inr (
          rw (allow_set, no_deny)
            (
              refl,
              record { list = copy_list allow []; r_list = []; is_allow_list = true },
              refl,
              refl,
              (λ j. has-copied j allow),
              refl,
            ))
      | inr deny_set ↦ inl (rw (allow_set, deny_set) (refl, _, refl))
    ]
  ]

  -- The patterns of a list, tried one by one.
  abbrev pub matches : Bytes → Bytes → Bool
  matches item pattern = elim (compile pattern) [ inl e ↦ false | inr r ↦ match_string r item ]

  matched-append :
      (rs : List Regexp) (r : Regexp) (item : Bytes)
      → matched re (rs ++ r ∷ []) item ≡ (matched re rs item || match_string r item)
  unfolding matched
  matched-append [] r item = ground arith
  matched-append (r' ∷ rs) r item = ground (arith, matched-append rs r item)

  compile_all_lem :
      (items : List Bytes) (regexes rs : List Regexp) (item : Bytes)
      → compile_all re items regexes ≡ inr rs
      → matched re rs item ≡ (matched re regexes item || any (matches item) items)
  unfolding compile_all
  compile_all_lem [] regexes rs item h = ground arith
  compile_all_lem (p ∷ items) regexes rs item h = elim (Try-cases (compile p)) [
    | inl (e, bad) ↦ let stop : inl e ≡ inr rs = rw (bad, compile_all) at h in cc stop
    | inr (r, good) ↦
        let ih = compile_all_lem items (regexes ++ r ∷ []) rs item (rw (good, compile_all) at h) in
        ground (arith, ih, matched-append regexes r item)
  ]

  parse_cases :
      (l l' : AllowDenyList re)
      → parse re l ≡ (inr tt, l')
      → (rs : List Regexp) × (compile_all re (keys l.list) [] ≡ inr rs)
        × (l' ≡ record l { r_list = rs })
  unfolding parse parsed
  parse_cases l l' h = elim (Try-cases (compile_all re (keys l.list) [])) [
    | inl (e, bad) ↦ let stop : inl e ≡ inr tt = ap (λ p. p.0) (rw bad at h) in cc stop
    | inr (rs, good) ↦ (rs, good, sym (ap (λ p. p.1) (rw good at h)))
  ]

  included_iff :
      (l : AllowDenyList re) (rs : List Regexp) (item : Bytes)
      → compile_all re (keys l.list) [] ≡ inr rs
      → is_included re (record l { r_list = rs }) item
        ≡ (if any (matches item) (keys l.list) then l.is_allow_list else not l.is_allow_list)
  unfolding is_included matched
  included_iff l rs item h = ground (arith, compile_all_lem (keys l.list) [] rs item h)

  -- After a Parse that succeeds, an item goes the way of the list (included by an allowlist, not
  -- included by a denylist) exactly if the set has a pattern that matches it, whatever order the
  -- set was compiled in; the set and its kind are as before.
  pub is_included-parse :
      (l l' : AllowDenyList re) (item : Bytes)
      → parse re l ≡ (inr tt, l')
      → ((is_included re l' item ≡ l.is_allow_list)
          ↔ ((p : Bytes) × (has p l.list ≡ true) × (matches item p ≡ true)))
        × (l'.list ≡ l.list)
        × (l'.is_allow_list ≡ l.is_allow_list)
  is_included-parse l l' item h =
      let (rs, compiled, e) = parse_cases l l' h in
      let by_patterns = included_iff l rs item compiled in
      rw e (
        (
          λ q. any-keys (matches item) l.list (ground (arith, by_patterns)),
          λ (p, there, good).
              ground (arith, by_patterns, any-keys_of_has (matches item) l.list p there good),
        ),
        refl,
        refl,
      )

  abbrev pub fails : Bytes → Bool
  fails p = elim (compile p) [ inl e ↦ true | inr r ↦ false ]

  compile_all_outcome :
      (items : List Bytes) (regexes : List Regexp)
      → (any fails items ≡ true × (e : Bytes) × (compile_all re items regexes ≡ inl e))
        ⊎ (any fails items ≡ false × (rs : List Regexp) × (compile_all re items regexes ≡ inr rs))
  unfolding compile_all
  compile_all_outcome [] regexes = inr (refl, regexes, refl)
  compile_all_outcome (p ∷ items) regexes = elim (Try-cases (compile p)) [
    | inl (e, bad) ↦ inl (ground arith, e, rw (bad, compile_all))
    | inr (r, good) ↦ elim (compile_all_outcome items (regexes ++ r ∷ [])) [
      | inl (some_bad, e, stop) ↦ inl (ground arith, e, rw (good, compile_all) stop)
      | inr (none_bad, rs, done) ↦ inr (ground arith, rs, rw (good, compile_all) done)
    ]
  ]

  -- Parse either fails, because some pattern of the set does not compile, and then changes
  -- nothing; or every pattern compiles, and it changes only the compiled expressions.
  pub parse_outcome :
      (l : AllowDenyList re)
      → (((p : Bytes) × (has p l.list ≡ true) × (fails p ≡ true))
          × (e : Bytes) × (parse re l ≡ (inl e, l)))
        ⊎ ((any fails (keys l.list) ≡ false)
            × (rs : List Regexp) × (parse re l ≡ (inr tt, record l { r_list = rs })))
  unfolding parse parsed
  parse_outcome l = elim (compile_all_outcome (keys l.list) []) [
    | inl (some_bad, e, stop) ↦ inl (any-keys fails l.list some_bad, e, rw stop)
    | inr (none_bad, rs, done) ↦ inr (none_bad, rs, rw done)
  ]

  -- Include adds the items to an allowlist's set and takes them out of a denylist's; no other
  -- member comes or goes, and what is included stays as it was until the next Parse.
  include_lem :
      (items : List Bytes) (l : AllowDenyList re) (j item : Bytes)
      → (has j (include re items l).list ≡ (
          if l.is_allow_list
          then member j items || has j l.list
          else not (member j items) && has j l.list))
        × (is_included re (include re items l) item ≡ is_included re l item)
  unfolding include is_included
  include_lem items l j item =
      (ground (arith, has-insert_all j items l.list, has-delete_all j items l.list), ground arith)

  -- Exclude takes the items out of an allowlist's set and adds them to a denylist's; no other
  -- member comes or goes, and what is included stays as it was until the next Parse.
  pub exclude_lem :
      (items : List Bytes) (l : AllowDenyList re) (j item : Bytes)
      → (has j (exclude re items l).list ≡ (
          if l.is_allow_list
          then not (member j items) && has j l.list
          else member j items || has j l.list))
        × (is_included re (exclude re items l) item ≡ is_included re l item)
  unfolding exclude is_included
  exclude_lem items l j item =
      (ground (arith, has-insert_all j items l.list, has-delete_all j items l.list), ground arith)
