-- ===== src/AllowDenyList.antt =====
-- The allow- or denylist of metrics: pkg/allowdenylist/allowdenylist.go. A set of strings is a map
-- to Unit; `range` over it takes the order of its entries. Regular expressions are those of Go's
-- `regexp` package, which enters as a record: what compiles, and what a compiled one matches.
pub mod Sets
pub mod Laws
pub mod Tests
use kube_state_metrics.Prelude.{
  inl, inr, Bool, true, false, not, ◌&&◌, List, [], ◌∷◌, ◌++◌, length, nat_beq, if◌then◌else◌,
}
use kube_state_metrics.Prelude.Text.{Bytes, codes, join}
use kube_state_metrics.Prelude.Assoc.{Map, insert, delete, keys}
use kube_state_metrics.Api.{Try}
use kube_state_metrics.Generator.{AllowDenyLister}

abbrev pub StringSet : Type 0
StringSet = Map (Unit {0})

pub record RegexpPackage : Type 1 where
  pub Regexp : Type 0
  -- regexp.Compile
  pub compile : Bytes → Try Regexp
  -- (*Regexp).MatchString
  pub match_string : Regexp → Bytes → Bool

-- copyList
unfoldable pub copy_list : StringSet → StringSet → StringSet
copy_list [] new_list = new_list
copy_list ((k, v) ∷ l) new_list = copy_list l (insert k v new_list)

pub insert_all : List Bytes → StringSet → StringSet
insert_all [] l = l
insert_all (item ∷ items) l = insert_all items (insert item tt l)

pub delete_all : List Bytes → StringSet → StringSet
delete_all [] l = l
delete_all (item ∷ items) l = delete_all items (delete item l)

-- len(l) == 0
unfoldable pub is_empty : StringSet → Bool
is_empty l = nat_beq (length l) 0

module _ (re : RegexpPackage) where
  open re use {Regexp, compile, match_string}

  pub record AllowDenyList : Type 0 where
    pub list : StringSet
    pub r_list : List Regexp
    pub is_allow_list : Bool

  -- New
  unfoldable pub new : StringSet → StringSet → Try AllowDenyList
  unfolding copy_list
  new allow deny =
      if not (is_empty allow) && not (is_empty deny)
      then inl (
          codes
            "allowlist and denylist are both set, they are mutually exclusive, only one of them can be set")
      else if not (is_empty allow)
      then inr (record { list = copy_list allow []; r_list = []; is_allow_list = true })
      else inr (record { list = copy_list deny []; r_list = []; is_allow_list = false })

  -- The loop of Parse.
  unfoldable pub compile_all : List Bytes → List Regexp → Try (List Regexp)
  compile_all [] regexes = inr regexes
  compile_all (item ∷ items) regexes = elim (compile item) [
    | inl e ↦ inl e
    | inr r ↦ compile_all items (regexes ++ r ∷ [])
  ]

  unfoldable pub parsed : Try (List Regexp) → AllowDenyList → Try (Unit {0}) × AllowDenyList
  parsed (inl e) l = (inl e, l)
  parsed (inr regexes) l = (inr tt, record l { r_list = regexes })

  -- (*AllowDenyList).Parse
  unfoldable pub parse : AllowDenyList → Try (Unit {0}) × AllowDenyList
  unfolding compile_all parsed
  parse l = parsed (compile_all (keys l.list) []) l

  -- (*AllowDenyList).Include
  unfoldable pub include : List Bytes → AllowDenyList → AllowDenyList
  unfolding insert_all delete_all
  include items l =
      if l.is_allow_list
      then record l { list = insert_all items l.list }
      else record l { list = delete_all items l.list }

  -- (*AllowDenyList).Exclude
  unfoldable pub exclude : List Bytes → AllowDenyList → AllowDenyList
  unfolding insert_all delete_all
  exclude items l =
      if l.is_allow_list
      then record l { list = delete_all items l.list }
      else record l { list = insert_all items l.list }

  -- The loop of IsIncluded; it breaks at the first match.
  matched : List Regexp → Bytes → Bool
  matched [] item = false
  matched (r ∷ rs) item = let rest = matched rs item in if match_string r item then true else rest

  -- (*AllowDenyList).IsIncluded
  unfoldable pub is_included : AllowDenyList → Bytes → Bool
  unfolding matched
  is_included l item =
      if l.is_allow_list then matched l.r_list item else not (matched l.r_list item)

  -- (*AllowDenyList).IsExcluded
  unfoldable pub is_excluded : AllowDenyList → Bytes → Bool
  unfolding is_included
  is_excluded l item = not (is_included l item)

  -- (*AllowDenyList).Status
  unfoldable pub status : AllowDenyList → Bytes
  status l =
      if l.is_allow_list
      then codes "Including the following lists that were on allowlist: "
        ++ join (keys l.list) (codes ", ")
      else codes "Excluding the following lists that were on denylist: "
        ++ join (keys l.list) (codes ", ")

  -- As the interface that the generators filter by.
  unfoldable pub lister : AllowDenyList → AllowDenyLister
  unfolding is_included is_excluded
  lister l = record { is_included = is_included l; is_excluded = is_excluded l }
