-- ===== src/AllowDenyList/Sets.antt =====
-- The sets of strings of an allow- or denylist, by their members.
use kube_state_metrics.Prelude.{◌≡◌, refl, Bool, not, ◌&&◌, ◌||◌, List, [], ◌∷◌, arith, any}
use kube_state_metrics.Prelude.Text.{Bytes, ◌==◌}
use kube_state_metrics.Prelude.Assoc.{has, lookup, insert, delete, has-insert, has-delete}
use kube_state_metrics.AllowDenyList.{StringSet, copy_list, insert_all, delete_all}

-- `j` is one of the items.
abbrev pub member : Bytes → List Bytes → Bool
member j items = any (λ item. item == j) items

pub has-copy_list :
    (j : Bytes) (l new_list : StringSet)
    → has j (copy_list l new_list) ≡ (has j l || has j new_list)
unfolding copy_list lookup
has-copy_list j [] new_list = refl
has-copy_list j ((k, v) ∷ l) new_list =
    ground (arith, has-copy_list j l (insert k v new_list), has-insert k j v new_list)

pub has-insert_all :
    (j : Bytes) (items : List Bytes) (l : StringSet)
    → has j (insert_all items l) ≡ (member j items || has j l)
unfolding insert_all
has-insert_all j [] l = refl
has-insert_all j (k ∷ items) l =
    ground (arith, has-insert_all j items (insert k tt l), has-insert k j tt l)

pub has-delete_all :
    (j : Bytes) (items : List Bytes) (l : StringSet)
    → has j (delete_all items l) ≡ (not (member j items) && has j l)
unfolding delete_all
has-delete_all j [] l = refl
has-delete_all j (k ∷ items) l =
    ground (arith, has-delete_all j items (delete k l), has-delete k j l)
