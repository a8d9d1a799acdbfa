-- ===== src/Index/Runs.antt =====
-- Insertions and deletions of the index (bplus_tree.cpp), run on a tree whose nodes have three items at most.
use csu_dbms.Base.{ℕ, zero, suc, ◌≡◌, refl, true, false, Option, none, some, List, [], ◌∷◌, map}
use csu_dbms.Rc.{success, notfound, bufferpool_nobuf, is_success}
use csu_dbms.LowerBound.{lower_bound, search}
use csu_dbms.Index.Key.{Rid, difference}
use csu_dbms.Index.Items.{copy_items, make_room, close_gap, slice}
use csu_dbms.Index.Leaf.{LeafNode}
use csu_dbms.Index.Leaf
use csu_dbms.Index.Tree.{Tree, Outcome, as_leaf, put, set_parent, adopt, descend, left_most_page}
use csu_dbms.Index.Tree.Insert.{
  insert_entry, insert_entry_into_leaf_node, insert_entry_into_parent, create_new_tree,
}
use csu_dbms.Index.Tree.Delete.{
  delete_entry, delete_entry_internal, coalesce_or_redistribute, merge, redistribute, copy_key,
  adjust_root, chain_leaves,
}

abbrev new_tree : Tree ℕ
new_tree = record {
  root_page = none;
  leaf_max_size = 3;
  internal_max_size = 3;
  pages = λ n. none;
  supply = 2 ∷ 3 ∷ 4 ∷ 5 ∷ 6 ∷ 7 ∷ 8 ∷ 9 ∷ [];
  page_error = notfound;
  allocate_error = bufferpool_nobuf;
}

abbrev rid_of : ℕ → Rid
rid_of n = record { page_num = n; slot_num = 0 }

unfoldable inserted : Tree ℕ → List ℕ → Option (Tree ℕ)
inserted t [] = some t
inserted t (k ∷ ks) = elim (insert_entry 0 difference 5 t k (rid_of k)) [
  | none ↦ none
  | some (rc, t') ↦ elim (is_success rc) [ true ↦ inserted t' ks | false ↦ none ]
]

unfoldable deleted : Tree ℕ → List ℕ → Option (Tree ℕ)
deleted t [] = some t
deleted t (k ∷ ks) = elim (delete_entry difference 5 t k) [
  | none ↦ none
  | some (rc, t') ↦ elim (is_success rc) [ true ↦ deleted t' ks | false ↦ none ]
]

-- The keys of a chain of leaves.
unfoldable chain : ℕ → Tree ℕ → Option ℕ → List (List ℕ)
chain zero t page = []
chain (suc fuel) t none = []
chain (suc fuel) t (some n) = elim (as_leaf (t.pages n)) [
  | none ↦ []
  | some node ↦
      map (λ item. item.0) (slice node.items.array 0 (Leaf.size node))
      ∷ chain fuel t node.next_brother
]

unfoldable leaves : Option (Tree ℕ) → List (List ℕ)
leaves none = []
leaves (some t) = elim (left_most_page 5 t) [ none ↦ [] | some (rc, n) ↦ chain 9 t (some n) ]

abbrev keys : List ℕ
keys = 5 ∷ 1 ∷ 9 ∷ 3 ∷ 7 ∷ 2 ∷ 8 ∷ 4 ∷ 6 ∷ []

after_inserts :
    leaves (inserted new_tree keys)
    ≡ (1 ∷ 2 ∷ []) ∷ (3 ∷ 4 ∷ []) ∷ (5 ∷ 6 ∷ []) ∷ (7 ∷ 8 ∷ 9 ∷ []) ∷ []
unfolding inserted leaves chain insert_entry insert_entry_into_leaf_node insert_entry_into_parent
    create_new_tree put set_parent adopt descend copy_items make_room close_gap slice lower_bound
    search difference
after_inserts = refl

-- Deletions that merge leaves and internal nodes until one leaf is left.
after_deletes :
    leaves (elim (inserted new_tree keys) [
      | none ↦ none
      | some t ↦ deleted t (9 ∷ 8 ∷ 7 ∷ 6 ∷ 5 ∷ 1 ∷ [])
    ])
    ≡ (2 ∷ 3 ∷ 4 ∷ []) ∷ []
unfolding inserted deleted leaves chain insert_entry insert_entry_into_leaf_node
    insert_entry_into_parent create_new_tree put set_parent adopt descend copy_items make_room
    close_gap slice lower_bound search difference delete_entry delete_entry_internal
    coalesce_or_redistribute merge redistribute copy_key adjust_root chain_leaves
after_deletes = refl

-- With at most three children an internal node is split into one child and two; a deletion below the one fails the
-- assertion of `value_at(1)`.
only_child_fails :
    ◌≡◌ {A = Outcome ℕ}
      (elim (inserted new_tree keys) [
        | none ↦ some (success, new_tree)
        | some t ↦ delete_entry difference 5 t 1
      ])
      none
unfolding inserted insert_entry insert_entry_into_leaf_node insert_entry_into_parent create_new_tree
    put set_parent adopt descend copy_items make_room close_gap slice lower_bound search difference
    delete_entry delete_entry_internal coalesce_or_redistribute merge redistribute copy_key
    adjust_root chain_leaves
only_child_fails = refl
