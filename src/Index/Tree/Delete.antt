-- ===== src/Index/Tree/Delete.antt =====
-- `delete_entry` of BplusTreeHandler (bplus_tree.cpp), with the merge and the redistribution of nodes. The two
-- instances of each template are one function on pages. The latch memo disposes of a page when the operation
-- ends; here it goes at once, as nothing reads it afterwards. The fuel bounds the height.
use csu_dbms.Base.{
  ℕ, zero, suc, ◌+◌, ◌-◌, Bool, true, false, ltb, leb, ◌==◌, if◌then◌else◌, Option, none, some,
}
use csu_dbms.Rc.{success, empty, record_not_exist, is_success}
use csu_dbms.LowerBound.{Sign}
use csu_dbms.Index.Leaf.{LeafNode}
use csu_dbms.Index.Internal.{InternalNode}
use csu_dbms.Index.Leaf
use csu_dbms.Index.Internal
use csu_dbms.Index.Tree.{
  Page, leaf_page, internal_page, Tree, Outcome, page_size, max_size, min_size, parent_page_num,
  as_leaf, as_internal, put, set_parent, adopt, update_root_page_num_locked, find_leaf,
}

module _ {K : Type 0} where
  abbrev pub page_key_at : Page K → ℕ → Option K
  page_key_at (leaf_page node) index = Leaf.key_at node index
  page_key_at (internal_page node) index = Internal.key_at node index

  abbrev pub dispose_page : Tree K → ℕ → Tree K
  dispose_page t page_num = put t page_num none

  -- Two nodes are written; the children that moved get their parent, between the writes of the two.
  abbrev pub put_moved :
      Tree K → ℕ × InternalNode K → ℕ × InternalNode K → (ℕ → K × ℕ) → ℕ → ℕ → Bool × Tree K
  put_moved t (from, node) (to, other) array start num =
      let (all, t1) = adopt (put t to (some (internal_page other))) array start num to in
      (all, if all then put t1 from (some (internal_page node)) else t1)

  -- `move_to` of the two kinds of nodes, from one page to another; the first answer is whether it succeeded.
  abbrev pub move_page_to : Tree K → ℕ × Page K → ℕ × Page K → Option (Bool × Tree K)
  move_page_to t (from, leaf_page node) (to, leaf_page other) =
      let (node', other') = Leaf.move_to node other in
      some (true, put (put t to (some (leaf_page other'))) from (some (leaf_page node')))
  move_page_to t (from, internal_page node) (to, internal_page other) =
      let (node', other') = Internal.move_to node other in
      some (put_moved t (from, node') (to, other') node.items.array 0 (Internal.size node))
  move_page_to t (from, leaf_page node) (to, internal_page other) = none
  move_page_to t (from, internal_page node) (to, leaf_page other) = none

  abbrev pub written_leaves : Tree K → ℕ → ℕ → Option (LeafNode K × LeafNode K) → Option (Tree K)
  written_leaves t from to none = none
  written_leaves t from to (some (node, other)) =
      some (put (put t to (some (leaf_page other))) from (some (leaf_page node)))

  abbrev pub written_nodes :
      Tree K → ℕ → ℕ → (ℕ → K × ℕ) → ℕ → Option (InternalNode K × InternalNode K) → Option (Tree K)
  written_nodes t from to array moved none = none
  written_nodes t from to array moved (some (node, other)) =
      some ((put_moved t (from, node) (to, other) array moved 1).1)

  abbrev pub move_first_to_end : Tree K → ℕ × Page K → ℕ × Page K → Option (Tree K)
  move_first_to_end t (from, leaf_page node) (to, leaf_page other) =
      written_leaves t from to (Leaf.move_first_to_end node other)
  move_first_to_end t (from, internal_page node) (to, internal_page other) =
      written_nodes t from to node.items.array 0 (Internal.move_first_to_end node other)
  move_first_to_end t (from, leaf_page node) (to, internal_page other) = none
  move_first_to_end t (from, internal_page node) (to, leaf_page other) = none

  abbrev pub move_last_to_front : Tree K → ℕ × Page K → ℕ × Page K → Option (Tree K)
  move_last_to_front t (from, leaf_page node) (to, leaf_page other) =
      written_leaves t from to (Leaf.move_last_to_front node other)
  move_last_to_front t (from, internal_page node) (to, internal_page other) =
      written_nodes t from to node.items.array (Internal.size node - 1)
        (Internal.move_last_to_front node other)
  move_last_to_front t (from, leaf_page node) (to, internal_page other) = none
  move_last_to_front t (from, internal_page node) (to, leaf_page other) = none

  -- `parent_node.set_key_at(index, node.key_at(0))`, both nodes read from their pages.
  unfoldable pub copy_key : Tree K → ℕ → ℕ → ℕ → Outcome K
  copy_key t parent_page index page_num = elim (t.pages page_num) [
    | none ↦ none
    | some page ↦ elim (page_key_at page 0) [
      | none ↦ none
      | some key ↦ elim (as_internal (t.pages parent_page)) [
        | none ↦ none
        | some parent ↦ elim (Internal.set_key_at parent index key) [
          | none ↦ none
          | some parent' ↦ some (success, put t parent_page (some (internal_page parent')))
        ]
      ]
    ]
  ]

  -- The neighbour is to the right of the first child, and else to the left.
  unfoldable pub redistribute : Tree K → ℕ × Page K → ℕ × Page K → ℕ → ℕ → Outcome K
  redistribute t neighbor node parent_page index =
      if index == 0
      then (elim (move_first_to_end t neighbor node) [
        | none ↦ none
        | some t' ↦ copy_key t' parent_page (index + 1) neighbor.0
      ])
      else (elim (move_last_to_front t neighbor node) [
        | none ↦ none
        | some t' ↦ copy_key t' parent_page index node.0
      ])

  -- `adjust_root`, whose code its caller does not read.
  unfoldable pub adjust_root : Tree K → ℕ → Page K → Option (Tree K)
  adjust_root t page_num (leaf_page node) =
      if ltb 0 (Leaf.size node)
      then some t
      else some (dispose_page (update_root_page_num_locked t none) page_num)
  adjust_root t page_num (internal_page node) = elim (Internal.value_at node 0) [
    | none ↦ none
    | some child ↦ elim (t.pages child) [
      | none ↦ some t
      | some page ↦ some (
          dispose_page (update_root_page_num_locked (set_parent t child none) (some child))
            page_num)
    ]
  ]

  -- `left_leaf_node.set_next_page(right_leaf_node.next_page())`, when the nodes are leaves.
  unfoldable pub chain_leaves : Tree K → ℕ → ℕ → Tree K
  chain_leaves t left right = elim (as_leaf (t.pages left)) [
    | none ↦ t
    | some l ↦ elim (as_leaf (t.pages right)) [
      | none ↦ t
      | some r ↦ put t left (some (leaf_page (Leaf.set_next_page l r.next_brother)))
    ]
  ]

  -- `coalesce` up to its last call: the right page goes out of the parent and its items to the left one.
  unfoldable pub merge : Tree K → ℕ × Page K → ℕ × Page K → ℕ → InternalNode K → ℕ → Outcome K
  merge t left right parent_page parent index = elim (Internal.remove parent index) [
    | none ↦ none
    | some parent' ↦
        elim (move_page_to (put t parent_page (some (internal_page parent'))) right left) [
          | none ↦ none
          | some (moved, t') ↦
              if moved
              then some (success, dispose_page (chain_leaves t' left.0 right.0) right.0)
              else some (t'.page_error, t')
        ]
  ]

module _ {K : Type 0} (comparator : K → K → Sign) where
  unfoldable pub coalesce_or_redistribute : ℕ → Tree K → ℕ → Outcome K
  coalesce_or_redistribute zero t page_num = none
  coalesce_or_redistribute (suc fuel) t page_num = elim (t.pages page_num) [
    | none ↦ none
    | some page ↦ elim (leb (min_size t page) (page_size page)) [
      | true ↦ some (success, t)
      | false ↦ elim (parent_page_num page) [
        | none ↦ elim (ltb 1 (page_size page)) [
          | true ↦ some (success, t)
          | false ↦ elim (adjust_root t page_num page) [
            | none ↦ none
            | some t' ↦ some (success, t')
          ]
        ]
        | some parent_page ↦ elim (as_internal (t.pages parent_page)) [
          | none ↦ some (t.page_error, t)
          | some parent ↦ elim (page_key_at page (page_size page - 1)) [
            | none ↦ none
            | some key ↦
                let index = (Internal.lookup comparator parent key).child in
                let beside = if index == 0 then 1 else index - 1 in
                elim (Internal.value_at parent index) [
                  | none ↦ none
                  | some own ↦ elim (own == page_num) [
                    | false ↦ none
                    | true ↦ elim (Internal.value_at parent beside) [
                      | none ↦ none
                      | some neighbor_num ↦ elim (t.pages neighbor_num) [
                        | none ↦ some (t.page_error, t)
                        | some neighbor ↦
                            elim (ltb (max_size t page) (page_size page + page_size neighbor)) [
                              | true ↦
                                  redistribute t (neighbor_num, neighbor) (page_num, page)
                                    parent_page index
                              | false ↦
                                  let merged =
                                    if index == 0
                                    then merge t (page_num, page) (neighbor_num, neighbor)
                                        parent_page parent (index + 1)
                                    else merge t (neighbor_num, neighbor) (page_num, page)
                                        parent_page parent index in
                                  elim merged [
                                    | none ↦ none
                                    | some (rc, t') ↦ elim (is_success rc) [
                                      | true ↦ coalesce_or_redistribute fuel t' parent_page
                                      | false ↦ some (rc, t')
                                    ]
                                  ]
                            ]
                      ]
                    ]
                  ]
                ]
          ]
        ]
      ]
    ]
  ]

  unfoldable pub delete_entry_internal : ℕ → Tree K → ℕ → K → Outcome K
  delete_entry_internal fuel t page_num key = elim (as_leaf (t.pages page_num)) [
    | none ↦ none
    | some node ↦
        let (remove_count, node') = Leaf.remove comparator node key in
        let t' = put t page_num (some (leaf_page node')) in
        if remove_count == 0
        then some (record_not_exist, t)
        else (if leb (min_size t (leaf_page node')) (Leaf.size node')
            then some (success, t')
            else coalesce_or_redistribute fuel t' page_num)
  ]

  -- The key is the one of the attribute and the record id; that it finds no memory, and the end of the mini
  -- transaction are left out.
  unfoldable pub delete_entry : ℕ → Tree K → K → Outcome K
  delete_entry fuel t key = elim (find_leaf comparator fuel t key) [
    | none ↦ none
    | some (success, page_num) ↦ delete_entry_internal fuel t page_num key
    | some (empty, page_num) ↦ some (record_not_exist, t)
    | some (rc, page_num) ↦ some (rc, t)
  ]
