-- ===== src/Index/Tree/Insert.antt =====
-- `insert_entry` of BplusTreeHandler (bplus_tree.cpp), with the splits of leaves and internal nodes. `blank` is the
-- key of zero bytes; a page that the pool gives is filled with it. The fuel bounds the height.
use csu_dbms.Base.{
  ℕ, zero, suc, ◌-◌, ◌/◌, Bool, true, false, ltb, if◌then◌else◌, none, some, [], ◌∷◌,
}
use csu_dbms.Rc.{success, internal, record_duplicate_key, is_success}
use csu_dbms.LowerBound.{Sign, less, equal, greater}
use csu_dbms.Index.Key.{Rid}
use csu_dbms.Index.Leaf.{LeafNode}
use csu_dbms.Index.Internal.{InternalNode}
use csu_dbms.Index.Leaf
use csu_dbms.Index.Internal
use csu_dbms.Index.Tree.{
  leaf_page, internal_page, Tree, Outcome, parent_page_num, as_leaf, as_internal, put, set_parent,
  adopt, update_root_page_num_locked, find_leaf,
}

abbrev pub is_greater : Sign → Bool
is_greater less = false
is_greater equal = false
is_greater greater = true

module _ {K : Type 0} (blank : K) where
  abbrev pub new_leaf : Tree K → LeafNode K
  new_leaf t = Leaf.init_empty (λ i. (blank, record { page_num = 0; slot_num = 0 }))

  abbrev pub new_internal : Tree K → InternalNode K
  new_internal t = Internal.init_empty (λ i. (blank, 0))

  -- `split` of a leaf with the page that the pool gave: this node and the new one.
  abbrev pub split_leaf : Tree K → LeafNode K → LeafNode K × LeafNode K
  split_leaf t node = Leaf.move_half_to node (Leaf.set_parent_page_num (new_leaf t) node.parent)

  -- The two halves of a full leaf, chained, with the new entry in one of them.
  abbrev pub halves : Tree K → LeafNode K → ℕ → ℕ → K → Rid → LeafNode K × LeafNode K
  halves t node new_page insert_position key rid =
      let (short, filled) = split_leaf t node in
      let right =
        Leaf.set_parent_page_num (Leaf.set_next_page filled short.next_brother) short.parent in
      let left = Leaf.set_next_page short (some new_page) in
      if ltb insert_position (Leaf.size left)
      then (Leaf.insert left insert_position key rid, right)
      else (left, Leaf.insert right (insert_position - Leaf.size left) key rid)

  -- `split` of an internal node: its new page is filled, then the children get their parent. When one cannot be
  -- read, the node keeps its items, and `split` goes on.
  abbrev pub split_internal :
      Tree K → ℕ → InternalNode K → ℕ → InternalNode K × InternalNode K × Tree K
  split_internal t page_num node new_page =
      let created = Internal.set_parent_page_num (new_internal t) node.parent in
      let (short, filled) = Internal.move_half_to node created in
      let start = Internal.size node / 2 in
      let (all, t') =
        adopt (put t new_page (some (internal_page filled))) node.items.array start
          (Internal.size node - start) new_page in
      let left = if all then short else node in
      (left, filled, put t' page_num (some (internal_page left)))

module _ {K : Type 0} (blank : K) (comparator : K → K → Sign) where
  -- The branch of `insert_entry_into_parent` that makes a new root over a node and its new right one.
  abbrev pub grow : Tree K → ℕ → ℕ → K → Outcome K
  grow t page_num new_page key = elim t.supply [
    | [] ↦ some (t.allocate_error, t)
    | root ∷ rest ↦
        let root_node =
          Internal.create_new_root blank (new_internal blank t) page_num key new_page in
        let t1 = put (record t { supply = rest }) root (some (internal_page root_node)) in
        let t2 = set_parent (set_parent t1 page_num (some root)) new_page (some root) in
        some (success, update_root_page_num_locked t2 (some root))
  ]

  -- The page of a new child goes into the left or the right half of its split parent.
  abbrev pub place_child : Tree K → K → ℕ → ℕ × InternalNode K → ℕ × InternalNode K → K → Tree K
  place_child t key new_page (left_page, left) (right_page, right) separator =
      if is_greater (comparator key separator)
      then set_parent
          (put t right_page (some (internal_page (Internal.insert comparator right key new_page))))
          new_page (some right_page)
      else set_parent
          (put t left_page (some (internal_page (Internal.insert comparator left key new_page))))
          new_page (some left_page)

  unfoldable pub insert_entry_into_parent : ℕ → Tree K → ℕ → ℕ → K → Outcome K
  insert_entry_into_parent zero t page_num new_page key = none
  insert_entry_into_parent (suc fuel) t page_num new_page key = elim (t.pages page_num) [
    | none ↦ none
    | some page ↦ elim (parent_page_num page) [
      | none ↦ grow t page_num new_page key
      | some parent_page ↦ elim (as_internal (t.pages parent_page)) [
        | none ↦ some (t.page_error, t)
        | some parent ↦ elim (ltb (Internal.size parent) t.internal_max_size) [
          | true ↦
              let grown = Internal.insert comparator parent key new_page in
              some (
                success,
                set_parent (put t parent_page (some (internal_page grown))) new_page
                    (some parent_page),
              )
          | false ↦ elim t.supply [
            | [] ↦ some (t.allocate_error, t)
            | new_parent_page ∷ rest ↦
                let (left, right, t1) =
                  split_internal blank (record t { supply = rest }) parent_page parent
                    new_parent_page in
                elim (Internal.key_at right 0) [
                  | none ↦ none
                  | some separator ↦
                      insert_entry_into_parent fuel
                        (place_child t1 key new_page (parent_page, left) (new_parent_page, right)
                          separator)
                        parent_page new_parent_page separator
                ]
          ]
        ]
      ]
    ]
  ]

  -- The rest of `insert_entry_into_leaf_node` for a full leaf.
  abbrev pub insert_and_split : ℕ → Tree K → ℕ → LeafNode K → ℕ → K → Rid → Outcome K
  insert_and_split fuel t page_num node insert_position key rid = elim t.supply [
    | [] ↦ some (t.allocate_error, t)
    | new_page ∷ rest ↦
        let (left', right') = halves blank t node new_page insert_position key rid in
        let t' =
          put (put (record t { supply = rest }) page_num (some (leaf_page left'))) new_page
            (some (leaf_page right')) in
        elim (Leaf.key_at right' 0) [
          | none ↦ none
          | some separator ↦ insert_entry_into_parent fuel t' page_num new_page separator
        ]
  ]

  unfoldable pub insert_entry_into_leaf_node : ℕ → Tree K → ℕ → K → Rid → Outcome K
  insert_entry_into_leaf_node fuel t page_num key rid = elim (as_leaf (t.pages page_num)) [
    | none ↦ none
    | some node ↦
        let (insert_position, exists) = Leaf.lookup comparator node key in
        let full = insert_and_split fuel t page_num node insert_position key rid in
        if exists
        then some (record_duplicate_key, t)
        else (if ltb (Leaf.size node) t.leaf_max_size
            then some (
              success,
              put t page_num (some (leaf_page (Leaf.insert node insert_position key rid))),
            )
            else full)
  ]

  unfoldable pub create_new_tree : Tree K → K → Rid → Outcome K
  create_new_tree t key rid = elim t.root_page [
    | some root ↦ some (internal, t)
    | none ↦ elim t.supply [
      | [] ↦ some (t.allocate_error, t)
      | page_num ∷ rest ↦
          let node = Leaf.insert (new_leaf blank t) 0 key rid in
          some (
            success,
            update_root_page_num_locked
                (put (record t { supply = rest }) page_num (some (leaf_page node))) (some page_num),
          )
    ]
  ]

  -- The key is the one that `make_key` made; null arguments, its failure, and the end of the mini transaction are left
  -- out.
  unfoldable pub insert_entry : ℕ → Tree K → K → Rid → Outcome K
  insert_entry fuel t key rid = elim t.root_page [
    | none ↦ create_new_tree t key rid
    | some root ↦ elim (find_leaf comparator fuel t key) [
      | none ↦ none
      | some (rc, page_num) ↦
          let found = insert_entry_into_leaf_node fuel t page_num key rid in
          if is_success rc then found else some (rc, t)
    ]
  ]
