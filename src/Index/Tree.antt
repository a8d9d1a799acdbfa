-- ===== src/Index/Tree.antt =====
-- The tree (BplusTreeHandler in observer/storage/index/bplus_tree.cpp): the part of the file header that changes,
-- the pages by their numbers, and the pages that the buffer pool will give. `none` of an outcome is a failed
-- assertion, or too little fuel. A page of the other kind than the code casts it to is taken for one that is not there.
-- The latches are not modelled: the operations run one after another.
pub mod Insert
pub mod Delete
pub mod Order
pub mod Linked
pub mod Find
pub mod Change
pub mod Entry
pub mod Split
pub mod Root
pub mod Grown
pub mod NewRoot
pub mod Drop
use csu_dbms.Base.{
  ℕ, zero, suc, ◌-◌, ◌/◌, Bool, true, false, ◌==◌, if◌then◌else◌, Option, none, some, List,
}
use csu_dbms.Rc.{Rc, success, empty}
use csu_dbms.LowerBound.{Sign}
use csu_dbms.Index.Leaf.{LeafNode}
use csu_dbms.Index.Internal.{InternalNode}
use csu_dbms.Index.Leaf
use csu_dbms.Index.Internal

pub data Page (K : Type 0) : Type 0 where
  leaf_page : LeafNode K → Page K
  internal_page : InternalNode K → Page K

-- `page_error` and `allocate_error` are the codes with which `get_page` and `allocate_page` of the pool fail;
-- `supply` are the pages that it has to give.
pub record Tree (K : Type 0) : Type 0 where
  pub root_page : Option ℕ
  pub leaf_max_size : ℕ
  pub internal_max_size : ℕ
  pub pages : ℕ → Option (Page K)
  pub supply : List ℕ
  pub page_error : Rc
  pub allocate_error : Rc

abbrev pub Outcome : Type 0 → Type 0
Outcome K = Option (Rc × Tree K)

module _ {K : Type 0} where
  abbrev pub is_leaf : Page K → Bool
  is_leaf (leaf_page node) = true
  is_leaf (internal_page node) = false

  abbrev pub page_size : Page K → ℕ
  page_size (leaf_page node) = Leaf.size node
  page_size (internal_page node) = Internal.size node

  abbrev pub parent_page_num : Page K → Option ℕ
  parent_page_num (leaf_page node) = node.parent
  parent_page_num (internal_page node) = node.parent

  abbrev pub set_parent_page_num : Page K → Option ℕ → Page K
  set_parent_page_num (leaf_page node) page_num = leaf_page (Leaf.set_parent_page_num node page_num)
  set_parent_page_num (internal_page node) page_num =
      internal_page (Internal.set_parent_page_num node page_num)

  abbrev pub max_size : Tree K → Page K → ℕ
  max_size t page = if is_leaf page then t.leaf_max_size else t.internal_max_size

  abbrev pub min_size : Tree K → Page K → ℕ
  min_size t page = let max = max_size t page in max - max / 2

  abbrev pub as_leaf : Option (Page K) → Option (LeafNode K)
  as_leaf none = none
  as_leaf (some (leaf_page node)) = some node
  as_leaf (some (internal_page node)) = none

  abbrev pub as_internal : Option (Page K) → Option (InternalNode K)
  as_internal none = none
  as_internal (some (leaf_page node)) = none
  as_internal (some (internal_page node)) = some node

  -- A page is written, or given back.
  unfoldable pub put : Tree K → ℕ → Option (Page K) → Tree K
  put t page_num page = record t { pages = λ n. if n == page_num then page else t.pages n }

  abbrev pub update_root_page_num_locked : Tree K → Option ℕ → Tree K
  update_root_page_num_locked t page_num = record t { root_page = page_num }

  abbrev pub is_empty : Tree K → Bool
  is_empty t = elim t.root_page [ none ↦ true | some n ↦ false ]

  -- `set_parent_page_num` of a page in the pool; a page that is not there stays so.
  unfoldable pub set_parent : Tree K → ℕ → Option ℕ → Tree K
  set_parent t page_num parent = elim (t.pages page_num) [
    | none ↦ t
    | some page ↦ put t page_num (some (set_parent_page_num page parent))
  ]

  -- The loop of `insert_items`: the parent of each of `num` children, until one cannot be read.
  unfoldable pub adopt : Tree K → (ℕ → K × ℕ) → ℕ → ℕ → ℕ → Bool × Tree K
  adopt t array start zero page_num = (true, t)
  adopt t array start (suc num) page_num =
      let child = (array start).1 in
      let later = adopt (set_parent t child (some page_num)) array (suc start) num page_num in
      elim (t.pages child) [ none ↦ (false, t) | some page ↦ later ]

  -- The loop of `find_leaf_internal` from a page on, on fuel; `getter` gives the child to go to.
  unfoldable pub descend : ℕ → Tree K → (InternalNode K → Option ℕ) → ℕ → Option (Rc × ℕ)
  descend zero t getter page_num = none
  descend (suc fuel) t getter page_num = elim (t.pages page_num) [
    | none ↦ some (t.page_error, page_num)
    | some (leaf_page node) ↦ some (success, page_num)
    | some (internal_page node) ↦ elim (getter node) [
      | none ↦ none
      | some child ↦ descend fuel t getter child
    ]
  ]

  abbrev pub find_leaf_internal : ℕ → Tree K → (InternalNode K → Option ℕ) → Option (Rc × ℕ)
  find_leaf_internal fuel t getter = elim t.root_page [
    | none ↦ some (empty, 0)
    | some root ↦ descend fuel t getter root
  ]

  abbrev pub left_most_page : ℕ → Tree K → Option (Rc × ℕ)
  left_most_page fuel t = find_leaf_internal fuel t (λ node. Internal.value_at node 0)

module _ {K : Type 0} (comparator : K → K → Sign) where
  abbrev pub child_page : K → InternalNode K → Option ℕ
  child_page key node = Internal.value_at node (Internal.lookup comparator node key).child

  abbrev pub find_leaf : ℕ → Tree K → K → Option (Rc × ℕ)
  find_leaf fuel t key = find_leaf_internal fuel t (child_page key)
