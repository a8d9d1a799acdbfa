-- ===== src/Index/Leaf.antt =====
-- A leaf of the tree: LeafIndexNodeHandler of observer/storage/index/bplus_tree.cpp. `none` of a page number is
-- BP_INVALID_PAGE_NUM; `none` of an operation is a failed assertion. The calls of the logger only append to a list
-- in memory and always succeed.
pub mod Search
pub mod Moves
use csu_dbms.Base.{ℕ, ◌+◌, ◌-◌, ◌/◌, Bool, ltb, if◌then◌else◌, Option, none, some}
use csu_dbms.LowerBound.{Sign, lower_bound}
use csu_dbms.Index.Key.{Rid}
use csu_dbms.Index.Items.{Items, recover_insert_items, recover_remove_items}
use csu_dbms.Index.Order.{key_of}

pub record LeafNode (K : Type 0) : Type 0 where
  pub parent : Option ℕ
  pub next_brother : Option ℕ
  pub items : Items K Rid

module _ {K : Type 0} where
  -- `init_empty` of a page whose array holds anything.
  abbrev pub init_empty : (ℕ → K × Rid) → LeafNode K
  init_empty bytes = record {
    parent = none;
    next_brother = none;
    items = record { key_num = 0; array = bytes };
  }

  abbrev pub size : LeafNode K → ℕ
  size node = node.items.key_num

  abbrev pub set_next_page : LeafNode K → Option ℕ → LeafNode K
  set_next_page node page_num = record node { next_brother = page_num }

  abbrev pub set_parent_page_num : LeafNode K → Option ℕ → LeafNode K
  set_parent_page_num node page_num = record node { parent = page_num }

  abbrev pub key_at : LeafNode K → ℕ → Option K
  key_at node index = if ltb index (size node) then some (key_of node.items index) else none

  abbrev pub insert : LeafNode K → ℕ → K → Rid → LeafNode K
  insert node index key value = record node {
    items = recover_insert_items node.items index (λ j. (key, value)) 1;
  }

  abbrev pub removed : LeafNode K → ℕ → LeafNode K
  removed node index = record node { items = recover_remove_items node.items index 1 }

  abbrev pub remove_at : LeafNode K → ℕ → Option (LeafNode K)
  remove_at node index = if ltb index (size node) then some (removed node index) else none

  -- `num` items of another node's array from `start` on, put behind the node's.
  abbrev pub append : LeafNode K → (ℕ → K × Rid) → ℕ → ℕ → LeafNode K
  append node array start num = record node {
    items = recover_insert_items node.items (size node) (λ j. array (start + j)) num;
  }

  abbrev pub preappend : LeafNode K → K × Rid → LeafNode K
  preappend node item = insert node 0 item.0 item.1

  -- The moves answer this node and the other one.
  abbrev pub move_half_to : LeafNode K → LeafNode K → LeafNode K × LeafNode K
  move_half_to node other =
      let move_index = size node / 2 in
      let move_item_num = size node - move_index in
      (
        record node { items = recover_remove_items node.items move_index move_item_num },
        append other node.items.array move_index move_item_num,
      )

  abbrev pub move_first_to_end : LeafNode K → LeafNode K → Option (LeafNode K × LeafNode K)
  move_first_to_end node other =
      if ltb 0 (size node) then some (removed node 0, append other node.items.array 0 1) else none

  -- Of an empty node the code reads before the array and then fails the assertion of `remove`.
  abbrev pub move_last_to_front : LeafNode K → LeafNode K → Option (LeafNode K × LeafNode K)
  move_last_to_front node other =
      let last = size node - 1 in
      if ltb 0 (size node)
      then some (removed node last, preappend other (node.items.array last))
      else none

  abbrev pub move_to : LeafNode K → LeafNode K → LeafNode K × LeafNode K
  move_to node other = (
    record node { items = record node.items { key_num = 0 } },
    set_next_page (append other node.items.array 0 (size node)) node.next_brother,
  )

module _ {K : Type 0} (comparator : K → K → Sign) where
  -- The position of the key, or where to insert it, and whether it is there.
  abbrev pub lookup : LeafNode K → K → ℕ × Bool
  lookup node key = lower_bound (λ i. comparator (key_of node.items i) key) 0 (size node)

  -- The number of removed items, and the node.
  abbrev pub remove : LeafNode K → K → ℕ × LeafNode K
  remove node key =
      let (index, found) = lookup node key in if found then (1, removed node index) else (0, node)
