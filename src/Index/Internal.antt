-- ===== src/Index/Internal.antt =====
-- An internal node of the tree: InternalIndexNodeHandler of observer/storage/index/bplus_tree.cpp. The key of the
-- first item is not used in a search. `none` of an operation is a failed assertion. The moves are those of the
-- items; that they also set the parent of each moved child is in the model of the tree's pages.
pub mod Search
pub mod Moves
use csu_dbms.Base.{
  ℕ, suc, zero, ◌+◌, ◌-◌, ◌/◌, Bool, true, false, ltb, leb, ◌==◌, if◌then◌else◌, ◌||◌, Option, none,
  some,
}
use csu_dbms.LowerBound.{Sign, less, equal, greater, lower_bound}
use csu_dbms.Index.Items.{Items, recover_insert_items, recover_remove_items}
use csu_dbms.Index.Order.{key_of}

pub record InternalNode (K : Type 0) : Type 0 where
  pub parent : Option ℕ
  pub items : Items K ℕ

abbrev pub is_less : Sign → Bool
is_less less = true
is_less equal = false
is_less greater = false

module _ {K : Type 0} where
  abbrev pub init_empty : (ℕ → K × ℕ) → InternalNode K
  init_empty bytes = record { parent = none; items = record { key_num = 0; array = bytes } }

  abbrev pub size : InternalNode K → ℕ
  size node = node.items.key_num

  abbrev pub set_parent_page_num : InternalNode K → Option ℕ → InternalNode K
  set_parent_page_num node page_num = record node { parent = page_num }

  -- `blank` is the key of zero bytes that `memset` writes.
  abbrev pub create_new_root : K → InternalNode K → ℕ → K → ℕ → InternalNode K
  create_new_root blank node first_page_num key page_num = record node {
    items = record {
      key_num = size node + 2;
      array = λ i.
          if i == 0
          then (blank, first_page_num)
          else (if i == 1 then (key, page_num) else node.items.array i);
    };
  }

  abbrev pub key_at : InternalNode K → ℕ → Option K
  key_at node index = if ltb index (size node) then some (key_of node.items index) else none

  abbrev pub value_of : InternalNode K → ℕ → ℕ
  value_of node index = (node.items.array index).1

  abbrev pub value_at : InternalNode K → ℕ → Option ℕ
  value_at node index = if ltb index (size node) then some (value_of node index) else none

  -- The rounds of `value_index` that are left, from a position on.
  unfoldable pub index_from : InternalNode K → ℕ → ℕ → ℕ → Option ℕ
  index_from node page_num i zero = none
  index_from node page_num i (suc rounds) =
      let later = index_from node page_num (suc i) rounds in
      if page_num == value_of node i then some i else later

  -- `none` is -1.
  abbrev pub value_index : InternalNode K → ℕ → Option ℕ
  value_index node page_num = index_from node page_num 0 (size node)

  abbrev pub set_key : InternalNode K → ℕ → K → InternalNode K
  set_key node index key = record node {
    items = record node.items {
      array = λ i. if i == index then (key, value_of node index) else node.items.array i;
    };
  }

  abbrev pub set_key_at : InternalNode K → ℕ → K → Option (InternalNode K)
  set_key_at node index key = if ltb index (size node) then some (set_key node index key) else none

  abbrev pub removed : InternalNode K → ℕ → InternalNode K
  removed node index = record node { items = recover_remove_items node.items index 1 }

  abbrev pub remove : InternalNode K → ℕ → Option (InternalNode K)
  remove node index = if ltb index (size node) then some (removed node index) else none

  abbrev pub append : InternalNode K → (ℕ → K × ℕ) → ℕ → ℕ → InternalNode K
  append node array start num = record node {
    items = recover_insert_items node.items (size node) (λ j. array (start + j)) num;
  }

  abbrev pub preappend : InternalNode K → K × ℕ → InternalNode K
  preappend node item = record node { items = recover_insert_items node.items 0 (λ j. item) 1 }

  abbrev pub move_half_to : InternalNode K → InternalNode K → InternalNode K × InternalNode K
  move_half_to node other =
      let move_index = size node / 2 in
      (
        record node {
          items = record node.items { key_num = size node - (size node - move_index) };
        },
        append other node.items.array move_index (size node - move_index),
      )

  -- `increase_size(-1)`
  abbrev pub shortened : InternalNode K → InternalNode K
  shortened node = record node { items = record node.items { key_num = size node - 1 } }

  abbrev pub move_to : InternalNode K → InternalNode K → InternalNode K × InternalNode K
  move_to node other = (
    record node { items = recover_remove_items node.items 0 (size node) },
    append other node.items.array 0 (size node),
  )

  abbrev pub move_first_to_end :
      InternalNode K → InternalNode K → Option (InternalNode K × InternalNode K)
  move_first_to_end node other =
      if ltb 0 (size node) then some (removed node 0, append other node.items.array 0 1) else none

  -- An empty node, of which the code reads before the array, is not met: `redistribute` moves from a node that is
  -- larger than the other one.
  abbrev pub move_last_to_front :
      InternalNode K → InternalNode K → Option (InternalNode K × InternalNode K)
  move_last_to_front node other =
      let last = size node - 1 in
      if ltb 0 (size node)
      then some (shortened node, preappend other (node.items.array last))
      else none

-- The answers of `lookup`: the child's index, and the two that it gives through its pointers.
pub record Looked : Type 0 where
  pub child : ℕ
  pub found : Bool
  pub insert_position : ℕ

module _ {K : Type 0} (comparator : K → K → Sign) where
  -- The comparison with the key at the position is made only when there is one.
  abbrev pub child_at : InternalNode K → K → ℕ → ℕ
  child_at node key ret =
      if leb (size node) ret || is_less (comparator key (key_of node.items ret))
      then ret - 1
      else ret

  abbrev pub lookup : InternalNode K → K → Looked
  lookup node key =
      let (ret, found) =
        lower_bound (λ i. comparator (key_of node.items i) key) 1 (size node - 1) in
      if size node == 0
      then record { child = 0; found = false; insert_position = 1 }
      else record { child = child_at node key ret; found = found; insert_position = ret }

  abbrev pub insert : InternalNode K → K → ℕ → InternalNode K
  insert node key page_num = record node {
    items =
        recover_insert_items node.items (lookup node key).insert_position (λ j. (key, page_num)) 1;
  }
