-- ===== src/Index/Tree/Find.antt =====
-- `find_leaf` of BplusTreeHandler (bplus_tree.cpp): the leaf that it ends at is the one that may have the key.
use csu_dbms.Base.{
  ℕ, zero, suc, ◌<◌, ◌≡◌, ◌≢◌, refl, subst, true, false, ltb, ◌==◌, Option, some, ◌↔◌, ℕ_discrete,
  dec_lt, arith,
}
use csu_dbms.Rc.{success}
use csu_dbms.LowerBound.{Sign, greater}
use csu_dbms.Index.Key.{IsLawful, less_greater}
use csu_dbms.Index.Leaf.{LeafNode}
use csu_dbms.Index.Internal.{InternalNode}
use csu_dbms.Index.Internal
use csu_dbms.Index.Internal.Search.{IsChild, lookup-IsChild}
use csu_dbms.Index.Order.{key_of, IsAscending, Has}
use csu_dbms.Index.Tree.{Page, leaf_page, Tree, descend, child_page}
use csu_dbms.Index.Tree.Order.{
  Above, Below, Within, low_of, high_of, IsTree, InTree, LeafUnder, InTree-Within, greater_trans,
}

module _ {K : Type 0} (comparator : K → K → Sign) (laws : IsLawful comparator) where
  -- The leaf at which the descent for a key ends.
  pub record Found (pages : ℕ → Option (Page K)) (height page_num : ℕ) (key : K) (at : ℕ)
      : Type 0 where
    pub node : LeafNode K
    pub page : pages at ≡ some (leaf_page node)
    pub ascending : IsAscending comparator 0 node.items
    pub under : LeafUnder pages height page_num at
    pub has : Has comparator 0 node.items key ↔ InTree comparator pages height page_num key

  -- Only the child that `lookup` answers can have the key.
  pub only_child :
      (low high : Option K) (node : InternalNode K) (key : K) (child i : ℕ)
      → IsChild comparator laws node key child
      → IsAscending comparator 1 node.items
      → i < Internal.size node
      → Within comparator (low_of comparator node low i) (high_of comparator node high i) key
      → i ≡ child
  only_child low high node key child i c asc l w = elim (dec_lt i child) [
    | yes before ↦ absurd (
        let inside = c.inside in
        let more : ltb (suc i) (Internal.size node) ≡ true = ground arith in
        let bound : high_of comparator node high i ≡ some (key_of node.items (suc i)) =
          rw more refl in
        let above : comparator (key_of node.items (suc i)) key ≡ greater =
          subst (λ b. Below comparator b key) bound w.1 in
        elim (ℕ_discrete (suc i) child) [
          | yes e ↦
              c.from (omega arith)
                (subst (λ j. comparator (key_of node.items j) key ≡ greater) e above)
          | no ne ↦ c.from (omega arith) (
              greater_trans comparator laws (key_of node.items child) (key_of node.items (suc i))
                key
                (less_greater comparator laws (key_of node.items (suc i)) (key_of node.items child)
                  (asc (suc i) child (omega arith) (omega arith) inside))
                above)
        ])
    | no not_before ↦ elim (ℕ_discrete i child) [
      | yes e ↦ e
      | no ne ↦ absurd (
          let later : (i == 0) ≡ false = ground arith in
          let bound : low_of comparator node low i ≡ some (key_of node.items i) = rw later refl in
          let from : comparator (key_of node.items i) key ≢ greater =
            subst (λ b. Above comparator b key) bound w.0 in
          let to = c.to (omega arith) in
          elim (ℕ_discrete (suc child) i) [
            | yes e ↦ from (subst (λ j. comparator (key_of node.items j) key ≡ greater) e to)
            | no other ↦ from (
                greater_trans comparator laws (key_of node.items i) (key_of node.items (suc child))
                  key
                  (less_greater comparator laws (key_of node.items (suc child))
                    (key_of node.items i) (asc (suc child) i (omega arith) (omega arith) l))
                  to)
          ])
    ]
  ]

  -- In a tree of this height the descent ends at a leaf, which has the key exactly when the tree has it.
  pub descend-Found :
      (t : Tree K) (height fuel : ℕ) (low high : Option K) (page_num : ℕ) (key : K)
      → IsTree comparator t.pages height low high page_num
      → height < fuel
      → (at : ℕ) × (descend fuel t (child_page comparator key) page_num ≡ some (success, at))
        × Found t.pages height page_num key at
  unfolding descend
  descend-Found t zero zero low high page_num key tree enough = absurd (omega arith)
  descend-Found t (suc height) zero low high page_num key tree enough = absurd (omega arith)
  descend-Found t zero (suc fuel) low high page_num key tree enough =
      let (node, at, asc, within) = tree in
      (
        page_num,
        rw (descend, at) refl,
        record {
          node = node;
          page = at;
          ascending = asc;
          under = refl;
          has = (
            λ h. (node, at, h),
            λ h.
                let (node', at', has) = h in
                let same : node' ≡ node = cc in subst (λ n. Has comparator 0 n.items key) same has,
          );
        },
      )
  descend-Found t (suc height) (suc fuel) low high page_num key tree enough =
      let (node, at, more, asc, within, below) = tree in
      let c = (Internal.lookup comparator node key).child in
      let is_child = lookup-IsChild comparator laws node key asc more in
      let inside : ltb c (Internal.size node) ≡ true = let l = is_child.inside in ground arith in
      let (end, reached, found) =
        descend-Found t height fuel (low_of comparator node low c) (high_of comparator node high c)
          (Internal.value_of node c) key (below c is_child.inside) (omega arith) in
      (
        end,
        rw (descend, at, inside) reached,
        record {
          node = found.node;
          page = found.page;
          ascending = found.ascending;
          under = (node, at, c, is_child.inside, found.under);
          has = (
            λ h. (node, at, c, is_child.inside, found.has.0 h),
            λ h.
                let (node', at', i, l', k') = h in
                let same : node' ≡ node = cc in
                let l : i < Internal.size node = subst (λ n. i < Internal.size n) same l' in
                let k : InTree comparator t.pages height (Internal.value_of node i) key =
                  subst (λ n. InTree comparator t.pages height (Internal.value_of n i) key) same
                    k' in
                let w =
                  InTree-Within comparator laws t.pages height (low_of comparator node low i)
                    (high_of comparator node high i) (Internal.value_of node i) key (below i l) k in
                let here = only_child low high node key c i is_child asc l w in
                found.has.1 (
                  subst (λ j. InTree comparator t.pages height (Internal.value_of node j) key) here
                    k),
          );
        },
      )
