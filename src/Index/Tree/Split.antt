-- ===== src/Index/Tree/Split.antt =====
-- The split of a full leaf by `insert_entry_into_leaf_node` (bplus_tree.cpp): the halves against the leaf with the
-- new entry in its place.
use csu_dbms.Base.{
  ℕ, suc, ◌+◌, ◌-◌, ◌/◌, ◌≤◌, ◌<◌, ◌≡◌, refl, sym, ap, subst, ◌∙◌, true, false, ltb, some, dec_lt,
  ℕ_discrete, arith,
}
use csu_dbms.Index.Key.{Rid}
use csu_dbms.Index.Items.{
  Items, recover_insert_items, recover_insert_items_at, recover_remove_items_before,
}
use csu_dbms.Index.Order.Insertion.{inserted_before, inserted_at, inserted_after}
use csu_dbms.Index.Leaf.{LeafNode}
use csu_dbms.Index.Leaf
use csu_dbms.Index.Tree.{Tree}
use csu_dbms.Index.Tree.Insert.{halves, split_leaf, new_leaf}

module _ {K V : Type 0} where
  abbrev with_item : Items K V → ℕ → K × V → Items K V
  with_item node p item = recover_insert_items node p (λ j. item) 1

  -- An item put into a part of a node stands where it would in the whole.
  shift-with_item :
      (part whole : Items K V) (start p : ℕ) (item : K × V)
      → ((i : ℕ) → i < part.key_num → part.array i ≡ whole.array (start + i))
      → start + part.key_num ≤ whole.key_num
      → p ≤ part.key_num
      → (i : ℕ) → i < part.key_num + 1
      → (with_item part p item).array i ≡ (with_item whole (start + p) item).array (start + i)
  shift-with_item part whole start p item same fits l i m = elim (dec_lt i p) [
    | yes before ↦
        inserted_before part p item i before
        ∙ same i (omega arith)
        ∙ sym (inserted_before whole (start + p) item (start + i) (omega arith))
    | no later ↦ elim (ℕ_discrete i p) [
      | yes here ↦
          ap (with_item part p item).array here
          ∙ inserted_at part p item
          ∙ sym (inserted_at whole (start + p) item)
          ∙ ap (λ j. (with_item whole (start + p) item).array (start + j)) (sym here)
      | no elsewhere ↦
          let step : i ≡ suc (i - 1) = omega arith in
          let far : start + i ≡ suc (start + (i - 1)) = omega arith in
          ap (with_item part p item).array step
          ∙ inserted_after part p item (i - 1) (omega arith) (omega arith)
          ∙ same (i - 1) (omega arith)
          ∙ sym
              (inserted_after whole (start + p) item (start + (i - 1)) (omega arith) (omega arith))
          ∙ ap (with_item whole (start + p) item).array (sym far)
    ]
  ]

module _ {K : Type 0} (blank : K) where
  -- What a split with an insertion leaves: the leaf with the new entry in its place, cut in two, and chained.
  pub record Split (node : LeafNode K) (new_page p : ℕ) (key : K) (rid : Rid)
      (answer : LeafNode K × LeafNode K) : Type 0 where
    pub at_left :
        (i : ℕ)
        → i < Leaf.size answer.0
        → answer.0.items.array i ≡ (Leaf.insert node p key rid).items.array i
    pub at_right :
        (i : ℕ)
        → i < Leaf.size answer.1
        → answer.1.items.array i ≡ (Leaf.insert node p key rid).items.array (Leaf.size answer.0 + i)
    pub sizes : Leaf.size answer.0 + Leaf.size answer.1 ≡ Leaf.size node + 1
    pub left_bounds : (0 < Leaf.size answer.0) × (Leaf.size answer.0 ≤ Leaf.size node)
    pub right_bounds : (0 < Leaf.size answer.1) × (Leaf.size answer.1 ≤ Leaf.size node)
    pub chained :
        (answer.0.next_brother ≡ some new_page) × (answer.1.next_brother ≡ node.next_brother)
    pub parents : (answer.0.parent ≡ node.parent) × (answer.1.parent ≡ node.parent)

  -- A leaf of at least two entries, split at an insertion, gives two leaves that are not empty and not larger than
  -- it was; together they are the leaf with the new entry at its position, the new page follows the old one in the
  -- chain, and both have the old parent.
  pub halves-Split :
      (t : Tree K) (node : LeafNode K) (new_page p : ℕ) (key : K) (rid : Rid)
      → 2 ≤ Leaf.size node
      → p ≤ Leaf.size node
      → Split node new_page p key rid (halves blank t node new_page p key rid)
  halves-Split t node new_page p key rid many inside =
      let h = Leaf.size node / 2 in
      let (short, filled) = split_leaf blank t node in
      let left_size : Leaf.size short ≡ h = omega arith in
      let left : (i : ℕ) → i < Leaf.size short → short.items.array i ≡ node.items.array i =
        λ i l. recover_remove_items_before node.items h (Leaf.size node - h) i (omega arith) in
      let right : (i : ℕ) → i < Leaf.size filled → filled.items.array i ≡ node.items.array (h + i) =
        λ i l.
          let z : i ≡ 0 + i = omega arith in
          ap filled.items.array z
          ∙ recover_insert_items_at (new_leaf blank t).items 0 (Leaf.size node - h)
              (λ j. node.items.array (h + j)) i (omega arith) in
      let first = Leaf.set_next_page short (some new_page) in
      let second =
        Leaf.set_parent_page_num (Leaf.set_next_page filled short.next_brother) short.parent in
      elim (dec_lt p (Leaf.size short)) [
        | yes l ↦
            let c : ltb p (Leaf.size short) ≡ true = ground arith in
            let answer : halves blank t node new_page p key rid
                ≡ (Leaf.insert first p key rid, second) =
              rw c refl in
            subst (Split node new_page p key rid) (sym answer) (record {
              at_left = λ i m.
                  let z : 0 + i ≡ i = omega arith in
                  let zp : 0 + p ≡ p = omega arith in
                  shift-with_item short.items node.items 0 p (key, rid)
                    (λ j k. left j k ∙ ap node.items.array (omega arith)) (omega arith)
                    (omega arith) i m
                  ∙ ap (λ q. (with_item node.items q (key, rid)).array (0 + i)) zp
                  ∙ ap (with_item node.items p (key, rid)).array z;
              at_right = λ i m.
                  let far : suc (h + i) ≡ Leaf.size short + 1 + i = omega arith in
                  right i m
                  ∙ sym (inserted_after node.items p (key, rid) (h + i) (omega arith) (omega arith))
                  ∙ ap (with_item node.items p (key, rid)).array far;
              sizes = omega arith;
              left_bounds = (omega arith, omega arith);
              right_bounds = (omega arith, omega arith);
              chained = (refl, refl);
              parents = (refl, refl);
            })
        | no l ↦
            let c : ltb p (Leaf.size short) ≡ false = ground arith in
            let answer : halves blank t node new_page p key rid
                ≡ (first, Leaf.insert second (p - Leaf.size short) key rid) =
              rw c refl in
            subst (Split node new_page p key rid) (sym answer) (record {
              at_left =
                  λ i m. left i m ∙ sym (inserted_before node.items p (key, rid) i (omega arith));
              at_right = λ i m.
                  let there : h + (p - Leaf.size short) ≡ p = omega arith in
                  let far : h + i ≡ Leaf.size short + i = omega arith in
                  shift-with_item filled.items node.items h (p - Leaf.size short) (key, rid) right
                    (omega arith) (omega arith) i m
                  ∙ ap (λ q. (with_item node.items q (key, rid)).array (h + i)) there
                  ∙ ap (with_item node.items p (key, rid)).array far;
              sizes = omega arith;
              left_bounds = (omega arith, omega arith);
              right_bounds = (omega arith, omega arith);
              chained = (refl, refl);
              parents = (refl, refl);
            })
      ]
