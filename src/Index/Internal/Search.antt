-- ===== src/Index/Internal/Search.antt =====
-- `lookup` and `insert` of InternalIndexNodeHandler: the child whose range has the key, and the order of the keys.
use csu_dbms.Base.{
  ℕ, suc, ◌-◌, ◌≤◌, ◌<◌, ◌≡◌, ◌≢◌, refl, sym, ap, subst, ◌∙◌, Bool, true, false, inl, inr, leb,
  ◌==◌, Bool-cases, dec_le, arith,
}
use csu_dbms.LowerBound.{
  Sign, less, equal, greater, lower_bound, IsLowerBound, lower_bound-IsLowerBound,
}
use csu_dbms.Index.Key.{IsLawful, less_greater, greater_less, equal_sym}
use csu_dbms.Index.Items.{recover_insert_items}
use csu_dbms.Index.Order.{key_of, IsAscending, IsAscending-IsSorted}
use csu_dbms.Index.Order.Insertion.{inserted-IsAscending}
use csu_dbms.Index.Internal.{InternalNode, size, lookup, child_at, insert}

module _ {K : Type 0} (comparator : K → K → Sign) (laws : IsLawful comparator) where
  abbrev position : InternalNode K → K → ℕ × Bool
  position node key = lower_bound (λ i. comparator (key_of node.items i) key) 1 (size node - 1)

  pub position-IsLowerBound :
      (node : InternalNode K) (key : K)
      → IsAscending comparator 1 node.items
      → 0 < size node
      → IsLowerBound
          (λ i. comparator (key_of node.items i) key)
          1
          (size node - 1)
          (position node key)
  position-IsLowerBound node key asc more =
      lower_bound-IsLowerBound (λ i. comparator (key_of node.items i) key) 1 (size node - 1)
        (λ i j l m n ne.
          IsAscending-IsSorted comparator laws 1 node.items key asc i j l m (omega arith) ne)

  -- The child whose range has the key: its own key is not greater, and the next child's key is.
  pub record IsChild (node : InternalNode K) (key : K) (child : ℕ) : Type 0 where
    pub inside : child < size node
    pub from : 0 < child → comparator (key_of node.items child) key ≢ greater
    pub to : suc child < size node → comparator (key_of node.items (suc child)) key ≡ greater

  module _ (node : InternalNode K) (key : K) (asc : IsAscending comparator 1 node.items)
      (more : 0 < size node) where
    IsChild-before :
        (p : ℕ)
        → 1 ≤ p
        → p ≤ size node
        → ((i : ℕ) → 1 ≤ i → i < p → comparator (key_of node.items i) key ≡ less)
        → (p < size node → comparator (key_of node.items p) key ≡ greater)
        → IsChild node key (p - 1)
    IsChild-before p lo hi below above = record {
      inside = omega arith;
      from = λ l g.
          let s = below (p - 1) (omega arith) (omega arith) in
          let clash : less ≡ greater = sym s ∙ g in absurd cc;
      to = λ l.
          let step : suc (p - 1) ≡ p = omega arith in
          ap (λ i. comparator (key_of node.items i) key) step ∙ above (omega arith);
    }

    IsChild-here :
        (p : ℕ)
        → 1 ≤ p
        → p < size node
        → comparator (key_of node.items p) key ≡ equal
        → IsChild node key p
    IsChild-here p lo hi same = record {
      inside = hi;
      from = λ l g. let clash : equal ≡ greater = sym same ∙ g in absurd cc;
      to = λ l. less_greater comparator laws key (key_of node.items (suc p)) (
          sym (laws.equal_left (key_of node.items p) key (key_of node.items (suc p)) same)
          ∙ asc p (suc p) lo (omega arith) l);
    }

  -- In a node with ascending keys `lookup` answers the child whose range has the key.
  pub lookup-IsChild :
      (node : InternalNode K) (key : K)
      → IsAscending comparator 1 node.items
      → 0 < size node
      → IsChild node key (lookup comparator node key).child
  lookup-IsChild node key asc more =
      let bound = position-IsLowerBound node key asc more in
      let p = (position node key).0 in
      let some_left : (size node == 0) ≡ false = ground arith in
      let answer : (lookup comparator node key).child ≡ child_at comparator node key p =
        rw some_left refl in
      let lo = bound.from_first in
      let hi = bound.to_last in
      subst (IsChild node key) (sym answer) (elim (dec_le (size node) p) [
        | yes e ↦
            let last : leb (size node) p ≡ true = ground arith in
            rw last (
              IsChild-before node key asc more p lo (omega arith) bound.below
                (λ l. absurd (omega arith)))
        | no l ↦
            let not_last : leb (size node) p ≡ false = ground arith in
            elim (Bool-cases (position node key).1) [
              | inl e ↦
                  let same = (bound.at e).1 in
                  rw (not_last, equal_sym comparator laws (key_of node.items p) key same)
                    (IsChild-here node key asc more p lo (omega arith) same)
              | inr e ↦
                  let above = bound.above e p (omega arith) (omega arith) in
                  rw (not_last, greater_less comparator laws (key_of node.items p) key above)
                    (IsChild-before node key asc more p lo (omega arith) bound.below (λ l. above))
            ]
      ])

  -- A key that the node does not have, inserted with a page, leaves the keys ascending, and the page stands at the
  -- position of the key.
  pub insert-IsAscending :
      (node : InternalNode K) (key : K) (page_num : ℕ)
      → IsAscending comparator 1 node.items
      → 0 < size node
      → (lookup comparator node key).found ≡ false
      → IsAscending comparator 1 (insert comparator node key page_num).items
  insert-IsAscending node key page_num asc more absent =
      let bound = position-IsLowerBound node key asc more in
      let some_left : (size node == 0) ≡ false = ground arith in
      let p : (lookup comparator node key).insert_position ≡ (position node key).0 =
        rw some_left refl in
      let f : (lookup comparator node key).found ≡ (position node key).1 = rw some_left refl in
      let e : (position node key).1 ≡ false = sym f ∙ absent in
      let inside = bound.to_last in
      subst
        (λ at.
          IsAscending comparator 1 (recover_insert_items node.items at (λ j. (key, page_num)) 1))
        (sym p)
        (inserted-IsAscending comparator laws 1 node.items (position node key).0 (key, page_num) asc
          bound.from_first (omega arith) bound.below (λ i l m. bound.above e i l (omega arith)))
