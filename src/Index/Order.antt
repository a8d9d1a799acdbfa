-- ===== src/Index/Order.antt =====
-- The order of a node's keys, for lower_bound over the array of a node (bplus_tree.cpp): the keys ascend from a
-- position on, which is 0 in a leaf and 1 in an internal node.
pub mod Insertion
pub mod Removal
use csu_dbms.Base.{
  ℕ, ◌+◌, ◌-◌, ◌≤◌, ◌<◌, ◌≡◌, sym, ◌∙◌, true, inl, inr, ◌↔◌, Bool-cases, dec_lt, arith,
}
use csu_dbms.LowerBound.{
  Sign, less, equal, greater, Sign-cases, lower_bound, IsSorted, lower_bound-IsLowerBound,
}
use csu_dbms.Index.Key.{IsLawful, equal_right}
use csu_dbms.Index.Items.{Items}

module _ {K V : Type 0} where
  abbrev pub key_of : Items K V → ℕ → K
  key_of node i = (node.array i).0

module _ {K V : Type 0} (comparator : K → K → Sign) where
  -- The keys of a node ascend from a position on.
  abbrev pub IsAscending : ℕ → Items K V → Type 0
  IsAscending from node =
      (i j : ℕ)
      → from ≤ i
      → i < j
      → j < node.key_num
      → comparator (key_of node i) (key_of node j) ≡ less

  -- A key of the node that the comparator does not tell from the one sought.
  abbrev pub Has : ℕ → Items K V → K → Type 0
  Has from node key =
      (i : ℕ) × (from ≤ i) × (i < node.key_num) × (comparator (key_of node i) key ≡ equal)

module _ {K V : Type 0} (comparator : K → K → Sign) (laws : IsLawful comparator) where
  pub IsAscending-IsSorted :
      (from : ℕ) (node : Items K V) (key : K)
      → IsAscending comparator from node
      → IsSorted from node.key_num (λ i. comparator (key_of node i) key)
  IsAscending-IsSorted from node key asc i j l m n ne =
      elim (Sign-cases (comparator (key_of node j) key)) [
        | inl e ↦ laws.less_trans (key_of node i) (key_of node j) key (asc i j l m n) e
        | inr (inl e) ↦
            sym (equal_right comparator laws (key_of node i) (key_of node j) key e) ∙ asc i j l m n
        | inr (inr e) ↦ absurd (ne e)
      ]

  -- The binary search finds a key exactly when the node has it.
  pub lower_bound-Has :
      (from count : ℕ) (node : Items K V) (key : K)
      → IsAscending comparator from node
      → from + count ≡ node.key_num
      → ((lower_bound (λ i. comparator (key_of node i) key) from count).1 ≡ true)
        ↔ Has comparator from node key
  lower_bound-Has from count node key asc size =
      let comp : ℕ → Sign = λ i. comparator (key_of node i) key in
      let sorted : IsSorted from (from + count) comp =
        λ i j l m n ne. IsAscending-IsSorted from node key asc i j l m (omega arith) ne in
      let bound = lower_bound-IsLowerBound comp from count sorted in
      (
        λ e.
            let (l, at) = bound.at e in
            ((lower_bound comp from count).0, bound.from_first, omega arith, at),
        λ h.
            let (i, l, m, same) = h in
            elim (Bool-cases (lower_bound comp from count).1) [
              | inl e ↦ e
              | inr e ↦ elim (dec_lt i (lower_bound comp from count).0) [
                | yes before ↦
                    absurd (let clash : less ≡ equal = sym (bound.below i l before) ∙ same in cc)
                | no behind ↦ absurd (
                    let clash : greater ≡ equal =
                      sym (bound.above e i (omega arith) (omega arith)) ∙ same in
                    cc)
              ]
            ],
      )
