-- ===== src/Index/Order/Removal.antt =====
-- The keys of a node after the removal of an item (IndexNodeHandler in bplus_tree.cpp).
use mathlib.Core.Path.{ap₂}
use csu_dbms.Base.{
  ℕ, suc, ◌+◌, ◌-◌, ◌≤◌, ◌<◌, ◌≡◌, ◌≢◌, refl, sym, ap, ◌∙◌, inl, inr, ◌⊎◌, ◌↔◌, ℕ_discrete, dec_lt,
  arith,
}
use csu_dbms.LowerBound.{Sign, less, equal}
use csu_dbms.Index.Key.{IsLawful, equal_right}
use csu_dbms.Index.Items.{
  Items, recover_remove_items, recover_remove_items_before, recover_remove_items_after,
}
use csu_dbms.Index.Order.{key_of, IsAscending, Has}

module _ {K V : Type 0} (comparator : K → K → Sign) (laws : IsLawful comparator) where
  removed_after :
      (node : Items K V) (p : ℕ) (i : ℕ)
      → p ≤ i
      → suc i < node.key_num
      → (recover_remove_items node p 1).array i ≡ node.array (suc i)
  removed_after node p i l m =
      let e : i ≡ p + (i - p) = omega arith in
      let f : p + 1 + (i - p) ≡ suc i = omega arith in
      ap (recover_remove_items node p 1).array e
      ∙ recover_remove_items_after node p 1 (i - p) (omega arith)
      ∙ ap node.array f

  -- Where the item at a position comes from after a removal.
  removed-source :
      (node : Items K V) (p i : ℕ)
      → suc i < node.key_num
      → (k : ℕ) × ((recover_remove_items node p 1).array i ≡ node.array k)
        × (((i < p) × (k ≡ i)) ⊎ ((p ≤ i) × (k ≡ suc i)))
  removed-source node p i m = elim (dec_lt i p) [
    | yes before ↦ (i, recover_remove_items_before node p 1 i before, inl (before, refl))
    | no later ↦ (suc i, removed_after node p i (omega arith) m, inr (omega arith, refl))
  ]

  pub removed-IsAscending :
      (from : ℕ) (node : Items K V) (p : ℕ)
      → IsAscending comparator from node
      → p < node.key_num
      → IsAscending comparator from (recover_remove_items node p 1)
  removed-IsAscending from node p asc l i j a b c =
      let (k, e, x) = removed-source node p i (omega arith) in
      let (m, f, y) = removed-source node p j (omega arith) in
      ap₂ (λ x y. comparator x.0 y.0) e f ∙ asc k m (omega arith) (omega arith) (omega arith)

  unique_below :
      (from : ℕ) (node : Items K V) (key : K)
      → IsAscending comparator from node
      → (i j : ℕ) → from ≤ i
      → i < j
      → j < node.key_num
      → comparator (key_of node i) key ≡ equal
      → comparator (key_of node j) key ≢ equal
  unique_below from node key asc i j a b c e f =
      let clash : less ≡ equal =
        sym (asc i j a b c)
        ∙ equal_right comparator laws (key_of node i) (key_of node j) key f
        ∙ e in
      absurd cc

  -- What the node has after the removal of the item with a key: no longer this key, else what it had.
  pub removed-Has :
      (from : ℕ) (node : Items K V) (p : ℕ) (key : K)
      → IsAscending comparator from node
      → from ≤ p
      → p < node.key_num
      → Has comparator from (recover_remove_items node p 1) key
        ↔ ((comparator (key_of node p) key ≢ equal) × Has comparator from node key)
  removed-Has from node p key asc o l = (
    λ h.
        let (i, a, b, e) = h in
        let (k, f, x) = removed-source node p i (omega arith) in
        let found : comparator (key_of node k) key ≡ equal =
          ap (λ x. comparator x.0 key) (sym f) ∙ e in
        (
          λ g. elim (dec_lt k p) [
            | yes before ↦ unique_below from node key asc k p (omega arith) before l found g
            | no later ↦ unique_below from node key asc p k o (omega arith) (omega arith) g found
          ],
          (k, omega arith, omega arith, found),
        ),
    λ h.
        let (ne, has) = h in
        let (i, a, b, e) = has in
        elim (dec_lt i p) [
          | yes before ↦ (
            i,
            a,
            omega arith,
            ap (λ x. comparator x.0 key) (recover_remove_items_before node p 1 i before) ∙ e,
          )
          | no later ↦ elim (ℕ_discrete i p) [
            | yes same ↦ absurd (ne (ap (λ i. comparator (key_of node i) key) (sym same) ∙ e))
            | no other ↦
                let step : suc (i - 1) ≡ i = omega arith in
                (
                  i - 1,
                  omega arith,
                  omega arith,
                  ap (λ x. comparator x.0 key)
                        (removed_after node p (i - 1) (omega arith) (omega arith)
                          ∙ ap node.array step)
                      ∙ e,
                )
          ]
        ],
  )
