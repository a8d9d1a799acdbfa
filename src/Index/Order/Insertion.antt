-- ===== src/Index/Order/Insertion.antt =====
-- The keys of a node after an insertion (IndexNodeHandler in bplus_tree.cpp): their order, and which they are.
use mathlib.Core.Path.{ap₂}
use csu_dbms.Base.{
  ℕ, suc, ◌+◌, ◌-◌, ◌≤◌, ◌<◌, ◌≡◌, sym, ap, ◌∙◌, inl, inr, ◌⊎◌, ◌↔◌, ℕ_discrete, dec_lt, arith,
}
use csu_dbms.LowerBound.{Sign, less, equal, greater}
use csu_dbms.Index.Key.{IsLawful, greater_less}
use csu_dbms.Index.Items.{
  Items, recover_insert_items, recover_insert_items_before, recover_insert_items_at,
  recover_insert_items_after,
}
use csu_dbms.Index.Order.{key_of, IsAscending, Has}

module _ {K V : Type 0} where
  -- The array after one item was put in, position by position.
  pub inserted_before :
      (node : Items K V) (p : ℕ) (item : K × V) (i : ℕ)
      → i < p
      → (recover_insert_items node p (λ j. item) 1).array i ≡ node.array i
  inserted_before node p item i l = recover_insert_items_before node p 1 (λ j. item) i l

  pub inserted_at :
      (node : Items K V) (p : ℕ) (item : K × V)
      → (recover_insert_items node p (λ j. item) 1).array p ≡ item
  inserted_at node p item =
      let e : p ≡ p + 0 = omega arith in
      ap (recover_insert_items node p (λ j. item) 1).array e
      ∙ recover_insert_items_at node p 1 (λ j. item) 0 (omega arith)

  pub inserted_after :
      (node : Items K V) (p : ℕ) (item : K × V) (i : ℕ)
      → p ≤ i
      → i < node.key_num
      → (recover_insert_items node p (λ j. item) 1).array (suc i) ≡ node.array i
  inserted_after node p item i l m =
      let e : suc i ≡ p + 1 + (i - p) = omega arith in
      let f : p + (i - p) ≡ i = omega arith in
      ap (recover_insert_items node p (λ j. item) 1).array e
      ∙ recover_insert_items_after node p 1 (λ j. item) (i - p) (omega arith)
      ∙ ap node.array f

module _ {K V : Type 0} where
  -- Where the item at a position comes from.
  pub inserted-cases :
      (node : Items K V) (p : ℕ) (item : K × V) (i : ℕ)
      → p ≤ node.key_num
      → i < node.key_num + 1
      → ((i < p) × ((recover_insert_items node p (λ j. item) 1).array i ≡ node.array i))
        ⊎ ((i ≡ p) × ((recover_insert_items node p (λ j. item) 1).array i ≡ item))
        ⊎ ((k : ℕ) × (i ≡ suc k)
            × (p ≤ k)
            × (k < node.key_num)
            × ((recover_insert_items node p (λ j. item) 1).array i ≡ node.array k))
  inserted-cases node p item i l m = elim (dec_lt i p) [
    | yes before ↦ inl (before, inserted_before node p item i before)
    | no later ↦ elim (ℕ_discrete i p) [
      | yes here ↦ inr (
          inl (
            here,
            ap (recover_insert_items node p (λ j. item) 1).array here ∙ inserted_at node p item,
          ))
      | no elsewhere ↦
          let step : i ≡ suc (i - 1) = omega arith in
          inr (
            inr (
              i - 1,
              step,
              omega arith,
              omega arith,
              ap (recover_insert_items node p (λ j. item) 1).array step
                  ∙ inserted_after node p item (i - 1) (omega arith) (omega arith),
            ))
    ]
  ]

module _ {K V : Type 0} (comparator : K → K → Sign) (laws : IsLawful comparator) where
  pub inserted-IsAscending :
      (from : ℕ) (node : Items K V) (p : ℕ) (item : K × V)
      → IsAscending comparator from node
      → from ≤ p
      → p ≤ node.key_num
      → ((i : ℕ) → from ≤ i → i < p → comparator (key_of node i) item.0 ≡ less)
      → ((i : ℕ) → p ≤ i → i < node.key_num → comparator (key_of node i) item.0 ≡ greater)
      → IsAscending comparator from (recover_insert_items node p (λ j. item) 1)
  inserted-IsAscending from node p item asc o l below above i j a b c =
      elim (inserted-cases node p item i l (omega arith)) [
        | inl (x, e) ↦ elim (inserted-cases node p item j l (omega arith)) [
          | inl (y, f) ↦ pair i j e f (asc i j a b (omega arith))
          | inr (inl (y, f)) ↦ pair i j e f (below i a x)
          | inr (inr (k, y, u, v, f)) ↦ pair i j e f (asc i k a (omega arith) v)
        ]
        | inr (inl (x, e)) ↦ elim (inserted-cases node p item j l (omega arith)) [
          | inl (y, f) ↦ absurd (omega arith)
          | inr (inl (y, f)) ↦ absurd (omega arith)
          | inr (inr (k, y, u, v, f)) ↦
              pair i j e f (greater_less comparator laws (key_of node k) item.0 (above k u v))
        ]
        | inr (inr (k, x, u, v, e)) ↦ elim (inserted-cases node p item j l (omega arith)) [
          | inl (y, f) ↦ absurd (omega arith)
          | inr (inl (y, f)) ↦ absurd (omega arith)
          | inr (inr (k', y, u', v', f)) ↦ pair i j e f (asc k k' (omega arith) (omega arith) v')
        ]
      ]
    where
      pair :
          (i j : ℕ) {x y : K × V}
          → (recover_insert_items node p (λ j. item) 1).array i ≡ x
          → (recover_insert_items node p (λ j. item) 1).array j ≡ y
          → comparator x.0 y.0 ≡ less
          → comparator
              (key_of (recover_insert_items node p (λ j. item) 1) i)
              (key_of (recover_insert_items node p (λ j. item) 1) j)
            ≡ less
      pair i j e f h = ap₂ (λ x y. comparator x.0 y.0) e f ∙ h

  -- What the node has after an insertion: the new key, and what it had.
  pub inserted-Has :
      (from : ℕ) (node : Items K V) (p : ℕ) (item : K × V) (key : K)
      → from ≤ p
      → p ≤ node.key_num
      → Has comparator from (recover_insert_items node p (λ j. item) 1) key
        ↔ ((comparator item.0 key ≡ equal) ⊎ Has comparator from node key)
  inserted-Has from node p item key o l = (
    λ h.
        let (i, a, b, e) = h in
        elim (inserted-cases node p item i l b) [
          | inl (x, f) ↦ inr (i, a, omega arith, moved f ∙ e)
          | inr (inl (x, f)) ↦ inl (moved f ∙ e)
          | inr (inr (k, x, u, v, f)) ↦ inr (k, omega arith, v, moved f ∙ e)
        ],
    λ h. elim h [
      | inl e ↦ (p, o, omega arith, sym (moved (inserted_at node p item)) ∙ e)
      | inr (i, a, b, e) ↦ elim (dec_lt i p) [
        | yes before ↦ (i, a, omega arith, sym (moved (inserted_before node p item i before)) ∙ e)
        | no later ↦ (
          suc i,
          omega arith,
          omega arith,
          sym (moved (inserted_after node p item i (omega arith) b)) ∙ e,
        )
      ]
    ],
  )
    where
      moved : {x y : K × V} → x ≡ y → comparator y.0 key ≡ comparator x.0 key
      moved e = ap (λ x. comparator x.0 key) (sym e)
