-- ===== src/Index/Tree/Order.antt =====
-- The search-tree order of the tree's pages, which `find_leaf` (bplus_tree.cpp) relies on: the keys below a child
-- lie between the keys beside it.
use csu_dbms.Base.{
  ℕ, zero, suc, ◌≤◌, ◌<◌, ◌≡◌, ◌≢◌, refl, sym, subst, ◌∙◌, true, false, ltb, ◌==◌, if◌then◌else◌,
  Option, none, some, inl, inr, ℕ_discrete, dec_lt, arith,
}
use csu_dbms.LowerBound.{Sign, less, equal, greater, Sign-cases}
use csu_dbms.Index.Key.{IsLawful, less_greater, greater_less, equal_right}
use csu_dbms.Index.Leaf.{LeafNode}
use csu_dbms.Index.Internal.{InternalNode}
use csu_dbms.Index.Internal
use csu_dbms.Index.Leaf
use csu_dbms.Index.Order.{key_of, IsAscending, Has}
use csu_dbms.Index.Tree.{Page, leaf_page, internal_page}

module _ {K : Type 0} where
  -- A leaf at the depth of the leaves under a page.
  abbrev pub LeafUnder : (ℕ → Option (Page K)) → ℕ → ℕ → ℕ → Type 0
  LeafUnder pages zero page_num at = page_num ≡ at
  LeafUnder pages (suc height) page_num at =
      (node : InternalNode K) × (pages page_num ≡ some (internal_page node))
      × (i : ℕ) × (i < Internal.size node)
      × LeafUnder pages height (Internal.value_of node i) at

module _ {K : Type 0} (comparator : K → K → Sign) where
  -- A key is not less than a bound, or less than one; no bound is none.
  abbrev pub Above : Option K → K → Type 0
  Above none key = Unit
  Above (some bound) key = comparator bound key ≢ greater

  abbrev pub Below : Option K → K → Type 0
  Below none key = Unit
  Below (some bound) key = comparator bound key ≡ greater

  abbrev pub Within : Option K → Option K → K → Type 0
  Within low high key = Above low key × Below high key

  -- The bounds of a child.
  abbrev pub low_of : InternalNode K → Option K → ℕ → Option K
  low_of node low i = if i == 0 then low else some (key_of node.items i)

  abbrev pub high_of : InternalNode K → Option K → ℕ → Option K
  high_of node high i =
      if ltb (suc i) (Internal.size node) then some (key_of node.items (suc i)) else high

  -- The pages under a page, all leaves at one depth, with their keys between two bounds.
  abbrev pub IsTree : (ℕ → Option (Page K)) → ℕ → Option K → Option K → ℕ → Type 0
  IsTree pages zero low high page_num =
      (node : LeafNode K) × (pages page_num ≡ some (leaf_page node))
      × IsAscending comparator 0 node.items
      × ((i : ℕ) → i < Leaf.size node → Within low high (key_of node.items i))
  IsTree pages (suc height) low high page_num =
      (node : InternalNode K) × (pages page_num ≡ some (internal_page node))
      × (0 < Internal.size node)
      × IsAscending comparator 1 node.items
      × ((i : ℕ) → 1 ≤ i → i < Internal.size node → Within low high (key_of node.items i))
      × ((i : ℕ)
          → i < Internal.size node
          → IsTree pages height (low_of node low i) (high_of node high i)
              (Internal.value_of node i))

  -- A key in a leaf under a page.
  abbrev pub InTree : (ℕ → Option (Page K)) → ℕ → ℕ → K → Type 0
  InTree pages zero page_num key =
      (node : LeafNode K) × (pages page_num ≡ some (leaf_page node))
      × Has comparator 0 node.items key
  InTree pages (suc height) page_num key =
      (node : InternalNode K) × (pages page_num ≡ some (internal_page node))
      × (i : ℕ) × (i < Internal.size node)
      × InTree pages height (Internal.value_of node i) key

module _ {K : Type 0} (comparator : K → K → Sign) (laws : IsLawful comparator) where
  not_greater_trans :
      (a b c : K) → comparator a b ≢ greater → comparator b c ≢ greater → comparator a c ≢ greater
  not_greater_trans a b c p q = elim (Sign-cases (comparator a b)) [
    | inr (inr e) ↦ absurd (p e)
    | inr (inl e) ↦ λ g. q (sym (laws.equal_left a b c e) ∙ g)
    | inl e ↦ elim (Sign-cases (comparator b c)) [
      | inr (inr f) ↦ absurd (q f)
      | inr (inl f) ↦ λ g.
          let clash : less ≡ greater = sym e ∙ equal_right comparator laws a b c f ∙ g in absurd cc
      | inl f ↦ λ g. let clash : less ≡ greater = sym (laws.less_trans a b c e f) ∙ g in absurd cc
    ]
  ]

  pub greater_trans :
      (a b c : K) → comparator a b ≡ greater → comparator b c ≡ greater → comparator a c ≡ greater
  greater_trans a b c p q = less_greater comparator laws c a (
      laws.less_trans c b a (greater_less comparator laws b c q)
        (greater_less comparator laws a b p))

  Above-trans :
      (low : Option K) (b c : K)
      → Above comparator low b
      → comparator b c ≢ greater
      → Above comparator low c
  Above-trans none b c p q = tt
  Above-trans (some a) b c p q = not_greater_trans a b c p q

  Below-trans :
      (high : Option K) (b c : K)
      → Below comparator high b
      → comparator b c ≡ greater
      → Below comparator high c
  Below-trans none b c p q = tt
  Below-trans (some a) b c p q = greater_trans a b c p q

  pub Within-equal :
      (low high : Option K) (b c : K)
      → comparator b c ≡ equal
      → Within comparator low high b
      → Within comparator low high c
  Within-equal low high b c e w = (
    Above-trans low b c w.0 (λ g. let clash : equal ≡ greater = sym e ∙ g in absurd cc),
    below high w.1,
  )
    where
      below : (high : Option K) → Below comparator high b → Below comparator high c
      below none h = tt
      below (some a) h = sym (equal_right comparator laws a b c e) ∙ h

  -- The bounds of a child lie within those of its node.
  child-Within :
      (node : InternalNode K) (low high : Option K) (i : ℕ) (key : K)
      → i < Internal.size node
      → ((j : ℕ)
          → 1 ≤ j
          → j < Internal.size node
          → Within comparator low high (key_of node.items j))
      → Within comparator (low_of comparator node low i) (high_of comparator node high i) key
      → Within comparator low high key
  child-Within node low high i key l within w = (
    elim (ℕ_discrete i 0) [
      | yes e ↦
          let first : low_of comparator node low i ≡ low = rw e refl in
          subst (λ b. Above comparator b key) first w.0
      | no ne ↦
          let later : (i == 0) ≡ false = ground arith in
          let bound : low_of comparator node low i ≡ some (key_of node.items i) = rw later refl in
          Above-trans low (key_of node.items i) key (within i (omega arith) l).0
            (subst (λ b. Above comparator b key) bound w.0)
    ],
    elim (dec_lt (suc i) (Internal.size node)) [
      | yes m ↦
          let more : ltb (suc i) (Internal.size node) ≡ true = ground arith in
          let bound : high_of comparator node high i ≡ some (key_of node.items (suc i)) =
            rw more refl in
          Below-trans high (key_of node.items (suc i)) key (within (suc i) (omega arith) m).1
            (subst (λ b. Below comparator b key) bound w.1)
      | no m ↦
          let last : ltb (suc i) (Internal.size node) ≡ false = ground arith in
          let bound : high_of comparator node high i ≡ high = rw last refl in
          subst (λ b. Below comparator b key) bound w.1
    ],
  )

  -- A key under a page lies within the page's bounds.
  pub InTree-Within :
      (pages : ℕ → Option (Page K)) (height : ℕ) (low high : Option K) (page_num : ℕ) (key : K)
      → IsTree comparator pages height low high page_num
      → InTree comparator pages height page_num key
      → Within comparator low high key
  InTree-Within pages zero low high page_num key t k =
      let (node, at, asc, within) = t in
      let (node', at', has) = k in
      let same : node' ≡ node = cc in
      let (i, a, l, e) = subst (λ n. Has comparator 0 n.items key) same has in
      Within-equal low high (key_of node.items i) key e (within i l)
  InTree-Within pages (suc height) low high page_num key t k =
      let (node, at, more, asc, within, below) = t in
      let (node', at', i, l', k') = k in
      let same : node' ≡ node = cc in
      let l : i < Internal.size node = subst (λ n. i < Internal.size n) same l' in
      let child : InTree comparator pages height (Internal.value_of node i) key =
        subst (λ n. InTree comparator pages height (Internal.value_of n i) key) same k' in
      child-Within node low high i key l within (
        InTree-Within pages height (low_of comparator node low i) (high_of comparator node high i)
          (Internal.value_of node i) key (below i l) child)
