-- ===== src/Index/Tree/Linked.antt =====
-- The parents of the pages (`parent` in IndexNode, bplus_tree.h): every page of the tree is the child of one page, so
-- that a write to a leaf changes the subtree of one child.
use csu_dbms.Base.{
  ℕ, zero, suc, ◌<◌, ◌≡◌, ◌≢◌, refl, sym, ap, subst, ◌∙◌, true, false, ◌==◌, if◌then◌else◌, Option,
  some, ◌↔◌, ℕ_discrete, arith,
}
use csu_dbms.LowerBound.{Sign}
use csu_dbms.Index.Leaf.{LeafNode}
use csu_dbms.Index.Internal.{InternalNode}
use csu_dbms.Index.Internal
use csu_dbms.Index.Tree.{Page, leaf_page, internal_page}
use csu_dbms.Index.Tree.Order.{IsTree, InTree, LeafUnder, low_of, high_of}

module _ {K : Type 0} where
  abbrev pub IsLinked : (ℕ → Option (Page K)) → ℕ → ℕ → Option ℕ → Type 0
  IsLinked pages zero page_num parent =
      (node : LeafNode K) × (pages page_num ≡ some (leaf_page node)) × (node.parent ≡ parent)
  IsLinked pages (suc height) page_num parent =
      (node : InternalNode K) × (pages page_num ≡ some (internal_page node))
      × (node.parent ≡ parent)
      × ((i j : ℕ)
          → i < j
          → j < Internal.size node
          → Internal.value_of node i ≢ Internal.value_of node j)
      × ((i : ℕ)
          → i < Internal.size node
          → IsLinked pages height (Internal.value_of node i) (some page_num))

  one_parent :
      (pages : ℕ → Option (Page K)) (height page_num a b : ℕ)
      → IsLinked pages height page_num (some a)
      → IsLinked pages height page_num (some b)
      → a ≡ b
  one_parent pages zero page_num a b p q =
      let (node, at, e) = p in
      let (node', at', f) = q in
      let same : node' ≡ node = cc in
      let g : ◌≡◌ {A = Option ℕ} (some a) (some b) = sym e ∙ ap (λ n. n.parent) (sym same) ∙ f in cc
  one_parent pages (suc height) page_num a b p q =
      let (node, at, e, apart, below) = p in
      let (node', at', f, apart', below') = q in
      let same : node' ≡ node = cc in
      let g : ◌≡◌ {A = Option ℕ} (some a) (some b) = sym e ∙ ap (λ n. n.parent) (sym same) ∙ f in cc

  -- A leaf is under one page of each height.
  pub LeafUnder-unique :
      (pages : ℕ → Option (Page K)) (height a b at : ℕ) (pa pb : Option ℕ)
      → IsLinked pages height a pa
      → IsLinked pages height b pb
      → LeafUnder pages height a at
      → LeafUnder pages height b at
      → a ≡ b
  LeafUnder-unique pages zero a b at pa pb p q u v = u ∙ sym v
  LeafUnder-unique pages (suc height) a b at pa pb p q u v =
      let (node, here, e, apart, below) = p in
      let (other, here', e', apart', below') = q in
      let (node_u, at_u, i, l_u, down_u) = u in
      let (node_v, at_v, j, l_v, down_v) = v in
      let same_u : node ≡ node_u = cc in
      let same_v : other ≡ node_v = cc in
      let under =
        subst
          (λ n.
            (i : ℕ) → i < Internal.size n → IsLinked pages height (Internal.value_of n i) (some a))
          same_u below in
      let under' =
        subst
          (λ n.
            (i : ℕ) → i < Internal.size n → IsLinked pages height (Internal.value_of n i) (some b))
          same_v below' in
      let child =
        LeafUnder-unique pages height (Internal.value_of node_u i) (Internal.value_of node_v j) at
          (some a) (some b) (under i l_u) (under' j l_v) down_u down_v in
      one_parent pages height (Internal.value_of node_v j) a b
        (subst (λ n. IsLinked pages height n (some a)) child (under i l_u)) (under' j l_v)

  -- The pages after a write.
  abbrev pub written : (ℕ → Option (Page K)) → ℕ → Option (Page K) → (ℕ → Option (Page K))
  written pages at page n = if n == at then page else pages n

  pub written_elsewhere :
      (pages : ℕ → Option (Page K)) (at n : ℕ) (page : Option (Page K))
      → n ≢ at
      → written pages at page n ≡ pages n
  written_elsewhere pages at n page ne = let e : (n == at) ≡ false = ground arith in rw e refl

  pub written_here :
      (pages : ℕ → Option (Page K)) (at : ℕ) (page : Option (Page K))
      → written pages at page at ≡ page
  written_here pages at page = let e : (at == at) ≡ true = ground arith in rw e refl

module _ {K : Type 0} (pages : ℕ → Option (Page K)) (at : ℕ) (old new : LeafNode K)
    (was : pages at ≡ some (leaf_page old)) where
  abbrev after : ℕ → Option (Page K)
  after = written pages at (some (leaf_page new))

  not_here : (n : ℕ) (node : InternalNode K) → pages n ≡ some (internal_page node) → n ≢ at
  not_here n node e f =
      let clash : ◌≡◌ {A = Option (Page K)} (some (leaf_page old)) (some (internal_page node)) =
        sym was ∙ ap pages (sym f) ∙ e in
      cc

  -- An internal node stays, and no other comes.
  pub internal_kept :
      (n : ℕ) (node : InternalNode K)
      → pages n ≡ some (internal_page node)
      → after n ≡ some (internal_page node)
  internal_kept n node e =
      written_elsewhere pages at n (some (leaf_page new)) (not_here n node e) ∙ e

  pub internal_was :
      (n : ℕ) (node : InternalNode K)
      → after n ≡ some (internal_page node)
      → pages n ≡ some (internal_page node)
  internal_was n node e = elim (ℕ_discrete n at) [
    | yes f ↦ absurd (
        let clash : ◌≡◌ {A = Option (Page K)} (some (leaf_page new)) (some (internal_page node)) =
          sym (written_here pages at (some (leaf_page new))) ∙ ap after (sym f) ∙ e in
        cc)
    | no ne ↦ sym (written_elsewhere pages at n (some (leaf_page new)) ne) ∙ e
  ]

  -- Pages that the leaf is not under stay linked, with the leaf also under its parent as before.
  pub kept-IsLinked :
      new.parent ≡ old.parent
      → (height n : ℕ) (parent : Option ℕ) → IsLinked pages height n parent
      → IsLinked after height n parent
  kept-IsLinked same zero n parent p = elim (ℕ_discrete n at) [
    | yes f ↦
        let (node, here, e) = p in
        let is_old : node ≡ old = let h : pages n ≡ some (leaf_page old) = ap pages f ∙ was in cc in
        (
          new,
          ap after f ∙ written_here pages at (some (leaf_page new)),
          same ∙ ap (λ n. n.parent) (sym is_old) ∙ e,
        )
    | no ne ↦
        let (node, here, e) = p in
        (node, written_elsewhere pages at n (some (leaf_page new)) ne ∙ here, e)
  ]
  kept-IsLinked same (suc height) n parent p =
      let (node, here, e, apart, below) = p in
      (
        node,
        internal_kept n node here,
        e,
        apart,
        λ i l. kept-IsLinked same height (Internal.value_of node i) (some n) (below i l),
      )

  module _ (comparator : K → K → Sign) where
    -- Pages that the leaf is not under keep their order and their keys.
    pub kept-IsTree :
        (height : ℕ) (low high : Option K) (n : ℕ)
        → (LeafUnder pages height n at → ⊥)
        → IsTree comparator pages height low high n
        → IsTree comparator after height low high n
    kept-IsTree zero low high n apart t =
        let (node, here, asc, within) = t in
        (node, written_elsewhere pages at n (some (leaf_page new)) apart ∙ here, asc, within)
    kept-IsTree (suc height) low high n apart t =
        let (node, here, more, asc, within, below) = t in
        (
          node,
          internal_kept n node here,
          more,
          asc,
          within,
          λ i l.
              kept-IsTree height (low_of comparator node low i) (high_of comparator node high i)
                (Internal.value_of node i) (λ u. apart (node, here, i, l, u)) (below i l),
        )

    pub kept-InTree :
        (height n : ℕ) (key : K)
        → (LeafUnder pages height n at → ⊥)
        → InTree comparator after height n key ↔ InTree comparator pages height n key
    kept-InTree zero n key apart =
        let same = written_elsewhere pages at n (some (leaf_page new)) apart in
        (
          λ h. let (node, here, has) = h in (node, sym same ∙ here, has),
          λ h. let (node, here, has) = h in (node, same ∙ here, has),
        )
    kept-InTree (suc height) n key apart = (
      λ h.
          let (node, here, i, l, k) = h in
          let was_here = internal_was n node here in
          (
            node,
            was_here,
            i,
            l,
            (kept-InTree height (Internal.value_of node i) key
                  (λ u. apart (node, was_here, i, l, u))).0
                k,
          ),
      λ h.
          let (node, here, i, l, k) = h in
          (
            node,
            internal_kept n node here,
            i,
            l,
            (kept-InTree height (Internal.value_of node i) key (λ u. apart (node, here, i, l, u))).1
                k,
          ),
    )
