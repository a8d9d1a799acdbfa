-- ===== src/Index/Tree/Change/Keys.antt =====
-- The keys of the tree after a change of the leaf at which the descent for a key ends (bplus_tree.cpp).
use csu_dbms.Base.{
  ℕ, zero, suc, ◌<◌, ◌≡◌, ◌≢◌, ap, subst, ◌∙◌, Option, some, inl, inr, ◌⊎◌, ◌↔◌, ℕ_discrete, arith,
}
use csu_dbms.Rc.{success}
use csu_dbms.LowerBound.{Sign, equal}
use csu_dbms.Index.Key.{IsLawful, equal_sym}
use csu_dbms.Index.Leaf.{LeafNode}
use csu_dbms.Index.Internal.{InternalNode}
use csu_dbms.Index.Internal
use csu_dbms.Index.Order.{Has}
use csu_dbms.Index.Tree.{Page, leaf_page, Tree, descend, child_page}
use csu_dbms.Index.Tree.Order.{low_of, high_of, IsTree, InTree, InTree-Within, Within-equal}
use csu_dbms.Index.Tree.Find.{only_child}
use csu_dbms.Index.Tree.Linked.{IsLinked, written, written_here, internal_kept, kept-InTree}
use csu_dbms.Index.Tree.Change.{Step, step, stays}

module _ {K : Type 0} (comparator : K → K → Sign) (laws : IsLawful comparator) (t : Tree K)
    (key : K) (at : ℕ) (old new : LeafNode K) (was : t.pages at ≡ some (leaf_page old)) where
  abbrev pages' : ℕ → Option (Page K)
  pages' = written t.pages at (some (leaf_page new))

  -- The other children of a step keep their keys.
  beside :
      (fuel height n : ℕ) (node : InternalNode K)
      → (s : Step comparator laws t key at old new was fuel height n node) → (other : K) (i : ℕ)
      → i < Internal.size node
      → i ≢ s.child
      → InTree comparator pages' height (Internal.value_of node i) other
        ↔ InTree comparator t.pages height (Internal.value_of node i) other
  beside fuel height n node s other i l ne =
      kept-InTree t.pages at old new was comparator height (Internal.value_of node i) other
        (s.apart i l ne)

  -- A key of the tree after an insertion into the leaf.
  pub inserted-InTree :
      ((other : K)
        → Has comparator 0 new.items other
          ↔ ((comparator key other ≡ equal) ⊎ Has comparator 0 old.items other))
      → (fuel height n : ℕ) (low high : Option K) (parent : Option ℕ)
      → IsTree comparator t.pages height low high n
      → height < fuel
      → descend fuel t (child_page comparator key) n ≡ some (success, at)
      → IsLinked t.pages height n parent
      → (other : K)
      → InTree comparator pages' height n other
        ↔ ((comparator key other ≡ equal) ⊎ InTree comparator t.pages height n other)
  inserted-InTree has zero height n low high parent tree enough e linked other =
      absurd (omega arith)
  inserted-InTree has (suc fuel) zero n low high parent tree enough e linked other =
      let same : n ≡ at = stays comparator laws t key at old new was fuel n low high tree e in
      let now : pages' n ≡ some (leaf_page new) =
        ap pages' same ∙ written_here t.pages at (some (leaf_page new)) in
      let before : t.pages n ≡ some (leaf_page old) = ap t.pages same ∙ was in
      (
        λ h.
            let (node, here, k) = h in
            let is_new : node ≡ new = cc in
            elim ((has other).0 (subst (λ x. Has comparator 0 x.items other) is_new k)) [
              | inl f ↦ inl f
              | inr f ↦ inr (old, before, f)
            ],
        λ h. elim h [
          | inl f ↦ (new, now, (has other).1 (inl f))
          | inr (node, here, k) ↦
              let is_old : node ≡ old = cc in
              (new, now, (has other).1 (inr (subst (λ x. Has comparator 0 x.items other) is_old k)))
        ],
      )
  inserted-InTree has (suc fuel) (suc height) n low high parent tree enough e linked other =
      let s =
        step comparator laws t key at old new was fuel height n low high parent tree (omega arith) e
          linked in
      let (node, here, more, asc, within, below) = tree in
      let kept = internal_kept t.pages at old new was n node here in
      let at_child =
        inserted-InTree has fuel height (Internal.value_of node s.child)
          (low_of comparator node low s.child) (high_of comparator node high s.child) (some n)
          (below s.child s.is_child.inside) (omega arith) s.reached s.linked other in
      (
        λ h.
            let (node', here', i, l', k') = h in
            let same : node' ≡ node = cc in
            let l : i < Internal.size node = subst (λ x. i < Internal.size x) same l' in
            let k =
              subst (λ x. InTree comparator pages' height (Internal.value_of x i) other) same k' in
            elim (ℕ_discrete i s.child) [
              | yes f ↦
                  elim (at_child.0 (
                    subst (λ j. InTree comparator pages' height (Internal.value_of node j) other) f
                      k)) [
                        | inl g ↦ inl g
                        | inr g ↦ inr (node, here, s.child, s.is_child.inside, g)
                      ]
              | no ne ↦ inr (node, here, i, l, (beside fuel height n node s other i l ne).0 k)
            ],
        λ h. elim h [
          | inl f ↦ (node, kept, s.child, s.is_child.inside, at_child.1 (inl f))
          | inr (node', here', i, l', k') ↦
              let same : node' ≡ node = cc in
              let l : i < Internal.size node = subst (λ x. i < Internal.size x) same l' in
              let k =
                subst (λ x. InTree comparator t.pages height (Internal.value_of x i) other) same
                  k' in
              elim (ℕ_discrete i s.child) [
                | yes f ↦ (
                  node,
                  kept,
                  s.child,
                  s.is_child.inside,
                  at_child.1 (
                      inr (
                        subst
                          (λ j. InTree comparator t.pages height (Internal.value_of node j) other) f
                          k)),
                )
                | no ne ↦ (node, kept, i, l, (beside fuel height n node s other i l ne).1 k)
              ]
        ],
      )

  -- A key of the tree after a removal from the leaf.
  pub removed-InTree :
      ((other : K)
        → Has comparator 0 new.items other
          ↔ ((comparator key other ≢ equal) × Has comparator 0 old.items other))
      → (fuel height n : ℕ) (low high : Option K) (parent : Option ℕ)
      → IsTree comparator t.pages height low high n
      → height < fuel
      → descend fuel t (child_page comparator key) n ≡ some (success, at)
      → IsLinked t.pages height n parent
      → (other : K)
      → InTree comparator pages' height n other
        ↔ ((comparator key other ≢ equal) × InTree comparator t.pages height n other)
  removed-InTree has zero height n low high parent tree enough e linked other = absurd (omega arith)
  removed-InTree has (suc fuel) zero n low high parent tree enough e linked other =
      let same : n ≡ at = stays comparator laws t key at old new was fuel n low high tree e in
      let now : pages' n ≡ some (leaf_page new) =
        ap pages' same ∙ written_here t.pages at (some (leaf_page new)) in
      let before : t.pages n ≡ some (leaf_page old) = ap t.pages same ∙ was in
      (
        λ h.
            let (node, here, k) = h in
            let is_new : node ≡ new = cc in
            let (differs, had) =
              (has other).0 (subst (λ x. Has comparator 0 x.items other) is_new k) in
            (differs, (old, before, had)),
        λ h.
            let (differs, in_tree) = h in
            let (node, here, k) = in_tree in
            let is_old : node ≡ old = cc in
            (
              new,
              now,
              (has other).1 (differs, subst (λ x. Has comparator 0 x.items other) is_old k),
            ),
      )
  removed-InTree has (suc fuel) (suc height) n low high parent tree enough e linked other =
      let s =
        step comparator laws t key at old new was fuel height n low high parent tree (omega arith) e
          linked in
      let (node, here, more, asc, within, below) = tree in
      let kept = internal_kept t.pages at old new was n node here in
      let at_child =
        removed-InTree has fuel height (Internal.value_of node s.child)
          (low_of comparator node low s.child) (high_of comparator node high s.child) (some n)
          (below s.child s.is_child.inside) (omega arith) s.reached s.linked other in
      (
        λ h.
            let (node', here', i, l', k') = h in
            let same : node' ≡ node = cc in
            let l : i < Internal.size node = subst (λ x. i < Internal.size x) same l' in
            let k =
              subst (λ x. InTree comparator pages' height (Internal.value_of x i) other) same k' in
            elim (ℕ_discrete i s.child) [
              | yes f ↦
                  let (differs, g) = at_child.0 (
                    subst (λ j. InTree comparator pages' height (Internal.value_of node j) other) f
                      k) in
                  (differs, (node, here, s.child, s.is_child.inside, g))
              | no ne ↦
                  let g = (beside fuel height n node s other i l ne).0 k in
                  (
                    λ q. ne (
                        only_child comparator laws low high node key s.child i s.is_child asc l (
                          Within-equal comparator laws (low_of comparator node low i)
                            (high_of comparator node high i) other key
                            (equal_sym comparator laws key other q)
                            (InTree-Within comparator laws t.pages height
                              (low_of comparator node low i) (high_of comparator node high i)
                              (Internal.value_of node i) other (below i l) g))),
                    (node, here, i, l, g),
                  )
            ],
        λ h.
            let (differs, in_tree) = h in
            let (node', here', i, l', k') = in_tree in
            let same : node' ≡ node = cc in
            let l : i < Internal.size node = subst (λ x. i < Internal.size x) same l' in
            let k =
              subst (λ x. InTree comparator t.pages height (Internal.value_of x i) other) same k' in
            elim (ℕ_discrete i s.child) [
              | yes f ↦ (
                node,
                kept,
                s.child,
                s.is_child.inside,
                at_child.1 (
                  differs,
                  subst (λ j. InTree comparator t.pages height (Internal.value_of node j) other) f
                      k,
                ),
              )
              | no ne ↦ (node, kept, i, l, (beside fuel height n node s other i l ne).1 k)
            ],
      )
