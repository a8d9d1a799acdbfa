-- ===== src/Index/Tree/Change.antt =====
-- A change of the leaf at which the descent for a key ends (`insert` and `remove` of a leaf's entry in
-- bplus_tree.cpp), and what it is for the whole tree.
pub mod Keys
use csu_dbms.Base.{
  ℕ, zero, suc, ◌-◌, ◌<◌, ◌≡◌, ◌≢◌, refl, sym, ap, subst, ◌∙◌, true, false, ltb, ◌==◌, Option, some,
  inl, inr, ◌⊎◌, ℕ_discrete, dec_lt, arith,
}
use csu_dbms.Rc.{Rc, success}
use csu_dbms.LowerBound.{Sign, equal}
use csu_dbms.Index.Key.{IsLawful}
use csu_dbms.Index.Leaf.{LeafNode}
use csu_dbms.Index.Internal.{InternalNode}
use csu_dbms.Index.Leaf
use csu_dbms.Index.Internal
use csu_dbms.Index.Internal.Search.{IsChild, lookup-IsChild}
use csu_dbms.Index.Order.{key_of, IsAscending, Has}
use csu_dbms.Index.Tree.{Page, leaf_page, Tree, descend, child_page}
use csu_dbms.Index.Tree.Order.{
  Above, Below, Within, low_of, high_of, IsTree, LeafUnder, Within-equal,
}
use csu_dbms.Index.Tree.Find.{Found, descend-Found}
use csu_dbms.Index.Tree.Linked.{
  IsLinked, LeafUnder-unique, written, written_here, internal_kept, kept-IsTree,
}

module _ {K : Type 0} (comparator : K → K → Sign) (laws : IsLawful comparator) where
  -- The child that `lookup` answers has the key within its bounds.
  pub Within-child :
      (node : InternalNode K) (low high : Option K) (key : K) (child : ℕ)
      → IsChild comparator laws node key child
      → Within comparator low high key
      → Within comparator
          (low_of comparator node low child)
          (high_of comparator node high child)
          key
  Within-child node low high key child c w = (
    elim (ℕ_discrete child 0) [
      | yes e ↦
          let first : low_of comparator node low child ≡ low = rw e refl in
          subst (λ b. Above comparator b key) (sym first) w.0
      | no ne ↦
          let later : (child == 0) ≡ false = ground arith in
          let bound : low_of comparator node low child ≡ some (key_of node.items child) =
            rw later refl in
          subst (λ b. Above comparator b key) (sym bound) (c.from (omega arith))
    ],
    elim (dec_lt (suc child) (Internal.size node)) [
      | yes m ↦
          let more : ltb (suc child) (Internal.size node) ≡ true = ground arith in
          let bound : high_of comparator node high child ≡ some (key_of node.items (suc child)) =
            rw more refl in
          subst (λ b. Below comparator b key) (sym bound) (c.to m)
      | no m ↦
          let last : ltb (suc child) (Internal.size node) ≡ false = ground arith in
          let bound : high_of comparator node high child ≡ high = rw last refl in
          subst (λ b. Below comparator b key) (sym bound) w.1
    ],
  )

  -- A leaf that has no keys but those of another one and a key between the bounds.
  pub record IsChanged (key : K) (old new : LeafNode K) : Type 0 where
    pub ascending : IsAscending comparator 0 new.items
    pub no_others :
        (other : K)
        → Has comparator 0 new.items other
        → (comparator key other ≡ equal) ⊎ Has comparator 0 old.items other

  module _ (t : Tree K) (key : K) (at : ℕ) (old new : LeafNode K)
      (was : t.pages at ≡ some (leaf_page old)) where
    abbrev pages' : ℕ → Option (Page K)
    pages' = written t.pages at (some (leaf_page new))

    -- One step of the descent: the child, what is below it, and that the leaf is under no other child.
    pub record Step (fuel height n : ℕ) (node : InternalNode K) : Type 0 where
      pub child : ℕ
      pub is_child : IsChild comparator laws node key child
      pub reached :
          descend fuel t (child_page comparator key) (Internal.value_of node child)
          ≡ some (success, at)
      pub linked : IsLinked t.pages height (Internal.value_of node child) (some n)
      pub apart :
          (i : ℕ)
          → i < Internal.size node
          → i ≢ child
          → LeafUnder t.pages height (Internal.value_of node i) at
          → ⊥

    pub step :
        (fuel height n : ℕ) (low high : Option K) (parent : Option ℕ)
        → (tree : IsTree comparator t.pages (suc height) low high n) → height < fuel
        → descend (suc fuel) t (child_page comparator key) n ≡ some (success, at)
        → IsLinked t.pages (suc height) n parent
        → Step fuel height n tree.0
    unfolding descend
    step fuel height n low high parent tree enough e linked =
        let (node, here, more, asc, within, below) = tree in
        let (node', here', e', differ', links') = linked in
        let same : node' ≡ node = cc in
        let differ =
          subst
            (λ x.
              (i j : ℕ)
              → i < j
              → j < Internal.size x
              → Internal.value_of x i ≢ Internal.value_of x j)
            same differ' in
        let links =
          subst
            (λ x.
              (i : ℕ)
              → i < Internal.size x
              → IsLinked t.pages height (Internal.value_of x i) (some n))
            same links' in
        let c = (Internal.lookup comparator node key).child in
        let is_child = lookup-IsChild comparator laws node key asc more in
        let inside : ltb c (Internal.size node) ≡ true = let l = is_child.inside in ground arith in
        let down : descend (suc fuel) t (child_page comparator key) n
            ≡ descend fuel t (child_page comparator key) (Internal.value_of node c) =
          rw (descend, here, inside) refl in
        let reached = sym down ∙ e in
        let (end, reached', found) =
          descend-Found comparator laws t height fuel (low_of comparator node low c)
            (high_of comparator node high c) (Internal.value_of node c) key
            (below c is_child.inside) enough in
        let ends : ◌≡◌ {A = Option (Rc × ℕ)} (some (success, end)) (some (success, at)) =
          sym reached' ∙ reached in
        let arrives : end ≡ at = cc in
        let under : LeafUnder t.pages height (Internal.value_of node c) at =
          subst (LeafUnder t.pages height (Internal.value_of node c)) arrives found.under in
        record {
          child = c;
          is_child = is_child;
          reached = reached;
          linked = links c is_child.inside;
          apart = λ i l ne u.
              let one =
                LeafUnder-unique t.pages height (Internal.value_of node i)
                  (Internal.value_of node c) at (some n) (some n) (links i l)
                  (links c is_child.inside) u under in
              elim (dec_lt i c) [
                | yes before ↦ differ i c before is_child.inside one
                | no later ↦ differ c i (omega arith) l (sym one)
              ];
        }

    -- At a leaf the descent stays there.
    pub stays :
        (fuel n : ℕ) (low high : Option K)
        → IsTree comparator t.pages 0 low high n
        → descend (suc fuel) t (child_page comparator key) n ≡ some (success, at)
        → n ≡ at
    unfolding descend
    stays fuel n low high tree e =
        let (node, here, asc, within) = tree in
        let down : descend (suc fuel) t (child_page comparator key) n ≡ some (success, n) =
          rw (descend, here) refl in
        let ends : ◌≡◌ {A = Option (Rc × ℕ)} (some (success, n)) (some (success, at)) =
          sym down ∙ e in
        cc

    -- The pages after the change are a tree again.
    pub changed-IsTree :
        IsChanged key old new
        → (fuel height n : ℕ) (low high : Option K) (parent : Option ℕ)
        → IsTree comparator t.pages height low high n
        → height < fuel
        → descend fuel t (child_page comparator key) n ≡ some (success, at)
        → IsLinked t.pages height n parent
        → Within comparator low high key
        → IsTree comparator pages' height low high n
    changed-IsTree changed zero height n low high parent tree enough e linked w =
        absurd (omega arith)
    changed-IsTree changed (suc fuel) zero n low high parent tree enough e linked w =
        let (node, here, asc, within) = tree in
        let same : n ≡ at = stays fuel n low high tree e in
        let is_old : node ≡ old =
          let h : t.pages n ≡ some (leaf_page old) = ap t.pages same ∙ was in cc in
        let old_within : (i : ℕ)
            → i < Leaf.size old
            → Within comparator low high (key_of old.items i) =
          subst (λ x. (i : ℕ) → i < Leaf.size x → Within comparator low high (key_of x.items i))
            is_old within in
        (
          new,
          ap pages' same ∙ written_here t.pages at (some (leaf_page new)),
          changed.ascending,
          λ i l.
              elim (changed.no_others (key_of new.items i)
                (i, omega arith, l, laws.same (key_of new.items i))) [
                  | inl f ↦ Within-equal comparator laws low high key (key_of new.items i) f w
                  | inr (j, a, m, f) ↦
                      Within-equal comparator laws low high (key_of old.items j)
                        (key_of new.items i) f (old_within j m)
                ],
        )
    changed-IsTree changed (suc fuel) (suc height) n low high parent tree enough e linked w =
        let s = step fuel height n low high parent tree (omega arith) e linked in
        let (node, here, more, asc, within, below) = tree in
        let at_child =
          changed-IsTree changed fuel height (Internal.value_of node s.child)
            (low_of comparator node low s.child) (high_of comparator node high s.child) (some n)
            (below s.child s.is_child.inside) (omega arith) s.reached s.linked
            (Within-child node low high key s.child s.is_child w) in
        (
          node,
          internal_kept t.pages at old new was n node here,
          more,
          asc,
          within,
          λ i l. elim (ℕ_discrete i s.child) [
            | yes same ↦
                subst
                  (λ j.
                    IsTree comparator pages' height (low_of comparator node low j)
                      (high_of comparator node high j) (Internal.value_of node j))
                  (sym same) at_child
            | no ne ↦
                kept-IsTree t.pages at old new was comparator height (low_of comparator node low i)
                  (high_of comparator node high i) (Internal.value_of node i) (s.apart i l ne)
                  (below i l)
          ],
        )
