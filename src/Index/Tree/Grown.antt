-- ===== src/Index/Tree/Grown.antt =====
-- `insert_entry` of BplusTreeHandler (bplus_tree.cpp) into a tree whose root is a full leaf: the leaf is split and a
-- new root is put over the halves.
use csu_dbms.Base.{
  ℕ, zero, suc, ◌<◌, ◌≡◌, ◌≢◌, refl, sym, ap, subst, ◌∙◌, none, some, inl, inr, ◌⊎◌, ◌↔◌, List, ◌∷◌,
  arith,
}
use csu_dbms.Rc.{success}
use csu_dbms.LowerBound.{Sign, greater}
use csu_dbms.Index.Key.{IsLawful}
use csu_dbms.Index.Leaf.{LeafNode, lookup}
use csu_dbms.Index.Internal.{InternalNode}
use csu_dbms.Index.Leaf
use csu_dbms.Index.Internal
use csu_dbms.Index.Order.{key_of, IsAscending, Has}
use csu_dbms.Index.Tree.{
  Page, leaf_page, internal_page, Tree, put, set_parent, update_root_page_num_locked,
  parent_page_num,
}
use csu_dbms.Index.Tree.Order.{IsTree, InTree, low_of, high_of}
use csu_dbms.Index.Tree.Linked.{IsLinked}
use csu_dbms.Index.Tree.Entry.{IsValid}
use csu_dbms.Index.Tree.Insert.{insert_entry_into_parent, grow, new_internal}
use csu_dbms.Index.Tree.Root.{put_here, put_elsewhere, set_parent_at}

module _ {K : Type 0} (blank : K) (comparator : K → K → Sign) where
  -- A node without a parent makes the tree grow.
  parent_grows :
      (s : Tree K) (fuel n new_page : ℕ) (key : K) (page : Page K)
      → s.pages n ≡ some page
      → parent_page_num page ≡ none
      → insert_entry_into_parent blank comparator (suc fuel) s n new_page key
        ≡ grow blank comparator s n new_page key
  unfolding insert_entry_into_parent
  parent_grows s fuel n new_page key page e orphan = rw (insert_entry_into_parent, e, orphan) refl

  grows :
      (s : Tree K) (n new_page new_root : ℕ) (rest : List ℕ) (key : K)
      → s.supply ≡ new_root ∷ rest
      → grow blank comparator s n new_page key
        ≡ some (
          success,
          update_root_page_num_locked
              (set_parent
                (set_parent
                  (put
                    (record s { supply = rest })
                    new_root
                    (some (
                      internal_page
                        (Internal.create_new_root blank (new_internal blank s) n key new_page))))
                  n
                  (some new_root))
                new_page
                (some new_root))
              (some new_root),
        )
  grows s n new_page new_root rest key e = simp (grow, e) refl

module _ {K : Type 0} (blank : K) (t : Tree K) (root new_page new_root : ℕ) (rest : List ℕ)
    (left right : LeafNode K) where
  -- The tree after the halves were written, and the one under the new root.
  abbrev pub split_tree : Tree K
  split_tree =
      put (put (record t { supply = new_root ∷ rest }) root (some (leaf_page left))) new_page
        (some (leaf_page right))

  abbrev pub separator : K
  separator = key_of right.items 0

  abbrev pub root_node : InternalNode K
  root_node = Internal.create_new_root blank (new_internal blank split_tree) root separator new_page

  abbrev pub grown_tree : Tree K
  grown_tree =
      update_root_page_num_locked
        (put
          (put (put (record split_tree { supply = rest }) new_root (some (internal_page root_node)))
            root (some (leaf_page (Leaf.set_parent_page_num left (some new_root)))))
          new_page (some (leaf_page (Leaf.set_parent_page_num right (some new_root)))))
        (some new_root)

  module _ (apart : new_page ≢ root) (apart_root : new_root ≢ root)
      (apart_page : new_root ≢ new_page) where
    pub new_page_holds :
        grown_tree.pages new_page
        ≡ some (leaf_page (Leaf.set_parent_page_num right (some new_root)))
    new_page_holds = put_here _ new_page _

    pub root_holds :
        grown_tree.pages root ≡ some (leaf_page (Leaf.set_parent_page_num left (some new_root)))
    root_holds = put_elsewhere _ new_page root _ (λ e. apart (sym e)) ∙ put_here _ root _

    pub new_root_holds : grown_tree.pages new_root ≡ some (internal_page root_node)
    new_root_holds =
        put_elsewhere _ new_page new_root _ apart_page
        ∙ put_elsewhere _ root new_root _ apart_root
        ∙ put_here _ new_root _

    pub others_hold :
        (n : ℕ) → n ≢ root → n ≢ new_page → n ≢ new_root → grown_tree.pages n ≡ t.pages n
    others_hold n a b c =
        put_elsewhere _ new_page n _ b
        ∙ put_elsewhere _ root n _ a
        ∙ put_elsewhere _ new_root n _ c
        ∙ put_elsewhere _ new_page n _ b
        ∙ put_elsewhere _ root n _ a

    -- The step of `insert_entry_into_parent` that makes the root.
    pub root_made :
        (fuel : ℕ) (comparator : K → K → Sign)
        → left.parent ≡ none
        → insert_entry_into_parent blank comparator (suc fuel) split_tree root new_page separator
          ≡ some (success, grown_tree)
    root_made fuel comparator orphan =
        let s1 =
          put (record split_tree { supply = rest }) new_root (some (internal_page root_node)) in
        let left_here : split_tree.pages root ≡ some (leaf_page left) =
          put_elsewhere _ new_page root _ (λ e. apart (sym e)) ∙ put_here _ root _ in
        let right_here : split_tree.pages new_page ≡ some (leaf_page right) =
          put_here _ new_page _ in
        let left_then : s1.pages root ≡ some (leaf_page left) =
          put_elsewhere _ new_root root _ (λ e. apart_root (sym e)) ∙ left_here in
        let s2 = put s1 root (some (leaf_page (Leaf.set_parent_page_num left (some new_root)))) in
        let right_then : s2.pages new_page ≡ some (leaf_page right) =
          put_elsewhere _ root new_page _ apart
          ∙ put_elsewhere _ new_root new_page _ (λ e. apart_page (sym e))
          ∙ right_here in
        let first = set_parent_at s1 root (leaf_page left) (some new_root) left_then in
        let second = set_parent_at s2 new_page (leaf_page right) (some new_root) right_then in
        let stocked : split_tree.supply ≡ new_root ∷ rest = unfold put in refl in
        parent_grows blank comparator split_tree fuel root new_page separator (leaf_page left)
          left_here orphan
        ∙ grows blank comparator split_tree root new_page new_root rest separator stocked
        ∙ ap (λ x. some (success, update_root_page_num_locked x (some new_root)))
            (ap (λ x. set_parent x new_page (some new_root)) first ∙ second)

    module _ (comparator : K → K → Sign) (laws : IsLawful comparator) where
      -- What the two leaves must be for the new tree.
      pub record Halves : Type 0 where
        pub left_ascending : IsAscending comparator 0 left.items
        pub right_ascending : IsAscending comparator 0 right.items
        pub above :
            (i : ℕ) → i < Leaf.size left → comparator separator (key_of left.items i) ≡ greater
        pub below :
            (i : ℕ) → i < Leaf.size right → comparator separator (key_of right.items i) ≢ greater

      child-IsTree :
          Halves
          → (i : ℕ) → i < 2
          → IsTree comparator grown_tree.pages 0
              (low_of comparator root_node none i)
              (high_of comparator root_node none i)
              (Internal.value_of root_node i)
      child-IsTree h zero l = (
        Leaf.set_parent_page_num left (some new_root),
        root_holds,
        h.left_ascending,
        λ i m. (tt, h.above i m),
      )
      child-IsTree h (suc zero) l = (
        Leaf.set_parent_page_num right (some new_root),
        new_page_holds,
        h.right_ascending,
        λ i m. (h.below i m, tt),
      )
      child-IsTree h (suc (suc i)) l = absurd (omega arith)

      child-IsLinked :
          (i : ℕ)
          → i < 2
          → IsLinked grown_tree.pages 0 (Internal.value_of root_node i) (some new_root)
      child-IsLinked zero l = (Leaf.set_parent_page_num left (some new_root), root_holds, refl)
      child-IsLinked (suc zero) l =
          (Leaf.set_parent_page_num right (some new_root), new_page_holds, refl)
      child-IsLinked (suc (suc i)) l = absurd (omega arith)

      different :
          (i j : ℕ) → i < j → j < 2 → Internal.value_of root_node i ≢ Internal.value_of root_node j
      different zero zero a b e = absurd (omega arith)
      different zero (suc zero) a b e = apart (sym e)
      different zero (suc (suc j)) a b e = absurd (omega arith)
      different (suc i) j a b e = absurd (omega arith)

      pub grown-IsValid : Halves → IsValid comparator grown_tree 1 new_root
      grown-IsValid h = record {
        rooted = refl;
        tree = (
          root_node,
          new_root_holds,
          omega arith,
          λ i j a b c. absurd (omega arith),
          λ i a b. (tt, tt),
          child-IsTree h,
        );
        linked = (root_node, new_root_holds, refl, different, child-IsLinked);
      }

      child-Has :
          (q : K) (i : ℕ)
          → i < 2
          → InTree comparator grown_tree.pages 0 (Internal.value_of root_node i) q
          → Has comparator 0 left.items q ⊎ Has comparator 0 right.items q
      child-Has q zero l h =
          let (node, here, has) = h in
          let same : node ≡ Leaf.set_parent_page_num left (some new_root) =
            let e = root_holds in cc in
          inl (subst (λ x. Has comparator 0 x.items q) same has)
      child-Has q (suc zero) l h =
          let (node, here, has) = h in
          let same : node ≡ Leaf.set_parent_page_num right (some new_root) =
            let e = new_page_holds in cc in
          inr (subst (λ x. Has comparator 0 x.items q) same has)
      child-Has q (suc (suc i)) l h = absurd (omega arith)

      pub grown-InTree :
          (q : K)
          → InTree comparator grown_tree.pages 1 new_root q
            ↔ (Has comparator 0 left.items q ⊎ Has comparator 0 right.items q)
      grown-InTree q = (
        λ h.
            let (node, here, i, l, k) = h in
            let same : node ≡ root_node = let e = new_root_holds in cc in
            child-Has q i (subst (λ x. i < Internal.size x) same l)
              (subst (λ x. InTree comparator grown_tree.pages 0 (Internal.value_of x i) q) same k),
        λ h. elim h [
          | inl f ↦ (
            root_node,
            new_root_holds,
            0,
            omega arith,
            (Leaf.set_parent_page_num left (some new_root), root_holds, f),
          )
          | inr f ↦ (
            root_node,
            new_root_holds,
            1,
            omega arith,
            (Leaf.set_parent_page_num right (some new_root), new_page_holds, f),
          )
        ],
      )
