-- ===== src/Index/Tree/NewRoot.antt =====
-- `insert_entry` of BplusTreeHandler (bplus_tree.cpp) into a tree of one full leaf.
use csu_dbms.Base.{
  ℕ, suc, ◌≤◌, ◌<◌, ◌≡◌, ◌≢◌, refl, subst, ◌∙◌, true, false, ltb, none, some, inl, inr, ◌⊎◌, ◌↔◌,
  Bool-cases, List, ◌∷◌, arith,
}
use csu_dbms.Rc.{success}
use csu_dbms.LowerBound.{Sign, equal}
use csu_dbms.Index.Key.{Rid, IsLawful}
use csu_dbms.Index.Leaf.{LeafNode, lookup}
use csu_dbms.Index.Leaf
use csu_dbms.Index.Leaf.Search.{Inserted, insert-Inserted, lookup-Has, lookup-IsLowerBound}
use csu_dbms.Index.Order.{key_of, IsAscending, Has}
use csu_dbms.Index.Tree.{leaf_page, internal_page, Tree, put, descend, child_page}
use csu_dbms.Index.Tree.Order.{InTree}
use csu_dbms.Index.Tree.Entry.{IsValid, insert_entry_at}
use csu_dbms.Index.Tree.Insert.{
  insert_entry, insert_entry_into_leaf_node, insert_entry_into_parent, insert_and_split, halves,
}
use csu_dbms.Index.Tree.Split.{Split, halves-Split}
use csu_dbms.Index.Tree.Root.{
  left-IsAscending, right-IsAscending, separator_above, separator_below, halves-Has,
}
use csu_dbms.Index.Internal.{InternalNode}
use csu_dbms.Index.Internal
use csu_dbms.Index.Tree.Grown.{
  root_holds, new_page_holds, new_root_holds, others_hold, root_node, grown_tree, root_made, Halves,
  grown-IsValid, grown-InTree,
}

module _ {K : Type 0} (blank : K) (comparator : K → K → Sign) (laws : IsLawful comparator) where
  -- A full leaf is split, when the pool gives a page.
  full_splits :
      (t : Tree K) (fuel root new_page : ℕ) (rest : List ℕ) (node : LeafNode K) (key : K)
      (rid : Rid)
      → t.pages root ≡ some (leaf_page node)
      → (lookup comparator node key).1 ≡ false
      → t.leaf_max_size ≤ Leaf.size node
      → t.supply ≡ new_page ∷ rest
      → (left right : LeafNode K)
      → halves blank t node new_page (lookup comparator node key).0 key rid ≡ (left, right)
      → 0 < Leaf.size right
      → insert_entry_into_leaf_node blank comparator fuel t root key rid
        ≡ insert_entry_into_parent blank comparator fuel
            (put
              (put (record t { supply = rest }) root (some (leaf_page left)))
              new_page
              (some (leaf_page right)))
            root
            new_page
            (key_of right.items 0)
  unfolding insert_entry_into_leaf_node
  full_splits t fuel root new_page rest node key rid here absent full stocked left right halved
        more =
      let c : ltb (Leaf.size node) t.leaf_max_size ≡ false = ground arith in
      let d : ltb 0 (Leaf.size right) ≡ true = ground arith in
      rw (insert_entry_into_leaf_node, here, absent, c)
        (simp (insert_and_split, stocked, halved, d) refl)

  -- What the growth of a tree of one leaf by a level is.
  pub record Grown (t : Tree K) (root new_page new_root : ℕ) (rest : List ℕ) (node : LeafNode K)
      (key : K) (rid : Rid) (t' : Tree K) : Type 0 where
    pub valid : IsValid comparator t' 1 new_root
    pub has :
        (other : K)
        → InTree comparator t'.pages 1 new_root other
          ↔ ((comparator key other ≡ equal) ⊎ InTree comparator t.pages 0 root other)
    pub left : LeafNode K
    pub right : LeafNode K
    pub split : Split blank node new_page (lookup comparator node key).0 key rid (left, right)
    pub left_here : t'.pages root ≡ some (leaf_page (Leaf.set_parent_page_num left (some new_root)))
    pub right_here :
        t'.pages new_page ≡ some (leaf_page (Leaf.set_parent_page_num right (some new_root)))
    pub over : InternalNode K
    pub over_here : t'.pages new_root ≡ some (internal_page over)
    pub two_children : Internal.size over ≡ 2
    pub first_child : Internal.value_of over 0 ≡ root
    pub second_child : Internal.value_of over 1 ≡ new_page
    pub separated : key_of over.items 1 ≡ key_of right.items 0
    pub elsewhere : (n : ℕ) → n ≢ root → n ≢ new_page → n ≢ new_root → t'.pages n ≡ t.pages n
    pub supplied : t'.supply ≡ rest

  -- An insertion of a key that the tree does not have, into a tree of one full leaf of at least two entries, succeeds
  -- when the pool gives two pages that differ from each other and from the leaf's. The leaf's page and the first new
  -- one then hold the two halves of the leaf with the entry in it, the second new page a root over these two with the
  -- first key of the right half between them; the other pages stay and the two pages are taken from the supply. The
  -- tree is valid, and has this key, all it had, and no other.
  pub insert_entry-Grown :
      (t : Tree K) (root new_page new_root fuel : ℕ) (rest : List ℕ) (node : LeafNode K) (key : K)
      (rid : Rid)
      → IsValid comparator t 0 root
      → t.pages root ≡ some (leaf_page node)
      → (InTree comparator t.pages 0 root key → ⊥)
      → 2 ≤ Leaf.size node
      → t.leaf_max_size ≤ Leaf.size node
      → t.supply ≡ new_page ∷ new_root ∷ rest
      → new_page ≢ root
      → new_root ≢ root
      → new_root ≢ new_page
      → (t' : Tree K) × (insert_entry blank comparator (suc fuel) t key rid ≡ some (success, t'))
        × Grown t root new_page new_root rest node key rid t'
  unfolding descend put
  insert_entry-Grown t root new_page new_root fuel rest node key rid valid here has_not many full
        stocked a b c =
      let (node', here', asc', within) = valid.tree in
      let (linked_node, linked_here, orphan') = valid.linked in
      let one : node' ≡ node = cc in
      let other_one : linked_node ≡ node = cc in
      let asc : IsAscending comparator 0 node.items =
        subst (λ x. IsAscending comparator 0 x.items) one asc' in
      let orphan : node.parent ≡ none = subst (λ x. x.parent ≡ none) other_one orphan' in
      let p = (lookup comparator node key).0 in
      let absent : (lookup comparator node key).1 ≡ false =
        elim (Bool-cases (lookup comparator node key).1) [
          | inl e ↦ absurd (has_not (node, here, (lookup-Has comparator laws node key asc).0 e))
          | inr e ↦ e
        ] in
      let bound = (lookup-IsLowerBound comparator laws node key asc).to_last in
      let done : Inserted comparator laws node key (Leaf.insert node p key rid) =
        insert-Inserted comparator laws node key rid asc absent in
      let halved = halves blank t node new_page p key rid in
      let (left, right) = halved in
      let split : Split blank node new_page p key rid halved =
        halves-Split blank t node new_page p key rid many (omega arith) in
      let reached : descend (suc fuel) t (child_page comparator key) root ≡ some (success, root) =
        rw (descend, here) refl in
      let both : Halves blank t root new_page new_root rest left right a b c comparator laws =
        record {
          left_ascending =
              left-IsAscending comparator laws blank t node new_page p key rid halved split
                done.ascending;
          right_ascending =
              right-IsAscending comparator laws blank t node new_page p key rid halved split
                done.ascending;
          above =
              separator_above comparator laws blank t node new_page p key rid halved split
                done.ascending;
          below =
              separator_below comparator laws blank t node new_page p key rid halved split
                done.ascending;
        } in
      (
        grown_tree blank t root new_page new_root rest left right,
        insert_entry_at blank comparator laws t root (suc fuel) root key rid valid.rooted reached
            ∙ full_splits t (suc fuel) root new_page (new_root ∷ rest) node key rid here absent full
                stocked left right refl split.right_bounds.0
            ∙ root_made blank t root new_page new_root rest left right a b c fuel comparator
                (split.parents.0 ∙ orphan),
        record {
          valid =
              grown-IsValid blank t root new_page new_root rest left right a b c comparator laws
                both;
          has = λ other.
              let in_tree =
                grown-InTree blank t root new_page new_root rest left right a b c comparator laws
                  other in
              let in_halves =
                halves-Has comparator laws blank t node new_page p key rid halved split
                  done.ascending other in
              (
                λ h. elim ((done.has other).0 (in_halves.0 (in_tree.0 h))) [
                  | inl e ↦ inl e
                  | inr e ↦ inr (node, here, e)
                ],
                λ h. elim h [
                  | inl e ↦ in_tree.1 (in_halves.1 ((done.has other).1 (inl e)))
                  | inr (node_q, here_q, e) ↦
                      let same : node_q ≡ node = cc in
                      in_tree.1 (
                        in_halves.1 (
                          (done.has other).1
                            (inr (subst (λ x. Has comparator 0 x.items other) same e))))
                ],
              );
          left = left;
          right = right;
          split = split;
          left_here = root_holds blank t root new_page new_root rest left right a b c;
          right_here = new_page_holds blank t root new_page new_root rest left right a b c;
          over = root_node blank t root new_page new_root rest left right;
          over_here = new_root_holds blank t root new_page new_root rest left right a b c;
          two_children = refl;
          first_child = refl;
          second_child = refl;
          separated = refl;
          elsewhere = λ n n_root n_page n_new.
              others_hold blank t root new_page new_root rest left right a b c n n_root n_page
                n_new;
          supplied = refl;
        },
      )
