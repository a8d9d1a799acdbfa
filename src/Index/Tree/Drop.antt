-- ===== src/Index/Tree/Drop.antt =====
-- `delete_entry` of BplusTreeHandler (bplus_tree.cpp) where the leaf keeps enough entries, and the first insertion
-- into an empty tree.
use csu_dbms.Base.{
  ℕ, ◌-◌, ◌/◌, ◌<◌, ◌≡◌, ◌≢◌, refl, subst, ◌∙◌, true, leb, none, some, inr, ◌↔◌, arith,
}
use csu_dbms.Rc.{success}
use csu_dbms.LowerBound.{Sign, equal}
use csu_dbms.Index.Key.{IsLawful}
use csu_dbms.Index.Leaf.{LeafNode, lookup}
use csu_dbms.Index.Leaf
use csu_dbms.Index.Leaf.Search.{Removed, remove-Removed, lookup-Has}
use csu_dbms.Index.Tree.{leaf_page, Tree, put, find_leaf, min_size}
use csu_dbms.Index.Tree.Order.{InTree}
use csu_dbms.Index.Tree.Linked.{kept-IsLinked}
use csu_dbms.Index.Tree.Change.{changed-IsTree}
use csu_dbms.Index.Tree.Change.Keys.{removed-InTree}
use csu_dbms.Index.Tree.Delete.{delete_entry, delete_entry_internal}
use csu_dbms.Index.Tree.Entry.{IsValid, leaf_for, size_of_leaf, delete_entry_at}

module _ {K : Type 0} (blank : K) (comparator : K → K → Sign) (laws : IsLawful comparator) where
  -- What a deletion does to a tree.
  pub record Reduced (t : Tree K) (height root : ℕ) (key : K) (t' : Tree K) : Type 0 where
    pub valid : IsValid comparator t' height root
    pub has :
        (other : K)
        → InTree comparator t'.pages height root other
          ↔ ((comparator key other ≢ equal) × InTree comparator t.pages height root other)

  -- Where the leaf that the descent finds has more entries than a node needs, a deletion of a key that the tree has
  -- succeeds; the tree is valid again, and has what it had but this key.
  pub delete_entry-Reduced :
      (t : Tree K) (height root fuel : ℕ) (key : K) (leaf : ℕ) (node : LeafNode K)
      → IsValid comparator t height root
      → height < fuel
      → InTree comparator t.pages height root key
      → find_leaf comparator fuel t key ≡ some (success, leaf)
      → t.pages leaf ≡ some (leaf_page node)
      → t.leaf_max_size - t.leaf_max_size / 2 < Leaf.size node
      → (t' : Tree K) × (delete_entry comparator fuel t key ≡ some (success, t'))
        × Reduced t height root key t'
  unfolding delete_entry_internal put
  delete_entry-Reduced t height root fuel key leaf given valid enough has found_there page plenty =
      let same_size =
        size_of_leaf blank comparator laws t height root fuel key leaf given valid enough
          found_there page in
      let (at, reached, found) =
        leaf_for blank comparator laws t height root fuel key valid enough in
      let node = found.node in
      let p = (lookup comparator node key).0 in
      let there : (lookup comparator node key).1 ≡ true =
        (lookup-Has comparator laws node key found.ascending).1 (found.has.1 has) in
      let new = Leaf.removed node p in
      let t' = put t at (some (leaf_page new)) in
      let answer : Leaf.remove comparator node key ≡ (1, new) = rw there refl in
      let done : Removed comparator laws node key (1, new) =
        subst (Removed comparator laws node key) answer
          (remove-Removed comparator laws node key found.ascending) in
      let large : leb (min_size t (leaf_page new)) (Leaf.size new) ≡ true = ground arith in
      (
        t',
        delete_entry_at blank comparator laws t root fuel at key valid.rooted reached
            ∙ rw (delete_entry_internal, found.page, there, large) refl,
        record {
          valid = record {
            rooted = valid.rooted;
            tree =
                changed-IsTree comparator laws t key at node new found.page
                  (record {
                    ascending = done.ascending;
                    no_others = λ q h. inr ((done.has q).0 h).1;
                  })
                  fuel height root none none none valid.tree enough reached valid.linked (tt, tt);
            linked =
                kept-IsLinked t.pages at node new found.page refl height root none valid.linked;
          };
          has =
              removed-InTree comparator laws t key at node new found.page done.has fuel height root
                none none none valid.tree enough reached valid.linked;
        },
      )
