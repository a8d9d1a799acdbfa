-- ===== src/Index/Tree/Entry.antt =====
-- `insert_entry` and `delete_entry` of BplusTreeHandler (bplus_tree.cpp) on a whole tree: their refusals, and the
-- entries that no other node than the leaf changes for.
use csu_dbms.Base.{
  ℕ, ◌<◌, ◌≡◌, refl, sym, ap, ◌∙◌, true, false, ltb, Option, none, some, inl, inr, ◌⊎◌, ◌↔◌,
  Bool-cases, arith,
}
use csu_dbms.Rc.{Rc, success, record_duplicate_key, record_not_exist}
use csu_dbms.LowerBound.{Sign, equal}
use csu_dbms.Index.Key.{Rid, IsLawful}
use csu_dbms.Index.Leaf.{LeafNode, lookup}
use csu_dbms.Index.Leaf
use csu_dbms.Index.Leaf.Search.{Inserted, insert-Inserted, lookup-Has}
use csu_dbms.Index.Tree.{leaf_page, Tree, put, descend, child_page, find_leaf, find_leaf_internal}
use csu_dbms.Index.Tree.Order.{IsTree, InTree}
use csu_dbms.Index.Tree.Find.{Found, descend-Found}
use csu_dbms.Index.Tree.Linked.{IsLinked, kept-IsLinked}
use csu_dbms.Index.Tree.Change.{changed-IsTree}
use csu_dbms.Index.Tree.Change.Keys.{inserted-InTree}
use csu_dbms.Index.Tree.Insert.{insert_entry, insert_entry_into_leaf_node}
use csu_dbms.Index.Tree.Delete.{delete_entry, delete_entry_internal}

module _ {K : Type 0} (comparator : K → K → Sign) where
  -- A tree of a height, from its root on.
  pub record IsValid (t : Tree K) (height root : ℕ) : Type 0 where
    pub rooted : t.root_page ≡ some root
    pub tree : IsTree comparator t.pages height none none root
    pub linked : IsLinked t.pages height root none

module _ {K : Type 0} (blank : K) (comparator : K → K → Sign) (laws : IsLawful comparator) where
  -- The leaf that the descent for a key finds.
  abbrev pub leaf_for :
      (t : Tree K) (height root fuel : ℕ) (key : K)
      → IsValid comparator t height root
      → height < fuel
      → (at : ℕ) × (descend fuel t (child_page comparator key) root ≡ some (success, at))
        × Found comparator laws t.pages height root key at
  leaf_for t height root fuel key valid enough =
      descend-Found comparator laws t height fuel none none root key valid.tree enough

  find_leaf_at :
      (t : Tree K) (root fuel at : ℕ) (key : K)
      → t.root_page ≡ some root
      → descend fuel t (child_page comparator key) root ≡ some (success, at)
      → find_leaf comparator fuel t key ≡ some (success, at)
  find_leaf_at t root fuel at key rooted reached =
      rw (find_leaf, find_leaf_internal, rooted) reached

  -- The leaf of the descent is the one that `find_leaf` answers.
  pub size_of_leaf :
      (t : Tree K) (height root fuel : ℕ) (key : K) (at : ℕ) (node : LeafNode K)
      → (valid : IsValid comparator t height root) → (enough : height < fuel)
      → find_leaf comparator fuel t key ≡ some (success, at)
      → t.pages at ≡ some (leaf_page node)
      → Leaf.size (leaf_for t height root fuel key valid enough).2.node ≡ Leaf.size node
  size_of_leaf t height root fuel key at node valid enough e page =
      let (at', reached, found) = leaf_for t height root fuel key valid enough in
      let f : find_leaf comparator fuel t key ≡ some (success, at') =
        find_leaf_at t root fuel at' key valid.rooted reached in
      let g : ◌≡◌ {A = Option (Rc × ℕ)} (some (success, at')) (some (success, at)) = sym f ∙ e in
      let same : at' ≡ at = cc in
      let here : t.pages at ≡ some (leaf_page found.node) = ap t.pages (sym same) ∙ found.page in
      let one : found.node ≡ node = cc in ap Leaf.size one

  -- `insert_entry` and `delete_entry` go on with the leaf that `find_leaf` answers.
  pub insert_entry_at :
      (t : Tree K) (root fuel at : ℕ) (key : K) (rid : Rid)
      → t.root_page ≡ some root
      → descend fuel t (child_page comparator key) root ≡ some (success, at)
      → insert_entry blank comparator fuel t key rid
        ≡ insert_entry_into_leaf_node blank comparator fuel t at key rid
  unfolding insert_entry
  insert_entry_at t root fuel at key rid rooted reached =
      let f : find_leaf comparator fuel t key ≡ some (success, at) =
        find_leaf_at t root fuel at key rooted reached in
      simp (insert_entry, rooted, f) refl

  pub delete_entry_at :
      (t : Tree K) (root fuel at : ℕ) (key : K)
      → t.root_page ≡ some root
      → descend fuel t (child_page comparator key) root ≡ some (success, at)
      → delete_entry comparator fuel t key ≡ delete_entry_internal comparator fuel t at key
  unfolding delete_entry
  delete_entry_at t root fuel at key rooted reached =
      let f : find_leaf comparator fuel t key ≡ some (success, at) =
        find_leaf_at t root fuel at key rooted reached in
      rw (delete_entry, f) refl

  -- An insertion of a key that the tree has answers RECORD_DUPLICATE_KEY and changes nothing.
  pub insert_entry-duplicate :
      (t : Tree K) (height root fuel : ℕ) (key : K) (rid : Rid)
      → IsValid comparator t height root
      → height < fuel
      → InTree comparator t.pages height root key
      → insert_entry blank comparator fuel t key rid ≡ some (record_duplicate_key, t)
  unfolding insert_entry_into_leaf_node
  insert_entry-duplicate t height root fuel key rid valid enough has =
      let (at, reached, found) = leaf_for t height root fuel key valid enough in
      let there : (lookup comparator found.node key).1 ≡ true =
        (lookup-Has comparator laws found.node key found.ascending).1 (found.has.1 has) in
      insert_entry_at t root fuel at key rid valid.rooted reached
      ∙ rw (insert_entry_into_leaf_node, found.page, there) refl

  -- A deletion of a key that the tree does not have answers RECORD_NOT_EXIST and changes nothing.
  pub delete_entry-absent :
      (t : Tree K) (height root fuel : ℕ) (key : K)
      → IsValid comparator t height root
      → height < fuel
      → (InTree comparator t.pages height root key → ⊥)
      → delete_entry comparator fuel t key ≡ some (record_not_exist, t)
  unfolding delete_entry_internal
  delete_entry-absent t height root fuel key valid enough has_not =
      let (at, reached, found) = leaf_for t height root fuel key valid enough in
      let absent : (lookup comparator found.node key).1 ≡ false =
        elim (Bool-cases (lookup comparator found.node key).1) [
          | inl e ↦ absurd (
              has_not
                (found.has.0 ((lookup-Has comparator laws found.node key found.ascending).0 e)))
          | inr e ↦ e
        ] in
      delete_entry_at t root fuel at key valid.rooted reached
      ∙ rw (delete_entry_internal, found.page, absent) refl

  -- What an insertion does to a tree.
  pub record Extended (t : Tree K) (height root : ℕ) (key : K) (t' : Tree K) : Type 0 where
    pub valid : IsValid comparator t' height root
    pub has :
        (other : K)
        → InTree comparator t'.pages height root other
          ↔ ((comparator key other ≡ equal) ⊎ InTree comparator t.pages height root other)

  -- Where the leaf that the descent finds has room, an insertion of a key that the tree does not have succeeds; the
  -- tree is valid again, and has this key, all it had, and no other.
  pub insert_entry-Extended :
      (t : Tree K) (height root fuel : ℕ) (key : K) (rid : Rid) (leaf : ℕ) (node : LeafNode K)
      → IsValid comparator t height root
      → height < fuel
      → (InTree comparator t.pages height root key → ⊥)
      → find_leaf comparator fuel t key ≡ some (success, leaf)
      → t.pages leaf ≡ some (leaf_page node)
      → Leaf.size node < t.leaf_max_size
      → (t' : Tree K) × (insert_entry blank comparator fuel t key rid ≡ some (success, t'))
        × Extended t height root key t'
  unfolding insert_entry_into_leaf_node put
  insert_entry-Extended t height root fuel key rid leaf node valid enough has_not found_there page
        room =
      let same_size = size_of_leaf t height root fuel key leaf node valid enough found_there page in
      let (at, reached, found) = leaf_for t height root fuel key valid enough in
      let absent : (lookup comparator found.node key).1 ≡ false =
        elim (Bool-cases (lookup comparator found.node key).1) [
          | inl e ↦ absurd (
              has_not
                (found.has.0 ((lookup-Has comparator laws found.node key found.ascending).0 e)))
          | inr e ↦ e
        ] in
      let fits : ltb (Leaf.size found.node) t.leaf_max_size ≡ true = ground arith in
      let new = Leaf.insert found.node (lookup comparator found.node key).0 key rid in
      let t' = put t at (some (leaf_page new)) in
      let done : Inserted comparator laws found.node key new =
        insert-Inserted comparator laws found.node key rid found.ascending absent in
      (
        t',
        insert_entry_at t root fuel at key rid valid.rooted reached
            ∙ rw (insert_entry_into_leaf_node, found.page, absent, fits) refl,
        record {
          valid = record {
            rooted = valid.rooted;
            tree =
                changed-IsTree comparator laws t key at found.node new found.page
                  (record { ascending = done.ascending; no_others = λ q h. (done.has q).0 h }) fuel
                  height root none none none valid.tree enough reached valid.linked (tt, tt);
            linked =
                kept-IsLinked t.pages at found.node new found.page refl height root none
                  valid.linked;
          };
          has =
              inserted-InTree comparator laws t key at found.node new found.page done.has fuel
                height root none none none valid.tree enough reached valid.linked;
        },
      )
