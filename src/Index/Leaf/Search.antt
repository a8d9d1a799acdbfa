-- ===== src/Index/Leaf/Search.antt =====
-- Search, insertion and removal in a leaf (`lookup`, `insert` and `remove` of LeafIndexNodeHandler).
use csu_dbms.Base.{
  ℕ, ◌+◌, ◌≤◌, ◌<◌, ◌≡◌, ◌≢◌, refl, sym, ◌∙◌, true, false, ◌⊎◌, inl, inr, ◌↔◌, Bool-cases, subst,
  arith,
}
use csu_dbms.LowerBound.{Sign, equal, IsLowerBound, lower_bound-IsLowerBound}
use csu_dbms.Index.Key.{Rid, IsLawful, equal_right}
use csu_dbms.Index.Order.{key_of, IsAscending, Has, IsAscending-IsSorted, lower_bound-Has}
use csu_dbms.Index.Order.Insertion.{inserted-IsAscending, inserted-Has}
use csu_dbms.Index.Order.Removal.{removed-IsAscending, removed-Has}
use csu_dbms.Index.Leaf.{LeafNode, size, insert, removed, lookup, remove}

module _ {K : Type 0} (comparator : K → K → Sign) (laws : IsLawful comparator) where
  pub lookup-IsLowerBound :
      (node : LeafNode K) (key : K)
      → IsAscending comparator 0 node.items
      → IsLowerBound
          (λ i. comparator (key_of node.items i) key)
          0
          (size node)
          (lookup comparator node key)
  lookup-IsLowerBound node key asc =
      lower_bound-IsLowerBound (λ i. comparator (key_of node.items i) key) 0 (size node)
        (λ i j l m n ne.
          IsAscending-IsSorted comparator laws 0 node.items key asc i j l m (omega arith) ne)

  -- In a leaf with ascending keys `lookup` finds a key exactly when the leaf has it.
  pub lookup-Has :
      (node : LeafNode K) (key : K)
      → IsAscending comparator 0 node.items
      → ((lookup comparator node key).1 ≡ true) ↔ Has comparator 0 node.items key
  lookup-Has node key asc =
      lower_bound-Has comparator laws 0 (size node) node.items key asc (omega arith)

  -- What an insertion does to a leaf.
  pub record Inserted (node : LeafNode K) (key : K) (node' : LeafNode K) : Type 0 where
    pub ascending : IsAscending comparator 0 node'.items
    pub one_more : size node' ≡ size node + 1
    pub has :
        (other : K)
        → Has comparator 0 node'.items other
          ↔ ((comparator key other ≡ equal) ⊎ Has comparator 0 node.items other)

  -- A key that `lookup` does not find, inserted at the position that it answers, leaves the keys ascending; the leaf
  -- has this key, all it had, and no other.
  pub insert-Inserted :
      (node : LeafNode K) (key : K) (value : Rid)
      → IsAscending comparator 0 node.items
      → (lookup comparator node key).1 ≡ false
      → Inserted node key (insert node (lookup comparator node key).0 key value)
  insert-Inserted node key value asc absent =
      let bound = lookup-IsLowerBound node key asc in
      let p = (lookup comparator node key).0 in
      let inside : p ≤ size node = let e = bound.to_last in omega arith in
      record {
        ascending =
            inserted-IsAscending comparator laws 0 node.items p (key, value) asc (omega arith)
              inside bound.below (λ i l m. bound.above absent i l (omega arith));
        one_more = refl;
        has = λ other.
            inserted-Has comparator laws 0 node.items p (key, value) other (omega arith) inside;
      }

  -- What a removal does to a leaf: the answer tells whether the key was there, and then it is gone.
  pub record Removed (node : LeafNode K) (key : K) (answer : ℕ × LeafNode K) : Type 0 where
    pub ascending : IsAscending comparator 0 answer.1.items
    pub counted : size answer.1 + answer.0 ≡ size node
    pub one_if_had : (answer.0 ≡ 1) ↔ Has comparator 0 node.items key
    pub has :
        (other : K)
        → Has comparator 0 answer.1.items other
          ↔ ((comparator key other ≢ equal) × Has comparator 0 node.items other)

  -- `remove` answers 1 when the leaf has the key and 0 when not; afterwards the keys still ascend, and the leaf has
  -- what it had but this key.
  pub remove-Removed :
      (node : LeafNode K) (key : K)
      → IsAscending comparator 0 node.items
      → Removed node key (remove comparator node key)
  remove-Removed node key asc =
      let bound = lookup-IsLowerBound node key asc in
      let p = (lookup comparator node key).0 in
      let found = lookup-Has node key asc in
      elim (Bool-cases (lookup comparator node key).1) [
        | inl e ↦
            let (inside, same) = bound.at e in
            let l : p < size node = omega arith in
            let answer : remove comparator node key ≡ (1, removed node p) = rw e refl in
            let as_key : (other : K)
                → comparator (key_of node.items p) other ≡ comparator key other =
              λ other. laws.equal_left (key_of node.items p) key other same in
            subst (Removed node key) (sym answer) (record {
              ascending = removed-IsAscending comparator laws 0 node.items p asc l;
              counted = omega arith;
              one_if_had = (λ g. found.0 e, λ h. refl);
              has = λ other.
                  let removal =
                    removed-Has comparator laws 0 node.items p other asc (omega arith) l in
                  (
                    λ h. (λ g. (removal.0 h).0 (as_key other ∙ g), (removal.0 h).1),
                    λ h. removal.1 (λ g. h.0 (sym (as_key other) ∙ g), h.1),
                  );
            })
        | inr e ↦
            let answer : remove comparator node key ≡ (0, node) = rw e refl in
            let absent : Has comparator 0 node.items key → ⊥ =
              λ h. let clash : true ≡ false = sym (found.1 h) ∙ e in absurd cc in
            subst (Removed node key) (sym answer) (record {
              ascending = asc;
              counted = omega arith;
              one_if_had = (λ g. absurd cc, λ h. absurd (absent h));
              has = λ other. (
                λ h. (
                  λ g.
                      let (i, a, b, f) = h in
                      absent (
                        i,
                        a,
                        b,
                        equal_right comparator laws (key_of node.items i) key other g ∙ f,
                      ),
                  h,
                ),
                λ h. h.1,
              );
            })
      ]
