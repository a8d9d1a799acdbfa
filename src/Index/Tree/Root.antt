-- ===== src/Index/Tree/Root.antt =====
-- The split of a root that is a leaf (`insert_entry` with `create_new_root` in bplus_tree.cpp): the tree grows by
-- one level.
use mathlib.Core.Path.{ap₂}
use csu_dbms.Base.{
  ℕ, zero, suc, ◌+◌, ◌-◌, ◌<◌, ◌≡◌, ◌≢◌, refl, sym, ap, ◌∙◌, true, false, ◌==◌, Option, some, inl,
  inr, ◌⊎◌, ◌↔◌, dec_lt, arith,
}
use csu_dbms.LowerBound.{Sign, less, equal, greater}
use csu_dbms.Index.Key.{Rid, IsLawful, less_greater}
use csu_dbms.Index.Leaf.{LeafNode, lookup}
use csu_dbms.Index.Leaf
use csu_dbms.Index.Order.{key_of, IsAscending, Has}
use csu_dbms.Index.Tree.{Page, Tree, put, set_parent, set_parent_page_num}
use csu_dbms.Index.Tree.Split.{Split}

module _ {K : Type 0} where
  pub put_here : (t : Tree K) (n : ℕ) (page : Option (Page K)) → (put t n page).pages n ≡ page
  unfolding put
  put_here t n page = let e : (n == n) ≡ true = ground arith in rw e refl

  pub put_elsewhere :
      (t : Tree K) (n m : ℕ) (page : Option (Page K)) → m ≢ n → (put t n page).pages m ≡ t.pages m
  unfolding put
  put_elsewhere t n m page ne = let e : (m == n) ≡ false = ground arith in rw e refl

  pub set_parent_at :
      (t : Tree K) (n : ℕ) (page : Page K) (parent : Option ℕ)
      → t.pages n ≡ some page
      → set_parent t n parent ≡ put t n (some (set_parent_page_num page parent))
  unfolding set_parent
  set_parent_at t n page parent e = rw (set_parent, e) refl

module _ {K : Type 0} (comparator : K → K → Sign) (laws : IsLawful comparator) (blank : K)
    (t : Tree K) (node : LeafNode K) (new_page p : ℕ) (key : K) (rid : Rid)
    (halved : LeafNode K × LeafNode K) (split : Split blank node new_page p key rid halved)
    (whole : IsAscending comparator 0 (Leaf.insert node p key rid).items) where
  abbrev big : LeafNode K
  big = Leaf.insert node p key rid

  compare_items :
      {x y x' y' : K × Rid} → x ≡ x' → y ≡ y' → comparator x.0 y.0 ≡ comparator x'.0 y'.0
  compare_items e f = ap₂ (λ x y. comparator x.0 y.0) e f

  pub left-IsAscending : IsAscending comparator 0 halved.0.items
  left-IsAscending i j a b c =
      let total = split.sizes in
      compare_items (split.at_left i (omega arith)) (split.at_left j c)
      ∙ whole i j a b (omega arith)

  pub right-IsAscending : IsAscending comparator 0 halved.1.items
  right-IsAscending i j a b c =
      let total = split.sizes in
      compare_items (split.at_right i (omega arith)) (split.at_right j c)
      ∙ whole (Leaf.size halved.0 + i) (Leaf.size halved.0 + j) (omega arith) (omega arith)
          (omega arith)

  -- The first key of the right leaf lies above the left one.
  pub separator_above :
      (i : ℕ)
      → i < Leaf.size halved.0
      → comparator (key_of halved.1.items 0) (key_of halved.0.items i) ≡ greater
  separator_above i l =
      let total = split.sizes in
      let more = split.right_bounds.0 in
      less_greater comparator laws (key_of halved.0.items i) (key_of halved.1.items 0) (
        compare_items (split.at_left i l) (split.at_right 0 more)
        ∙ whole i (Leaf.size halved.0 + 0) (omega arith) (omega arith) (omega arith))

  pub separator_below :
      (i : ℕ)
      → i < Leaf.size halved.1
      → comparator (key_of halved.1.items 0) (key_of halved.1.items i) ≢ greater
  separator_below zero l g =
      let clash : equal ≡ greater = sym (laws.same (key_of halved.1.items 0)) ∙ g in absurd cc
  separator_below (suc i) l g =
      let clash : less ≡ greater =
        sym (right-IsAscending 0 (suc i) (omega arith) (omega arith) l) ∙ g in
      absurd cc

  -- A key is in one of the halves exactly when it is in the whole leaf.
  pub halves-Has :
      (q : K)
      → (Has comparator 0 halved.0.items q ⊎ Has comparator 0 halved.1.items q)
        ↔ Has comparator 0 (Leaf.insert node p key rid).items q
  halves-Has q =
      let total = split.sizes in
      (
        λ h. elim h [
          | inl (i, a, l, e) ↦
              (i, a, omega arith, ap (λ x. comparator x.0 q) (sym (split.at_left i l)) ∙ e)
          | inr (i, a, l, e) ↦ (
            Leaf.size halved.0 + i,
            omega arith,
            omega arith,
            ap (λ x. comparator x.0 q) (sym (split.at_right i l)) ∙ e,
          )
        ],
        λ h.
            let (i, a, l, e) = h in
            elim (dec_lt i (Leaf.size halved.0)) [
              | yes first ↦
                  inl (i, a, first, ap (λ x. comparator x.0 q) (split.at_left i first) ∙ e)
              | no later ↦
                  let there : Leaf.size halved.0 + (i - Leaf.size halved.0) ≡ i = omega arith in
                  inr (
                    i - Leaf.size halved.0,
                    omega arith,
                    omega arith,
                    ap (λ x. comparator x.0 q)
                          (split.at_right (i - Leaf.size halved.0) (omega arith)
                            ∙ ap (Leaf.insert node p key rid).items.array there)
                        ∙ e,
                  )
            ],
      )
