-- ===== src/Index/Tests.antt =====
-- The theorems of the index at concrete keys, nodes and trees.
use csu_dbms.Base.{
  ℕ, zero, suc, ◌+◌, ◌*◌, ◌≤◌, ◌<◌, ◌≡◌, ◌≢◌, refl, subst, true, ltb, ◌==◌, if◌then◌else◌, Option,
  none, some, [], ◌∷◌, ◌++◌, ◌⊎◌, inl, inr, arith,
}
use csu_dbms.Rc.{success, notfound, bufferpool_nobuf, record_not_exist, record_duplicate_key}
use csu_dbms.LowerBound.{equal, greater, lower_bound, search}
use csu_dbms.Index.Key.{
  Rid, difference, difference-IsLawful, IsLawful, key_comparator, Key, IsLexicographic,
  key_comparator-IsLexicographic,
}
use csu_dbms.Index.Items.{slice, contents, recover_insert_items}
use csu_dbms.Index.Contents.{contents-recover_insert_items}
use csu_dbms.Index.Order.{IsAscending, Has}
use csu_dbms.Index.Leaf.{LeafNode, move_half_to}
use csu_dbms.Index.Leaf
use csu_dbms.Index.Leaf.Search.{Inserted, insert-Inserted, Removed, remove-Removed}
use csu_dbms.Index.Internal.{InternalNode}
use csu_dbms.Index.Internal
use csu_dbms.Index.Internal.Search.{IsChild, lookup-IsChild}
use csu_dbms.Index.Tree.{Page, leaf_page, internal_page, Tree, descend, child_page}
use csu_dbms.Index.Tree.Order.{IsTree, InTree, low_of, high_of}
use csu_dbms.Index.Tree.Linked.{IsLinked}
use csu_dbms.Index.Tree.Find.{Found, descend-Found}
use csu_dbms.Index.Tree.Insert.{insert_entry, halves}
use csu_dbms.Index.Tree.Delete.{delete_entry}
use csu_dbms.Index.Tree.Entry.{
  IsValid, Extended, insert_entry-duplicate, delete_entry-absent, insert_entry-Extended,
}
use csu_dbms.Index.Tree.Split.{Split, halves-Split}
use csu_dbms.Index.Capacity.{
  bp_page_data_size, create_header, leaf_item_at, internal_item_at, create_header-fits,
}
use csu_dbms.Base.Int.{negsuc}
use csu_dbms.Index.Tree.NewRoot.{Grown, insert_entry-Grown}
use csu_dbms.Index.Tree.Drop.{Reduced, delete_entry-Reduced}

abbrev rid_of : ℕ → Rid
rid_of n = record { page_num = n; slot_num = 0 }

-- A leaf of three keys, beginning with this one, each one ten more than the one before.
abbrev leaf_from : ℕ → Option ℕ → Option ℕ → LeafNode ℕ
leaf_from first parent next = record {
  parent = parent;
  next_brother = next;
  items = record { key_num = 3; array = λ i. (first + i * 10, rid_of (first + i * 10)) };
}

abbrev left_leaf : LeafNode ℕ
left_leaf = leaf_from 10 (some 4) (some 3)

abbrev right_leaf : LeafNode ℕ
right_leaf = leaf_from 50 (some 4) none

abbrev root_node : InternalNode ℕ
root_node = record { parent = none; items = record { key_num = 2; array = λ i. (i * 50, 2 + i) } }

abbrev small_pages : ℕ → Option (Page ℕ)
small_pages n =
    if n == 2
    then some (leaf_page left_leaf)
    else (if n == 3
        then some (leaf_page right_leaf)
        else (if n == 4 then some (internal_page root_node) else none))

-- A root, page 4, over two leaves, pages 2 and 3.
abbrev small : Tree ℕ
small = record {
  root_page = some 4;
  leaf_max_size = 4;
  internal_max_size = 4;
  pages = small_pages;
  supply = 5 ∷ [];
  page_error = notfound;
  allocate_error = bufferpool_nobuf;
}

leaf_from-IsAscending :
    (first : ℕ) (parent next : Option ℕ)
    → IsAscending difference 0 (leaf_from first parent next).items
unfolding difference
leaf_from-IsAscending first parent next i j a b c =
    let l : ltb (first + i * 10) (first + j * 10) ≡ true = ground arith in rw l refl

root_node-IsAscending : IsAscending difference 1 root_node.items
root_node-IsAscending i j a b c = absurd (omega arith)

difference-greater : (a b : ℕ) → b < a → difference a b ≡ greater
unfolding difference
difference-greater a b l = ground arith

difference-not_greater : (a b : ℕ) → a ≤ b → difference a b ≢ greater
unfolding difference
difference-not_greater a b l g = ground arith

small_child-IsTree :
    (i : ℕ)
    → i < 2
    → IsTree difference small_pages 0
        (low_of difference root_node none i)
        (high_of difference root_node none i)
        (2 + i)
small_child-IsTree zero l = (
  left_leaf,
  refl,
  leaf_from-IsAscending 10 (some 4) (some 3),
  λ j m. (tt, difference-greater 50 (10 + j * 10) (omega arith)),
)
small_child-IsTree (suc zero) l = (
  right_leaf,
  refl,
  leaf_from-IsAscending 50 (some 4) none,
  λ j m. (difference-not_greater 50 (50 + j * 10) (omega arith), tt),
)
small_child-IsTree (suc (suc i)) l = absurd (omega arith)

small-IsTree : IsTree difference small_pages 1 none none 4
small-IsTree =
    (root_node, refl, omega arith, root_node-IsAscending, λ i a b. (tt, tt), small_child-IsTree)

small_child-IsLinked : (i : ℕ) → i < 2 → IsLinked small_pages 0 (2 + i) (some 4)
small_child-IsLinked zero l = (left_leaf, refl, refl)
small_child-IsLinked (suc zero) l = (right_leaf, refl, refl)
small_child-IsLinked (suc (suc i)) l = absurd (omega arith)

small-IsValid : IsValid difference small 1 4
small-IsValid = record {
  rooted = refl;
  tree = small-IsTree;
  linked = (root_node, refl, refl, λ i j a b e. absurd (omega arith), small_child-IsLinked);
}

sixty-InTree : InTree difference small_pages 1 4 60
unfolding difference
sixty-InTree =
    (root_node, refl, 1, omega arith, (right_leaf, refl, (1, omega arith, omega arith, refl)))

insert_entry-duplicate_example :
    insert_entry 0 difference 2 small 60 (rid_of 60) ≡ some (record_duplicate_key, small)
insert_entry-duplicate_example =
    insert_entry-duplicate 0 difference difference-IsLawful small 1 4 2 60 (rid_of 60) small-IsValid
      (omega arith) sixty-InTree

difference-eq : (a b : ℕ) → difference a b ≡ equal → a ≡ b
unfolding difference
difference-eq a b e = ground arith

no_65 :
    (first : ℕ) (parent next : Option ℕ)
    → (first ≡ 10) ⊎ (first ≡ 50)
    → Has difference 0 (leaf_from first parent next).items 65
    → ⊥
no_65 first parent next f h =
    let (i, a, l, e) = h in
    let same = difference-eq (first + i * 10) 65 e in
    elim f [ inl x ↦ omega arith | inr x ↦ omega arith ]

child_without_65 : (i : ℕ) → i < 2 → InTree difference small_pages 0 (2 + i) 65 → ⊥
child_without_65 zero l h =
    let (node, here, has) = h in
    let same : node ≡ left_leaf = cc in
    no_65 10 (some 4) (some 3) (inl refl) (subst (λ x. Has difference 0 x.items 65) same has)
child_without_65 (suc zero) l h =
    let (node, here, has) = h in
    let same : node ≡ right_leaf = cc in
    no_65 50 (some 4) none (inr refl) (subst (λ x. Has difference 0 x.items 65) same has)
child_without_65 (suc (suc i)) l h = absurd (omega arith)

without_65 : InTree difference small_pages 1 4 65 → ⊥
without_65 h =
    let (node, here, i, l, k) = h in
    let same : node ≡ root_node = cc in
    child_without_65 i (subst (λ x. i < Internal.size x) same l)
      (subst (λ x. InTree difference small_pages 0 (Internal.value_of x i) 65) same k)

delete_entry-absent_example : delete_entry difference 2 small 65 ≡ some (record_not_exist, small)
delete_entry-absent_example =
    delete_entry-absent 0 difference difference-IsLawful small 1 4 2 65 small-IsValid (omega arith)
      without_65

insert_entry-Extended_example :
    (t' : Tree ℕ) × (insert_entry 0 difference 2 small 65 (rid_of 65) ≡ some (success, t'))
    × Extended 0 difference difference-IsLawful small 1 4 65 t'
unfolding descend lower_bound search difference
insert_entry-Extended_example =
    insert_entry-Extended 0 difference difference-IsLawful small 1 4 2 65 (rid_of 65) 3 right_leaf
      small-IsValid (omega arith) without_65 refl refl (omega arith)

delete_entry-Reduced_example :
    (t' : Tree ℕ) × (delete_entry difference 2 small 60 ≡ some (success, t'))
    × Reduced 0 difference difference-IsLawful small 1 4 60 t'
unfolding descend lower_bound search difference
delete_entry-Reduced_example =
    delete_entry-Reduced 0 difference difference-IsLawful small 1 4 2 60 3 right_leaf small-IsValid
      (omega arith) sixty-InTree refl refl (omega arith)

descend-Found_example :
    (at : ℕ) × (descend 2 small (child_page difference 60) 4 ≡ some (success, at))
    × Found difference difference-IsLawful small_pages 1 4 60 at
descend-Found_example =
    descend-Found difference difference-IsLawful small 1 2 none none 4 60 small-IsTree (omega arith)

lookup-IsChild_example :
    IsChild difference difference-IsLawful root_node 60
      (Internal.lookup difference root_node 60).child
lookup-IsChild_example =
    lookup-IsChild difference difference-IsLawful root_node 60 root_node-IsAscending (omega arith)

remove-Removed_example :
    Removed difference difference-IsLawful left_leaf 20 (Leaf.remove difference left_leaf 20)
remove-Removed_example =
    remove-Removed difference difference-IsLawful left_leaf 20
      (leaf_from-IsAscending 10 (some 4) (some 3))

insert-Inserted_example :
    Inserted difference difference-IsLawful left_leaf 15
      (Leaf.insert left_leaf (Leaf.lookup difference left_leaf 15).0 15 (rid_of 15))
unfolding lower_bound search difference
insert-Inserted_example =
    insert-Inserted difference difference-IsLawful left_leaf 15 (rid_of 15)
      (leaf_from-IsAscending 10 (some 4) (some 3)) refl

key_comparator-IsLexicographic_example :
    IsLawful (key_comparator difference) × ((a b : Key ℕ) → IsLexicographic difference a b)
key_comparator-IsLexicographic_example =
    key_comparator-IsLexicographic difference difference-IsLawful

contents-recover_insert_items_example :
    contents (recover_insert_items left_leaf.items 1 (λ j. (15, rid_of 15)) 1)
    ≡ slice left_leaf.items.array 0 1
      ++ (slice {K = ℕ} {V = Rid} (λ j. (15, rid_of 15)) 0 1 ++ slice left_leaf.items.array 1 2)
contents-recover_insert_items_example =
    contents-recover_insert_items left_leaf.items 1 1 (λ j. (15, rid_of 15)) (omega arith)

halves-Split_example :
    Split 0 left_leaf 7 2 25 (rid_of 25) (halves 0 small left_leaf 7 2 25 (rid_of 25))
halves-Split_example = halves-Split 0 small left_leaf 7 2 25 (rid_of 25) (omega arith) (omega arith)

create_header-fits_example :
    (let header = create_header 4 (negsuc 0) (negsuc 0) in
      (leaf_item_at header header.leaf_max_size ≤ bp_page_data_size)
      × (internal_item_at header header.internal_max_size ≤ bp_page_data_size)
      × (bp_page_data_size < leaf_item_at header (header.leaf_max_size + 1))
      × (bp_page_data_size < internal_item_at header (header.internal_max_size + 1)))
create_header-fits_example = create_header-fits 4

-- A tree of one full leaf, page 2.
abbrev full_leaf : LeafNode ℕ
full_leaf = leaf_from 10 none none

abbrev one_leaf_pages : ℕ → Option (Page ℕ)
one_leaf_pages n = if n == 2 then some (leaf_page full_leaf) else none

abbrev one_leaf : Tree ℕ
one_leaf = record small {
  root_page = some 2;
  leaf_max_size = 3;
  pages = one_leaf_pages;
  supply = 3 ∷ 4 ∷ [];
}

one_leaf-IsValid : IsValid difference one_leaf 0 2
one_leaf-IsValid = record {
  rooted = refl;
  tree = (full_leaf, refl, leaf_from-IsAscending 10 none none, λ i l. (tt, tt));
  linked = (full_leaf, refl, refl);
}

leaf_without_65 : InTree difference one_leaf_pages 0 2 65 → ⊥
leaf_without_65 h =
    let (node, here, has) = h in
    let same : node ≡ full_leaf = cc in
    no_65 10 none none (inl refl) (subst (λ x. Has difference 0 x.items 65) same has)

insert_entry-Grown_example :
    (t' : Tree ℕ) × (insert_entry 0 difference 2 one_leaf 65 (rid_of 65) ≡ some (success, t'))
    × Grown 0 difference difference-IsLawful one_leaf 2 3 4 [] full_leaf 65 (rid_of 65) t'
insert_entry-Grown_example =
    insert_entry-Grown 0 difference difference-IsLawful one_leaf 2 3 4 1 [] full_leaf 65 (rid_of 65)
      one_leaf-IsValid refl leaf_without_65 (omega arith) (omega arith) refl
      (λ e. absurd (omega arith)) (λ e. absurd (omega arith)) (λ e. absurd (omega arith))
