-- ===== src/Index/Items.antt =====
-- The array of a node (IndexNodeHandler in bplus_tree.cpp): pairs of a key and a value of which the first
-- `key_num` are the node's. The array is a function; what lies behind the node's items is kept as the code keeps
-- it, and that the array fits into the page is a theorem on the capacities.
use csu_dbms.Base.{
  ℕ, zero, suc, ◌+◌, ◌-◌, ◌≤◌, ◌<◌, ◌≡◌, refl, ◌∙◌, true, false, ltb, if◌then◌else◌, List, [], ◌∷◌,
  Bool-cases, inl, inr, arith,
}

pub record Items (K V : Type 0) : Type 0 where
  pub key_num : ℕ
  pub array : ℕ → K × V

module _ {K V : Type 0} where
  -- `memmove` and `memcpy` of `num` items to the position `to`; both copy what the source held before.
  unfoldable pub copy_items : (ℕ → K × V) → ℕ → ℕ → (ℕ → K × V) → (ℕ → K × V)
  copy_items array to num source i =
      if ltb i to then array i else (if ltb i (to + num) then source (i - to) else array i)

  -- The array after the `memmove` that makes room, and after the one that closes a gap.
  unfoldable pub make_room : Items K V → ℕ → ℕ → (ℕ → K × V)
  make_room node index num =
      if ltb index node.key_num
      then copy_items node.array (index + num) (node.key_num - index) (λ j. node.array (index + j))
      else node.array

  unfoldable pub close_gap : Items K V → ℕ → ℕ → (ℕ → K × V)
  close_gap node index num =
      if ltb index (node.key_num - num)
      then copy_items node.array index (node.key_num - index - num)
          (λ j. node.array (index + num + j))
      else node.array

  abbrev pub recover_insert_items : Items K V → ℕ → (ℕ → K × V) → ℕ → Items K V
  recover_insert_items node index items num = record {
    key_num = node.key_num + num;
    array = copy_items (make_room node index num) index num items;
  }

  abbrev pub recover_remove_items : Items K V → ℕ → ℕ → Items K V
  recover_remove_items node index num = record {
    key_num = node.key_num - num;
    array = close_gap node index num;
  }

  copy_before :
      (array : ℕ → K × V) (to num : ℕ) (source : ℕ → K × V) (i : ℕ)
      → i < to
      → copy_items array to num source i ≡ array i
  unfolding copy_items
  copy_before array to num source i l = let h : ltb i to ≡ true = ground arith in rw h refl

  copy_inside :
      (array : ℕ → K × V) (to num : ℕ) (source : ℕ → K × V) (i : ℕ)
      → i < num
      → copy_items array to num source (to + i) ≡ source i
  unfolding copy_items
  copy_inside array to num source i l =
      let h : ltb (to + i) to ≡ false = ground arith in
      let k : ltb (to + i) (to + num) ≡ true = ground arith in
      let e : to + i - to ≡ i = omega arith in rw (h, k, e) refl

  copy_after :
      (array : ℕ → K × V) (to num : ℕ) (source : ℕ → K × V) (i : ℕ)
      → to + num ≤ i
      → copy_items array to num source i ≡ array i
  unfolding copy_items
  copy_after array to num source i l =
      let h : ltb i to ≡ false = ground arith in
      let k : ltb i (to + num) ≡ false = ground arith in rw (h, k) refl

  -- The items after an insertion: those before the position, the new ones, and those from it on.
  pub recover_insert_items_before :
      (node : Items K V) (index num : ℕ) (items : ℕ → K × V) (i : ℕ)
      → i < index
      → (recover_insert_items node index items num).array i ≡ node.array i
  recover_insert_items_before node index num items i l =
      copy_before (make_room node index num) index num items i l
      ∙ elim (Bool-cases (ltb index node.key_num)) [
        | inl e ↦
            unfold make_room in
            rw (make_room, e) (copy_before node.array (index + num) _ _ i (omega arith))
        | inr e ↦ unfold make_room in rw (make_room, e) refl
      ]

  pub recover_insert_items_at :
      (node : Items K V) (index num : ℕ) (items : ℕ → K × V) (i : ℕ)
      → i < num
      → (recover_insert_items node index items num).array (index + i) ≡ items i
  recover_insert_items_at node index num items i l =
      copy_inside (make_room node index num) index num items i l

  pub recover_insert_items_after :
      (node : Items K V) (index num : ℕ) (items : ℕ → K × V) (i : ℕ)
      → i < node.key_num - index
      → (recover_insert_items node index items num).array (index + num + i) ≡ node.array (index + i)
  unfolding make_room
  recover_insert_items_after node index num items i l =
      let e : ltb index node.key_num ≡ true = ground arith in
      copy_after (make_room node index num) index num items (index + num + i) (omega arith)
      ∙ rw (make_room, e)
          (copy_inside node.array (index + num) (node.key_num - index) (λ j. node.array (index + j))
            i l)

  -- The items after a removal.
  pub recover_remove_items_before :
      (node : Items K V) (index num : ℕ) (i : ℕ)
      → i < index
      → (recover_remove_items node index num).array i ≡ node.array i
  unfolding close_gap
  recover_remove_items_before node index num i l =
      elim (Bool-cases (ltb index (node.key_num - num))) [
        | inl e ↦
            rw (close_gap, e)
              (copy_before node.array index (node.key_num - index - num)
                (λ j. node.array (index + num + j)) i l)
        | inr e ↦ rw (close_gap, e) refl
      ]

  pub recover_remove_items_after :
      (node : Items K V) (index num : ℕ) (i : ℕ)
      → i < node.key_num - index - num
      → (recover_remove_items node index num).array (index + i) ≡ node.array (index + num + i)
  unfolding close_gap
  recover_remove_items_after node index num i l =
      let e : ltb index (node.key_num - num) ≡ true = ground arith in
      rw (close_gap, e)
        (copy_inside node.array index (node.key_num - index - num)
          (λ j. node.array (index + num + j)) i l)

  -- `num` items of an array from `start` on.
  unfoldable pub slice : (ℕ → K × V) → ℕ → ℕ → List (K × V)
  slice array start zero = []
  slice array start (suc num) = array start ∷ slice array (suc start) num

  -- The items of a node in their order: what the node means.
  abbrev pub contents : Items K V → List (K × V)
  contents node = slice node.array 0 node.key_num
