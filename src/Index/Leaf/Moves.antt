-- ===== src/Index/Leaf/Moves.antt =====
-- Items that move between two leaves: `move_half_to`, `move_first_to_end`, `move_last_to_front` and `move_to` of
-- LeafIndexNodeHandler, and what the two leaves hold together.
use mathlib.Core.List.{append_assoc}
use csu_dbms.Base.{
  ℕ, ◌+◌, ◌-◌, ◌/◌, ◌≡◌, refl, sym, ap, ◌∙◌, Option, none, some, List, ◌++◌, ◌∷◌, [], Bool-cases,
  ltb, inl, inr, arith,
}
use csu_dbms.Index.Key.{Rid}
use csu_dbms.Index.Items.{slice, contents}
use csu_dbms.Index.Contents.{
  contents-append, slice-shift, contents-split, contents-remove_tail, contents-nil,
  contents-remove_first, contents-remove_last, contents-prepend, slice-one,
}
use csu_dbms.Index.Leaf.{
  LeafNode, size, move_half_to, move_first_to_end, move_last_to_front, move_to, append, preappend,
  removed,
}

module _ {K : Type 0} where
  abbrev pub items_of : LeafNode K → List (K × Rid)
  items_of node = contents node.items

  items_of-append :
      (node : LeafNode K) (array : ℕ → K × Rid) (start num : ℕ)
      → items_of (append node array start num) ≡ items_of node ++ slice array start num
  items_of-append node array start num =
      contents-append node.items (λ j. array (start + j)) num
      ∙ ap (λ x. items_of node ++ x) (slice-shift array start num)

  -- What a split leaves: the two nodes hold the items in their order, the right one the larger half.
  pub record Halved (node : LeafNode K) (halves : LeafNode K × LeafNode K) : Type 0 where
    pub same_items : items_of halves.0 ++ items_of halves.1 ≡ items_of node
    pub left_size : size halves.0 ≡ size node / 2
    pub right_size : size halves.1 ≡ size node - size node / 2

  -- `move_half_to` of a leaf into an empty one divides its items in their order into two halves.
  pub move_half_to-Halved :
      (node other : LeafNode K) → size other ≡ 0 → Halved node (move_half_to node other)
  move_half_to-Halved node other empty = record {
    same_items =
        let h = size node / 2 in
        rw
          (
            items_of-append other node.items.array h (size node - h),
            contents-nil other.items empty,
            contents-remove_tail node.items h (omega arith),
          )
          (sym (contents-split node.items h (omega arith)));
    left_size = omega arith;
    right_size = omega arith;
  }

  -- What a move between a left and a right leaf leaves: the same items in their order.
  abbrev pub Together : (left right left' right' : LeafNode K) → Type 0
  Together left right left' right' =
      items_of left' ++ items_of right' ≡ items_of left ++ items_of right

  -- The first item of the right leaf goes to the end of the left one.
  pub move_first_to_end-Together :
      (right left right' left' : LeafNode K)
      → move_first_to_end right left ≡ some (right', left')
      → Together left right left' right'
        × (size left' ≡ size left + 1)
        × (size right ≡ size right' + 1)
  move_first_to_end-Together right left right' left' e = elim (Bool-cases (ltb 0 (size right))) [
    | inl more ↦
        let h : ◌≡◌ {A = Option (LeafNode K × LeafNode K)}
            (some (removed right 0, append left right.items.array 0 1)) (some (right', left')) =
          sym (rw more refl) ∙ e in
        let r : removed right 0 ≡ right' = cc in
        let l : append left right.items.array 0 1 ≡ left' = cc in
        rw (sym r, sym l)
          ((
            rw
                (
                  items_of-append left right.items.array 0 1,
                  contents-remove_first right.items (ground arith),
                  slice-one right.items.array 0,
                )
                (append_assoc (items_of left) (right.items.array 0 ∷ [])
                  (items_of (removed right 0))),
            refl,
            ground arith,
          ))
    | inr none_left ↦ absurd (
        let h : ◌≡◌ {A = Option (LeafNode K × LeafNode K)} none (some (right', left')) =
          sym (rw none_left refl) ∙ e in
        cc)
  ]

  -- The last item of the left leaf goes to the front of the right one.
  pub move_last_to_front-Together :
      (left right left' right' : LeafNode K)
      → move_last_to_front left right ≡ some (left', right')
      → Together left right left' right'
        × (size right' ≡ size right + 1)
        × (size left ≡ size left' + 1)
  move_last_to_front-Together left right left' right' e = elim (Bool-cases (ltb 0 (size left))) [
    | inl more ↦
        let last = size left - 1 in
        let h : ◌≡◌ {A = Option (LeafNode K × LeafNode K)}
            (some (removed left last, preappend right (left.items.array last)))
            (some (left', right')) =
          sym (rw more refl) ∙ e in
        let l : removed left last ≡ left' = cc in
        let r : preappend right (left.items.array last) ≡ right' = cc in
        rw (sym r, sym l)
          ((
            rw
                (
                  contents-prepend right.items (left.items.array last),
                  contents-remove_last left.items (ground arith),
                )
                (sym (
                  append_assoc (items_of (removed left last)) (left.items.array last ∷ [])
                    (items_of right))),
            refl,
            ground arith,
          ))
    | inr none_left ↦ absurd (
        let h : ◌≡◌ {A = Option (LeafNode K × LeafNode K)} none (some (left', right')) =
          sym (rw none_left refl) ∙ e in
        cc)
  ]

  -- What a merge leaves: all items in the left leaf, which the next leaf of the right one now follows.
  pub record Merged (left right : LeafNode K) (answer : LeafNode K × LeafNode K) : Type 0 where
    pub all_items : items_of answer.1 ≡ items_of left ++ items_of right
    pub emptied : size answer.0 ≡ 0
    pub total : size answer.1 ≡ size left + size right
    pub chained : answer.1.next_brother ≡ right.next_brother

  -- `move_to` puts the items of the right leaf behind those of the left one, empties it, and takes it out of the
  -- chain of leaves.
  pub move_to-Merged : (right left : LeafNode K) → Merged left right (move_to right left)
  move_to-Merged right left = record {
    all_items = items_of-append left right.items.array 0 (size right);
    emptied = refl;
    total = refl;
    chained = refl;
  }
