-- ===== src/Index/Internal/Moves.antt =====
-- The moves of InternalIndexNodeHandler: what two internal nodes hold together before and after `move_half_to`,
-- `move_first_to_end`, `move_last_to_front` and `move_to`.
use mathlib.Core.List.{append_assoc}
use csu_dbms.Base.{
  ℕ, ◌+◌, ◌-◌, ◌/◌, ◌≡◌, refl, sym, ap, ◌∙◌, Option, none, some, List, ◌++◌, ◌∷◌, [], Bool-cases,
  ltb, inl, inr, arith,
}
use csu_dbms.Index.Items.{slice, contents}
use csu_dbms.Index.Contents.{
  contents-append, slice-shift, contents-split, contents-nil, contents-remove_first, contents-last,
  contents-prepend, slice-one,
}
use csu_dbms.Index.Internal.{
  InternalNode, size, move_half_to, move_first_to_end, move_last_to_front, move_to, append,
  preappend, removed, shortened,
}

module _ {K : Type 0} where
  abbrev pub items_of : InternalNode K → List (K × ℕ)
  items_of node = contents node.items

  items_of-append :
      (node : InternalNode K) (array : ℕ → K × ℕ) (start num : ℕ)
      → items_of (append node array start num) ≡ items_of node ++ slice array start num
  items_of-append node array start num =
      contents-append node.items (λ j. array (start + j)) num
      ∙ ap (λ x. items_of node ++ x) (slice-shift array start num)

  -- What a split leaves: the two nodes hold the items in their order, the right one the larger half.
  pub record Halved (node : InternalNode K) (halves : InternalNode K × InternalNode K)
      : Type 0 where
    pub same_items : items_of halves.0 ++ items_of halves.1 ≡ items_of node
    pub left_size : size halves.0 ≡ size node / 2
    pub right_size : size halves.1 ≡ size node - size node / 2

  -- `move_half_to` of a node into an empty one divides its items in their order into two halves.
  pub move_half_to-Halved :
      (node other : InternalNode K) → size other ≡ 0 → Halved node (move_half_to node other)
  move_half_to-Halved node other empty = record {
    same_items =
        let h = size node / 2 in
        let rest : size node - (size node - h) ≡ h = omega arith in
        rw
          (
            items_of-append other node.items.array h (size node - h),
            contents-nil other.items empty,
            rest,
          )
          (sym (contents-split node.items h (omega arith)));
    left_size = omega arith;
    right_size = omega arith;
  }

  -- What a move between a left and a right node leaves: the same items in their order.
  abbrev pub Together : (left right left' right' : InternalNode K) → Type 0
  Together left right left' right' =
      items_of left' ++ items_of right' ≡ items_of left ++ items_of right

  -- The first item of the right node goes to the end of the left one.
  pub move_first_to_end-Together :
      (right left right' left' : InternalNode K)
      → move_first_to_end right left ≡ some (right', left')
      → Together left right left' right'
        × (size left' ≡ size left + 1)
        × (size right ≡ size right' + 1)
  move_first_to_end-Together right left right' left' e = elim (Bool-cases (ltb 0 (size right))) [
    | inl more ↦
        let h : ◌≡◌ {A = Option (InternalNode K × InternalNode K)}
            (some (removed right 0, append left right.items.array 0 1)) (some (right', left')) =
          sym (rw more refl) ∙ e in
        let r : removed right 0 ≡ right' = cc in
        let l : append left right.items.array 0 1 ≡ left' = cc in
        rw (sym r, sym l)
          ((
            rw
                (
                  items_of-append left right.items.array 0 1,
                  contents-remove_first right.items (ground arith),
                  slice-one right.items.array 0,
                )
                (append_assoc (items_of left) (right.items.array 0 ∷ [])
                  (items_of (removed right 0))),
            refl,
            ground arith,
          ))
    | inr none_left ↦ absurd (
        let h : ◌≡◌ {A = Option (InternalNode K × InternalNode K)} none (some (right', left')) =
          sym (rw none_left refl) ∙ e in
        cc)
  ]

  -- The last item of the left node goes to the front of the right one.
  pub move_last_to_front-Together :
      (left right left' right' : InternalNode K)
      → move_last_to_front left right ≡ some (left', right')
      → Together left right left' right'
        × (size right' ≡ size right + 1)
        × (size left ≡ size left' + 1)
  move_last_to_front-Together left right left' right' e = elim (Bool-cases (ltb 0 (size left))) [
    | inl more ↦
        let last = size left - 1 in
        let h : ◌≡◌ {A = Option (InternalNode K × InternalNode K)}
            (some (shortened left, preappend right (left.items.array last)))
            (some (left', right')) =
          sym (rw more refl) ∙ e in
        let l : shortened left ≡ left' = cc in
        let r : preappend right (left.items.array last) ≡ right' = cc in
        rw (sym r, sym l)
          ((
            rw
                (
                  contents-prepend right.items (left.items.array last),
                  contents-last left.items (ground arith),
                )
                (sym (
                  append_assoc (items_of (shortened left)) (left.items.array last ∷ [])
                    (items_of right))),
            refl,
            ground arith,
          ))
    | inr none_left ↦ absurd (
        let h : ◌≡◌ {A = Option (InternalNode K × InternalNode K)} none (some (left', right')) =
          sym (rw none_left refl) ∙ e in
        cc)
  ]

  -- What a merge leaves: all items in the left node.
  pub record Merged (left right : InternalNode K) (answer : InternalNode K × InternalNode K)
      : Type 0 where
    pub all_items : items_of answer.1 ≡ items_of left ++ items_of right
    pub emptied : size answer.0 ≡ 0
    pub total : size answer.1 ≡ size left + size right

  -- `move_to` puts the items of the right node behind those of the left one and empties it.
  pub move_to-Merged : (right left : InternalNode K) → Merged left right (move_to right left)
  move_to-Merged right left = record {
    all_items = items_of-append left right.items.array 0 (size right);
    emptied = omega arith;
    total = refl;
  }
