-- ===== src/Index/Contents.antt =====
-- The list of a node's items, and what the moves of its array do to it (IndexNodeHandler in bplus_tree.cpp).
use mathlib.Core.List.{append-nil}
use csu_dbms.Base.{
  ℕ, zero, suc, ◌+◌, ◌-◌, ◌≤◌, ◌<◌, ◌≡◌, refl, sym, ap, ◌∙◌, [], ◌∷◌, ◌++◌, length, arith,
}
use csu_dbms.Index.Items.{
  Items, slice, contents, close_gap, recover_insert_items, recover_insert_items_before,
  recover_insert_items_at, recover_insert_items_after, recover_remove_items,
  recover_remove_items_before, recover_remove_items_after,
}

module _ {K V : Type 0} where
  pub length-slice : (a : ℕ → K × V) (s n : ℕ) → length (slice a s n) ≡ n
  unfolding slice
  length-slice a s zero = refl
  length-slice a s (suc n) = ap suc (length-slice a (suc s) n)

  pub slice-append :
      (a : ℕ → K × V) (s m n : ℕ) → slice a s (m + n) ≡ slice a s m ++ slice a (s + m) n
  unfolding slice
  slice-append a s zero n =
      let e : s + 0 ≡ s = omega arith in let z : zero + n ≡ n = omega arith in rw (e, z) refl
  slice-append a s (suc m) n =
      let e : s + suc m ≡ suc s + m = omega arith in
      let z : suc m + n ≡ suc (m + n) = omega arith in
      rw (z, e) (ap (◌∷◌ (a s)) (slice-append a (suc s) m n))

  -- Slices with the same elements are equal.
  pub slice-eq :
      (a b : ℕ → K × V) (s t n : ℕ)
      → ((i : ℕ) → i < n → a (s + i) ≡ b (t + i))
      → slice a s n ≡ slice b t n
  unfolding slice
  slice-eq a b s t zero h = refl
  slice-eq a b s t (suc n) h =
      let s0 : s + 0 ≡ s = omega arith in
      let t0 : t + 0 ≡ t = omega arith in
      let head : a s ≡ b t = rw (sym s0, sym t0) (h 0 (omega arith)) in
      rw head (
        ap (◌∷◌ (b t)) (
          slice-eq a b (suc s) (suc t) n (λ i l.
            let si : suc s + i ≡ s + suc i = omega arith in
            let ti : suc t + i ≡ t + suc i = omega arith in rw (si, ti) (h (suc i) (omega arith)))))

  -- Items put in at a position stand between the items before it and the items from it on.
  pub contents-recover_insert_items :
      (node : Items K V) (index num : ℕ) (items : ℕ → K × V)
      → index ≤ node.key_num
      → contents (recover_insert_items node index items num)
        ≡ slice node.array 0 index
          ++ (slice items 0 num ++ slice node.array index (node.key_num - index))
  contents-recover_insert_items node index num items l =
      let a = (recover_insert_items node index items num).array in
      let parts : node.key_num + num ≡ index + (num + (node.key_num - index)) = omega arith in
      let z : 0 + index ≡ index = omega arith in
      let front : slice a 0 index ≡ slice node.array 0 index =
        slice-eq a node.array 0 0 index
          (λ i b. recover_insert_items_before node index num items (0 + i) (omega arith)) in
      let middle : slice a index num ≡ slice items 0 num =
        slice-eq a items index 0 num
          (λ i b. recover_insert_items_at node index num items i b ∙ ap items (omega arith)) in
      let back : slice a (index + num) (node.key_num - index)
          ≡ slice node.array index (node.key_num - index) =
        slice-eq a node.array (index + num) index (node.key_num - index)
          (λ i b. recover_insert_items_after node index num items i b) in
      rw
        (
          parts,
          slice-append a 0 index (num + (node.key_num - index)),
          z,
          slice-append a index num (node.key_num - index),
          front,
          middle,
          back,
        )
        refl

  -- A removal leaves the items before the position and those behind the removed ones.
  pub contents-recover_remove_items :
      (node : Items K V) (index num : ℕ)
      → index + num ≤ node.key_num
      → contents (recover_remove_items node index num)
        ≡ slice node.array 0 index ++ slice node.array (index + num) (node.key_num - (index + num))
  contents-recover_remove_items node index num l =
      let a = close_gap node index num in
      let rest = node.key_num - (index + num) in
      let parts : node.key_num - num ≡ index + rest = omega arith in
      let z : 0 + index ≡ index = omega arith in
      let front : slice a 0 index ≡ slice node.array 0 index =
        slice-eq a node.array 0 0 index
          (λ i b. recover_remove_items_before node index num (0 + i) (omega arith)) in
      let back : slice a index rest ≡ slice node.array (index + num) rest =
        slice-eq a node.array index (index + num) rest
          (λ i b. recover_remove_items_after node index num i (omega arith)) in
      rw (parts, slice-append a 0 index rest, z, front, back) refl

  -- Items put behind the node's.
  pub contents-append :
      (node : Items K V) (items : ℕ → K × V) (num : ℕ)
      → contents (recover_insert_items node node.key_num items num)
        ≡ contents node ++ slice items 0 num
  unfolding slice
  contents-append node items num =
      let z : node.key_num - node.key_num ≡ 0 = omega arith in
      contents-recover_insert_items node node.key_num num items (omega arith)
      ∙ rw (z, append-nil (slice items 0 num)) refl

  -- Some items of an array, copied to its beginning.
  pub slice-shift :
      (array : ℕ → K × V) (start num : ℕ)
      → slice (λ j. array (start + j)) 0 num ≡ slice array start num
  slice-shift array start num =
      slice-eq (λ j. array (start + j)) array 0 start num (λ i l. ap array (omega arith))

  pub contents-nil : (node : Items K V) → node.key_num ≡ 0 → contents node ≡ []
  unfolding slice
  contents-nil node e = rw e refl

  -- The items that are left when those from a position on go.
  pub contents-remove_tail :
      (node : Items K V) (index : ℕ)
      → index ≤ node.key_num
      → contents (recover_remove_items node index (node.key_num - index)) ≡ slice node.array 0 index
  unfolding slice
  contents-remove_tail node index l =
      let z : node.key_num - (index + (node.key_num - index)) ≡ 0 = omega arith in
      contents-recover_remove_items node index (node.key_num - index) (omega arith)
      ∙ rw (z, append-nil (slice node.array 0 index)) refl

  pub contents-split :
      (node : Items K V) (index : ℕ)
      → index ≤ node.key_num
      → contents node ≡ slice node.array 0 index ++ slice node.array index (node.key_num - index)
  contents-split node index l =
      let parts : node.key_num ≡ index + (node.key_num - index) = omega arith in
      let z : 0 + index ≡ index = omega arith in
      ap (slice node.array 0) parts
      ∙ slice-append node.array 0 index (node.key_num - index)
      ∙ ap (λ x. slice node.array 0 index ++ slice node.array x (node.key_num - index)) z

  pub slice-one : (array : ℕ → K × V) (start : ℕ) → slice array start 1 ≡ array start ∷ []
  unfolding slice
  slice-one array start = refl

  pub contents-remove_first :
      (node : Items K V)
      → 0 < node.key_num
      → contents node ≡ node.array 0 ∷ contents (recover_remove_items node 0 1)
  unfolding slice
  contents-remove_first node l =
      let z : node.key_num - (0 + 1) ≡ node.key_num - 1 = omega arith in
      contents-split node 1 (omega arith)
      ∙ ap (◌∷◌ (node.array 0)) (
          sym (
            contents-recover_remove_items node 0 1 (omega arith)
            ∙ ap (λ n. slice node.array 1 n) z))

  -- The last item stands behind those before it.
  pub contents-last :
      (node : Items K V)
      → 0 < node.key_num
      → contents node
        ≡ slice node.array 0 (node.key_num - 1) ++ (node.array (node.key_num - 1) ∷ [])
  contents-last node l =
      let last = node.key_num - 1 in
      let one : node.key_num - last ≡ 1 = omega arith in
      contents-split node last (omega arith) ∙ rw (one, slice-one node.array last) refl

  pub contents-remove_last :
      (node : Items K V)
      → 0 < node.key_num
      → contents node
        ≡ contents (recover_remove_items node (node.key_num - 1) 1)
          ++ (node.array (node.key_num - 1) ∷ [])
  contents-remove_last node l =
      let last = node.key_num - 1 in
      let one : node.key_num - last ≡ 1 = omega arith in
      let tail : recover_remove_items node last (node.key_num - last)
          ≡ recover_remove_items node last 1 =
        ap (recover_remove_items node last) one in
      contents-last node l
      ∙ ap (λ x. x ++ (node.array last ∷ []))
          (sym (contents-remove_tail node last (omega arith)) ∙ ap contents tail)

  pub contents-prepend :
      (node : Items K V) (item : K × V)
      → contents (recover_insert_items node 0 (λ j. item) 1) ≡ item ∷ contents node
  unfolding slice
  contents-prepend node item =
      let z : node.key_num - 0 ≡ node.key_num = omega arith in
      contents-recover_insert_items node 0 1 (λ j. item) (omega arith)
      ∙ ap (λ n. item ∷ slice node.array 0 n) z
