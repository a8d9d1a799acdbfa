-- ===== src/Bitmap/Search.antt =====
-- The searches of common/lang/bitmap.cpp go byte by byte, and skip a byte in which nothing is to be
-- found. The plain search of the bits in their order is what they are compared with.
use csu_dbms.Base.{
  ℕ, suc, ◌+◌, ◌-◌, ◌*◌, ◌/◌, ◌%◌, ◌≤◌, ◌<◌, ◌≡◌, refl, sym, ap, ◌∙◌, inl, inr, Bool, true, false,
  not, Option, none, some, List, [], ◌∷◌, ltb, ◌==◌, ==_iff, Bool-cases, get_or, take, drop, length,
  length-drop, length-take_le, get_or-drop, get_or-take, search_from, or_else, shifted,
  search_from-congr, search_from-add, search_from-none, search_from-shift, search_from-IsFirst,
  IsFirst, arith,
}
use csu_dbms.Bitmap.{
  Bitmap, bit, bytes, get_bit, find_first_zero, find_first_setted, found_in, unsetted_loop,
  setted_loop, below_size, next_unsetted_bit, next_setted_bit,
}
use csu_dbms.Bitmap.Bits.{IsValid, passes, passes-at}

shifted-shifted : (a b : ℕ) (o : Option ℕ) → shifted a (shifted b o) ≡ shifted (a + b) o
shifted-shifted a b none = refl
shifted-shifted a b (some i) = ap some (omega arith)

-- What a round answers, put together with the later rounds.
found_in-or_else :
    (k : ℕ) (o r later : Option ℕ)
    → later ≡ shifted ((k + 1) * 8) r
    → found_in k o later ≡ shifted (k * 8) (or_else o (shifted 8 r))
found_in-or_else k none r later e =
    let a : (k + 1) * 8 ≡ k * 8 + 8 = omega arith in
    e ∙ ap (λ n. shifted n r) a ∙ sym (shifted-shifted (k * 8) 8 r)
found_in-or_else k (some i) r later e = refl

-- A test of the bits of a byte, and of those of an array.
module _ (t : ℕ → ℕ → Bool) where
  abbrev at_bit : List ℕ → ℕ → Bool
  at_bit bs i = t (get_or bs (i / 8) 0) (i % 8)

  search_from-cons :
      (b : ℕ) (bs : List ℕ) (s : ℕ)
      → s < 8
      → search_from (at_bit (b ∷ bs)) s (length (b ∷ bs) * 8 - s)
        ≡ or_else
            (search_from (t b) s (8 - s))
            (shifted 8 (search_from (at_bit bs) 0 (length bs * 8)))
  search_from-cons b bs s h =
      let rounds : length (b ∷ bs) * 8 - s ≡ (8 - s) + length bs * 8 = omega arith in
      let next : s + (8 - s) ≡ 8 + 0 = omega arith in
      ap (search_from (at_bit (b ∷ bs)) s) rounds
      ∙ search_from-add (at_bit (b ∷ bs)) s (8 - s) (length bs * 8)
      ∙ ap
          (λ n.
            or_else (search_from (at_bit (b ∷ bs)) s (8 - s))
              (search_from (at_bit (b ∷ bs)) n (length bs * 8)))
          next
      ∙ ap (or_else (search_from (at_bit (b ∷ bs)) s (8 - s))) (
          search_from-shift (at_bit (b ∷ bs)) 8 0 (length bs * 8)
          ∙ ap (shifted 8) (
              search_from-congr (λ j. at_bit (b ∷ bs) (8 + j)) (at_bit bs) 0 (length bs * 8)
                (λ j l u. later j)))
      ∙ ap (λ o. or_else o (shifted 8 (search_from (at_bit bs) 0 (length bs * 8))))
          (search_from-congr (at_bit (b ∷ bs)) (t b) s (8 - s) (λ j l u. here j (omega arith)))
    where
      here : (j : ℕ) → j < 8 → at_bit (b ∷ bs) j ≡ t b j
      here j l =
          let q : j / 8 ≡ 0 = omega arith in
          let r : j % 8 ≡ j = omega arith in
          ap (λ n. t (get_or (b ∷ bs) n 0) (j % 8)) q ∙ ap (t b) r

      later : (j : ℕ) → at_bit (b ∷ bs) (8 + j) ≡ at_bit bs j
      later j =
          let q : (8 + j) / 8 ≡ suc (j / 8) = omega arith in
          let r : (8 + j) % 8 ≡ j % 8 = omega arith in
          ap (λ n. t (get_or (b ∷ bs) n 0) ((8 + j) % 8)) q ∙ ap (t (get_or bs (j / 8) 0)) r

  at_bit-part :
      (n k : ℕ) (bs : List ℕ) (i : ℕ)
      → k * 8 + i < n * 8
      → at_bit (drop k (take n bs)) i ≡ at_bit bs (k * 8 + i)
  at_bit-part n k bs i h =
      let q : (k * 8 + i) / 8 ≡ k + i / 8 = omega arith in
      let r : (k * 8 + i) % 8 ≡ i % 8 = omega arith in
      ap (λ b. t b (i % 8))
        (get_or-drop k (take n bs) (i / 8) 0
          ∙ get_or-take n bs (k + i / 8) 0 (omega arith)
          ∙ ap (λ x. get_or bs x 0) (sym q))
      ∙ ap (t (get_or bs ((k * 8 + i) / 8) 0)) (sym r)

  -- The part of the array that a search goes over, and the bits that it stands for.
  search_from-part :
      (n start : ℕ) (bs : List ℕ)
      → n ≤ length bs
      → shifted (start / 8 * 8) (
          search_from
            (at_bit (drop (start / 8) (take n bs)))
            (start % 8)
            (length (drop (start / 8) (take n bs)) * 8 - start % 8))
        ≡ search_from (at_bit bs) start (n * 8 - start)
  search_from-part n start bs h =
      let k = start / 8 in
      let s = start % 8 in
      let len : length (drop k (take n bs)) ≡ n - k =
        omega (arith, length-drop k (take n bs), length-take_le n bs h) in
      let rounds : length (drop k (take n bs)) * 8 - s ≡ n * 8 - start = omega (arith, len) in
      let whole : k * 8 + s ≡ start = omega arith in
      ap (λ r. shifted (k * 8) (search_from (at_bit (drop k (take n bs))) s r)) rounds
      ∙ ap (shifted (k * 8)) (
          search_from-congr (at_bit (drop k (take n bs))) (λ j. at_bit bs (k * 8 + j)) s
            (n * 8 - start) (λ j l u. at_bit-part n k bs j (omega arith)))
      ∙ sym (search_from-shift (at_bit bs) (k * 8) s (n * 8 - start))
      ∙ ap (λ i. search_from (at_bit bs) i (n * 8 - start)) whole

below_size-le : (size k : ℕ) → size ≤ k → below_size size (some k) ≡ none
below_size-le size k h = ground arith

-- Cutting the answer at the size is cutting the search there.
below_size-search_from :
    (p : ℕ → Bool) (size i n : ℕ)
    → size - i ≤ n
    → below_size size (search_from p i n) ≡ search_from p i (size - i)
below_size-search_from p size i n h =
    let split : n ≡ (size - i) + (n - (size - i)) = omega arith in
    ap (λ r. below_size size (search_from p i r)) split
    ∙ ap (below_size size) (search_from-add p i (size - i) (n - (size - i)))
    ∙ within (search_from p i (size - i)) (search_from p (i + (size - i)) (n - (size - i)))
        (search_from-IsFirst p i (size - i))
        (search_from-IsFirst p (i + (size - i)) (n - (size - i)))
  where
    within :
        (a b : Option ℕ)
        → IsFirst p i (size - i) a
        → IsFirst p (i + (size - i)) (n - (size - i)) b
        → below_size size (or_else a b) ≡ a
    within none none f g = refl
    within none (some k) f g = below_size-le size k (let l = g.0 in omega arith)
    within (some k) b f g =
        let u = f.1 in
        let l = f.0 in let inside : ltb k size ≡ true = ground arith in rw inside refl

bytes_bound : (size : ℕ) → size ≤ bytes size * 8
unfolding bytes
bytes_bound size = ground arith

ones_table : passes (bit 255) 8 ≡ true
unfolding passes search_from
ones_table = refl

zeros_table : passes (λ i. not (bit 0 i)) 8 ≡ true
unfolding passes search_from
zeros_table = refl

eq_false : (b : Bool) → not b ≡ true → b ≡ false
eq_false true h = cc
eq_false false h = refl

unsetted_loop-search_from :
    (k s : ℕ) (bs : List ℕ)
    → s < 8
    → unsetted_loop k s bs
      ≡ shifted (k * 8) (search_from (at_bit (λ b i. not (bit b i)) bs) s (length bs * 8 - s))
unfolding unsetted_loop find_first_zero search_from
unsetted_loop-search_from k s [] h = let e : 0 * 8 - s ≡ 0 = omega arith in rw (e, search_from) refl
unsetted_loop-search_from k s (b ∷ bs) h =
    let t : ℕ → ℕ → Bool = λ x i. not (bit x i) in
    let r = search_from (at_bit t bs) 0 (length bs * 8) in
    let o = search_from (t b) s (8 - s) in
    let rounds : length bs * 8 - 0 ≡ length bs * 8 = omega arith in
    let ih =
      unsetted_loop-search_from (k + 1) 0 bs (omega arith)
      ∙ ap (λ n. shifted ((k + 1) * 8) (search_from (at_bit t bs) 0 n)) rounds in
    let joined = found_in-or_else k o r (unsetted_loop (k + 1) 0 bs) ih in
    let whole = sym (ap (shifted (k * 8)) (search_from-cons t b bs s h)) in
    elim (Bool-cases (b == 255)) [
      | inr some_zero ↦ rw some_zero (joined ∙ whole)
      | inl full ↦
          let empty : o ≡ none = search_from-none (t b) s (8 - s) (λ j l u.
            ap (λ x. not (bit x j)) ((==_iff b 255).0 full)
            ∙ ap not (passes-at (bit 255) ones_table j (omega arith))) in
          rw full (ap (λ x. found_in k x (unsetted_loop (k + 1) 0 bs)) (sym empty) ∙ joined ∙ whole)
    ]

setted_loop-search_from :
    (k s : ℕ) (bs : List ℕ)
    → s < 8
    → setted_loop k s bs ≡ shifted (k * 8) (search_from (at_bit bit bs) s (length bs * 8 - s))
unfolding setted_loop find_first_setted search_from
setted_loop-search_from k s [] h = let e : 0 * 8 - s ≡ 0 = omega arith in rw (e, search_from) refl
setted_loop-search_from k s (b ∷ bs) h =
    let r = search_from (at_bit bit bs) 0 (length bs * 8) in
    let o = search_from (bit b) s (8 - s) in
    let rounds : length bs * 8 - 0 ≡ length bs * 8 = omega arith in
    let ih =
      setted_loop-search_from (k + 1) 0 bs (omega arith)
      ∙ ap (λ n. shifted ((k + 1) * 8) (search_from (at_bit bit bs) 0 n)) rounds in
    let joined = found_in-or_else k o r (setted_loop (k + 1) 0 bs) ih in
    let whole = sym (ap (shifted (k * 8)) (search_from-cons bit b bs s h)) in
    elim (Bool-cases (b == 0)) [
      | inr some_one ↦ rw some_one (joined ∙ whole)
      | inl clear ↦
          let empty : o ≡ none = search_from-none (bit b) s (8 - s) (λ j l u.
            ap (λ x. bit x j) ((==_iff b 0).0 clear)
            ∙ eq_false (bit 0 j) (passes-at (λ i. not (bit 0 i)) zeros_table j (omega arith))) in
          rw clear (ap (λ x. found_in k x (setted_loop (k + 1) 0 bs)) (sym empty) ∙ joined ∙ whole)
    ]

-- In a valid bitmap `next_unsetted_bit` answers what a search of the bits one by one, from `start` up to
-- the size, answers: the first that is not set, or none.
pub next_unsetted_bit-search_from :
    (m : Bitmap) (start : ℕ)
    → IsValid m
    → next_unsetted_bit m start ≡ search_from (λ i. not (get_bit m i)) start (m.size - start)
unfolding next_unsetted_bit get_bit
next_unsetted_bit-search_from m start v =
    let t : ℕ → ℕ → Bool = λ x i. not (bit x i) in
    let bound = bytes_bound m.size in
    ap (below_size m.size) (
      unsetted_loop-search_from (start / 8) (start % 8)
        (drop (start / 8) (take (bytes m.size) m.bitmap)) (omega arith)
      ∙ search_from-part t (bytes m.size) start m.bitmap v.roomy)
    ∙ below_size-search_from (at_bit t m.bitmap) m.size start (bytes m.size * 8 - start)
        (omega arith)

-- The same of `next_setted_bit` and the bits that are set.
pub next_setted_bit-search_from :
    (m : Bitmap) (start : ℕ)
    → IsValid m
    → next_setted_bit m start ≡ search_from (get_bit m) start (m.size - start)
unfolding next_setted_bit get_bit
next_setted_bit-search_from m start v =
    let bound = bytes_bound m.size in
    ap (below_size m.size) (
      setted_loop-search_from (start / 8) (start % 8)
        (drop (start / 8) (take (bytes m.size) m.bitmap)) (omega arith)
      ∙ search_from-part bit (bytes m.size) start m.bitmap v.roomy)
    ∙ below_size-search_from (at_bit bit m.bitmap) m.size start (bytes m.size * 8 - start)
        (omega arith)
