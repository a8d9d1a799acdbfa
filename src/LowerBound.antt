-- ===== src/LowerBound.antt =====
-- The binary search of common/lang/lower_bound.h. Iterators are positions, and the comparison of the element
-- at a position with the value is an argument.
mod Tests
use csu_dbms.Base.{
  ℕ, zero, suc, ◌+◌, ◌-◌, ◌/◌, ◌≤◌, ◌<◌, ◌≡◌, ◌≢◌, refl, sym, ap, subst, ◌∙◌, ◌⊎◌, inl, inr, Bool,
  true, false, ◌==◌, if◌then◌else◌, Bool-cases, ℕ_discrete, dec_le, arith,
}

-- What `comp` answers: a negative number, zero, or a positive one.
pub data Sign : Type 0 where
  less equal greater : Sign

-- The rounds of the loop, on fuel: `first`, and `found`.
unfoldable pub search : ℕ → (ℕ → Sign) → ℕ → ℕ → ℕ × Bool
search zero comp first last_count = (first, false)
search (suc fuel) comp first last_count =
    let step = last_count / 2 in
    let iter = first + step in
    let right = search fuel comp (iter + 1) (last_count - (step + 1)) in
    let left = search fuel comp first step in
    if last_count == 0
    then (first, false)
    else (elim (comp iter) [ equal ↦ (iter, true) | less ↦ right | greater ↦ left ])

-- `lower_bound` of a range from `first` on; each round shortens the range.
unfoldable pub lower_bound : (ℕ → Sign) → ℕ → ℕ → ℕ × Bool
lower_bound comp first count = search count comp first count

-- In the range from `lo` to before `hi` the elements ascend and none is twice: before one that is not greater
-- than the value, all are less.
abbrev pub IsSorted : ℕ → ℕ → (ℕ → Sign) → Type 0
IsSorted lo hi comp = (i j : ℕ) → lo ≤ i → i < j → j < hi → comp j ≢ greater → comp i ≡ less

-- The position of the value in a range, or of the first greater element.
pub record IsLowerBound (comp : ℕ → Sign) (first count : ℕ) (answer : ℕ × Bool) : Type 0 where
  pub from_first : first ≤ answer.0
  pub to_last : answer.0 ≤ first + count
  pub below : (i : ℕ) → first ≤ i → i < answer.0 → comp i ≡ less
  pub at : answer.1 ≡ true → (answer.0 < first + count) × (comp answer.0 ≡ equal)
  pub above : answer.1 ≡ false → (i : ℕ) → answer.0 ≤ i → i < first + count → comp i ≡ greater

pub Sign-cases : (s : Sign) → (s ≡ less) ⊎ (s ≡ equal) ⊎ (s ≡ greater)
Sign-cases less = inl refl
Sign-cases equal = inr (inl refl)
Sign-cases greater = inr (inr refl)

module _ (lo hi : ℕ) (comp : ℕ → Sign) (sorted : IsSorted lo hi comp) where
  above_greater : (m j : ℕ) → lo ≤ m → j < hi → comp m ≡ greater → m ≤ j → comp j ≡ greater
  above_greater m j from to e l = elim (ℕ_discrete m j) [
    | yes same ↦ ap comp (sym same) ∙ e
    | no ne ↦ elim (Sign-cases (comp j)) [
      | inr (inr g) ↦ g
      | inl s ↦ absurd (
          let clash : less ≡ greater =
            sym (sorted m j from (omega arith) to (λ g. let c : less ≡ greater = sym s ∙ g in cc))
            ∙ e in
          cc)
      | inr (inl s) ↦ absurd (
          let clash : less ≡ greater =
            sym (sorted m j from (omega arith) to (λ g. let c : equal ≡ greater = sym s ∙ g in cc))
            ∙ e in
          cc)
    ]
  ]

  below_less : (m i : ℕ) → lo ≤ i → m < hi → comp m ≢ greater → i < m → comp i ≡ less
  below_less m i from to ne l = sorted i m from l to ne

  empty-IsLowerBound : (first : ℕ) → IsLowerBound comp first 0 (first, false)
  empty-IsLowerBound first = record {
    from_first = omega arith;
    to_last = omega arith;
    below = λ i a b. absurd (omega arith);
    at = λ e. absurd cc;
    above = λ e i a b. absurd (omega arith);
  }

  search-IsLowerBound :
      (fuel first count : ℕ)
      → count ≤ fuel
      → lo ≤ first
      → first + count ≤ hi
      → IsLowerBound comp first count (search fuel comp first count)
  unfolding search
  search-IsLowerBound zero first zero l from to = empty-IsLowerBound first
  search-IsLowerBound zero first (suc count) l from to = absurd (omega arith)
  search-IsLowerBound (suc fuel) first zero l from to = empty-IsLowerBound first
  search-IsLowerBound (suc fuel) first (suc count) l from to =
      let step = suc count / 2 in
      let iter = first + step in
      let more : (suc count == 0) ≡ false = ground arith in
      elim (Sign-cases (comp iter)) [
        | inr (inl e) ↦
            rw (search, more, e)
              (record {
                from_first = omega arith;
                to_last = omega arith;
                below = λ i a b.
                    below_less iter i (omega arith) (omega arith)
                      (λ g. let c : equal ≡ greater = sym e ∙ g in cc) b;
                at = λ t. (omega arith, e);
                above = λ f. absurd cc;
              })
        | inl e ↦
            let ih =
              search-IsLowerBound fuel (iter + 1) (suc count - (step + 1)) (omega arith)
                (omega arith) (omega arith) in
            rw (search, more, e)
              (record {
                from_first = let a = ih.from_first in omega arith;
                to_last = let a = ih.to_last in omega arith;
                below = λ i a b. elim (dec_le (iter + 1) i) [
                  | yes behind ↦ ih.below i behind b
                  | no not_behind ↦ elim (ℕ_discrete i iter) [
                    | yes same ↦ ap comp same ∙ e
                    | no ne ↦
                        below_less iter i (omega arith) (omega arith)
                          (λ g. let c : less ≡ greater = sym e ∙ g in cc) (omega arith)
                  ]
                ];
                at = λ t. let u = (ih.at t).0 in (omega arith, (ih.at t).1);
                above = λ f i a b. ih.above f i a (omega arith);
              })
        | inr (inr e) ↦
            let ih = search-IsLowerBound fuel first step (omega arith) from (omega arith) in
            rw (search, more, e)
              (record {
                from_first = ih.from_first;
                to_last = let a = ih.to_last in omega arith;
                below = ih.below;
                at = λ t. let u = (ih.at t).0 in (omega arith, (ih.at t).1);
                above = λ f i a b. elim (dec_le iter i) [
                  | yes behind ↦ above_greater iter i (omega arith) (omega arith) e behind
                  | no before ↦ ih.above f i a (omega arith)
                ];
              })
      ]

-- On a sorted range `lower_bound` answers the position of the value, and that it is found, when it is there, and
-- else the position of the first greater element, or the end of the range.
pub lower_bound-IsLowerBound :
    (comp : ℕ → Sign) (first count : ℕ)
    → IsSorted first (first + count) comp
    → IsLowerBound comp first count (lower_bound comp first count)
unfolding lower_bound
lower_bound-IsLowerBound comp first count sorted =
    search-IsLowerBound first (first + count) comp sorted count first count (omega arith)
      (omega arith) (omega arith)
