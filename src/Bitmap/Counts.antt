-- ===== src/Bitmap/Counts.antt =====
-- How many numbers below a bound pass a test, and what setting and clearing one bit of a bitmap of
-- common/lang/bitmap.h makes of the number of its set bits.
use csu_dbms.Base.{
  ℕ, zero, suc, ◌+◌, ◌≤◌, ◌<◌, ◌≡◌, ◌≢◌, refl, ap, sym, subst, ◌∙◌, Bool, true, false, ◌==◌,
  if◌then◌else◌, ℕ_discrete, arith,
}
use csu_dbms.Bitmap.{Bitmap, get_bit, set_bit, clear_bit}
use csu_dbms.Bitmap.Bits.{IsValid, get_bit-set_bit, get_bit-clear_bit}

-- How many numbers below `n` pass.
unfoldable pub count : (ℕ → Bool) → ℕ → ℕ
count p zero = 0
count p (suc n) = if p n then count p n + 1 else count p n

pub count-congr : (p q : ℕ → Bool) (n : ℕ) → ((j : ℕ) → j < n → p j ≡ q j) → count p n ≡ count q n
unfolding count
count-congr p q zero h = refl
count-congr p q (suc n) h =
    rw (h n (omega arith), count-congr p q n (λ j l. h j (omega arith))) refl

-- One number that did not pass does so now.
pub count-one_more :
    (p q : ℕ → Bool) (i n : ℕ)
    → i < n
    → p i ≡ false
    → q i ≡ true
    → ((j : ℕ) → j < n → i ≢ j → q j ≡ p j)
    → count q n ≡ count p n + 1
unfolding count
count-one_more p q i zero l a b h = absurd (omega arith)
count-one_more p q i (suc n) l a b h = elim (ℕ_discrete i n) [
  | yes e ↦
      let pn : p n ≡ false = subst (λ x. p x ≡ false) e a in
      let qn : q n ≡ true = subst (λ x. q x ≡ true) e b in
      let rest = count-congr q p n (λ j u. h j (omega arith) (omega arith)) in
      rw (pn, qn, rest) refl
  | no ne ↦
      let rest = count-one_more p q i n (omega arith) a b (λ j u. h j (omega arith)) in
      let same = h n (omega arith) ne in
      rw (same, rest)
        (elim (p n)
          as (λ x.
            (if x then count p n + 1 + 1 else count p n + 1)
            ≡ (if x then count p n + 1 else count p n) + 1) [ true ↦ refl | false ↦ refl ])
]

pub count-le : (p : ℕ → Bool) (n : ℕ) → count p n ≤ n
unfolding count
count-le p zero = omega arith
count-le p (suc n) = let ih = count-le p n in ground arith

pub count-all : (p : ℕ → Bool) (n : ℕ) → ((j : ℕ) → j < n → p j ≡ true) → count p n ≡ n
unfolding count
count-all p zero h = refl
count-all p (suc n) h =
    let here = h n (omega arith) in
    let ih = count-all p n (λ j l. h j (omega arith)) in rw here (omega (arith, ih))

pub count-set_bit :
    (m : Bitmap) (i : ℕ)
    → IsValid m
    → i < m.size
    → get_bit m i ≡ false
    → count (get_bit (set_bit m i)) m.size ≡ count (get_bit m) m.size + 1
count-set_bit m i v l e =
    let here : (i == i) ≡ true = ground arith in
    count-one_more (get_bit m) (get_bit (set_bit m i)) i m.size l e
      (get_bit-set_bit m i i v l ∙ ap (λ t. if t then true else get_bit m i) here)
      (λ j u ne.
        let other : (i == j) ≡ false = ground arith in
        get_bit-set_bit m i j v l ∙ ap (λ t. if t then true else get_bit m j) other)

pub count-clear_bit :
    (m : Bitmap) (i : ℕ)
    → IsValid m
    → i < m.size
    → get_bit m i ≡ true
    → count (get_bit (clear_bit m i)) m.size + 1 ≡ count (get_bit m) m.size
count-clear_bit m i v l e =
    let here : (i == i) ≡ true = ground arith in
    sym (
      count-one_more (get_bit (clear_bit m i)) (get_bit m) i m.size l
        (get_bit-clear_bit m i i v l ∙ ap (λ t. if t then false else get_bit m i) here) e
        (λ j u ne.
          let other : (i == j) ≡ false = ground arith in
          sym (get_bit-clear_bit m i j v l ∙ ap (λ t. if t then false else get_bit m j) other)))

pub count-next : (p : ℕ → Bool) (n : ℕ) → p n ≡ true → count p (n + 1) ≡ count p n + 1
unfolding count
count-next p n h = let e : n + 1 ≡ suc n = omega arith in ap (count p) e ∙ rw (count, h) refl

-- When all are counted, all pass.
pub count-full : (p : ℕ → Bool) (n : ℕ) → n ≤ count p n → (j : ℕ) → j < n → p j ≡ true
unfolding count
count-full p zero h j l = absurd (omega arith)
count-full p (suc n) h j l =
    let bound = count-le p n in
    let here : p n ≡ true = ground arith in
    let rest : n ≤ count p n = ground arith in
    elim (ℕ_discrete j n) [ yes e ↦ ap p e ∙ here | no ne ↦ count-full p n rest j (omega arith) ]

-- When none is counted, none passes.
pub count-none : (p : ℕ → Bool) (n : ℕ) → count p n ≡ 0 → (j : ℕ) → j < n → p j ≡ false
unfolding count
count-none p zero h j l = absurd (omega arith)
count-none p (suc n) h j l =
    let here : p n ≡ false = ground arith in
    let rest : count p n ≡ 0 = ground arith in
    elim (ℕ_discrete j n) [ yes e ↦ ap p e ∙ here | no ne ↦ count-none p n rest j (omega arith) ]
