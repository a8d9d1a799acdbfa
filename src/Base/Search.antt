-- ===== src/Base/Search.antt =====
-- The first number of a range that passes a test, as a `for` loop with an early return finds it.
use Prim.Native.Nat.{ℕ, zero, suc, ◌+◌, ◌≤◌, ◌<◌}
use mathlib.Core.Path.{◌≡◌, refl, sym, ap, ◌∙◌}
use mathlib.Core.Logic.{inl, inr}
use mathlib.Core.Bool.{Bool, true, false}
use mathlib.Core.Option.{Option, none, some}
use native.Mathlib.Omega.{arith}
use native.Mathlib.Decide.{ℕ_discrete}
use csu_dbms.Base.Tests.{if◌then◌else◌, Bool-cases}

-- `for (i = from; i < from + rounds; i++) if (p(i)) return i;`
unfoldable pub search_from : (ℕ → Bool) → ℕ → ℕ → Option ℕ
search_from p i zero = none
search_from p i (suc rounds) =
    let rest = search_from p (i + 1) rounds in if p i then some i else rest

abbrev pub or_else {ℓ} : {A : Type ℓ} → Option A → Option A → Option A
or_else none b = b
or_else (some a) b = some a

pub search_from-congr :
    (p q : ℕ → Bool) (i rounds : ℕ)
    → ((j : ℕ) → i ≤ j → j < i + rounds → p j ≡ q j)
    → search_from p i rounds ≡ search_from q i rounds
unfolding search_from
search_from-congr p q i zero h = refl
search_from-congr p q i (suc rounds) h =
    rw
      (
        h i (omega arith) (omega arith),
        search_from-congr p q (i + 1) rounds (λ j a b. h j (omega arith) (omega arith)),
      )
      refl

pub search_from-add :
    (p : ℕ → Bool) (i m n : ℕ)
    → search_from p i (m + n) ≡ or_else (search_from p i m) (search_from p (i + m) n)
unfolding search_from
search_from-add p i zero n =
    let a : zero + n ≡ n = omega arith in let b : i + zero ≡ i = omega arith in rw (a, b) refl
search_from-add p i (suc m) n =
    let a : suc m + n ≡ suc (m + n) = omega arith in
    let b : i + suc m ≡ i + 1 + m = omega arith in
    rw (a, b)
      (elim (Bool-cases (p i)) [
        | inl e ↦ rw (e, search_from) refl
        | inr e ↦ rw (e, search_from) (search_from-add p (i + 1) m n)
      ])

pub search_from-none :
    (p : ℕ → Bool) (i rounds : ℕ)
    → ((j : ℕ) → i ≤ j → j < i + rounds → p j ≡ false)
    → search_from p i rounds ≡ none
unfolding search_from
search_from-none p i zero h = refl
search_from-none p i (suc rounds) h =
    rw (h i (omega arith) (omega arith))
      (search_from-none p (i + 1) rounds (λ j a b. h j (omega arith) (omega arith)))

abbrev pub shifted : ℕ → Option ℕ → Option ℕ
shifted k none = none
shifted k (some i) = some (k + i)

pub search_from-shift :
    (p : ℕ → Bool) (k i rounds : ℕ)
    → search_from p (k + i) rounds ≡ shifted k (search_from (λ j. p (k + j)) i rounds)
unfolding search_from
search_from-shift p k i zero = refl
search_from-shift p k i (suc rounds) =
    let a : k + i + 1 ≡ k + (i + 1) = omega arith in
    rw a (elim (Bool-cases (p (k + i))) [
      | inl e ↦ rw (e, search_from) refl
      | inr e ↦ rw (e, search_from) (search_from-shift p k (i + 1) rounds)
    ])

-- What a search answers: the first place that passes, or that none does.
abbrev pub IsFirst : (ℕ → Bool) → ℕ → ℕ → Option ℕ → Type 0
IsFirst p i rounds none = (j : ℕ) → i ≤ j → j < i + rounds → p j ≡ false
IsFirst p i rounds (some k) =
    (i ≤ k) × (k < i + rounds) × (p k ≡ true) × ((j : ℕ) → i ≤ j → j < k → p j ≡ false)

pub search_from-IsFirst :
    (p : ℕ → Bool) (i rounds : ℕ) → IsFirst p i rounds (search_from p i rounds)
unfolding search_from
search_from-IsFirst p i zero = λ j a b. absurd (omega arith)
search_from-IsFirst p i (suc rounds) = elim (Bool-cases (p i)) [
  | inl e ↦ rw (e, search_from) (omega arith, omega arith, e, λ j a b. absurd (omega arith))
  | inr e ↦
      rw (e, search_from)
        (later (search_from p (i + 1) rounds) e (search_from-IsFirst p (i + 1) rounds))
]
  where
    at_first : (j : ℕ) → p i ≡ false → (i ≡ j) → p j ≡ false
    at_first j e same = ap p (sym same) ∙ e

    later : (o : Option ℕ) → p i ≡ false → IsFirst p (i + 1) rounds o → IsFirst p i (suc rounds) o
    later none e h = λ j a b. elim (ℕ_discrete i j) [
      | yes same ↦ at_first j e same
      | no other ↦ h j (omega arith) (omega arith)
    ]
    later (some k) e h = (
      omega arith,
      omega arith,
      h.2,
      λ j a b. elim (ℕ_discrete i j) [
        | yes same ↦ at_first j e same
        | no other ↦ h.3 j (omega arith) (omega arith)
      ],
    )
