-- ===== src/LowerBound/Tests.antt =====
-- The even numbers, and the theorem of the lower bound at them.
use csu_dbms.Base.{ℕ, ◌*◌, ◌≡◌, refl, true, false, ltb, if◌then◌else◌, inl, inr, Bool-cases, arith}
use csu_dbms.LowerBound.{
  Sign, less, equal, greater, search, lower_bound, IsSorted, IsLowerBound, lower_bound-IsLowerBound,
}

-- The element at a position is twice the position.
abbrev compared : ℕ → ℕ → Sign
compared val i = if ltb (i * 2) val then less else (if ltb val (i * 2) then greater else equal)

found_six : lower_bound (compared 6) 0 10 ≡ (3, true)
unfolding lower_bound search
found_six = refl

after_six : lower_bound (compared 7) 0 10 ≡ (4, false)
unfolding lower_bound search
after_six = refl

compared-IsSorted : IsSorted 0 10 (compared 7)
compared-IsSorted i j from l to ne = elim (Bool-cases (ltb (i * 2) 7)) [
  | inl e ↦ rw e refl
  | inr big ↦
      let not_less : ltb (j * 2) 7 ≡ false = ground arith in
      let bigger : ltb 7 (j * 2) ≡ true = ground arith in absurd (ne (rw (not_less, bigger) refl))
]

lower_bound-IsLowerBound_example : IsLowerBound (compared 7) 0 10 (lower_bound (compared 7) 0 10)
lower_bound-IsLowerBound_example = lower_bound-IsLowerBound (compared 7) 0 10 compared-IsSorted
