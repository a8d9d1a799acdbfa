-- ===== src/Clog/Reader/Fuel.antt =====
-- The fuel of the loops of LogFileReader: each round takes a header off the file.
use csu_dbms.Base.{
  ℕ, zero, suc, ◌-◌, ◌≤◌, ◌≡◌, refl, none, some, List, length, take, drop, length-drop, arith,
  Bool-cases, true, ◌⊎◌, inl, inr, ltb,
}
use mathlib.Core.Path.{fun_ext}
use csu_dbms.Clog.Entry.{Header, LogEntry, header_size}
use csu_dbms.Clog.Reader.{readn, Visited, skip_loop, iterate_loop}

readn-end : (file : List ℕ) → length file ≤ 0 → readn header_size file ≡ none
unfolding readn
readn-end file h = let few : ltb (length file) header_size ≡ true = ground arith in rw few refl

-- What `readn` reads is taken off the file.
readn-cases :
    (size : ℕ) (file : List ℕ)
    → (readn size file ≡ none)
      ⊎ ((size ≤ length file) × (readn size file ≡ some (take size file, drop size file)))
unfolding readn
readn-cases size file = elim (Bool-cases (ltb (length file) size)) [
  | inl few ↦ inl (rw few refl)
  | inr enough ↦ inr (ground arith, rw enough refl)
]

-- Whatever the file and the callback are, any fuel from the file's length on gives the same result of the
-- loop of `iterate`: no reading is cut short.
pub iterate_loop-fuel :
    {S : Type 0} (get_header : List ℕ → Header) (callback : LogEntry → S → Visited S) (n m : ℕ)
    (file : List ℕ) (s : S)
    → length file ≤ n
    → length file ≤ m
    → iterate_loop get_header callback n file s ≡ iterate_loop get_header callback m file s
unfolding iterate_loop
iterate_loop-fuel get_header callback zero zero file s a b = refl
iterate_loop-fuel get_header callback zero (suc m) file s a b =
    rw (iterate_loop, readn-end file a) refl
iterate_loop-fuel get_header callback (suc n) zero file s a b =
    rw (iterate_loop, readn-end file b) refl
iterate_loop-fuel get_header callback (suc n) (suc m) file s a b =
    elim (readn-cases header_size file) [
      | inl e ↦ rw (iterate_loop, e) refl
      | inr (enough, e) ↦
          let size = (get_header (take header_size file)).size in
          let rest = drop header_size file in
          elim (readn-cases size rest) [
            | inl f ↦ rw (iterate_loop, e, f) refl
            | inr (room, f) ↦
                let shorter : length (drop size rest) ≤ length file - header_size =
                  omega (arith, length-drop size rest, length-drop header_size file) in
                let same : iterate_loop get_header callback n (drop size rest)
                    ≡ iterate_loop get_header callback m (drop size rest) =
                  fun_ext (λ x.
                    iterate_loop-fuel get_header callback n m (drop size rest) x (omega arith)
                      (omega arith)) in
                rw (iterate_loop, e, f, same) refl
          ]
    ]

-- The same of the loop of `skip_to`.
pub skip_loop-fuel :
    (get_header : List ℕ → Header) (n m start_lsn : ℕ) (file : List ℕ)
    → length file ≤ n
    → length file ≤ m
    → skip_loop get_header n start_lsn file ≡ skip_loop get_header m start_lsn file
unfolding skip_loop
skip_loop-fuel get_header zero zero start_lsn file a b = refl
skip_loop-fuel get_header zero (suc m) start_lsn file a b = rw (skip_loop, readn-end file a) refl
skip_loop-fuel get_header (suc n) zero start_lsn file a b = rw (skip_loop, readn-end file b) refl
skip_loop-fuel get_header (suc n) (suc m) start_lsn file a b = elim (readn-cases header_size file) [
  | inl e ↦ rw (skip_loop, e) refl
  | inr (enough, e) ↦
      let size = (get_header (take header_size file)).size in
      let rest = drop header_size file in
      let shorter : length (drop size rest) ≤ length file - header_size =
        omega (arith, length-drop size rest, length-drop header_size file) in
      rw
        (
          skip_loop,
          e,
          skip_loop-fuel get_header n m start_lsn (drop size rest) (omega arith) (omega arith),
        )
        refl
]
