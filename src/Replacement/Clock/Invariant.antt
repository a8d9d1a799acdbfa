-- ===== src/Replacement/Clock/Invariant.antt =====
-- What every call of CLOCK keeps: the hand in range, and no page twice in the ring.
use csu_dbms.Base.{
  ℕ, suc, zero, ◌*◌, ◌<◌, ◌≡◌, ◌≢◌, refl, Bool, false, some, List, [], ◌∷◌, ◌++◌, length, arith,
  inl, inr, ◌⊎◌, sym, Option-cases, All, All-append, if◌then◌else◌, length-append, leb, ◌||◌,
  Bool-cases,
}
use csu_dbms.Replacement.Frame.{FrameId, frame_dec, Event, insert, access, remove}
use csu_dbms.Replacement.Clock.Ring.{Distinct, absent-All}
use csu_dbms.Replacement.Clock.Scan.{scan_in_range}
use csu_dbms.Replacement.Clock.{
  Policy, out_of_range, create, index_of, erase_at, is_empty, remove_at, on_remove, push_back,
  on_insert, on_access, choose_victim, step,
}

pub record IsValid (s : Policy) : Type 0 where
  pub in_range : (s.hand < length s.ring) ⊎ ((s.ring ≡ []) × (s.hand ≡ 0))
  pub distinct : Distinct s.ring

-- A call of the policy.
pub data Call : Type 0 where
  notify : Event → Call
  choose : (FrameId → Bool) → Call

unfoldable pub call : Policy → Call → Policy
call s (notify e) = step s e
call s (choose p) = (choose_victim p s).0

-- The calls newest first.
unfoldable pub run : List Call → Policy
run [] = create
run (c ∷ cs) = call (run cs) c

reset_in_range :
    (h : ℕ) (xs : List FrameId)
    → (let h' = if is_empty xs || leb (length xs) h then 0 else h in
        (h' < length xs) ⊎ ((xs ≡ []) × (h' ≡ 0)))
reset_in_range h [] = inr (refl, refl)
reset_in_range h (x ∷ xs) = elim (Bool-cases (leb (length (x ∷ xs)) h)) [
  | inl e ↦ rw e (inl (omega arith))
  | inr e ↦ rw e (inl (ground arith))
]

All-erase_at : (P : FrameId → Type 0) (i : ℕ) (xs : List FrameId) → All P xs → All P (erase_at i xs)
unfolding erase_at
All-erase_at P i [] h = tt
All-erase_at P zero (x ∷ xs) h = h.1
All-erase_at P (suc i) (x ∷ xs) h = (h.0, All-erase_at P i xs h.1)

erase_at-Distinct : (i : ℕ) (xs : List FrameId) → Distinct xs → Distinct (erase_at i xs)
unfolding erase_at
erase_at-Distinct i [] d = tt
erase_at-Distinct zero (x ∷ xs) d = d.1
erase_at-Distinct (suc i) (x ∷ xs) d = (All-erase_at _ i xs d.0, erase_at-Distinct i xs d.1)

-- The page at its index is gone.
gone :
    (f : FrameId) (xs : List FrameId) (i : ℕ)
    → Distinct xs
    → index_of f xs ≡ some i
    → All (λ y. y ≢ f) (erase_at i xs)
unfolding index_of erase_at
gone f [] i d e = tt
gone f (x ∷ xs) i d e = elim (frame_dec x f) [
  | yes p ↦ let z : i ≡ 0 = ground arith in rw (z, erase_at) (rw p at d.0)
  | no np ↦ elim (Option-cases (index_of f xs)) [
    | inl q ↦ absurd (ground arith)
    | inr (j, q) ↦ let z : i ≡ suc j = ground arith in rw (z, erase_at) (np, gone f xs j d.1 q)
  ]
]

Distinct-append :
    (xs : List FrameId) (f : FrameId) → Distinct xs → All (λ y. y ≢ f) xs → Distinct (xs ++ f ∷ [])
Distinct-append [] f d h = (tt, tt)
Distinct-append (x ∷ xs) f d h =
    (All-append _ xs (f ∷ []) d.0 ((λ e. h.0 (sym e)), tt), Distinct-append xs f d.1 h.1)

on_remove-IsValid : (s : Policy) (f : FrameId) → IsValid s → IsValid (on_remove s f)
unfolding on_remove remove_at
on_remove-IsValid s f v = elim (Option-cases (index_of f s.ring)) [
  | inl e ↦ rw (e, on_remove) (record { in_range = v.in_range; distinct = v.distinct })
  | inr (i, e) ↦
      rw (e, on_remove)
        (record {
          in_range = reset_in_range _ (erase_at i s.ring);
          distinct = erase_at-Distinct i s.ring v.distinct;
        })
]

on_remove_gone : (s : Policy) (f : FrameId) → IsValid s → All (λ y. y ≢ f) (on_remove s f).ring
unfolding on_remove remove_at
on_remove_gone s f v = elim (Option-cases (index_of f s.ring)) [
  | inl e ↦ rw (e, on_remove) (absent-All f s.ring e)
  | inr (i, e) ↦ rw (e, on_remove) (gone f s.ring i v.distinct e)
]

push_back-IsValid :
    (s : Policy) (f : FrameId) → All (λ y. y ≢ f) s.ring → IsValid s → IsValid (push_back s f)
unfolding push_back
push_back-IsValid s f h v = record {
  in_range = elim v.in_range [
    | inl lt ↦ inl (omega (arith, length-append s.ring (f ∷ [])))
    | inr (_, z) ↦ inl (omega (arith, length-append s.ring (f ∷ [])))
  ];
  distinct = Distinct-append s.ring f v.distinct h;
}

on_access-IsValid : (s : Policy) (f : FrameId) → IsValid s → IsValid (on_access s f)
unfolding on_access
on_access-IsValid s f v = elim (Option-cases (s.referenced f)) [
  | inl e ↦ rw (e, on_access) v
  | inr (b, e) ↦ rw (e, on_access) (record { in_range = v.in_range; distinct = v.distinct })
]

step-IsValid : (s : Policy) (e : Event) → IsValid s → IsValid (step s e)
unfolding step on_insert
step-IsValid s (insert f) v =
    push_back-IsValid (on_remove s f) f (on_remove_gone s f v) (on_remove-IsValid s f v)
step-IsValid s (access f) v = on_access-IsValid s f v
step-IsValid s (remove f) v = on_remove-IsValid s f v

module _ (p : FrameId → Bool) where
  choose_victim_in_range :
      (s : Policy)
      → s.hand < length s.ring
      → Distinct s.ring
      → IsValid (choose_victim p s).0 × ((choose_victim p s).1 ≢ out_of_range)
  unfolding choose_victim
  choose_victim_in_range s lt d =
      let (safe, lt', same) = scan_in_range p (length s.ring * 2) s lt in
      rw (not_empty s.ring lt) (record { in_range = inl (rw same lt'); distinct = rw same d }, safe)
    where
      not_empty : (xs : List FrameId) → s.hand < length xs → is_empty xs ≡ false
      not_empty [] h = absurd (omega arith)
      not_empty (x ∷ xs) h = refl

  choose_victim-IsValid :
      (s : Policy)
      → IsValid s
      → IsValid (choose_victim p s).0 × ((choose_victim p s).1 ≢ out_of_range)
  unfolding choose_victim
  choose_victim-IsValid s v = elim v.in_range [
    | inl lt ↦ choose_victim_in_range s lt v.distinct
    | inr (e, z) ↦ simp e (v, λ q. cc)
  ]

run-IsValid : (cs : List Call) → IsValid (run cs)
unfolding run call create
run-IsValid [] = record { in_range = inr (refl, refl); distinct = tt }
run-IsValid (notify e ∷ cs) = step-IsValid (run cs) e (run-IsValid cs)
run-IsValid (choose p ∷ cs) = (choose_victim-IsValid p (run cs) (run-IsValid cs)).0

-- After any sequence of calls the hand is in range (or the ring is empty and the hand is 0), no page
-- stands twice in the ring, and the next choice of a victim reads only inside the ring.
pub run_in_range :
    (cs : List Call) (p : FrameId → Bool)
    → IsValid (run cs) × ((choose_victim p (run cs)).1 ≢ out_of_range)
run_in_range cs p = (run-IsValid cs, (choose_victim-IsValid p (run cs) (run-IsValid cs)).1)
