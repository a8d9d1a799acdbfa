-- ===== src/Replacement/Clock/Ring.antt =====
-- The ring as CLOCK scans it: from the hand round to the page behind it. A removal takes the page
-- out of this circle and moves no other, whatever side of the hand it stands on.
use csu_dbms.Base.{
  ℕ, suc, zero, ◌-◌, ◌≤◌, ◌≡◌, ◌≢◌, refl, none, some, List, [], ◌∷◌, ◌++◌, take, drop, length,
  arith, inl, inr, Option-cases, All, All-append, ap, sym, ◌∙◌, if_neg, Bool-cases, leb, ltb,
  dec_le, if◌then◌else◌, ◌&&◌, ◌||◌,
}
use mathlib.Core.List.{append-nil}
use csu_dbms.Replacement.Frame.{FrameId, frame_dec}
use csu_dbms.Replacement.Ordered.Nodes.{erase}
use csu_dbms.Replacement.Clock.{Policy, index_of, erase_at, is_empty, remove_at, on_remove}

-- No page stands twice.
abbrev pub Distinct : List FrameId → Type 0
Distinct [] = Unit
Distinct (g ∷ gs) = All (λ y. y ≢ g) gs × Distinct gs

abbrev pub rotate : ℕ → List FrameId → List FrameId
rotate h xs = drop h xs ++ take h xs

-- The pages in the order in which the next scan reads them.
abbrev pub circle : Policy → List FrameId
circle s = rotate s.hand s.ring

pub index_of_absent : (f : FrameId) (xs : List FrameId) → All (λ y. y ≢ f) xs → index_of f xs ≡ none
unfolding index_of
index_of_absent f [] h = refl
index_of_absent f (x ∷ xs) h = rw (if_neg (frame_dec x f) h.0, index_of_absent f xs h.1) refl

All-drop : (P : FrameId → Type 0) (k : ℕ) (xs : List FrameId) → All P xs → All P (drop k xs)
All-drop P zero xs h = h
All-drop P (suc k) [] h = h
All-drop P (suc k) (x ∷ xs) h = All-drop P k xs h.1

module _ (f : FrameId) where
  erase_absent : (xs : List FrameId) → index_of f xs ≡ none → erase f xs ≡ xs
  unfolding erase index_of
  erase_absent [] e = refl
  erase_absent (x ∷ xs) e = elim (frame_dec x f) [
    | yes p ↦ absurd (ground arith)
    | no np ↦ elim (Option-cases (index_of f xs)) [
      | inl q ↦ ground (arith, erase_absent xs q)
      | inr (i, q) ↦ absurd (ground arith)
    ]
  ]

  erase-append_absent :
      (xs ys : List FrameId) → index_of f xs ≡ none → erase f (xs ++ ys) ≡ xs ++ erase f ys
  unfolding erase index_of
  erase-append_absent [] ys e = refl
  erase-append_absent (x ∷ xs) ys e = elim (frame_dec x f) [
    | yes p ↦ absurd (ground arith)
    | no np ↦ elim (Option-cases (index_of f xs)) [
      | inl q ↦ ground (arith, erase-append_absent xs ys q)
      | inr (i, q) ↦ absurd (ground arith)
    ]
  ]

  erase-append_here :
      (xs ys : List FrameId) (i : ℕ)
      → index_of f xs ≡ some i
      → erase f (xs ++ ys) ≡ erase f xs ++ ys
  unfolding erase index_of
  erase-append_here [] ys i e = cc
  erase-append_here (x ∷ xs) ys i e = elim (frame_dec x f) [
    | yes p ↦ ground arith
    | no np ↦ elim (Option-cases (index_of f xs)) [
      | inl q ↦ absurd (ground arith)
      | inr (j, q) ↦ ground (arith, erase-append_here xs ys j q)
    ]
  ]

  -- A page before the hand.
  erase_before :
      (xs : List FrameId) (i k : ℕ)
      → Distinct xs
      → index_of f xs ≡ some i
      → i ≤ k
      → (drop k (erase_at i xs) ≡ drop (suc k) xs)
        × (take k (erase_at i xs) ≡ erase f (take (suc k) xs))
        × (index_of f (drop (suc k) xs) ≡ none)
  unfolding index_of erase_at erase
  erase_before [] i k d e h = absurd (cc)
  erase_before (x ∷ xs) i zero d e h =
      let p : x ≡ f = ground arith in
      let z : i ≡ 0 = omega arith in
      rw (z, erase_at) (refl, ground arith, index_of_absent f xs (rw p at d.0))
  erase_before (x ∷ xs) i (suc k) d e h = elim (frame_dec x f) [
    | yes p ↦
        let z : i ≡ 0 = ground arith in
        rw (z, erase_at)
          (
            refl,
            ground arith,
            index_of_absent f (drop (suc k) xs) (All-drop _ (suc k) xs (rw p at d.0)),
          )
    | no np ↦ elim (Option-cases (index_of f xs)) [
      | inl q ↦ absurd (ground arith)
      | inr (j, q) ↦
          let z : i ≡ suc j = ground arith in
          let (a, b, c) = erase_before xs j k d.1 q (omega arith) in
          rw (z, erase_at) (a, ground arith, c)
    ]
  ]

  -- A page at the hand or behind it.
  erase_behind :
      (xs : List FrameId) (i h : ℕ)
      → index_of f xs ≡ some i
      → h ≤ i
      → (drop h (erase_at i xs) ≡ erase f (drop h xs))
        × (take h (erase_at i xs) ≡ take h xs)
        × ((j : ℕ) × (index_of f (drop h xs) ≡ some j))
  unfolding index_of erase_at erase
  erase_behind [] i h e l = absurd (cc)
  erase_behind (x ∷ xs) i zero e l = elim (frame_dec x f) [
    | yes p ↦ let z : i ≡ 0 = ground arith in rw (z, erase_at) (ground arith, refl, (i, e))
    | no np ↦ elim (Option-cases (index_of f xs)) [
      | inl q ↦ absurd (ground arith)
      | inr (j, q) ↦
          let z : i ≡ suc j = ground arith in
          let (a, b, c) = erase_behind xs j zero q (omega arith) in
          (rw (z, erase_at) (ground arith), refl, (i, e))
    ]
  ]
  erase_behind (x ∷ xs) i (suc h) e l = elim (frame_dec x f) [
    | yes p ↦ absurd (ground arith)
    | no np ↦ elim (Option-cases (index_of f xs)) [
      | inl q ↦ absurd (ground arith)
      | inr (j, q) ↦
          let z : i ≡ suc j = ground arith in
          let (a, b, c) = erase_behind xs j h q (omega arith) in
          rw (z, erase_at) (a, ap (◌∷◌ x) b, c)
    ]
  ]

drop_over : (h : ℕ) (xs : List FrameId) → length xs ≤ h → drop h xs ≡ []
drop_over zero [] l = refl
drop_over zero (x ∷ xs) l = absurd (omega arith)
drop_over (suc h) [] l = refl
drop_over (suc h) (x ∷ xs) l = drop_over h xs (omega arith)

take_over : (h : ℕ) (xs : List FrameId) → length xs ≤ h → take h xs ≡ xs
take_over zero [] l = refl
take_over zero (x ∷ xs) l = absurd (omega arith)
take_over (suc h) [] l = refl
take_over (suc h) (x ∷ xs) l = ap (◌∷◌ x) (take_over h xs (omega arith))

-- A hand past the end reads the same circle as one at the beginning.
rotate_reset :
    (h : ℕ) (xs : List FrameId)
    → rotate (if is_empty xs || leb (length xs) h then 0 else h) xs ≡ rotate h xs
rotate_reset zero [] = refl
rotate_reset (suc h) [] = refl
rotate_reset h (x ∷ xs) = elim (Bool-cases (leb (length (x ∷ xs)) h)) [
  | inl e ↦
      rw (e, drop_over h (x ∷ xs) (ground arith), take_over h (x ∷ xs) (ground arith), append-nil)
        refl
  | inr e ↦ rw e refl
]

pub absent-All : (f : FrameId) (xs : List FrameId) → index_of f xs ≡ none → All (λ y. y ≢ f) xs
unfolding index_of
absent-All f [] e = tt
absent-All f (x ∷ xs) e = elim (frame_dec x f) [
  | yes p ↦ absurd (ground arith)
  | no np ↦ elim (Option-cases (index_of f xs)) [
    | inl q ↦ (np, absent-All f xs q)
    | inr (i, q) ↦ absurd (ground arith)
  ]
]

All-take : (P : FrameId → Type 0) (k : ℕ) (xs : List FrameId) → All P xs → All P (take k xs)
All-take P zero xs h = tt
All-take P (suc k) [] h = h
All-take P (suc k) (x ∷ xs) h = (h.0, All-take P k xs h.1)

circle_absent :
    (f : FrameId) (h : ℕ) (xs : List FrameId)
    → index_of f xs ≡ none
    → erase f (rotate h xs) ≡ rotate h xs
circle_absent f h xs e =
    let all = absent-All f xs e in
    erase_absent f (rotate h xs) (
      index_of_absent f _
        (All-append _ (drop h xs) (take h xs) (All-drop _ h xs all) (All-take _ h xs all)))

-- Where the hand stands after the page at an index has gone, before it is put back in range.
abbrev hand_after : ℕ → ℕ → ℕ
hand_after i hand = if ltb i hand && ltb 0 hand then hand - 1 else hand

rotate-erase_at :
    (f : FrameId) (xs : List FrameId) (i h : ℕ)
    → Distinct xs
    → index_of f xs ≡ some i
    → rotate (hand_after i h) (erase_at i xs) ≡ erase f (rotate h xs)
rotate-erase_at f xs i zero d e =
    let same : hand_after i 0 ≡ 0 = ground arith in
    let (a, b, (j, c)) = erase_behind f xs i 0 e (omega arith) in
    rw same (ap (λ l. l ++ []) a ∙ sym (erase-append_here f xs [] j c))
rotate-erase_at f xs i (suc h) d e = elim (dec_le i h) [
  | yes l ↦
      let same : hand_after i (suc h) ≡ h = ground arith in
      let (a, b, c) = erase_before f xs i h d e l in
      rw (same, a, b) (sym (erase-append_absent f (drop (suc h) xs) (take (suc h) xs) c))
  | no nl ↦
      let same : hand_after i (suc h) ≡ suc h = ground arith in
      let (a, b, (j, c)) = erase_behind f xs i (suc h) e (omega arith) in
      rw (same, a, b) (sym (erase-append_here f (drop (suc h) xs) (take (suc h) xs) j c))
]

-- Where no page stands twice in the ring, removing a page, on either side of the hand or under it,
-- takes it out of the circle and leaves every other page at its turn.
pub circle-on_remove :
    (s : Policy) (f : FrameId) → Distinct s.ring → circle (on_remove s f) ≡ erase f (circle s)
unfolding on_remove remove_at
circle-on_remove s f d = elim (Option-cases (index_of f s.ring)) [
  | inl e ↦ rw (e, on_remove) (sym (circle_absent f s.hand s.ring e))
  | inr (i, e) ↦
      rw (e, on_remove)
        (rotate_reset (hand_after i s.hand) (erase_at i s.ring)
          ∙ rotate-erase_at f s.ring i s.hand d e)
]
