-- ===== src/Replacement/Clock/Scan.antt =====
-- The scan of CLOCK ends: two rounds are enough to find a replaceable page, and no read of the ring
-- is out of range.
use csu_dbms.Base.{
  ℕ, suc, zero, ◌+◌, ◌-◌, ◌*◌, ◌%◌, ◌<◌, ◌≡◌, ◌≢◌, refl, Bool, true, false, Option, some, List, [],
  ◌∷◌, length, get_elem?, arith, inl, inr, ◌⊎◌, ap, sym, ◌∙◌, Bool-cases, if◌then◌else◌, leb, In,
  dec_lt, ℕ_discrete,
}
use mathlib.Core.Bool.{false≢true}
use native.Mathlib.Nat.{mod-eq_of_lt, mod_self}
use csu_dbms.Replacement.Frame.{FrameId}
use csu_dbms.Replacement.Clock.{
  Policy, Outcome, victim, out_of_range, bit, put_bit, scan, choose_victim, is_empty,
}

next_cases :
    (n h : ℕ) → h < n → (((h + 1) % n ≡ h + 1) × (h + 1 < n)) ⊎ (((h + 1) % n ≡ 0) × (h + 1 ≡ n))
next_cases n h b = elim (dec_lt (h + 1) n) [
  | yes l ↦ inl (mod-eq_of_lt l, l)
  | no nl ↦ let e : h + 1 ≡ n = omega arith in inr (rw e (mod_self n), e)
]

-- The rounds before the hand `h` reaches the place `q` in a ring of `n` pages.
distance : ℕ → ℕ → ℕ → ℕ
distance n h q = if leb h q then q - h else n + q - h

distance_next :
    (n h q : ℕ) → h < n → q < n → h ≢ q → distance n ((h + 1) % n) q + 1 ≡ distance n h q
unfolding distance
distance_next n h q a b ne = ground (arith, next_cases n h a)

distance_lap : (n q : ℕ) → q < n → distance n ((q + 1) % n) q + 1 ≡ n
unfolding distance
distance_lap n q b = ground (arith, next_cases n q b)

distance-lt : (n h q : ℕ) → h < n → q < n → distance n h q < n
unfolding distance
distance-lt n h q a b = ground arith

next-lt : (n h : ℕ) → h < n → (h + 1) % n < n
next-lt n h b = ground (arith, next_cases n h b)

lt_of_get_elem? :
    (xs : List FrameId) (i : ℕ) (f : FrameId) → get_elem? xs i ≡ some f → i < length xs
lt_of_get_elem? [] i f e = absurd (cc)
lt_of_get_elem? (x ∷ xs) zero f e = omega arith
lt_of_get_elem? (x ∷ xs) (suc i) f e = omega (arith, lt_of_get_elem? xs i f e)

get_elem?-some :
    (xs : List FrameId) (i : ℕ) → i < length xs → (f : FrameId) × (get_elem? xs i ≡ some f)
get_elem?-some [] i h = absurd (omega arith)
get_elem?-some (x ∷ xs) zero h = (x, refl)
get_elem?-some (x ∷ xs) (suc i) h = get_elem?-some xs i (omega arith)

In-of_get_elem? : (xs : List FrameId) (i : ℕ) (f : FrameId) → get_elem? xs i ≡ some f → In f xs
In-of_get_elem? [] i f e = absurd (cc)
In-of_get_elem? (x ∷ xs) zero f e = inl (cc)
In-of_get_elem? (x ∷ xs) (suc i) f e = inr (In-of_get_elem? xs i f e)

-- A clear bit stays clear while the scan goes on.
bit-put_bit :
    (m : FrameId → Option Bool) (c g : FrameId)
    → bit m g ≡ false
    → bit (put_bit m c (some false)) g ≡ false
unfolding bit
bit-put_bit m c g e = ground arith

bit-put_bit_self :
    (m : FrameId → Option Bool) (c g : FrameId) → c ≡ g → bit (put_bit m c (some false)) g ≡ false
unfolding bit
bit-put_bit_self m c g e = ground arith

module _ (p : FrameId → Bool) (g : FrameId) (q : ℕ) (free : p g ≡ true) where
  -- Rounds enough to reach the page with its bit clear: the rest of this lap if the bit is clear,
  -- and one lap more if it is set.
  abbrev Enough : Policy → ℕ → Type 0
  Enough s rounds =
      ((bit s.referenced g ≡ false) × (distance (length s.ring) s.hand q < rounds))
      ⊎ (distance (length s.ring) s.hand q + length s.ring < rounds)

  abbrev Found : Policy → Policy × Outcome → Type 0
  Found s r = (v : FrameId) × (r.1 ≡ victim v) × (p v ≡ true) × In v s.ring

  at_hand :
      (s : Policy) (c : FrameId)
      → get_elem? s.ring s.hand ≡ some c
      → get_elem? s.ring q ≡ some g
      → s.hand ≡ q
      → c ≡ g
  at_hand s c at e h = let same = ap (get_elem? s.ring) h in cc

  Enough-cleared :
      (s : Policy) (c : FrameId) (rounds : ℕ)
      → s.hand < length s.ring
      → get_elem? s.ring s.hand ≡ some c
      → get_elem? s.ring q ≡ some g
      → bit s.referenced c ≡ true
      → Enough s (suc rounds)
      → Enough
          (record s {
            hand = (s.hand + 1) % length s.ring;
            referenced = put_bit s.referenced c (some false);
          })
          rounds
  Enough-cleared s c rounds b at e set n =
      let len = lt_of_get_elem? s.ring q g e in
      elim (ℕ_discrete s.hand q) [
        | yes h ↦
            let same = at_hand s c at e h in
            let lap = distance_lap (length s.ring) q len in
            let now : distance (length s.ring) ((s.hand + 1) % length s.ring) q + 1
                ≡ length s.ring =
              rw h lap in
            elim n [
              | inl (clear, _) ↦
                  absurd (false≢true (sym clear ∙ ap (bit s.referenced) (sym same) ∙ set))
              | inr far ↦ inl (bit-put_bit_self s.referenced c g same, omega arith)
            ]
        | no h ↦
            let less = distance_next (length s.ring) s.hand q b len h in
            elim n [
              | inl (clear, near) ↦ inl (bit-put_bit s.referenced c g clear, omega arith)
              | inr far ↦ inr (omega arith)
            ]
      ]

  Enough-moved :
      (s : Policy) (c : FrameId) (rounds : ℕ)
      → s.hand < length s.ring
      → get_elem? s.ring s.hand ≡ some c
      → get_elem? s.ring q ≡ some g
      → p c ≡ false
      → Enough s (suc rounds)
      → Enough (record s { hand = (s.hand + 1) % length s.ring }) rounds
  Enough-moved s c rounds b at e not_free n =
      let h : s.hand ≢ q = λ h. false≢true (sym not_free ∙ ap p (at_hand s c at e h) ∙ free) in
      let less = distance_next (length s.ring) s.hand q b (lt_of_get_elem? s.ring q g e) h in
      elim n [ inl (clear, near) ↦ inl (clear, omega arith) | inr far ↦ inr (omega arith) ]

  scan-Found :
      (rounds : ℕ) (s : Policy)
      → s.hand < length s.ring
      → get_elem? s.ring q ≡ some g
      → Enough s rounds
      → Found s (scan p rounds s)
  unfolding scan
  scan-Found zero s b e n = absurd (omega arith)
  scan-Found (suc rounds) s b e n =
      let (c, at) = get_elem?-some s.ring s.hand b in
      let moved : Policy = record s { hand = (s.hand + 1) % length s.ring } in
      let cleared : Policy = record moved { referenced = put_bit s.referenced c (some false) } in
      let b' = next-lt (length s.ring) s.hand b in
      elim (Bool-cases (p c)) [
        | inl may ↦ elim (Bool-cases (bit s.referenced c)) [
          | inl set ↦
              rw (at, scan, may, set)
                (scan-Found rounds cleared b' e (Enough-cleared s c rounds b at e set n))
          | inr clear ↦ rw (at, scan, may, clear) (c, refl, may, In-of_get_elem? s.ring s.hand c at)
        ]
        | inr not_free ↦
            rw (at, scan, not_free)
              (scan-Found rounds moved b' e (Enough-moved s c rounds b at e not_free n))
      ]

-- Where a page stands in the ring.
place : (g : FrameId) (xs : List FrameId) → In g xs → (q : ℕ) × (get_elem? xs q ≡ some g)
place g [] m = elim m [ ]
place g (x ∷ xs) (inl e) = (0, ap some (sym e))
place g (x ∷ xs) (inr m) = let (q, e) = place g xs m in (suc q, e)

-- While some page of the ring is replaceable and the hand is in range, two laps find a victim,
-- whatever the reference bits are; the victim is a replaceable page of the ring.
pub choose_victim_finds :
    (s : Policy) (p : FrameId → Bool) (g : FrameId)
    → s.hand < length s.ring
    → In g s.ring
    → p g ≡ true
    → (v : FrameId) × ((choose_victim p s).1 ≡ victim v) × (p v ≡ true) × In v s.ring
unfolding choose_victim
choose_victim_finds s p g b m free =
    let (q, e) = place g s.ring m in
    let len = lt_of_get_elem? s.ring q g e in
    let full : is_empty s.ring ≡ false = not_empty s.ring b in
    rw full (
      scan-Found p g q free (length s.ring * 2) s b e
        (inr (omega (arith, distance-lt (length s.ring) s.hand q b len))))
  where
    not_empty : (xs : List FrameId) → s.hand < length xs → is_empty xs ≡ false
    not_empty [] h = absurd (omega arith)
    not_empty (x ∷ xs) h = refl

-- The scan reads only inside the ring, and leaves the ring as it is.
pub scan_in_range :
    (p : FrameId → Bool) (rounds : ℕ) (s : Policy)
    → s.hand < length s.ring
    → ((scan p rounds s).1 ≢ out_of_range)
      × ((scan p rounds s).0.hand < length s.ring)
      × ((scan p rounds s).0.ring ≡ s.ring)
unfolding scan
scan_in_range p zero s b = ((λ e. cc), b, refl)
scan_in_range p (suc rounds) s b =
    let (c, at) = get_elem?-some s.ring s.hand b in
    let moved : Policy = record s { hand = (s.hand + 1) % length s.ring } in
    let cleared : Policy = record moved { referenced = put_bit s.referenced c (some false) } in
    let b' = next-lt (length s.ring) s.hand b in
    elim (Bool-cases (p c)) [
      | inl may ↦ elim (Bool-cases (bit s.referenced c)) [
        | inl set ↦ rw (at, scan, may, set) (scan_in_range p rounds cleared b')
        | inr clear ↦ rw (at, scan, may, clear) ((λ e. cc), b', refl)
      ]
      | inr not_free ↦ rw (at, scan, not_free) (scan_in_range p rounds moved b')
    ]
