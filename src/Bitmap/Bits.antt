-- ===== src/Bitmap/Bits.antt =====
-- Reading, setting and clearing the bits of common/lang/bitmap.cpp.
use csu_dbms.Base.{
  Option, none, some, search_from, search_from-IsFirst, IsFirst, ℕ, zero, suc, ◌/◌, ◌%◌, ◌≤◌, ◌<◌,
  ◌≡◌, refl, sym, ap, Bool, true, false, not, ◌&&◌, List, [], ◌∷◌, ltb, ltb→lt, ◌==◌, if◌then◌else◌,
  get_or, set, length, length-set, get_or-set_self, get_or-set_ne, ℕ_discrete, All, arith,
}
use csu_dbms.Bitmap.{Bitmap, bit, bytes, with_bit, without_bit, get_bit, set_bit, clear_bit}

-- A test over a small range, by evaluation of the search for a number that fails it.
abbrev is_none : Option ℕ → Bool
is_none none = true
is_none (some x) = false

unfoldable pub passes : (ℕ → Bool) → ℕ → Bool
passes test bound = is_none (search_from (λ x. not (test x)) 0 bound)

pub passes-at :
    (test : ℕ → Bool) {bound : ℕ} → passes test bound ≡ true → (x : ℕ) → x < bound → test x ≡ true
unfolding passes
passes-at test {bound} h x l =
    by_answer (search_from (λ y. not (test y)) 0 bound) h
      (search_from-IsFirst (λ y. not (test y)) 0 bound)
  where
    not_false : (b : Bool) → not b ≡ false → b ≡ true
    not_false true e = refl
    not_false false e = cc

    by_answer :
        (o : Option ℕ) → is_none o ≡ true → IsFirst (λ y. not (test y)) 0 bound o → test x ≡ true
    by_answer none e all = not_false _ (all x (omega arith) (omega arith))
    by_answer (some y) e first = absurd cc

abbrev same : Bool → Bool → Bool
same true b = b
same false b = not b

and_left : (a b : Bool) → (a && b) ≡ true → a ≡ true
and_left true b h = refl
and_left false b h = cc

and_right : (a b : Bool) → (a && b) ≡ true → b ≡ true
and_right true b h = h
and_right false b h = cc

same_eq : (a b : Bool) → same a b ≡ true → a ≡ b
same_eq true true h = refl
same_eq true false h = cc
same_eq false true h = cc
same_eq false false h = refl

-- The tables of the two updates over a byte: what each bit is afterwards, and that it stays a byte.
with_table :
    passes
      (λ b.
        passes
          (λ i.
            ltb (with_bit b i) 256
            && passes (λ j. same (bit (with_bit b i) j) (if i == j then true else bit b j)) 8)
          8)
      256
    ≡ true
unfolding passes search_from
with_table = refl

without_table :
    passes
      (λ b.
        passes
          (λ i.
            ltb (without_bit b i) 256
            && passes (λ j. same (bit (without_bit b i) j) (if i == j then false else bit b j)) 8)
          8)
      256
    ≡ true
unfolding passes search_from
without_table = refl

with_at :
    (b i : ℕ)
    → b < 256
    → i < 8
    → (with_bit b i < 256)
      × ((j : ℕ) → j < 8 → bit (with_bit b i) j ≡ (if i == j then true else bit b j))
with_at b i h k =
    let row = passes-at _ (passes-at _ with_table b h) i k in
    (ltb→lt _ 256 (and_left _ _ row), λ j l. same_eq _ _ (passes-at _ (and_right _ _ row) j l))

without_at :
    (b i : ℕ)
    → b < 256
    → i < 8
    → (without_bit b i < 256)
      × ((j : ℕ) → j < 8 → bit (without_bit b i) j ≡ (if i == j then false else bit b j))
without_at b i h k =
    let row = passes-at _ (passes-at _ without_table b h) i k in
    (ltb→lt _ 256 (and_left _ _ row), λ j l. same_eq _ _ (passes-at _ (and_right _ _ row) j l))

-- The array holds bytes.
abbrev pub IsBytes : List ℕ → Type 0
IsBytes bs = All (λ b. b < 256) bs

get_or-byte : (bs : List ℕ) (k : ℕ) → IsBytes bs → get_or bs k 0 < 256
get_or-byte [] k h = omega arith
get_or-byte (b ∷ bs) zero h = h.0
get_or-byte (b ∷ bs) (suc k) h = get_or-byte bs k h.1

set-IsBytes : (bs : List ℕ) (k v : ℕ) → IsBytes bs → v < 256 → IsBytes (set bs k v)
set-IsBytes [] k v h l = tt
set-IsBytes (b ∷ bs) zero v h l = (l, h.1)
set-IsBytes (b ∷ bs) (suc k) v h l = (h.0, set-IsBytes bs k v h.1 l)

-- An array of bytes that has a byte for every bit.
pub record IsValid (m : Bitmap) : Type 0 where
  pub are_bytes : IsBytes m.bitmap
  pub roomy : bytes m.size ≤ length m.bitmap

pub byte-lt-bytes : (i size : ℕ) → i < size → i / 8 < bytes size
unfolding bytes
byte-lt-bytes i size h = ground arith

pub set_bit-IsValid : (m : Bitmap) (i : ℕ) → IsValid m → IsValid (set_bit m i)
unfolding set_bit
set_bit-IsValid m i v = record {
  are_bytes =
      set-IsBytes m.bitmap (i / 8) _ v.are_bytes
        (with_at (get_or m.bitmap (i / 8) 0) (i % 8) (get_or-byte m.bitmap (i / 8) v.are_bytes)
          (omega arith)).0;
  roomy =
      let h = v.roomy in
      omega (arith, length-set m.bitmap (i / 8) (with_bit (get_or m.bitmap (i / 8) 0) (i % 8)));
}

pub clear_bit-IsValid : (m : Bitmap) (i : ℕ) → IsValid m → IsValid (clear_bit m i)
unfolding clear_bit
clear_bit-IsValid m i v = record {
  are_bytes =
      set-IsBytes m.bitmap (i / 8) _ v.are_bytes
        (without_at (get_or m.bitmap (i / 8) 0) (i % 8) (get_or-byte m.bitmap (i / 8) v.are_bytes)
          (omega arith)).0;
  roomy =
      let h = v.roomy in
      omega (arith, length-set m.bitmap (i / 8) (without_bit (get_or m.bitmap (i / 8) 0) (i % 8)));
}

-- A change of one byte that changes one of its bits to `v` does so to the array's bits.
set-bit :
    (bs : List ℕ) (i j b : ℕ) (v : Bool)
    → i / 8 < length bs
    → ((k : ℕ) → k < 8 → bit b k ≡ (if i % 8 == k then v else bit (get_or bs (i / 8) 0) k))
    → bit (get_or (set bs (i / 8) b) (j / 8) 0) (j % 8)
      ≡ (if i == j then v else bit (get_or bs (j / 8) 0) (j % 8))
set-bit bs i j b v room h = elim (ℕ_discrete (i / 8) (j / 8)) [
  | no other ↦
      let differ : (i == j) ≡ false = ground (arith, λ (e : i ≡ j). other (ap (λ x. x / 8) e)) in
      rw (get_or-set_ne bs b 0 other, differ) refl
  | yes here ↦
      rw (sym here, get_or-set_self bs (i / 8) b 0 room, h (j % 8) (omega arith))
        (ap (λ t. if t then v else bit (get_or bs (i / 8) 0) (j % 8)) (same_test i j here))
]
  where
    same_test : (i j : ℕ) → i / 8 ≡ j / 8 → (i % 8 == j % 8) ≡ (i == j)
    same_test i j e = ground arith

-- Setting a bit sets it and leaves every other bit.
pub get_bit-set_bit :
    (m : Bitmap) (i j : ℕ)
    → IsValid m
    → i < m.size
    → get_bit (set_bit m i) j ≡ (if i == j then true else get_bit m j)
unfolding get_bit set_bit
get_bit-set_bit m i j v h =
    let a = byte-lt-bytes i m.size h in
    let b = v.roomy in
    set-bit m.bitmap i j _ true (omega arith)
      (with_at (get_or m.bitmap (i / 8) 0) (i % 8) (get_or-byte m.bitmap (i / 8) v.are_bytes)
        (omega arith)).1

-- Clearing a bit clears it and leaves every other bit.
pub get_bit-clear_bit :
    (m : Bitmap) (i j : ℕ)
    → IsValid m
    → i < m.size
    → get_bit (clear_bit m i) j ≡ (if i == j then false else get_bit m j)
unfolding get_bit clear_bit
get_bit-clear_bit m i j v h =
    let a = byte-lt-bytes i m.size h in
    let b = v.roomy in
    set-bit m.bitmap i j _ false (omega arith)
      (without_at (get_or m.bitmap (i / 8) 0) (i % 8) (get_or-byte m.bitmap (i / 8) v.are_bytes)
        (omega arith)).1
