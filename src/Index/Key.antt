-- ===== src/Index/Key.antt =====
-- The keys of the index (bplus_tree.h): the attribute's bytes followed by the record id, compared in this order.
-- The comparison of two attributes belongs to the attribute's type and is an argument.
use csu_dbms.Base.{ℕ, ◌≡◌, refl, sym, ap, ◌∙◌, inl, inr, ◌⊎◌, ◌↔◌, ◌<◌, ltb, if◌then◌else◌, arith}
use csu_dbms.LowerBound.{Sign, less, equal, greater, Sign-cases}

pub record Rid : Type 0 where
  pub page_num : ℕ
  pub slot_num : ℕ

-- The sign of `a - b`. Numbers of pages and slots are not negative, so the subtraction of the code does not
-- overflow.
unfoldable pub difference : ℕ → ℕ → Sign
difference a b = if ltb a b then less else (if ltb b a then greater else equal)

-- The second comparison decides where the first one finds no difference.
unfoldable pub and_then : Sign → Sign → Sign
and_then less s = less
and_then equal s = s
and_then greater s = greater

unfoldable pub compare : Rid → Rid → Sign
compare rid1 rid2 =
    and_then (difference rid1.page_num rid2.page_num) (difference rid1.slot_num rid2.slot_num)

-- A key as `make_key` lays it out.
abbrev pub Key : Type 0 → Type 0
Key A = A × Rid

unfoldable pub key_comparator : {A : Type 0} → (A → A → Sign) → Key A → Key A → Sign
key_comparator attr_comparator v1 v2 = and_then (attr_comparator v1.0 v2.0) (compare v1.1 v2.1)

unfoldable pub opposite : Sign → Sign
opposite less = greater
opposite equal = equal
opposite greater = less

-- A comparison that is a total preorder: two keys that it does not tell apart need not be the same.
pub record IsLawful {K : Type 0} (comparator : K → K → Sign) : Type 0 where
  pub same : (a : K) → comparator a a ≡ equal
  pub flip : (a b : K) → comparator b a ≡ opposite (comparator a b)
  pub less_trans :
      (a b c : K) → comparator a b ≡ less → comparator b c ≡ less → comparator a c ≡ less
  pub equal_left : (a b c : K) → comparator a b ≡ equal → comparator a c ≡ comparator b c

difference-cases :
    (a b : ℕ)
    → ((difference a b ≡ less) × (a < b))
      ⊎ ((difference a b ≡ equal) × (a ≡ b))
      ⊎ ((difference a b ≡ greater) × (b < a))
unfolding difference
difference-cases a b = ground arith

pub difference-IsLawful : IsLawful difference
unfolding difference opposite
difference-IsLawful = record {
  same = λ a. ground arith;
  flip = λ a b. ground arith;
  less_trans = λ a b c p q. ground arith;
  equal_left = λ a b c p. ground arith;
}

module _ {K : Type 0} (comparator : K → K → Sign) (laws : IsLawful comparator) where
  pub equal_right : (a b c : K) → comparator b c ≡ equal → comparator a b ≡ comparator a c
  equal_right a b c e = laws.flip b a ∙ ap opposite (laws.equal_left b c a e) ∙ sym (laws.flip c a)

  pub less_greater : (a b : K) → comparator a b ≡ less → comparator b a ≡ greater
  unfolding opposite
  less_greater a b e = rw (laws.flip a b, e) refl

  pub greater_less : (a b : K) → comparator a b ≡ greater → comparator b a ≡ less
  unfolding opposite
  greater_less a b e = rw (laws.flip a b, e) refl

  pub equal_sym : (a b : K) → comparator a b ≡ equal → comparator b a ≡ equal
  unfolding opposite
  equal_sym a b e = rw (laws.flip a b, e) refl

and_then_less : (s t : Sign) → and_then s t ≡ less → (s ≡ less) ⊎ ((s ≡ equal) × (t ≡ less))
unfolding and_then
and_then_less less t e = inl refl
and_then_less equal t e = inr (refl, e)
and_then_less greater t e = absurd cc

and_then_equal : (s t : Sign) → and_then s t ≡ equal → (s ≡ equal) × (t ≡ equal)
unfolding and_then
and_then_equal less t e = absurd cc
and_then_equal equal t e = (refl, e)
and_then_equal greater t e = absurd cc

module _ {K A B : Type 0} (f : K → A) (g : K → B) (first : A → A → Sign)
    (second : B → B → Sign) where
  -- Two lawful comparisons, one after the other.
  and_then-IsLawful :
      IsLawful first
      → IsLawful second
      → IsLawful (λ a b. and_then (first (f a) (f b)) (second (g a) (g b)))
  unfolding and_then opposite
  and_then-IsLawful p q = record {
    same = λ a. rw (p.same (f a), q.same (g a)) refl;
    flip = λ a b.
        rw (p.flip (f a) (f b), q.flip (g a) (g b))
          (elim (Sign-cases (first (f a) (f b))) [
            | inl e ↦ rw e refl
            | inr (inl e) ↦ rw e refl
            | inr (inr e) ↦ rw e refl
          ]);
    less_trans = λ a b c h k.
        let c_left = p.equal_left (f a) (f b) (f c) in
        let c_right = equal_right first p (f a) (f b) (f c) in
        elim (and_then_less (first (f a) (f b)) (second (g a) (g b)) h) [
          | inl x ↦ elim (and_then_less (first (f b) (f c)) (second (g b) (g c)) k) [
            | inl y ↦ rw (p.less_trans (f a) (f b) (f c) x y) refl
            | inr y ↦ rw (sym (c_right y.0), x) refl
          ]
          | inr x ↦
              rw (c_left x.0) (elim (and_then_less (first (f b) (f c)) (second (g b) (g c)) k) [
                | inl y ↦ rw y refl
                | inr y ↦ rw (y.0, q.less_trans (g a) (g b) (g c) x.1 y.1) refl
              ])
        ];
    equal_left = λ a b c h.
        let both = and_then_equal (first (f a) (f b)) (second (g a) (g b)) h in
        rw (p.equal_left (f a) (f b) (f c) both.0, q.equal_left (g a) (g b) (g c) both.1) refl;
  }

compare-IsLawful : IsLawful compare
unfolding compare
compare-IsLawful =
    and_then-IsLawful (λ r. r.page_num) (λ r. r.slot_num) difference difference difference-IsLawful
      difference-IsLawful

-- `KeyComparator` is lawful when the comparison of the attribute's type is.
pub key_comparator-IsLawful :
    {A : Type 0} (attr_comparator : A → A → Sign)
    → IsLawful attr_comparator
    → IsLawful (key_comparator attr_comparator)
unfolding key_comparator
key_comparator-IsLawful attr_comparator laws =
    and_then-IsLawful (λ k. k.0) (λ k. k.1) attr_comparator compare laws compare-IsLawful

-- Keys that the comparator does not tell apart have the same record.
pub compare-eq : (a b : Rid) → compare a b ≡ equal → a ≡ b
unfolding compare difference
compare-eq a b e =
    let both = and_then_equal _ _ e in
    let pages : a.page_num ≡ b.page_num = let h = both.0 in ground arith in
    let slots : a.slot_num ≡ b.slot_num = let h = both.1 in ground arith in rw (pages, slots) refl

less-cases :
    (a b : Rid)
    → compare a b ≡ less
      ↔ ((a.page_num < b.page_num) ⊎ ((a.page_num ≡ b.page_num) × (a.slot_num < b.slot_num)))
unfolding compare difference and_then
less-cases a b = ground arith

-- What decides the comparison of two keys: the attribute, then the page, then the slot.
pub record IsLexicographic {A : Type 0} (attr_comparator : A → A → Sign) (a b : Key A)
    : Type 0 where
  pub is_less : key_comparator attr_comparator a b ≡ less ↔ (
      (attr_comparator a.0 b.0 ≡ less)
      ⊎ ((attr_comparator a.0 b.0 ≡ equal)
          × ((a.1.page_num < b.1.page_num)
              ⊎ ((a.1.page_num ≡ b.1.page_num) × (a.1.slot_num < b.1.slot_num)))))
  pub is_equal :
      key_comparator attr_comparator a b ≡ equal ↔ ((attr_comparator a.0 b.0 ≡ equal) × (a.1 ≡ b.1))

-- Where the comparison of the attribute's type is a total preorder, so is `KeyComparator`, and it is lexicographic: a
-- key is less than another when its attribute is less, or when the attributes compare equal and its page number is
-- less, or the page numbers are the same and its slot number is less; it is equal when the attributes compare equal
-- and the record ids are the same.
pub key_comparator-IsLexicographic :
    {A : Type 0} (attr_comparator : A → A → Sign)
    → IsLawful attr_comparator
    → IsLawful (key_comparator attr_comparator)
      × ((a b : Key A) → IsLexicographic attr_comparator a b)
unfolding key_comparator and_then
key_comparator-IsLexicographic attr_comparator laws = (
  key_comparator-IsLawful attr_comparator laws,
  λ a b. record {
    is_less = (
      λ h. elim (and_then_less (attr_comparator a.0 b.0) (compare a.1 b.1) h) [
        | inl e ↦ inl e
        | inr e ↦ inr (e.0, (less-cases a.1 b.1).0 e.1)
      ],
      λ h. elim h [ inl e ↦ rw e refl | inr e ↦ rw e.0 ((less-cases a.1 b.1).1 e.1) ],
    );
    is_equal = (
      λ h.
          let both = and_then_equal (attr_comparator a.0 b.0) (compare a.1 b.1) h in
          (both.0, compare-eq a.1 b.1 both.1),
      λ h. rw (h.0, h.1) (compare-IsLawful.same b.1),
    );
  },
)
