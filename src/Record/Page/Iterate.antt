-- ===== src/Record/Page/Iterate.antt =====
-- RecordPageIterator of observer/storage/record/record_manager.cpp against the list of a page's slots.
use csu_dbms.Base.{
  ℕ, zero, suc, ◌+◌, ◌-◌, ◌≤◌, ◌<◌, ◌≡◌, refl, ap, ◌∙◌, true, false, leb, if◌then◌else◌, Bool-cases,
  Option, some, List, [], ◌∷◌, inl, inr, search_from, arith,
}
use csu_dbms.Bitmap.{get_bit, next_setted_bit}
use csu_dbms.Bitmap.Bits
use csu_dbms.Bitmap.Search
use csu_dbms.Record.Page.{Page, record_capacity, get_record, iterator_init, iterator_next, iterate}

-- The taken slots among `rounds` ones from `i` on, with their records.
unfoldable pub taken : Page → ℕ → ℕ → List (ℕ × Option (List ℕ))
taken p i zero = []
taken p i (suc rounds) =
    let rest = taken p (i + 1) rounds in
    if get_bit p.bits i then (i, some (p.records i)) ∷ rest else rest

get_record-taken :
    (p : Page) (i : ℕ)
    → i < record_capacity p
    → get_bit p.bits i ≡ true
    → (get_record p i).1 ≡ some (p.records i)
unfolding get_record
get_record-taken p i l e =
    let within : leb (record_capacity p) i ≡ false = ground arith in rw (within, e) refl

iterate-search_from :
    (p : Page) (fuel i rounds : ℕ)
    → Bits.IsValid p.bits
    → i + rounds ≡ record_capacity p
    → rounds ≤ fuel
    → iterate p fuel (search_from (get_bit p.bits) i rounds) ≡ taken p i rounds
unfolding taken search_from iterate iterator_next
iterate-search_from p fuel i zero v w f = refl
iterate-search_from p zero i (suc rounds) v w f = absurd (omega arith)
iterate-search_from p (suc fuel) i (suc rounds) v w f = elim (Bool-cases (get_bit p.bits i)) [
  | inr free ↦
      rw (search_from, taken, free)
        (iterate-search_from p (suc fuel) (i + 1) rounds v (omega arith) (omega arith))
  | inl set ↦
      let left : record_capacity p - (i + 1) ≡ rounds = omega arith in
      let next : next_setted_bit p.bits (i + 1) ≡ search_from (get_bit p.bits) (i + 1) rounds =
        Search.next_setted_bit-search_from p.bits (i + 1) v
        ∙ ap (search_from (get_bit p.bits) (i + 1)) left in
      rw (search_from, taken, set)
        (ap (λ o. (i, o) ∷ iterate p fuel (next_setted_bit p.bits (i + 1)))
            (get_record-taken p i (omega arith) set)
          ∙ ap (λ o. (i, some (p.records i)) ∷ iterate p fuel o) next
          ∙ ap (◌∷◌ (i, some (p.records i)))
              (iterate-search_from p fuel (i + 1) rounds v (omega arith) (omega arith)))
]

-- An iterator over a page with a valid bitmap, from slot 0, gives every taken slot below the capacity with
-- its record, once and in ascending order, and then ends; the capacity is fuel enough.
pub iterate-taken :
    (p : Page) (fuel : ℕ)
    → Bits.IsValid p.bits
    → record_capacity p ≤ fuel
    → iterate p fuel (iterator_init p 0) ≡ taken p 0 (record_capacity p)
unfolding iterator_init
iterate-taken p fuel v f =
    let all : record_capacity p - 0 ≡ record_capacity p = omega arith in
    ap (iterate p fuel)
      (Search.next_setted_bit-search_from p.bits 0 v ∙ ap (search_from (get_bit p.bits) 0) all)
    ∙ iterate-search_from p fuel 0 (record_capacity p) v (omega arith) f
