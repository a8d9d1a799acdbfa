-- ===== src/Record/Page/Insert.antt =====
-- Insertion into a page of observer/storage/record/record_manager.cpp, and its redo.
use mathlib.Core.Path.{fun_ext}
use csu_dbms.Base.{
  ℕ, ◌-◌, ◌<◌, ◌≡◌, ◌≢◌, refl, sym, ap, subst, ◌∙◌, Bool, true, false, not, leb, ◌==◌, ==_iff,
  if◌then◌else◌, Bool-cases, Option, none, some, List, inl, inr, search_from-IsFirst, IsFirst,
  arith,
}
use csu_dbms.Rc.{Rc, success, record_nomem, record_invalid_rid, record_not_exist}
use csu_dbms.Bitmap.{get_bit, set_bit, next_unsetted_bit}
use csu_dbms.Bitmap.Bits
use csu_dbms.Bitmap.Search
use csu_dbms.Record.Page.{
  Page, record_capacity, put_record, placed, insert_record, recover_insert_record, get_record,
}
use csu_dbms.Bitmap.Counts.{count-all, count-le}
use csu_dbms.Record.Page.Counts.{IsValid, count-set_bit}

-- What an insertion at a slot does.
pub record Inserted (p : Page) (bytes : List ℕ) (slot : ℕ) (p' : Page) : Type 0 where
  pub answered : insert_record p bytes ≡ some (success, p', some slot)
  pub inside : slot < record_capacity p
  pub was_free : get_bit p.bits slot ≡ false
  pub lowest : (j : ℕ) → j < slot → get_bit p.bits j ≡ true
  pub found : get_record p' slot ≡ (success, some bytes)
  pub others : (j : ℕ) → slot ≢ j → get_record p' j ≡ get_record p j
  pub still_valid : IsValid p'

eq_true : (b : Bool) → not b ≡ false → b ≡ true
eq_true true h = refl
eq_true false h = cc

eq_false : (b : Bool) → not b ≡ true → b ≡ false
eq_false true h = cc
eq_false false h = refl

-- `get_record` after the slot's bit is set and its record written.
get_record-placed :
    (p : Page) (slot j : ℕ) (bytes : List ℕ)
    → get_record (placed p slot bytes) j ≡ (
        if leb (record_capacity p) j
        then (record_invalid_rid, none)
        else (if get_bit (set_bit p.bits slot) j
            then (success, some (put_record p.records slot bytes j))
            else (record_not_exist, none)))
unfolding get_record set_bit
get_record-placed p slot j bytes = refl

placed-IsValid :
    (p : Page) (slot : ℕ) (bytes : List ℕ)
    → IsValid p
    → slot < record_capacity p
    → get_bit p.bits slot ≡ false
    → IsValid (placed p slot bytes)
unfolding set_bit
placed-IsValid p slot bytes v l e = record {
  bits_valid = Bits.set_bit-IsValid p.bits slot v.bits_valid;
  counted = sym (count-set_bit p slot v l e);
}

placed-Inserted :
    (p : Page) (bytes : List ℕ) (slot : ℕ)
    → IsValid p
    → p.read_only ≡ false
    → p.record_num < record_capacity p
    → next_unsetted_bit p.bits 0 ≡ some slot
    → IsFirst (λ i. not (get_bit p.bits i)) 0 (record_capacity p - 0) (some slot)
    → Inserted p bytes slot (placed p slot bytes)
unfolding insert_record get_record
placed-Inserted p bytes slot v writable room e first =
    let inside : slot < record_capacity p = let u = first.1 in omega arith in
    let free : get_bit p.bits slot ≡ false = eq_false _ first.2 in
    record {
      answered =
          let more : (p.record_num == record_capacity p) ≡ false = ground arith in
          simp (writable, more, e);
      inside = inside;
      was_free = free;
      lowest = λ j l. eq_true _ (first.3 j (omega arith) l);
      found =
          let within : leb (record_capacity p) slot ≡ false = ground arith in
          let here : (slot == slot) ≡ true = ground arith in
          get_record-placed p slot slot bytes
          ∙ rw (within, Bits.get_bit-set_bit p.bits slot slot v.bits_valid inside, here) refl;
      others = λ j ne.
          let other : (slot == j) ≡ false = ground arith in
          get_record-placed p slot j bytes
          ∙ rw (Bits.get_bit-set_bit p.bits slot j v.bits_valid inside, other) refl;
      still_valid = placed-IsValid p slot bytes v inside free;
    }

-- Insertion into a page that is valid, writable and not full: it succeeds at the lowest free slot, whose
-- record is then the inserted one; every other slot reads as before, and the page is valid again.
pub insert_record-Inserted :
    (p : Page) (bytes : List ℕ)
    → IsValid p
    → p.read_only ≡ false
    → p.record_num < record_capacity p
    → (slot : ℕ) × Inserted p bytes slot (placed p slot bytes)
insert_record-Inserted p bytes v writable room = by_answer (next_unsetted_bit p.bits 0) refl (
    subst (IsFirst (λ i. not (get_bit p.bits i)) 0 (record_capacity p - 0))
      (sym (Search.next_unsetted_bit-search_from p.bits 0 v.bits_valid))
      (search_from-IsFirst (λ i. not (get_bit p.bits i)) 0 (record_capacity p - 0)))
  where
    by_answer :
        (o : Option ℕ)
        → next_unsetted_bit p.bits 0 ≡ o
        → IsFirst (λ i. not (get_bit p.bits i)) 0 (record_capacity p - 0) o
        → (slot : ℕ) × Inserted p bytes slot (placed p slot bytes)
    by_answer (some slot) e first = (slot, placed-Inserted p bytes slot v writable room e first)
    by_answer none e all =
        let taken =
          count-all (get_bit p.bits) (record_capacity p)
            (λ j l. eq_true _ (all j (omega arith) (omega arith))) in
        absurd (omega (arith, taken, v.counted))

-- A full page refuses an insertion and stays as it is.
pub insert_record-full :
    (p : Page) (bytes : List ℕ)
    → p.read_only ≡ false
    → p.record_num ≡ record_capacity p
    → insert_record p bytes ≡ some (record_nomem, p, none)
unfolding insert_record
insert_record-full p bytes writable full =
    let all : (p.record_num == record_capacity p) ≡ true = ground arith in simp (writable, all)

recover_insert_record-set :
    (p : Page) (slot : ℕ) (bytes : List ℕ)
    → leb (record_capacity p) slot ≡ false
    → get_bit (set_bit p.bits slot) slot ≡ true
    → recover_insert_record (placed p slot bytes) bytes slot ≡ (
      success,
      record (placed p slot bytes) {
        records = put_record (put_record p.records slot bytes) slot bytes;
      },
    )
unfolding recover_insert_record
recover_insert_record-set p slot bytes inside set =
    let inside' : leb (set_bit p.bits slot).size slot ≡ false = unfold set_bit in inside in
    rw (inside', set) refl

-- What an insertion that succeeded tells.
insert_record-eq_success :
    (p p' : Page) (bytes : List ℕ) (slot : ℕ)
    → IsValid p
    → insert_record p bytes ≡ some (success, p', some slot)
    → Inserted p bytes slot (placed p slot bytes) × (p' ≡ placed p slot bytes)
insert_record-eq_success p p' bytes slot v h = elim (Bool-cases p.read_only) [
  | inl sealed ↦
      let never : insert_record p bytes ≡ none = unfold insert_record in simp sealed in
      absurd (let clash : none ≡ some (success, p', some slot) = sym never ∙ h in cc)
  | inr writable ↦ elim (Bool-cases (p.record_num == record_capacity p)) [
    | inl full ↦
        let refused = insert_record-full p bytes writable ((==_iff _ _).0 full) in
        absurd (
          let clash : some (record_nomem, p, none) ≡ some (success, p', some slot) =
            sym refused ∙ h in
          cc)
    | inr more ↦
        let bound = count-le (get_bit p.bits) (record_capacity p) in
        let counted = v.counted in
        let room : p.record_num < record_capacity p = ground arith in
        let (at, ins) = insert_record-Inserted p bytes v writable room in
        let joined : ◌≡◌ {A = Option (Rc × Page × Option ℕ)}
            (some (success, placed p at bytes, some at)) (some (success, p', some slot)) =
          sym ins.answered ∙ h in
        let same : at ≡ slot = cc in
        let page : placed p at bytes ≡ p' = cc in
        (
          subst (λ x. Inserted p bytes x (placed p x bytes)) same ins,
          sym page ∙ ap (λ x. placed p x bytes) same,
        )
  ]
]

-- Redo of an insertion into a valid page: on the page before it, `recover_insert_record` makes the page
-- that the insertion made, but for the log; on the page behind it, it changes nothing.
pub recover_insert_record-insert_record :
    (p p' : Page) (bytes : List ℕ) (slot : ℕ)
    → IsValid p
    → insert_record p bytes ≡ some (success, p', some slot)
    → (recover_insert_record p bytes slot ≡ (success, record p' { log = p.log }))
      × (recover_insert_record p' bytes slot ≡ (success, p'))
recover_insert_record-insert_record p p' bytes slot v h =
    let (ins, e) = insert_record-eq_success p p' bytes slot v h in
    let inside : leb (record_capacity p) slot ≡ false = let l = ins.inside in ground arith in
    let here : (slot == slot) ≡ true = ground arith in
    let set : get_bit (set_bit p.bits slot) slot ≡ true =
      Bits.get_bit-set_bit p.bits slot slot v.bits_valid ins.inside
      ∙ ap (λ t. if t then true else get_bit p.bits slot) here in
    let twice : put_record (put_record p.records slot bytes) slot bytes
        ≡ put_record p.records slot bytes =
      fun_ext (λ j. ground arith) in
    let before : recover_insert_record p bytes slot
        ≡ (success, record (placed p slot bytes) { log = p.log }) =
      unfold recover_insert_record in rw (inside, ins.was_free) refl in
    let behind : recover_insert_record (placed p slot bytes) bytes slot
        ≡ (success, placed p slot bytes) =
      recover_insert_record-set p slot bytes inside set
      ∙ ap (λ m. (success, record (placed p slot bytes) { records = m })) twice in
    (
      before ∙ ap (λ x. (success, record x { log = p.log })) (sym e),
      subst (λ x. recover_insert_record x bytes slot ≡ (success, x)) (sym e) behind,
    )
