-- ===== src/Record/Page/Remove.antt =====
-- Deletion and update on a page of observer/storage/record/record_manager.cpp.
use csu_dbms.Base.{
  ℕ, ◌+◌, ◌*◌, ◌<◌, ◌≡◌, ◌≢◌, refl, ◌∙◌, true, false, leb, ◌==◌, if◌then◌else◌, none, some, List,
  arith,
}
use csu_dbms.Rc.{success, record_invalid_rid, record_not_exist}
use csu_dbms.Bitmap.{get_bit, clear_bit, bytes}
use csu_dbms.Bitmap.Bits
use csu_dbms.Record.Page.{
  Page, record_capacity, cleared, updated, in_bitmap, delete_record, update_record, get_record,
}
use csu_dbms.Record.Page.Counts.{IsValid, count-clear_bit}

-- What a deletion at a slot does.
pub record Deleted (p : Page) (slot : ℕ) (p' : Page) : Type 0 where
  pub answered : delete_record p slot ≡ some (success, p')
  pub gone : get_record p' slot ≡ (record_not_exist, none)
  pub others : (j : ℕ) → slot ≢ j → get_record p' j ≡ get_record p j
  pub fewer : p'.record_num + 1 ≡ p.record_num
  pub still_valid : IsValid p'

pub bytes-le-eight : (size i : ℕ) → i < size → i < 8 * bytes size
unfolding bytes
bytes-le-eight size i h = ground arith

within_bitmap :
    (p : Page) (slot : ℕ) → IsValid p → slot < record_capacity p → in_bitmap p slot ≡ true
within_bitmap p slot v l =
    let a = bytes-le-eight (record_capacity p) slot l in let b = v.bits_valid.roomy in ground arith

get_record-cleared :
    (p : Page) (slot j : ℕ)
    → get_record (cleared p slot) j ≡ (
        if leb (record_capacity p) j
        then (record_invalid_rid, none)
        else (if get_bit (clear_bit p.bits slot) j
            then (success, some (p.records j))
            else (record_not_exist, none)))
unfolding get_record clear_bit
get_record-cleared p slot j = refl

cleared-IsValid :
    (p : Page) (slot : ℕ)
    → IsValid p
    → slot < record_capacity p
    → get_bit p.bits slot ≡ true
    → IsValid (cleared p slot)
unfolding clear_bit
cleared-IsValid p slot v l e = record {
  bits_valid = Bits.clear_bit-IsValid p.bits slot v.bits_valid;
  counted = omega (arith, count-clear_bit p slot v l e);
}

-- Deletion of a taken slot of a valid, writable page succeeds: the slot is free then, one record fewer is
-- counted, every other slot reads as before, and the page is valid again.
pub delete_record-Deleted :
    (p : Page) (slot : ℕ)
    → IsValid p
    → p.read_only ≡ false
    → slot < record_capacity p
    → get_bit p.bits slot ≡ true
    → Deleted p slot (cleared p slot)
unfolding get_record
delete_record-Deleted p slot v writable l e = record {
  answered = unfold delete_record in simp (writable, within_bitmap p slot v l, e);
  gone =
      let within : leb (record_capacity p) slot ≡ false = ground arith in
      let here : (slot == slot) ≡ true = ground arith in
      get_record-cleared p slot slot
      ∙ rw (within, Bits.get_bit-clear_bit p.bits slot slot v.bits_valid l, here) refl;
  others = λ j ne.
      let other : (slot == j) ≡ false = ground arith in
      get_record-cleared p slot j
      ∙ rw (Bits.get_bit-clear_bit p.bits slot j v.bits_valid l, other) refl;
  fewer = omega (arith, count-clear_bit p slot v l e, (cleared-IsValid p slot v l e).counted);
  still_valid = cleared-IsValid p slot v l e;
}

-- Deletion of a free slot of a valid, writable page says so and changes nothing.
pub delete_record-free :
    (p : Page) (slot : ℕ)
    → IsValid p
    → p.read_only ≡ false
    → slot < record_capacity p
    → get_bit p.bits slot ≡ false
    → delete_record p slot ≡ some (record_not_exist, p)
unfolding delete_record
delete_record-free p slot v writable l e = simp (writable, within_bitmap p slot v l, e)

-- What an update at a slot does.
pub record Updated (p : Page) (slot : ℕ) (bytes : List ℕ) (p' : Page) : Type 0 where
  pub answered : update_record p slot bytes ≡ some (success, p')
  pub found : get_record p' slot ≡ (success, some bytes)
  pub others : (j : ℕ) → slot ≢ j → get_record p' j ≡ get_record p j
  pub still_valid : IsValid p'

-- Update of a taken slot of a valid, writable page puts the new record there, and leaves every other slot
-- and the count.
pub update_record-Updated :
    (p : Page) (slot : ℕ) (bytes : List ℕ)
    → IsValid p
    → p.read_only ≡ false
    → slot < record_capacity p
    → get_bit p.bits slot ≡ true
    → Updated p slot bytes (updated p slot bytes)
unfolding get_record
update_record-Updated p slot new v writable l e =
    let within : leb (record_capacity p) slot ≡ false = ground arith in
    let here : (slot == slot) ≡ true = ground arith in
    record {
      answered = unfold update_record in simp (writable, within, e);
      found = rw (within, e, here) refl;
      others = λ j ne. let other : (slot == j) ≡ false = ground arith in rw other refl;
      still_valid = record { bits_valid = v.bits_valid; counted = v.counted };
    }
