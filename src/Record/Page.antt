-- ===== src/Record/Page.antt =====
-- RowRecordPageHandler and RecordPageIterator of observer/storage/record/record_manager.cpp, on one page.
-- `none` is a failed ASSERT, or a bit outside of the page's bitmap. What a log call answers is ignored
-- by the code; its entries stand in `log`, newest first. A record is the list of its bytes.
pub mod Counts
pub mod Insert
pub mod Remove
pub mod Iterate
use csu_dbms.Base.{
  ℕ, zero, suc, ◌+◌, ◌-◌, ◌*◌, Bool, true, false, not, Option, none, some, List, [], ◌∷◌, ltb, leb,
  ◌==◌, if◌then◌else◌, length,
}
use csu_dbms.Rc.{Rc, success, record_nomem, record_invalid_rid, record_not_exist, invalid_argument}
use csu_dbms.Bitmap
use csu_dbms.Bitmap.{Bitmap, get_bit, set_bit, clear_bit, next_unsetted_bit, next_setted_bit}

pub data Logged : Type 0 where
  insert update : ℕ → List ℕ → Logged
  delete : ℕ → Logged

-- The page header's numbers, the bitmap with the capacity as its size, the records by their slots, and
-- the frame's dirty mark.
pub record Page : Type 0 where
  pub read_only : Bool
  pub record_num : ℕ
  pub bits : Bitmap
  pub records : ℕ → List ℕ
  pub dirty : Bool
  pub log : List Logged

abbrev pub record_capacity : Page → ℕ
record_capacity p = p.bits.size

abbrev pub put_record : (ℕ → List ℕ) → ℕ → List ℕ → ℕ → List ℕ
put_record m slot bytes j = if slot == j then bytes else m j

unfoldable pub is_full : Page → Bool
is_full p = leb (record_capacity p) p.record_num

unfoldable pub is_empty : Page → Bool
is_empty p = p.record_num == 0

-- The part of `insert_record` behind the search for a slot.
abbrev pub placed : Page → ℕ → List ℕ → Page
placed p index bytes = record p {
  bits = set_bit p.bits index;
  record_num = p.record_num + 1;
  log = insert index bytes ∷ p.log;
  records = put_record p.records index bytes;
  dirty = true;
}

unfoldable pub insert_record : Page → List ℕ → Option (Rc × Page × Option ℕ)
insert_record p bytes =
    if p.read_only
    then none
    else (if p.record_num == record_capacity p
        then some (record_nomem, p, none)
        else (elim (next_unsetted_bit p.bits 0) [
          | none ↦ none
          | some index ↦ some (success, placed p index bytes, some index)
        ]))

unfoldable pub recover_insert_record : Page → List ℕ → ℕ → Rc × Page
recover_insert_record p bytes slot =
    if leb (record_capacity p) slot then (record_invalid_rid, p) else (
      success,
      record p {
        bits = if get_bit p.bits slot then p.bits else set_bit p.bits slot;
        record_num = if get_bit p.bits slot then p.record_num else p.record_num + 1;
        records = put_record p.records slot bytes;
        dirty = true;
      },
    )

-- The bitmap has a byte for this slot.
abbrev pub in_bitmap : Page → ℕ → Bool
in_bitmap p slot = ltb slot (8 * length p.bits.bitmap)

abbrev pub cleared : Page → ℕ → Page
cleared p slot = record p {
  bits = clear_bit p.bits slot;
  record_num = p.record_num - 1;
  dirty = true;
  log = delete slot ∷ p.log;
}

-- There is no test of the slot against the capacity here.
unfoldable pub delete_record : Page → ℕ → Option (Rc × Page)
delete_record p slot =
    if p.read_only
    then none
    else (if not (in_bitmap p slot)
        then none
        else some
            (if get_bit p.bits slot then (success, cleared p slot) else (record_not_exist, p)))

abbrev pub updated : Page → ℕ → List ℕ → Page
updated p slot bytes = record p {
  dirty = true;
  records = put_record p.records slot bytes;
  log = update slot bytes ∷ p.log;
}

unfoldable pub update_record : Page → ℕ → List ℕ → Option (Rc × Page)
update_record p slot bytes =
    if p.read_only
    then none
    else some (
        if leb (record_capacity p) slot
        then (invalid_argument, p)
        else (if get_bit p.bits slot
            then (success, updated p slot bytes)
            else (record_not_exist, p)))

unfoldable pub get_record : Page → ℕ → Rc × Option (List ℕ)
get_record p slot =
    if leb (record_capacity p) slot
    then (record_invalid_rid, none)
    else (if get_bit p.bits slot
        then (success, some (p.records slot))
        else (record_not_exist, none))

-- RecordPageIterator: `next_slot_num_`, of which -1 is none. The page stays as it is meanwhile.
unfoldable pub iterator_init : Page → ℕ → Option ℕ
iterator_init p start_slot_num = next_setted_bit p.bits start_slot_num

-- `next` gives the record at the slot, and goes on behind it.
unfoldable pub iterator_next : Page → ℕ → Option (List ℕ) × Option ℕ
iterator_next p slot = ((get_record p slot).1, next_setted_bit p.bits (slot + 1))

-- `while (has_next()) next(record);`, on fuel: the slots with their records.
unfoldable pub iterate : Page → ℕ → Option ℕ → List (ℕ × Option (List ℕ))
iterate p fuel none = []
iterate p zero (some slot) = []
iterate p (suc fuel) (some slot) =
    let (found, next_slot_num) = iterator_next p slot in
    (slot, found) ∷ iterate p fuel next_slot_num
