-- ===== src/Record/Tests.antt =====
-- A page of four slots, and the theorems of the pages at it.
use csu_dbms.Base.{
  ℕ, ◌≡◌, refl, true, false, some, none, List, [], ◌∷◌, if◌then◌else◌, ◌==◌, search_from, arith,
}
use csu_dbms.Rc.{success, record_nomem}
use csu_dbms.Bitmap.{
  bytes, find_first_zero, find_first_setted, get_bit, unsetted_loop, setted_loop, next_unsetted_bit,
  next_setted_bit,
}
use csu_dbms.Bitmap.Bits
use csu_dbms.Bitmap.Counts.{count}
use csu_dbms.Record.Page.{
  Page, placed, updated, insert_record, iterator_init, iterator_next, iterate, get_record,
}
use csu_dbms.Record.Page.Counts
use csu_dbms.Record.Page.Insert
use csu_dbms.Record.Page.Remove

-- The slots 0 and 2 are taken.
abbrev records_of : ℕ → List ℕ
records_of slot = if slot == 0 then 7 ∷ 8 ∷ [] else (if slot == 2 then 5 ∷ 6 ∷ [] else [])

abbrev two_records : Page
two_records = record {
  read_only = false;
  record_num = 2;
  bits = record { bitmap = 5 ∷ []; size = 4 };
  records = records_of;
  dirty = false;
  log = [];
}

abbrev full : Page
full = record two_records { record_num = 4; bits = record { bitmap = 15 ∷ []; size = 4 } }

slots-IsValid : Bits.IsValid two_records.bits
unfolding bytes
slots-IsValid = record { are_bytes = (omega arith, tt); roomy = omega arith }

two_records-IsValid : Counts.IsValid two_records
unfolding count get_bit
two_records-IsValid = record { bits_valid = slots-IsValid; counted = refl }

inserted :
    insert_record two_records (1 ∷ 2 ∷ [])
    ≡ some (success, placed two_records 1 (1 ∷ 2 ∷ []), some 1)
unfolding insert_record next_unsetted_bit unsetted_loop find_first_zero search_from bytes
inserted = refl

scanned :
    iterate two_records 4 (iterator_init two_records 0)
    ≡ (0, some (7 ∷ 8 ∷ [])) ∷ (2, some (5 ∷ 6 ∷ [])) ∷ []
unfolding iterate iterator_init iterator_next next_setted_bit setted_loop find_first_setted
    search_from bytes get_record get_bit
scanned = refl

slot_taken : get_bit two_records.bits 2 ≡ true
unfolding get_bit
slot_taken = refl

slot_free : get_bit two_records.bits 1 ≡ false
unfolding get_bit
slot_free = refl

insert_record-Inserted_example :
    (slot : ℕ) × Insert.Inserted two_records
      (1 ∷ 2 ∷ [])
      slot
      (placed two_records slot (1 ∷ 2 ∷ []))
insert_record-Inserted_example =
    Insert.insert_record-Inserted two_records (1 ∷ 2 ∷ []) two_records-IsValid refl (omega arith)

insert_record-full_example : insert_record full (1 ∷ 2 ∷ []) ≡ some (record_nomem, full, none)
insert_record-full_example = Insert.insert_record-full full (1 ∷ 2 ∷ []) refl refl

update_record-Updated_example :
    Remove.Updated two_records 2 (3 ∷ 4 ∷ []) (updated two_records 2 (3 ∷ 4 ∷ []))
update_record-Updated_example =
    Remove.update_record-Updated two_records 2 (3 ∷ 4 ∷ []) two_records-IsValid refl (omega arith)
      slot_taken
