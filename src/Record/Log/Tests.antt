-- ===== src/Record/Log/Tests.antt =====
-- A page of four slots with its log, and the theorem of its recovery at it.
use csu_dbms.Base.{ℕ, ◌≡◌, refl, false, some, none, [], ◌∷◌, search_from, arith}
use csu_dbms.Rc.{success}
use csu_dbms.Bitmap.{
  bytes, find_first_zero, get_bit, set_bit, clear_bit, unsetted_loop, next_unsetted_bit,
}
use csu_dbms.Record.Page.{Page, insert_record, delete_record}
use csu_dbms.Record.Log.{Framed, Answer, Call, inserting, deleting, perform, call, replay_log}
use csu_dbms.Record.Log.Perform.{core}
use csu_dbms.Record.Log.Redo.{Steps, none_left, and_then, replay_log-Steps}

abbrev empty_page : Page
empty_page = record {
  read_only = false;
  record_num = 0;
  bits = record { bitmap = 0 ∷ []; size = 4 };
  records = λ slot. [];
  dirty = false;
  log = [];
}

abbrev start : Framed
start = record { page = empty_page; lsn = 0; written = [] }

abbrev logged : ℕ → Answer
logged lsn = record { rc = success; lsn = lsn }

-- The state after one more operation.
abbrev next : Call → ℕ → Framed → Framed
next c lsn s = elim (call c (logged lsn) s) [ none ↦ s | some s' ↦ s' ]

abbrev one_record : Framed
one_record = next (inserting (7 ∷ [])) 1 start

abbrev two_records : Framed
two_records = next (inserting (8 ∷ [])) 2 one_record

abbrev one_deleted : Framed
one_deleted = next (deleting 0) 3 two_records

abbrev last : Framed
last = next (inserting (9 ∷ [])) 4 one_deleted

before : Steps start two_records
unfolding call perform insert_record next_unsetted_bit unsetted_loop find_first_zero search_from
    bytes set_bit get_bit
before =
    and_then (inserting (7 ∷ [])) (logged 1) refl (refl, omega arith)
      (and_then (inserting (8 ∷ [])) (logged 2) refl (refl, omega arith) none_left)

later : Steps two_records last
unfolding call perform insert_record delete_record next_unsetted_bit unsetted_loop find_first_zero
    search_from bytes set_bit get_bit clear_bit
later =
    and_then (deleting 0) (logged 3) refl (refl, omega arith)
      (and_then (inserting (9 ∷ [])) (logged 4) refl (refl, omega arith) none_left)

-- The freed slot is taken again.
slot_reused : last.page.records 0 ≡ 9 ∷ []
unfolding call perform insert_record delete_record next_unsetted_bit unsetted_loop find_first_zero
    search_from bytes set_bit get_bit clear_bit
slot_reused = refl

replay_log-Steps_example :
    (found : Framed) × (replay_log last.written two_records ≡ some found)
    × (core found.page ≡ core last.page)
    × (found.lsn ≡ last.lsn)
replay_log-Steps_example = replay_log-Steps start two_records last refl before later
