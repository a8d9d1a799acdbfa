-- ===== src/Record/Log.antt =====
-- The log of the records of a page: RecordLogHandler and RecordLogReplayer of
-- observer/storage/record/record_log.cpp, on decoded entries of one page. The entry of a new page and the
-- tests of an entry's module, length and buffer pool are left out.
pub mod Perform
pub mod Redo
mod Tests
use csu_dbms.Base.{
  ℕ, Bool, true, false, Option, none, some, List, [], ◌∷◌, leb, ◌==◌, if◌then◌else◌,
}
use mathlib.Core.Option
use csu_dbms.Rc.{Rc, success, is_success}
use csu_dbms.Record.Page.{
  Page, Logged, insert, update, delete, insert_record, delete_record, update_record,
}

-- A page in its frame, with the frame's LSN, and the entries of the log with theirs, newest first.
pub record Framed : Type 0 where
  pub page : Page
  pub lsn : ℕ
  pub written : List (ℕ × Logged)

-- What the log handler answers: its code, and the LSN of the entry.
pub record Answer : Type 0 where
  pub rc : Rc
  pub lsn : ℕ

-- `if (OB_SUCC(rc) && lsn > 0) frame->set_lsn(lsn);`, when an entry was appended.
abbrev pub append_log : Answer → Logged → Framed → Framed
append_log a e s =
    if is_success a.rc
    then record s { lsn = if a.lsn == 0 then s.lsn else a.lsn; written = (a.lsn, e) ∷ s.written }
    else s

pub data Call : Type 0 where
  inserting : List ℕ → Call
  deleting : ℕ → Call
  updating : ℕ → List ℕ → Call

-- The answer of an operation of the page, the page, and the entry that it gives to the log.
abbrev pub Performed : Type 0
Performed = Rc × Page × Option Logged

abbrev pub inserted : List ℕ → Rc × Page × Option ℕ → Performed
inserted bytes (rc, p, none) = (rc, p, none)
inserted bytes (rc, p, some slot) = (rc, p, some (insert slot bytes))

abbrev pub changed : Logged → Rc × Page → Performed
changed e (rc, p) = (rc, p, if is_success rc then some e else none)

unfoldable pub perform : Call → Page → Option Performed
perform (inserting bytes) p = Option.map (inserted bytes) (insert_record p bytes)
perform (deleting slot) p = Option.map (changed (delete slot)) (delete_record p slot)
perform (updating slot bytes) p =
    Option.map (changed (update slot bytes)) (update_record p slot bytes)

-- What the log handler answers does not stop the operation.
abbrev pub after : Answer → Framed → Performed → Framed
after a s (rc, p, none) = record s { page = p }
after a s (rc, p, some e) = append_log a e (record s { page = p })

unfoldable pub call : Call → Answer → Framed → Option Framed
call c a s = Option.map (after a s) (perform c s.page)

-- The operation that the replayer takes for an entry. For an insertion it does not use the entry's slot.
abbrev pub as_call : Logged → Call
as_call (insert slot bytes) = inserting bytes
as_call (delete slot) = deleting slot
as_call (update slot bytes) = updating slot bytes

-- The log handler of the replayer appends nothing; the frame's LSN is that of an entry that succeeded.
abbrev pub replayed : ℕ → Framed → Performed → Rc × Framed
replayed lsn s (rc, p, e) =
    if is_success rc
    then (success, record s { page = p; lsn = lsn })
    else (rc, record s { page = p })

unfoldable pub replay : ℕ × Logged → Framed → Option (Rc × Framed)
replay (lsn, e) s =
    if leb lsn s.lsn
    then some (success, s)
    else Option.map (replayed lsn s) (perform (as_call e) s.page)

-- The entries from the oldest one on; `none` is an entry that is not replayed.
abbrev pub on_success : Rc × Framed → Option Framed
on_success (rc, s) = if is_success rc then some s else none

unfoldable pub replay_log : List (ℕ × Logged) → Framed → Option Framed
replay_log [] s = some s
replay_log (e ∷ older) s =
    Option.bind (replay_log older s) (λ s'. Option.bind (replay e s') on_success)
