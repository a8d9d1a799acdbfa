-- ===== src/Trx/Mvcc.antt =====
-- MvccTrxKit and MvccTrx of mvcc_trx.cpp. `aborted` is the end of the process: a failed ASSERT, also one on the ids in
-- MvccTrxLogHandler of mvcc_trx_log.cpp, or a read of a record without data. Calls of the log handler are recorded in
-- `log`; the code asserts that they append, but for the results of the commit and the rollback, which are arguments.
use csu_dbms.Base.{
  ℕ, ◌-◌, ◌^◌, Bool, true, false, not, ◌&&◌, none, some, List, [], ◌∷◌, ◌++◌, if◌then◌else◌,
}
use mathlib.Core.List.{reverse}
use csu_dbms.Base.Int.{ℤ, pos, ◌+ℤ◌, leb_ℤ, ltb_ℤ, eq_ℤ, negate}
use csu_dbms.Rc.{Rc, success, record_not_exist, record_invisible, locked_concurrency_conflict}
use csu_dbms.Trx.Store.{Rid, Row, Rows, put}

pub data Mode : Type 0 where
  read_only read_write : Mode

pub data Kind : Type 0 where
  insert delete : Kind

pub record Operation : Type 0 where
  pub kind : Kind
  pub rid : Rid

pub data LogRecord : Type 0 where
  insert_record delete_record : ℤ → Rid → LogRecord
  commit : ℤ → ℤ → LogRecord
  rollback : ℤ → LogRecord

-- A transaction; `operations` is in the order of the calls.
pub record Trx : Type 0 where
  pub trx_id : ℤ
  pub started : Bool
  pub recovering : Bool
  pub operations : List Operation

-- The rows, the log so far (newest first), and the kit's `current_trx_id_`.
pub record Db : Type 0 where
  pub rows : Rows
  pub log : List LogRecord
  pub current_trx_id : ℤ

pub data Outcome {ℓ} (A : Type ℓ) : Type ℓ where
  done : A → Outcome A
  aborted : Outcome A

infixl 5 ◌>>=◌
abbrev pub ◌>>=◌ {ℓ κ} : {A : Type ℓ} {B : Type κ} → Outcome A → (A → Outcome B) → Outcome B
done a >>= f = f a
aborted >>= f = aborted

-- `numeric_limits<int32_t>::max()`
abbrev pub max_trx_id : ℤ
max_trx_id = pos (2 ^ 31 - 1)

unfoldable pub next_trx_id : Db → Db × ℤ
next_trx_id db = let id = db.current_trx_id +ℤ pos 1 in (record db { current_trx_id = id }, id)

unfoldable pub start_if_need : Trx → Db → Outcome (Trx × Db)
start_if_need t db = if t.started then done (t, db) else (elim t.operations [
  | [] ↦ let (db', id) = next_trx_id db in done (record t { trx_id = id; started = true }, db')
  | op ∷ ops ↦ aborted
])

-- `MvccTrx::visit_record`, on the two fields of the record.
unfoldable pub visit_record : ℤ → Row → Mode → Rc
visit_record id row mode =
    if ltb_ℤ (pos 0) row.begin_xid && ltb_ℤ (pos 0) row.end_xid
    then (if leb_ℤ row.begin_xid id && leb_ℤ id row.end_xid then success else record_invisible)
    else (if ltb_ℤ row.begin_xid (pos 0)
        then (if eq_ℤ (negate row.begin_xid) id then success else record_invisible)
        else (if ltb_ℤ row.end_xid (pos 0)
            then (elim mode [
              | read_only ↦ if eq_ℤ (negate row.end_xid) id then record_invisible else success
              | read_write ↦
                  if eq_ℤ (negate row.end_xid) id
                  then record_invisible
                  else locked_concurrency_conflict
            ])
            else success))

abbrev pub push_operation : Trx → Kind → Rid → Trx
push_operation t k r = record t { operations = t.operations ++ record { kind = k; rid = r } ∷ [] }

-- `placed` is the answer of `table->insert_record`: a code, or the place of the new record.
pub data Placed : Type 0 where
  at : Rid → Placed
  failed : Rc → Placed

-- The row that a transaction inserts.
abbrev pub own_row : Trx → List ℕ → Row
own_row t content = record { begin_xid = negate t.trx_id; end_xid = max_trx_id; content = content }

-- The id is positive, which every call of the log handler asserts.
abbrev pub is_valid_id : ℤ → Bool
is_valid_id id = ltb_ℤ (pos 0) id

abbrev pub inserted : Trx → Db → List ℕ → Rid → Rc × Trx × Db
inserted t db content r = (
  success,
  push_operation t insert r,
  record db {
    rows = put db.rows r (some (own_row t content));
    log = insert_record t.trx_id r ∷ db.log;
  },
)

unfoldable pub insert_row : Trx → Db → List ℕ → Placed → Outcome (Rc × Trx × Db)
insert_row t db content (failed rc) = done (rc, t, db)
insert_row t db content (at r) =
    if is_valid_id t.trx_id then done (inserted t db content r) else aborted

abbrev pub deleted : Trx → Db → Rid → Row → Rc × Trx × Db
deleted t db r row = (
  success,
  push_operation t delete r,
  record db {
    rows = put db.rows r (some (record row { end_xid = negate t.trx_id }));
    log = delete_record t.trx_id r ∷ db.log;
  },
)

-- The part of `MvccTrx::delete_record` behind the visit of an existing record.
unfoldable pub delete_visited : Trx → Db → Rid → Row → Rc → Outcome (Rc × Trx × Db)
delete_visited t db r row success =
    if is_valid_id t.trx_id then done (deleted t db r row) else aborted
delete_visited t db r row rc = done (rc, t, db)

unfoldable pub delete_row : Trx → Db → Rid → Outcome (Rc × Trx × Db)
delete_row t db r = elim (db.rows r) [
  | none ↦ done (record_not_exist, t, db)
  | some row ↦ delete_visited t db r row (visit_record t.trx_id row read_write)
]

-- One round of the loop of `commit_with_trx_id`.
unfoldable pub commit_operation : Trx → ℤ → Operation → Rows → Outcome Rows
commit_operation t xid op rows = elim (rows op.rid) [
  | none ↦ aborted
  | some row ↦ elim op.kind [
    | insert ↦
        if eq_ℤ row.begin_xid (negate t.trx_id) && not t.recovering
        then done (put rows op.rid (some (record row { begin_xid = xid })))
        else aborted
    | delete ↦
        if eq_ℤ row.end_xid (negate t.trx_id)
        then done (put rows op.rid (some (record row { end_xid = xid })))
        else aborted
  ]
]

unfoldable pub commit_operations : Trx → ℤ → List Operation → Rows → Outcome Rows
commit_operations t xid [] rows = done rows
commit_operations t xid (op ∷ ops) rows = do
  rows' ← commit_operation t xid op rows
  commit_operations t xid ops rows'

abbrev pub ended : Trx → Trx
ended t = record t { started = false; operations = [] }

-- The part of `commit_with_trx_id` behind the loop; `logged` is what the log handler answers.
abbrev pub finish_commit : Trx → Db → ℤ → Rc → Rows → Outcome (Rc × Trx × Db)
finish_commit t db xid logged rows =
    if t.recovering
    then done (success, ended t, record db { rows = rows })
    else (if is_valid_id t.trx_id && ltb_ℤ t.trx_id xid
        then done (logged, ended t, record db { rows = rows; log = commit t.trx_id xid ∷ db.log })
        else aborted)

unfoldable pub commit_with_trx_id : Trx → Db → ℤ → Rc → Outcome (Rc × Trx × Db)
commit_with_trx_id t db xid logged = do
  rows ← commit_operations t xid t.operations db.rows
  finish_commit t db xid logged rows

unfoldable pub commit_trx : Trx → Db → Rc → Outcome (Rc × Trx × Db)
commit_trx t db logged = let (db', xid) = next_trx_id db in commit_with_trx_id t db' xid logged

-- The indexes of the table of a record: what `delete_entry` of each answers for the record's data.
abbrev pub Indexes : Type 0
Indexes = Rid → List Rc

-- `HeapTableEngine::delete_record` of a record with or without data. Every index reads the data, and its answer is
-- asserted.
unfoldable pub engine_delete : Bool → List Rc → Rid → Rows → Outcome (Rc × Rows)
engine_delete has_data [] r rows = elim (rows r) [
  | none ↦ done (record_not_exist, rows)
  | some row ↦ done (success, put rows r none)
]
engine_delete has_data (success ∷ answers) r rows =
    let rest = engine_delete has_data answers r rows in if has_data then rest else aborted
engine_delete has_data (rc ∷ answers) r rows = aborted

-- The assert behind the call.
unfoldable pub asserted : Rc × Rows → Outcome (Rc × Rows)
asserted (success, rows) = done (success, rows)
asserted (rc, rows) = aborted

-- One round of the loop of `rollback`, in a transaction with this id. `rc` is the variable that one
-- round leaves to the next. Only a recovering transaction reads the record first, and so has its data.
unfoldable pub rollback_insert : Indexes → ℤ → Bool → Rid → Rc → Rows → Outcome (Rc × Rows)
rollback_insert indexes id true r rc rows = elim (rows r) [
  | none ↦ done (record_not_exist, rows)
  | some row ↦
      if eq_ℤ row.begin_xid (negate id)
      then engine_delete true (indexes r) r rows >>= asserted
      else done (success, rows)
]
rollback_insert indexes id false r rc rows = engine_delete false (indexes r) r rows >>= asserted

unfoldable pub rollback_delete : ℤ → Bool → Rid → Rc → Rows → Outcome (Rc × Rows)
rollback_delete id recovering r success rows = elim (rows r) [
  | none ↦ aborted
  | some row ↦
      if eq_ℤ row.end_xid (negate id)
      then done (success, put rows r (some (record row { end_xid = max_trx_id })))
      else (if recovering then done (success, rows) else aborted)
]
rollback_delete id recovering r rc rows = aborted

unfoldable pub rollback_operation : Indexes → ℤ → Bool → Operation → Rc → Rows → Outcome (Rc × Rows)
rollback_operation indexes id recovering op rc rows = elim op.kind [
  | insert ↦ rollback_insert indexes id recovering op.rid rc rows
  | delete ↦ rollback_delete id recovering op.rid rc rows
]

-- The loop over the operations, newest first.
unfoldable pub rollback_operations :
    Indexes → ℤ → Bool → List Operation → Rc → Rows → Outcome (Rc × Rows)
rollback_operations indexes id recovering [] rc rows = done (rc, rows)
rollback_operations indexes id recovering (op ∷ ops) rc rows = do
  (rc', rows') ← rollback_operation indexes id recovering op rc rows
  rollback_operations indexes id recovering ops rc' rows'

-- The part of `rollback` behind the loop; `logged` is what the log handler answers.
abbrev pub finish_rollback : Trx → Db → Rc → Rc × Rows → Outcome (Rc × Trx × Db)
finish_rollback t db logged (rc, rows) =
    if t.recovering
    then done (rc, ended t, record db { rows = rows })
    else (if is_valid_id t.trx_id
        then done (logged, ended t, record db { rows = rows; log = rollback t.trx_id ∷ db.log })
        else aborted)

unfoldable pub rollback_trx : Indexes → Trx → Db → Rc → Outcome (Rc × Trx × Db)
rollback_trx indexes t db logged = do
  undone ← rollback_operations indexes t.trx_id t.recovering (reverse t.operations) success db.rows
  finish_rollback t db logged undone
