-- ===== src/Trx/Tests.antt =====
-- Small transactions, and the theorems at them.
use csu_dbms.Base.{ℕ, ◌≡◌, refl, true, false, none, some, [], ◌∷◌}
use csu_dbms.Base.Int.{ℤ, pos, ◌+ℤ◌}
use csu_dbms.Rc.{success, record_invisible, locked_concurrency_conflict}
use csu_dbms.Trx.Store.{Rid, Row, put, rid_dec}
use csu_dbms.Trx.Mvcc
use csu_dbms.Trx.Mvcc.{
  Trx, Db, at, insert_row, delete_row, visit_record, rollback_trx, done, aborted, inserted, deleted,
  Mode,
}
use csu_dbms.Trx.Isolation
use csu_dbms.Trx.Rollback
use csu_dbms.Trx.Commit

program : Unit {0}
unfolding put rid_dec insert_row delete_row visit_record Mvcc.delete_visited rollback_trx
    Mvcc.rollback_operations Mvcc.rollback_operation Mvcc.rollback_insert Mvcc.engine_delete
    Mvcc.asserted Mvcc.rollback_delete Mvcc.commit_trx Mvcc.commit_with_trx_id
    Mvcc.commit_operations Mvcc.commit_operation Mvcc.next_trx_id ◌+ℤ◌
program = tt

abbrev place : ℕ → Rid
place n = record { table_id = 1; page_num = 1; slot_num = n }

-- A row that transaction 1 committed.
abbrev old_row : Row
old_row = record { begin_xid = pos 1; end_xid = Mvcc.max_trx_id; content = 7 ∷ [] }

abbrev db : Db
db = record { rows = put (λ r. none) (place 0) (some old_row); log = []; current_trx_id = pos 3 }

abbrev trx : ℤ → Trx
trx id = record { trx_id = id; started = true; recovering = false; operations = [] }

-- An insertion and a deletion by transaction 2.
abbrev after_insert : Trx × Db
after_insert = let (_, t', db') = inserted (trx (pos 2)) db (8 ∷ []) (place 1) in (t', db')

abbrev after_both : Trx × Db
after_both = let (_, t', db') = deleted after_insert.0 after_insert.1 (place 0) old_row in (t', db')

works : Rollback.Works (trx (pos 2)) db after_both.0 after_both.1
unfolding program
works =
    Rollback.deletes {t = after_insert.0} {db = after_insert.1} (place 0) old_row success
      (Rollback.inserts {t = trx (pos 2)} {db = db} (8 ∷ []) (place 1) success Rollback.start refl
        refl)
      refl refl refl

rollback_undoes_example :
    (t' : Trx) × (db' : Db) × (rollback_trx (λ r. []) after_both.0 after_both.1 success
      ≡ done (success, t', db'))
    × (db'.rows ≡ db.rows)
    × (t'.operations ≡ [])
    × (t'.started ≡ false)
rollback_undoes_example =
    Rollback.rollback_undoes (λ r. []) (trx (pos 2)) _ db _ success (λ r. refl) refl refl refl works

deleted_once :
    delete_row (trx (pos 2)) db (place 0) ≡ done (deleted (trx (pos 2)) db (place 0) old_row)
unfolding program
deleted_once = refl

row_there : db.rows (place 0) ≡ some old_row
unfolding program
row_there = refl

delete_row_exclusive_example :
    (let (_, t', db') = deleted (trx (pos 2)) db (place 0) old_row in
      delete_row (trx (pos 3)) db' (place 0) ≡ done (locked_concurrency_conflict, trx (pos 3), db'))
delete_row_exclusive_example =
    Isolation.delete_row_exclusive (trx (pos 2)) _ (trx (pos 3)) db _ (place 0) old_row refl
      row_there refl deleted_once refl

-- A row of transaction 9, which transaction 10 deletes and transaction 5 reads.
abbrev young_row : Row
young_row = record { begin_xid = pos 9; end_xid = Mvcc.max_trx_id; content = 7 ∷ [] }

abbrev young_db : Db
young_db = record db { rows = put (λ r. none) (place 0) (some young_row) }

young_row_hidden : visit_record (pos 5) young_row Mvcc.read_only ≡ record_invisible
unfolding program
young_row_hidden = refl

young_row_there : young_db.rows (place 0) ≡ some young_row
unfolding program
young_row_there = refl

young_row-deleted :
    delete_row (trx (pos 10)) young_db (place 0)
    ≡ done (deleted (trx (pos 10)) young_db (place 0) young_row)
unfolding program
young_row-deleted = refl

-- A row that transaction 7 deleted while transaction 5 was running.
abbrev ended_row : Row
ended_row = record { begin_xid = pos 1; end_xid = pos 7; content = 7 ∷ [] }

abbrev ended_db : Db
ended_db = record db { rows = put (λ r. none) (place 0) (some ended_row) }

ended_row_there : ended_db.rows (place 0) ≡ some ended_row
unfolding program
ended_row_there = refl

ended_row-deleted :
    delete_row (trx (pos 5)) ended_db (place 0)
    ≡ done (deleted (trx (pos 5)) ended_db (place 0) ended_row)
unfolding program
ended_row-deleted = refl

commit-visible_example :
    (t' t'' : Trx) × (db' db'' : Db) × (row : Row) × (insert_row
        (trx (pos 2))
        db
        (8 ∷ [])
        (at (place 1))
      ≡ done (success, t', db'))
    × (Mvcc.commit_with_trx_id t' db' (pos 4) success ≡ done (success, t'', db''))
    × (db''.rows (place 1) ≡ some row)
    × (visit_record (pos 3) row Mvcc.read_only ≡ record_invisible)
commit-visible_example =
    Commit.commit-visible (trx (pos 2)) db (8 ∷ []) (place 1) (pos 4) (pos 3) Mvcc.read_only success
      refl refl refl refl

-- A commit id below the transaction's id ends the process.
commit_below : Mvcc.commit_with_trx_id (trx (pos 10)) db (pos 4) success ≡ aborted
unfolding program
commit_below = refl
