-- ===== src/Trx/Anomalies.antt =====
-- Inputs on which the transactions and their recovery do not do what the comments of mvcc_trx.cpp and
-- mvcc_trx_log.cpp promise.
use mathlib.Core.List.{reverse}
use csu_dbms.Base.{ℕ, ◌∙◌, ◌≡◌, refl, Bool, false, some, List, [], ◌∷◌, ◌++◌, ap, sym, subst}
use csu_dbms.Base.Int.{ℤ, eq_ℤ-refl, negate}
use csu_dbms.Rc.{Rc, success}
use csu_dbms.Trx.Store.{Rid, Row, Rows, put, put_self}
use csu_dbms.Trx.Mvcc.{
  ◌>>=◌, Indexes, deleted, ended, Trx, Db, Operation, delete, max_trx_id, delete_row, done,
  rollback_delete, rollback_operation, rollback_operations, rollback_trx, finish_rollback,
}
use csu_dbms.Trx.Isolation.{IsPositive, marked, delete_row_success}
use csu_dbms.Trx.Rollback.{finish_rollback_lem}
use csu_dbms.Trx.Replay.{
  Entry, too_short, record_entry, commit_entry, rollback_entry, Replayer, find, erase, change,
  create_trx, redo_in, continue, replay, replay_all, roll_back_all, on_done, create,
}

abbrev unended : Row → Row
unended row = record row { end_xid = max_trx_id }

rollback_delete-marked :
    (t : Trx) (b : Bool) (rows : Rows) (r : Rid) (row : Row)
    → rollback_delete t.trx_id b r success (put rows r (some (marked t row)))
      ≡ done (success, put (put rows r (some (marked t row))) r (some (unended row)))
unfolding rollback_delete
rollback_delete-marked t b rows r row =
    rw (put_self rows r (some (marked t row)), rollback_delete, eq_ℤ-refl (negate t.trx_id)) refl

rollback_one :
    (indexes : Indexes) (t : Trx) (rows : Rows) (r : Rid) (row : Row) (ops : List Operation)
    → ops ≡ []
    → rollback_operations indexes t.trx_id t.recovering
        (reverse (ops ++ record { kind = delete; rid = r } ∷ []))
        success
        (put rows r (some (marked t row)))
      ≡ done (success, put (put rows r (some (marked t row))) r (some (unended row)))
unfolding rollback_operations rollback_operation
rollback_one indexes t rows r row ops e =
    rw (e, rollback_delete-marked t t.recovering rows r row) refl

-- A transaction with a positive id that is not recovering, deletes a row as its first operation and rolls back leaves the
-- row with the largest end, whatever end it had before: if a deletion by another transaction was
-- committed there, it is lost.
pub rollback_resurrects :
    (indexes : Indexes) (t t' : Trx) (db db' : Db) (r : Rid) (row : Row) (logged : Rc)
    → IsPositive t.trx_id
    → t.operations ≡ []
    → t.recovering ≡ false
    → db.rows r ≡ some row
    → delete_row t db r ≡ done (success, t', db')
    → (t'' : Trx) × (db'' : Db) × (rollback_trx indexes t' db' logged ≡ done (logged, t'', db''))
      × (db''.rows r ≡ some (unended row))
unfolding rollback_trx
rollback_resurrects indexes t t' db db' r row logged p e f here ok =
    let (_, marked_t, marked_db) = deleted t db r row in
    let (db'', finished, same) =
      finish_rollback_lem marked_t marked_db logged (put marked_db.rows r (some (unended row))) f
        p in
    let left = delete_row_success t t' db db' r row here ok in
    (
      ended marked_t,
      db'',
      ap (λ x. rollback_trx indexes x.1 x.2 logged) (sym left)
          ∙ ap (λ x. x >>= finish_rollback marked_t marked_db logged)
              (rollback_one indexes t db.rows r row t.operations e)
          ∙ finished,
      ap (λ x. x r) same ∙ put_self marked_db.rows r (some (unended row)),
    )

-- Why no transaction is ever found: the map is written nowhere but where it is erased.
no_map-redo :
    (has_table : ℕ → Bool) (s : Replayer) (id : ℤ) (e : Entry)
    → s.trx_map ≡ []
    → (redo_in has_table s id e).1.trx_map ≡ []
unfolding create_trx find change
no_map-redo has_table s id e h =
    subst (λ x. (redo_in has_table x id e).1.trx_map ≡ []) (λ i. record s { trx_map = sym h i })
      refl

no_map-replay :
    (has_table : ℕ → Bool) (s : Replayer) (e : Entry)
    → s.trx_map ≡ []
    → (replay has_table s e).1.trx_map ≡ []
unfolding replay erase
no_map-replay has_table s too_short h = h
no_map-replay has_table s (record_entry kind id r) h =
    no_map-redo has_table s id (record_entry kind id r) h
no_map-replay has_table s (commit_entry id xid) h =
    ap (erase id) (no_map-redo has_table s id (commit_entry id xid) h)
no_map-replay has_table s (rollback_entry id) h =
    ap (erase id) (no_map-redo has_table s id (rollback_entry id) h)

no_map-replay_all :
    (has_table : ℕ → Bool) (s : Replayer) (es : List Entry)
    → s.trx_map ≡ []
    → (replay_all has_table s es).trx_map ≡ []
unfolding replay_all
no_map-replay_all has_table s [] h = h
no_map-replay_all has_table s (e ∷ es) h =
    pick (replay has_table s e).0 _ _ (no_map-replay has_table s e h)
      (no_map-replay_all has_table (replay has_table s e).1 es (no_map-replay has_table s e h))
  where
    pick :
        (rc : Rc) (a b : Replayer)
        → a.trx_map ≡ []
        → b.trx_map ≡ []
        → (continue rc b a).trx_map ≡ []
    pick success a b p q = q
    pick _ a b p q = p

-- Whatever the log holds, the end of the replay rolls back no transaction: every row keeps the marks
-- of the transactions that neither committed nor rolled back before the crash.
pub on_done_keeps :
    (indexes : Indexes) (has_table : ℕ → Bool) (es : List Entry) (rows : Rows)
    → (s : Replayer) × (on_done indexes (replay_all has_table create es) rows ≡ done (s, rows))
unfolding on_done roll_back_all
on_done_keeps indexes has_table es rows =
    let s = replay_all has_table create es in
    (
      record s { trx_map = [] },
      simp (no_map-replay_all has_table create es (unfold create in refl)),
    )
