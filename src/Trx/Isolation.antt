-- ===== src/Trx/Isolation.antt =====
-- What a transaction sees of the uncommitted work of another one, and of its own.
use csu_dbms.Base.{
  Bool-cases, inl, inr, ℕ, ◌≡◌, refl, true, false, some, List, if◌then◌else◌, arith, sym, ◌∙◌, ap,
}
use csu_dbms.Base.Int.{ℤ, pos, ltb_ℤ, eq_ℤ, negate}
use csu_dbms.Rc.{Rc, success, record_invisible, locked_concurrency_conflict}
use csu_dbms.Trx.Store.{Rid, Row, put_self}
use csu_dbms.Trx.Mvcc.{
  Mode, read_only, read_write, Trx, Db, at, visit_record, insert_row, delete_visited, delete_row,
  done, aborted, Outcome, own_row, inserted, deleted, is_valid_id,
}

abbrev pub IsPositive : ℤ → Type 0
IsPositive a = ltb_ℤ (pos 0) a ≡ true

-- A row that a transaction with a positive id has just inserted is visible to it and to no other id,
-- in either mode.
pub insert_row-visible :
    (t : Trx) (db : Db) (content : List ℕ) (r : Rid) (u : ℤ) (mode : Mode)
    → IsPositive t.trx_id
    → (t' : Trx) × (db' : Db) × (row : Row) × (insert_row t db content (at r)
        ≡ done (success, t', db'))
      × (db'.rows r ≡ some row)
      × (visit_record u row mode ≡ (if eq_ℤ t.trx_id u then success else record_invisible))
unfolding insert_row visit_record
insert_row-visible t db content r u mode p =
    let row = own_row t content in
    (
      (inserted t db content r).1,
      (inserted t db content r).2,
      row,
      rw (insert_row, p) refl,
      put_self db.rows r _,
      ground arith,
    )

-- The mark of a deleter on a committed row.
visit-deleted :
    (row : Row) (id u : ℤ) (mode : Mode)
    → IsPositive id
    → IsPositive row.begin_xid
    → visit_record u (record row { end_xid = negate id }) mode ≡ (
        if eq_ℤ id u
        then record_invisible
        else (elim mode [ read_only ↦ success | read_write ↦ locked_concurrency_conflict ]))
unfolding visit_record
visit-deleted row id u read_only p q = ground arith
visit-deleted row id u read_write p q = ground arith

-- A deletion that succeeds leaves the mark.
delete_visited_success :
    (t t' : Trx) (db db' : Db) (r : Rid) (row : Row) (rc : Rc)
    → delete_visited t db r row rc ≡ done (success, t', db')
    → deleted t db r row ≡ (success, t', db')
unfolding delete_visited
delete_visited_success t t' db db' r row success e = elim (Bool-cases (is_valid_id t.trx_id)) [
  | inl h ↦
      let x : ◌≡◌ {A = Outcome (Rc × Trx × Db)} (done (deleted t db r row))
          (done (success, t', db')) =
        sym (rw h refl) ∙ e in
      cc
  | inr h ↦
      let x : ◌≡◌ {A = Outcome (Rc × Trx × Db)} aborted (done (success, t', db')) =
        sym (rw h refl) ∙ e in
      absurd cc
]
delete_visited_success t t' db db' r row _ e = absurd cc

abbrev pub marked : Trx → Row → Row
marked t row = record row { end_xid = negate t.trx_id }

-- What a deletion comes to where the row is known.
pub delete_row_here :
    (t : Trx) (db : Db) (r : Rid) (row : Row)
    → db.rows r ≡ some row
    → delete_row t db r ≡ delete_visited t db r row (visit_record t.trx_id row read_write)
unfolding delete_row
delete_row_here t db r row e = rw (e, delete_row) refl

pub delete_row_success :
    (t t' : Trx) (db db' : Db) (r : Rid) (row : Row)
    → db.rows r ≡ some row
    → delete_row t db r ≡ done (success, t', db')
    → deleted t db r row ≡ (success, t', db')
delete_row_success t t' db db' r row here e =
    delete_visited_success t t' db db' r row _ (sym (delete_row_here t db r row here) ∙ e)

-- The row that a successful deletion leaves.
marked_row :
    (t t' : Trx) (db db' : Db) (r : Rid) (row : Row)
    → db.rows r ≡ some row
    → delete_row t db r ≡ done (success, t', db')
    → db'.rows r ≡ some (marked t row)
marked_row t t' db db' r row here e =
    sym (ap (λ x. x.2.rows r) (delete_row_success t t' db db' r row here e))
    ∙ put_self db.rows r (some (marked t row))

-- Two writers of one row: once a transaction with a positive id has deleted a row with a positive
-- (committed) begin, a transaction with another id that tries to delete it is told of the conflict and
-- changes nothing.
pub delete_row_exclusive :
    (t t' u : Trx) (db db' : Db) (r : Rid) (row : Row)
    → IsPositive t.trx_id
    → db.rows r ≡ some row
    → IsPositive row.begin_xid
    → delete_row t db r ≡ done (success, t', db')
    → eq_ℤ t.trx_id u.trx_id ≡ false
    → delete_row u db' r ≡ done (locked_concurrency_conflict, u, db')
unfolding delete_visited
delete_row_exclusive t t' u db db' r row p here b e ne =
    let seen : visit_record u.trx_id (marked t row) read_write ≡ locked_concurrency_conflict =
      visit-deleted row t.trx_id u.trx_id read_write p b ∙ rw ne refl in
    delete_row_here u db' r (marked t row) (marked_row t t' db db' r row here e)
    ∙ ap (delete_visited u db' r (marked t row)) seen

-- While the deletion of a row with a positive (committed) begin by a transaction with a positive id is
-- pending, the row is visible to a reader with any other id, also one below the row's begin.
pub pending_delete-visible :
    (t t' u : Trx) (db db' : Db) (r : Rid) (row : Row)
    → IsPositive t.trx_id
    → db.rows r ≡ some row
    → IsPositive row.begin_xid
    → delete_row t db r ≡ done (success, t', db')
    → eq_ℤ t.trx_id u.trx_id ≡ false
    → (row' : Row) × (db'.rows r ≡ some row') × (visit_record u.trx_id row' read_only ≡ success)
pending_delete-visible t t' u db db' r row p here b e ne = (
  marked t row,
  marked_row t t' db db' r row here e,
  visit-deleted row t.trx_id u.trx_id read_only p b ∙ rw ne refl,
)

visit_own :
    (id : ℤ) (row : Row) (mode : Mode)
    → IsPositive id
    → row.begin_xid ≡ negate id
    → visit_record id row mode ≡ success
unfolding visit_record
visit_own id row mode p e = ground arith

-- A transaction with a positive id goes on seeing the row that it inserted and then deleted, in either
-- mode.
pub own_deleted-visible :
    (t : Trx) (db : Db) (content : List ℕ) (r : Rid) (mode : Mode)
    → IsPositive t.trx_id
    → (t' t'' : Trx) × (db' db'' : Db) × (row : Row) × (insert_row t db content (at r)
        ≡ done (success, t', db'))
      × (delete_row t' db' r ≡ done (success, t'', db''))
      × (db''.rows r ≡ some row)
      × (visit_record t.trx_id row mode ≡ success)
unfolding insert_row delete_visited
own_deleted-visible t db content r mode p =
    let (_, t', db') = inserted t db content r in
    let row = own_row t content in
    let here : db'.rows r ≡ some row = put_self db.rows r (some row) in
    let ok : delete_row t' db' r ≡ done (deleted t' db' r row) =
      delete_row_here t' db' r row here
      ∙ ap (delete_visited t' db' r row) (visit_own t.trx_id row read_write p refl)
      ∙ rw p refl in
    (
      t',
      (deleted t' db' r row).1,
      db',
      (deleted t' db' r row).2,
      marked t' row,
      rw p refl,
      ok,
      put_self db'.rows r (some (marked t' row)),
      visit_own t.trx_id (marked t' row) mode p refl,
    )
