-- ===== src/Trx/Commit.antt =====
-- What MvccTrx::commit_with_trx_id of mvcc_trx.cpp makes visible.
use csu_dbms.Base.{
  ℕ, ◌≡◌, refl, ap, ◌∙◌, true, false, ◌&&◌, some, List, [], ◌∷◌, ◌++◌, if◌then◌else◌, arith,
}
use csu_dbms.Base.Int.{ℤ, leb_ℤ, ltb_ℤ, eq_ℤ-refl, negate}
use csu_dbms.Rc.{Rc, success, record_invisible}
use csu_dbms.Trx.Store.{Rid, Row, Rows, put, put_self}
use csu_dbms.Trx.Mvcc.{
  own_row, inserted, ended, commit, ◌>>=◌, Trx, Db, Mode, insert, done, at, max_trx_id, insert_row,
  visit_record, commit_operation, commit_operations, commit_with_trx_id, finish_commit,
}
use csu_dbms.Trx.Isolation.{IsPositive}

commit_insert :
    (t : Trx) (xid : ℤ) (r : Rid) (rows : Rows) (content : List ℕ)
    → t.recovering ≡ false
    → rows r ≡ some (own_row t content)
    → commit_operations t xid (record { kind = insert; rid = r } ∷ []) rows
      ≡ done (put rows r (some (record (own_row t content) { begin_xid = xid })))
unfolding commit_operations commit_operation
commit_insert t xid r rows content f here =
    rw (commit_operation, here, eq_ℤ-refl (negate t.trx_id), f) refl

finish_commit_lem :
    (t : Trx) (db : Db) (xid : ℤ) (logged : Rc) (rows : Rows)
    → t.recovering ≡ false
    → IsPositive t.trx_id
    → ltb_ℤ t.trx_id xid ≡ true
    → (db' : Db) × (finish_commit t db xid logged rows ≡ done (logged, ended t, db'))
      × (db'.rows ≡ rows)
finish_commit_lem t db xid logged rows f p q =
    (record db { rows = rows; log = commit t.trx_id xid ∷ db.log }, rw (f, p, q) refl, refl)

above-IsPositive : (id xid : ℤ) → IsPositive id → ltb_ℤ id xid ≡ true → IsPositive xid
above-IsPositive id xid p q = ground arith

-- A transaction with a positive id that is not recovering and inserts a row as its only operation commits, with a
-- commit id above its own, without an aborted assert; then the row is visible, in either mode, to exactly the ids
-- from the commit id up to the largest one.
pub commit-visible :
    (t : Trx) (db : Db) (content : List ℕ) (r : Rid) (xid u : ℤ) (mode : Mode) (logged : Rc)
    → IsPositive t.trx_id
    → t.operations ≡ []
    → t.recovering ≡ false
    → ltb_ℤ t.trx_id xid ≡ true
    → (t' t'' : Trx) × (db' db'' : Db) × (row : Row) × (insert_row t db content (at r)
        ≡ done (success, t', db'))
      × (commit_with_trx_id t' db' xid logged ≡ done (logged, t'', db''))
      × (db''.rows r ≡ some row)
      × (visit_record u row mode
          ≡ (if leb_ℤ xid u && leb_ℤ u max_trx_id then success else record_invisible))
unfolding insert_row commit_with_trx_id visit_record
commit-visible t db content r xid u mode logged valid e f above =
    let p = above-IsPositive t.trx_id xid valid above in
    let (_, t', db') = inserted t db content r in
    let row : Row = record (own_row t content) { begin_xid = xid } in
    let only : t'.operations ≡ record { kind = insert; rid = r } ∷ [] =
      ap (λ ops. ops ++ record { kind = insert; rid = r } ∷ []) e in
    let ran : commit_operations t' xid t'.operations db'.rows ≡ done (put db'.rows r (some row)) =
      ap (λ ops. commit_operations t' xid ops db'.rows) only
      ∙ commit_insert t' xid r db'.rows content f (put_self db.rows r _) in
    let (db'', finished, same) =
      finish_commit_lem t' db' xid logged (put db'.rows r (some row)) f valid above in
    (
      t',
      ended t',
      db',
      db'',
      row,
      rw valid refl,
      ap (λ x. x >>= finish_commit t' db' xid logged) ran ∙ finished,
      ap (λ x. x r) same ∙ put_self db'.rows r (some row),
      ground arith,
    )
