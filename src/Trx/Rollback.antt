-- ===== src/Trx/Rollback.antt =====
-- Rolling a transaction back.
use mathlib.Core.List.{reverse, reverse-append}
use csu_dbms.Base.{
  Bool-cases, inl, inr, subst, ◌≡◌, refl, sym, false, Bool, none, some, List, [], ◌∷◌, ◌++◌, ap,
  ◌∙◌, ℕ,
}
use csu_dbms.Base.Int.{ℤ, eq_ℤ-refl, negate}
use csu_dbms.Rc.{Rc, success}
use csu_dbms.Trx.Store.{Rid, Row, Rows, put, put_self, put-put}
use csu_dbms.Trx.Mvcc.{
  ◌>>=◌, rollback, Trx, Db, Operation, at, max_trx_id, insert_row, delete_visited, delete_row, done,
  aborted, Outcome, Indexes, rollback_insert, rollback_delete, rollback_operation,
  rollback_operations, rollback_trx, finish_rollback, engine_delete, asserted, inserted, deleted,
  own_row, is_valid_id, ended,
}
use csu_dbms.Trx.Isolation.{IsPositive, delete_row_here}

-- The work of one transaction from a state on: insertions at free places, deletions of rows that
-- nobody has deleted, and calls that failed.
pub data Works (t₀ : Trx) (db₀ : Db) : Trx → Db → Type 0 where
  start : Works t₀ db₀ t₀ db₀
  inserts :
      {t t' : Trx} {db db' : Db} (content : List ℕ) (r : Rid) (rc : Rc)
      → Works t₀ db₀ t db
      → db.rows r ≡ none
      → insert_row t db content (at r) ≡ done (rc, t', db')
      → Works t₀ db₀ t' db'
  deletes :
      {t t' : Trx} {db db' : Db} (r : Rid) (row : Row) (rc : Rc)
      → Works t₀ db₀ t db
      → db.rows r ≡ some row
      → row.end_xid ≡ max_trx_id
      → delete_row t db r ≡ done (rc, t', db')
      → Works t₀ db₀ t' db'

pub finish_rollback_lem :
    (t : Trx) (db : Db) (logged : Rc) (rows : Rows)
    → t.recovering ≡ false
    → IsPositive t.trx_id
    → (db' : Db) × (finish_rollback t db logged (success, rows) ≡ done (logged, ended t, db'))
      × (db'.rows ≡ rows)
finish_rollback_lem t db logged rows f p =
    (record db { rows = rows; log = rollback t.trx_id ∷ db.log }, rw (f, p) refl, refl)

module _ (indexes : Indexes) where
  -- Undoing the newest operation first.
  undo : Trx → Rows → Outcome (Rc × Rows)
  undo t rows =
      rollback_operations indexes t.trx_id t.recovering (reverse t.operations) success rows

  rollback_operations-snoc :
      (id : ℤ) (b : Bool) (ops : List Operation) (op : Operation) (rows rows' : Rows)
      → rollback_operation indexes id b op success rows ≡ done (success, rows')
      → rollback_operations indexes id b (reverse (ops ++ op ∷ [])) success rows
        ≡ rollback_operations indexes id b (reverse ops) success rows'
  rollback_operations-snoc id b ops op rows rows' e =
      rw (reverse-append ops (op ∷ [])) (unfold rollback_operations in rw e refl)

  rollback_insert_lem :
      (id : ℤ) (rows : Rows) (r : Rid) (row : Row)
      → indexes r ≡ []
      → rows r ≡ none
      → rollback_insert indexes id false r success (put rows r (some row)) ≡ done (success, rows)
  unfolding rollback_insert engine_delete asserted
  rollback_insert_lem id rows r row plain e =
      rw (plain, engine_delete, put_self rows r (some row))
        (ap (λ m. done (success, m)) (put-put rows r (some row) none e))

  rollback_delete_lem :
      (id : ℤ) (rows : Rows) (r : Rid) (row : Row)
      → rows r ≡ some row
      → row.end_xid ≡ max_trx_id
      → rollback_delete id false r success (put rows r (some (record row { end_xid = negate id })))
        ≡ done (success, rows)
  unfolding rollback_delete
  rollback_delete_lem id rows r row here e =
      let mark : Row = record row { end_xid = negate id } in
      rw (put_self rows r (some mark), rollback_delete, eq_ℤ-refl (negate id))
        (ap (λ m. done (success, m))
          (put-put rows r (some mark) _ (here ∙ ap (λ x. some (record row { end_xid = x })) e)))

  -- A step of the work keeps the transaction's id and what undoing it comes to.
  record Keeps (t t' : Trx) (db db' : Db) : Type 0 where
    same_id : t'.trx_id ≡ t.trx_id
    same_mode : t'.recovering ≡ t.recovering
    same_end : undo t' db'.rows ≡ undo t db.rows

  Keeps-refl : (t : Trx) (db : Db) → Keeps t t db db
  Keeps-refl t db = record { same_id = refl; same_mode = refl; same_end = refl }

  Keeps-trans :
      {t u v : Trx} {db db' db'' : Db} → Keeps t u db db' → Keeps u v db' db'' → Keeps t v db db''
  Keeps-trans h k = record {
    same_id = k.same_id ∙ h.same_id;
    same_mode = k.same_mode ∙ h.same_mode;
    same_end = k.same_end ∙ h.same_end;
  }

  module _ (t : Trx) (db : Db) (r : Rid) (ordinary : t.recovering ≡ false) where
    Keeps-inserted :
        (content : List ℕ)
        → indexes r ≡ []
        → db.rows r ≡ none
        → (let (_, t', db') = inserted t db content r in Keeps t t' db db')
    unfolding undo rollback_operation
    Keeps-inserted content plain e = record {
      same_id = refl;
      same_mode = refl;
      same_end =
          let row = own_row t content in
          rollback_operations-snoc t.trx_id t.recovering t.operations _ _ _ (
            ap (λ b. rollback_insert indexes t.trx_id b r success (put db.rows r (some row)))
              ordinary
            ∙ rollback_insert_lem t.trx_id db.rows r row plain e);
    }

    Keeps-deleted :
        (row : Row)
        → db.rows r ≡ some row
        → row.end_xid ≡ max_trx_id
        → (let (_, t', db') = deleted t db r row in Keeps t t' db db')
    unfolding undo rollback_operation
    Keeps-deleted row here e = record {
      same_id = refl;
      same_mode = refl;
      same_end = rollback_operations-snoc t.trx_id t.recovering t.operations _ _ _ (
          ap
            (λ b.
              rollback_delete t.trx_id b r success
                (put db.rows r (some (record row { end_xid = negate t.trx_id }))))
            ordinary
          ∙ rollback_delete_lem t.trx_id db.rows r row here e);
    }

    Keeps-ends :
        {t' u : Trx} {db' db'' : Db} {rc rc' : Rc}
        → ◌≡◌ {A = Outcome (Rc × Trx × Db)} (done (rc', u, db'')) (done (rc, t', db'))
        → Keeps t u db db''
        → Keeps t t' db db'
    Keeps-ends {t'} {u} {db'} {db''} e k =
        let same : u ≡ t' = cc in
        let same_db : db'' ≡ db' = cc in
        subst {A = Trx × Db} (λ x. Keeps t x.0 db x.1) (λ i. (same i, same_db i)) k

    Keeps-insert_row :
        {t' : Trx} {db' : Db} {rc : Rc} (content : List ℕ)
        → indexes r ≡ []
        → db.rows r ≡ none
        → insert_row t db content (at r) ≡ done (rc, t', db')
        → Keeps t t' db db'
    unfolding insert_row
    Keeps-insert_row content plain e h = elim (Bool-cases (is_valid_id t.trx_id)) [
      | inl v ↦ Keeps-ends {rc' = success} (sym (rw v refl) ∙ h) (Keeps-inserted content plain e)
      | inr v ↦
          let x : ◌≡◌ {A = Outcome (Rc × Trx × Db)} aborted _ = sym (rw v refl) ∙ h in absurd cc
    ]

    Keeps-delete_visited :
        {t' : Trx} {db' : Db} {rc : Rc} (row : Row) (seen : Rc)
        → db.rows r ≡ some row
        → row.end_xid ≡ max_trx_id
        → delete_visited t db r row seen ≡ done (rc, t', db')
        → Keeps t t' db db'
    unfolding delete_visited
    Keeps-delete_visited row success here e h = elim (Bool-cases (is_valid_id t.trx_id)) [
      | inl v ↦ Keeps-ends {rc' = success} (sym (rw v refl) ∙ h) (Keeps-deleted row here e)
      | inr v ↦
          let x : ◌≡◌ {A = Outcome (Rc × Trx × Db)} aborted _ = sym (rw v refl) ∙ h in absurd cc
    ]
    Keeps-delete_visited row _ here e h = Keeps-ends h (Keeps-refl t db)

  Works-Keeps :
      {t₀ : Trx} {db₀ : Db} {t : Trx} {db : Db}
      → ((r : Rid) → indexes r ≡ [])
      → t₀.recovering ≡ false
      → Works t₀ db₀ t db
      → Keeps t₀ t db₀ db
  Works-Keeps {t₀} {db₀} plain f start = Keeps-refl t₀ db₀
  Works-Keeps plain f (inserts {t = t} {db = db} content r rc w e h) =
      let k = Works-Keeps plain f w in
      Keeps-trans k (Keeps-insert_row t db r (k.same_mode ∙ f) content (plain r) e h)
  Works-Keeps plain f (deletes {t = t} {db = db} r row rc w here e h) =
      let k = Works-Keeps plain f w in
      Keeps-trans k (
        Keeps-delete_visited t db r (k.same_mode ∙ f) row _ here e
          (sym (delete_row_here t db r row here) ∙ h))

  -- Where no table has an index, rolling back a transaction with a positive id that is not recovering never aborts,
  -- and puts every row back as it was at the transaction's start, however many insertions at free places and
  -- deletions of rows that nobody had deleted it made; the transaction ends without operations.
  pub rollback_undoes :
      (t₀ t : Trx) (db₀ db : Db) (logged : Rc)
      → ((r : Rid) → indexes r ≡ [])
      → IsPositive t₀.trx_id
      → t₀.operations ≡ []
      → t₀.recovering ≡ false
      → Works t₀ db₀ t db
      → (t' : Trx) × (db' : Db) × (rollback_trx indexes t db logged ≡ done (logged, t', db'))
        × (db'.rows ≡ db₀.rows)
        × (t'.operations ≡ [])
        × (t'.started ≡ false)
  unfolding rollback_trx undo rollback_operations
  rollback_undoes t₀ t db₀ db logged plain p e f w =
      let k = Works-Keeps plain f w in
      let undone : undo t db.rows ≡ done (success, db₀.rows) =
        k.same_end
        ∙ ap
            (λ ops.
              rollback_operations indexes t₀.trx_id t₀.recovering (reverse ops) success db₀.rows)
            e in
      let (db', finished, back) =
        finish_rollback_lem t db logged db₀.rows (k.same_mode ∙ f) (ap is_valid_id k.same_id ∙ p) in
      (
        ended t,
        db',
        ap (λ x. x >>= finish_rollback t db logged) undone ∙ finished,
        back,
        refl,
        refl,
      )
