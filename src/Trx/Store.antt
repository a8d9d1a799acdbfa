-- ===== src/Trx/Store.antt =====
-- The rows as the transactions see them: the two version fields of a record and the rest of its data.
-- `table->visit_record`, `table->delete_record` and `table->insert_record` act on this map.
use mathlib.Core.Path.{fun_ext}
use csu_dbms.Base.{ℕ, ◌≡◌, ◌≢◌, Option, List, ite, ℕ_discrete, arith, ap}
use csu_dbms.Base.Int.{ℤ}

pub record Rid : Type 0 where
  pub table_id : ℕ
  pub page_num : ℕ
  pub slot_num : ℕ

unfoldable pub rid_dec : Discrete Rid
unfolding ℕ_discrete
rid_dec = hlevel ℕ_discrete

pub record Row : Type 0 where
  pub begin_xid : ℤ
  pub end_xid : ℤ
  pub content : List ℕ

abbrev pub Rows : Type 0
Rows = Rid → Option Row

unfoldable pub put : Rows → Rid → Option Row → Rows
put m r v q = ite (rid_dec q r) v (m q)

pub put_self : (m : Rows) (r : Rid) (v : Option Row) → put m r v r ≡ v
unfolding put
put_self m r v = ground arith

pub put_ne : (m : Rows) (r q : Rid) (v : Option Row) → q ≢ r → put m r v q ≡ m q
unfolding put
put_ne m r q v h = ground arith

-- Putting back what was there.
pub put-put : (m : Rows) (r : Rid) (v w : Option Row) → m r ≡ w → put (put m r v) r w ≡ m
unfolding put
put-put m r v w e =
    fun_ext λ q. elim (rid_dec q r) [ yes p ↦ ground (arith, ap m p) | no np ↦ ground arith ]
