-- ===== src/Trx/Replay.antt =====
-- MvccTrx::redo and find_table of mvcc_trx.cpp, MvccTrxKit::create_trx and destroy_trx, and
-- MvccTrxLogReplayer of mvcc_trx_log.cpp. The payload of an entry stands decoded.
use csu_dbms.Base.{ℕ, Bool, true, Option, none, some, List, [], ◌∷◌, if◌then◌else◌}
use csu_dbms.Base.Int.{ℤ, pos, ltb_ℤ, eq_ℤ}
use csu_dbms.Rc.{Rc, success, schema_table_not_exist, log_entry_invalid}
use csu_dbms.Trx.Store.{Rid, Rows}
use csu_dbms.Trx.Mvcc.{
  Indexes, Trx, Kind, push_operation, Outcome, done, ◌>>=◌, rollback_operations,
}
use mathlib.Core.List.{reverse}

-- A log entry of the transaction module; `too_short` has a payload smaller than its header.
pub data Entry : Type 0 where
  too_short : Entry
  record_entry : Kind → ℤ → Rid → Entry
  commit_entry : ℤ → ℤ → Entry
  rollback_entry : ℤ → Entry

-- `trx_map_`, and the counter of the kit. (The kit's list `trxes_` is not read in a replay.)
pub record Replayer : Type 0 where
  pub trx_map : List (ℤ × Trx)
  pub current_trx_id : ℤ

unfoldable pub find : ℤ → List (ℤ × Trx) → Option Trx
find id [] = none
find id ((k, t) ∷ m) = if eq_ℤ k id then some t else find id m

unfoldable pub erase : ℤ → List (ℤ × Trx) → List (ℤ × Trx)
erase id [] = []
erase id ((k, t) ∷ m) = if eq_ℤ k id then m else (k, t) ∷ erase id m

-- The map shares its transactions with the code that changes them.
unfoldable pub change : ℤ → Trx → List (ℤ × Trx) → List (ℤ × Trx)
change id t [] = []
change id t ((k, u) ∷ m) = if eq_ℤ k id then (k, t) ∷ m else (k, u) ∷ change id t m

-- `MvccTrxKit::create_trx(log_handler, trx_id)`
unfoldable pub create_trx : Replayer → ℤ → Replayer × Trx
create_trx s id =
    let t : Trx = record { trx_id = id; started = true; recovering = true; operations = [] } in
    (record s { current_trx_id = if ltb_ℤ s.current_trx_id id then id else s.current_trx_id }, t)

-- `MvccTrx::redo`; `has_table` is what `db->find_table` knows.
unfoldable pub redo : (ℕ → Bool) → Trx → Entry → Rc × Trx
redo has_table t too_short = (log_entry_invalid, t)
redo has_table t (record_entry kind id r) =
    if has_table r.table_id then (success, push_operation t kind r) else (schema_table_not_exist, t)
redo has_table t (commit_entry id xid) = (success, t)
redo has_table t (rollback_entry id) = (success, t)

abbrev pub find_or_create : Replayer → ℤ → Replayer × Trx
find_or_create s id = elim (find id s.trx_map) [ none ↦ create_trx s id | some t ↦ (s, t) ]

abbrev pub redo_in : (ℕ → Bool) → Replayer → ℤ → Entry → Rc × Replayer
redo_in has_table s id e =
    let (s', t) = find_or_create s id in
    let (rc, t') = redo has_table t e in (rc, record s' { trx_map = change id t' s'.trx_map })

abbrev pub forget : ℤ → Rc × Replayer → Rc × Replayer
forget id (rc, s) = (rc, record s { trx_map = erase id s.trx_map })

-- `forget` is the end of a transaction: `destroy_trx` and the erasure from the map.
unfoldable pub replay : (ℕ → Bool) → Replayer → Entry → Rc × Replayer
replay has_table s too_short = (log_entry_invalid, s)
replay has_table s (record_entry kind id r) = redo_in has_table s id (record_entry kind id r)
replay has_table s (commit_entry id xid) = forget id (redo_in has_table s id (commit_entry id xid))
replay has_table s (rollback_entry id) = forget id (redo_in has_table s id (rollback_entry id))

-- The replay stops at the first entry that fails.
abbrev pub continue : Rc → Replayer → Replayer → Replayer
continue success rest stopped = rest
continue rc rest stopped = stopped

-- The entries of the log in their order.
unfoldable pub replay_all : (ℕ → Bool) → Replayer → List Entry → Replayer
replay_all has_table s [] = s
replay_all has_table s (e ∷ es) =
    let (rc, s') = replay has_table s e in continue rc (replay_all has_table s' es) s'

-- The loop of `on_done`.
unfoldable pub roll_back_all : Indexes → List (ℤ × Trx) → Rows → Outcome Rows
roll_back_all indexes [] rows = done rows
roll_back_all indexes ((id, t) ∷ m) rows = do
  undone ← rollback_operations indexes t.trx_id t.recovering (reverse t.operations) success rows
  roll_back_all indexes m undone.1

unfoldable pub on_done : Indexes → Replayer → Rows → Outcome (Replayer × Rows)
on_done indexes s rows = do
  rows' ← roll_back_all indexes s.trx_map rows
  done (record s { trx_map = [] }, rows')

unfoldable pub create : Replayer
create = record { trx_map = []; current_trx_id = pos 0 }
