-- ===== src/Clog/Buffer.antt =====
-- LogEntryBuffer of observer/storage/clog/log_buffer.h and log_buffer.cpp, between two holders of its
-- mutex. `waits` is the loop of `append` that sleeps while the buffer counts too many bytes, and
-- `aborted` a failed ASSERT.
pub mod Round
pub mod Order
pub mod Bytes
use csu_dbms.Base.{
  ℕ, ◌+◌, ◌*◌, Bool, true, false, not, ◌&&◌, List, [], ◌∷◌, ◌++◌, if◌then◌else◌, ltb,
}
use csu_dbms.Base.Int.{ℤ, pos, ◌+ℤ◌, ◌-ℤ◌, leb_ℤ}
use csu_dbms.Rc.{Rc, success}
use csu_dbms.Clog.Entry.{LogEntry, empty_entry, init, move, payload_size, total_size, set_lsn}
use csu_dbms.Clog.Writer.{Writer, Disk, write}

pub record Buffer : Type 0 where
  pub entries : List LogEntry
  pub bytes : ℤ
  pub current_lsn : ℕ
  pub flushed_lsn : ℕ
  pub max_bytes : ℕ

-- A buffer behind its constructor and `init(lsn, max_bytes)`.
unfoldable pub create : ℕ → ℕ → Buffer
create lsn max_bytes = record {
  entries = [];
  bytes = pos 0;
  current_lsn = lsn;
  flushed_lsn = lsn;
  max_bytes = if ltb 0 max_bytes then max_bytes else 4 * 1024 * 1024;
}

pub data Appended : Type 0 where
  waits : Appended
  returned : Rc → ℕ → Buffer → Appended

-- The part of `append` under the lock. The size is read from the entry that was moved from.
unfoldable pub push_entry : Buffer → LogEntry → Buffer × ℕ
push_entry s e =
    let lsn = s.current_lsn + 1 in
    let (stored, left) = move (set_lsn e lsn) in
    (
      record s {
        entries = s.entries ++ stored ∷ [];
        bytes = s.bytes +ℤ pos (total_size left);
        current_lsn = lsn;
      },
      lsn,
    )

-- What `append` does with the answer of `init`.
abbrev pub after_init : Rc → Appended → Appended → Appended
after_init success pushed failed = pushed
after_init rc pushed failed = failed

unfoldable pub append : Buffer → ℕ → ℕ → List ℕ → Appended
append s lsn module_id data_bytes =
    let (rc, e) = init (empty_entry module_id) lsn module_id data_bytes in
    let (s', lsn') = push_entry s e in
    if leb_ℤ (pos s.max_bytes) s.bytes
    then waits
    else after_init rc (returned success lsn' s') (returned rc lsn s)

pub record Flush : Type 0 where
  pub rc : Rc
  pub count : ℕ
  pub writer : Writer
  pub buffer : Buffer

pub data Flushed : Type 0 where
  aborted : Flushed
  finished : Flush → Flushed

abbrev pub is_sound : LogEntry → Bool
is_sound e = ltb 0 e.header.lsn && ltb 0 (payload_size e)

-- The entry is taken out before it is written, and put back if the write fails.
abbrev pub pop_front : Buffer → LogEntry → List LogEntry → Buffer
pop_front s e rest = record s { entries = rest; bytes = s.bytes -ℤ pos (total_size e) }

-- What a round does with the answer of `write`.
abbrev pub after_write : Rc → Flushed → Flushed → Flushed
after_write success more back = more
after_write rc more back = back

-- The loop of `flush`, over the entries of the buffer; `disk` says how the writes of an entry go.
unfoldable pub flush_loop : (LogEntry → Disk) → Writer → Buffer → ℕ → List LogEntry → Flushed
flush_loop disk w s count [] =
    finished (record { rc = success; count = count; writer = w; buffer = s })
flush_loop disk w s count (e ∷ rest) =
    let popped = pop_front s e rest in
    let (rc, w') = write w e (disk e) in
    let more = flush_loop disk w' (record popped { flushed_lsn = e.header.lsn }) (count + 1) rest in
    let back = finished (record {
      rc = rc;
      count = count;
      writer = w';
      buffer = record popped { entries = e ∷ rest };
    }) in
    if is_sound e then after_write rc more back else aborted

unfoldable pub flush : (LogEntry → Disk) → Writer → Buffer → Flushed
flush disk w s = flush_loop disk w s 0 s.entries
