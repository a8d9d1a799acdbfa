-- ===== src/Clog/Entry.antt =====
-- LogHeader and LogEntry of observer/storage/clog/log_entry.h and log_entry.cpp. A move leaves the
-- source object with an empty payload and a zero header, so a moved-from entry is a value too.
use csu_dbms.Base.{ℕ, ◌+◌, ◌-◌, ◌*◌, List, [], length, ltb, if◌then◌else◌}
use csu_dbms.Rc.{Rc, success, invalid_argument}

pub record Header : Type 0 where
  pub lsn : ℕ
  pub size : ℕ
  pub module_id : ℕ

pub record LogEntry : Type 0 where
  pub header : Header
  pub bytes : List ℕ

-- `sizeof(LogHeader)`: an int64 and two int32.
abbrev pub header_size : ℕ
header_size = 16

abbrev pub max_size : ℕ
max_size = 4 * 1024 * 1024

abbrev pub max_payload_size : ℕ
max_payload_size = max_size - header_size

-- The default constructor; the module is not set there.
unfoldable pub empty_entry : ℕ → LogEntry
empty_entry module_id = record {
  header = record { lsn = 0; size = 0; module_id = module_id };
  bytes = [];
}

-- The move constructor and the move assignment: the new object, and what is left of the old one.
unfoldable pub move : LogEntry → LogEntry × LogEntry
move e = (
  e,
  record { header = record { lsn = 0; size = 0; module_id = e.header.module_id }; bytes = [] },
)

unfoldable pub init : LogEntry → ℕ → ℕ → List ℕ → Rc × LogEntry
init e lsn module_id data_bytes =
    if ltb max_payload_size (length data_bytes) then (invalid_argument, e) else (
      success,
      record {
        header = record { lsn = lsn; size = length data_bytes; module_id = module_id };
        bytes = data_bytes;
      },
    )

abbrev pub payload_size : LogEntry → ℕ
payload_size e = e.header.size

abbrev pub total_size : LogEntry → ℕ
total_size e = header_size + e.header.size

abbrev pub set_lsn : LogEntry → ℕ → LogEntry
set_lsn e lsn = record e { header = record e.header { lsn = lsn } }
