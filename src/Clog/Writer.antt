-- ===== src/Clog/Writer.antt =====
-- LogFileWriter of observer/storage/clog/log_file.cpp, and `writen` of common/io/io.cpp. The file is the list of what
-- was written to it: entries, and the pieces of entries that failed writes leave.
use csu_dbms.Base.Int.{ℤ, pos, negsuc, ltb_ℤ, leb_ℤ}
use csu_dbms.Base.{
  ◌+◌, ◌-◌, ◌%◌, ◌^◌, true, ℕ, Bool, false, not, List, [], ◌∷◌, ◌++◌, ltb, leb, if◌then◌else◌,
}
use csu_dbms.Rc.{
  Rc, success, file_open, log_file_full, file_not_opened, invalid_argument, ioerr_write,
}
use csu_dbms.Clog.Entry.{LogEntry, Header, header_size, payload_size}

-- What a file holds: whole entries, the first bytes of a header, and a header with the first bytes of a payload.
pub data Written : Type 0 where
  entry : LogEntry → Written
  torn_header : Header → ℕ → Written
  torn_payload : LogEntry → ℕ → Written

pub record Writer : Type 0 where
  pub is_open : Bool
  pub last_lsn : ℕ
  pub end_lsn : ℤ
  pub file : List Written

unfoldable pub close : Writer → Writer
close w = record w { is_open = false }

-- A number as an `int` keeps it.
unfoldable pub as_int : ℕ → ℤ
as_int n =
    let word = n % 2 ^ 32 in if ltb word (2 ^ 31) then pos word else negsuc (2 ^ 32 - word - 1)

-- `opened` is whether the operating system opens the file, `content` what it holds by then.
unfoldable pub open_file : Bool → List Written → ℕ → Writer → Rc × Writer
open_file opened content end_lsn w =
    if w.is_open
    then (file_open, w)
    else (if opened
        then (success, record w { is_open = true; end_lsn = as_int end_lsn; file = content })
        else (file_open, record w { end_lsn = as_int end_lsn }))

-- How many bytes of a buffer `writen` gets out: the list has the answers of the system's writes, one after the other,
-- until one fails for good. The call succeeds when all bytes are out.
unfoldable pub writen : List ℕ → ℕ → ℕ
writen [] size = 0
writen (ret ∷ rets) size =
    let rest = writen rets (size - ret) in if leb size ret then size else ret + rest

-- The answers that the two calls of `writen` meet, for the header and for the payload.
pub record Disk : Type 0 where
  pub header_writes : List ℕ
  pub payload_writes : List ℕ

unfoldable pub write : Writer → LogEntry → Disk → Rc × Writer
write w e disk =
    let header_out = writen disk.header_writes header_size in
    let payload_out = writen disk.payload_writes (payload_size e) in
    if ltb_ℤ w.end_lsn (pos e.header.lsn)
    then (log_file_full, w)
    else (if not w.is_open
        then (file_not_opened, w)
        else (if leb e.header.lsn w.last_lsn
            then (invalid_argument, w)
            else (if ltb header_out header_size
                then (
                  ioerr_write,
                  record w { file = w.file ++ torn_header e.header header_out ∷ [] },
                )
                else (if ltb payload_out (payload_size e)
                    then (
                      ioerr_write,
                      record w { file = w.file ++ torn_payload e payload_out ∷ [] },
                    )
                    else (
                      success,
                      record w { file = w.file ++ entry e ∷ []; last_lsn = e.header.lsn },
                    )))))

unfoldable pub is_full : Writer → Bool
is_full w = leb_ℤ w.end_lsn (pos w.last_lsn)
