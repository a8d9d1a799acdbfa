-- ===== src/Clog/Tests.antt =====
-- A small buffer and file, and the theorems at them.
use csu_dbms.Base.{
  if◌then◌else◌, ◌==◌, Option, none, map, ℕ, ◌≡◌, refl, true, some, List, [], ◌∷◌, arith,
}
use csu_dbms.Base.Int.{pos, negsuc, ◌+ℤ◌, ◌-ℤ◌}
use csu_dbms.Rc.{success, ioerr_write}
use csu_dbms.Clog.Entry.{LogEntry, empty_entry, init, move}
use csu_dbms.Clog.Writer.{
  Writer, Disk, torn_payload, writen, as_int, write, entry, open_file, close,
}
use csu_dbms.Clog.Buffer
use csu_dbms.Clog.Files
use mathlib.Core.List.{Permᴰ}
use csu_dbms.Clog.Buffer.{Buffer, Flush, finished, append, returned, flush, create}

program : Unit {0}
unfolding empty_entry init move write writen as_int create Buffer.push_entry append
    Buffer.flush_loop flush Buffer.Bytes.append_all Buffer.Bytes.sizes ◌+ℤ◌ ◌-ℤ◌
program = tt

abbrev good_disk : LogEntry → Disk
good_disk e = record { header_writes = 10 ∷ 6 ∷ []; payload_writes = 3 ∷ [] }

abbrev writer : Writer
writer = record { is_open = true; last_lsn = 0; end_lsn = pos 999; file = [] }

abbrev log_entry : ℕ → List ℕ → LogEntry
log_entry lsn d = record { header = record { lsn = lsn; size = 3; module_id = 1 }; bytes = d }

-- Two entries of three bytes each; the count is two headers.
abbrev two : Buffer
two = record {
  entries = log_entry 1 (1 ∷ 2 ∷ 3 ∷ []) ∷ log_entry 2 (4 ∷ 5 ∷ 6 ∷ []) ∷ [];
  bytes = pos 32;
  current_lsn = 2;
  flushed_lsn = 0;
  max_bytes = 100;
}

abbrev drained : Flush
drained = record {
  rc = success;
  count = 2;
  writer = record writer {
    last_lsn = 2;
    file = entry (log_entry 1 (1 ∷ 2 ∷ 3 ∷ [])) ∷ entry (log_entry 2 (4 ∷ 5 ∷ 6 ∷ [])) ∷ [];
  };
  buffer = record two { entries = []; bytes = negsuc 5; flushed_lsn = 2 };
}

abbrev payload_list : List (List ℕ)
payload_list = (1 ∷ 2 ∷ 3 ∷ []) ∷ (4 ∷ 5 ∷ 6 ∷ []) ∷ []

filled : Buffer.Bytes.append_all 1 (create 0 100) payload_list ≡ some two
unfolding program
filled = refl

drains : flush good_disk writer two ≡ finished drained
unfolding program
drains = refl

-- The disk takes one byte of the second payload.
torn_flush :
    flush
      (λ e. record {
        header_writes = 16 ∷ [];
        payload_writes = if e.header.lsn == 2 then 1 ∷ [] else 3 ∷ [];
      })
      writer
      two
    ≡ finished (record {
      rc = ioerr_write;
      count = 1;
      writer = record writer {
        last_lsn = 1;
        file =
            entry (log_entry 1 (1 ∷ 2 ∷ 3 ∷ []))
            ∷ torn_payload (log_entry 2 (4 ∷ 5 ∷ 6 ∷ [])) 1
            ∷ [];
      };
      buffer = record two {
        entries = log_entry 2 (4 ∷ 5 ∷ 6 ∷ []) ∷ [];
        bytes = negsuc 5;
        flushed_lsn = 1;
      };
    })
unfolding program
torn_flush = refl

flush-Divides_example : Buffer.Order.Divides writer 0 two.entries drained
flush-Divides_example = Buffer.Order.flush-Divides good_disk writer two drained drains

first_append :
    append (create 0 100) 0 1 (1 ∷ 2 ∷ 3 ∷ [])
    ≡ returned success 1 (record (create 0 100) {
      entries = log_entry 1 (1 ∷ 2 ∷ 3 ∷ []) ∷ [];
      bytes = pos 16;
      current_lsn = 1;
    })
unfolding program
first_append = refl

one_append : Buffer.Order.Steps 0 100 (record (create 0 100) {
  entries = log_entry 1 (1 ∷ 2 ∷ 3 ∷ []) ∷ [];
  bytes = pos 16;
  current_lsn = 1;
})
one_append = Buffer.Order.appends 0 1 1 (1 ∷ 2 ∷ 3 ∷ []) success Buffer.Order.created first_append

Steps-IsGapless_example : Buffer.Order.IsGapless (record (create 0 100) {
  entries = log_entry 1 (1 ∷ 2 ∷ 3 ∷ []) ∷ [];
  bytes = pos 16;
  current_lsn = 1;
})
Steps-IsGapless_example = Buffer.Order.Steps-IsGapless one_append

-- One character writes a number.
abbrev to_string : ℕ → Files.Name
to_string n = n ∷ []

abbrev from_chars : Files.Name → Option ℕ
from_chars (n ∷ []) = some n
from_chars _ = none

abbrev manager : Files.Manager
manager = record {
  max_entry_number_per_file = 10;
  log_files = (0, Files.file_name to_string 0) ∷ (10, Files.file_name to_string 10) ∷ [];
}

manager-IsSpaced : Files.Spacing.IsSpaced 10 manager.log_files
manager-IsSpaced = ((omega arith, tt), (tt, tt))

file_made : (Files.next_file to_string true [] manager writer).1.end_lsn ≡ pos 29
unfolding program Files.next_file Files.next_lsn Files.last_item Files.emplace open_file close
file_made = refl

next_file-IsSpaced_example :
    Files.Spacing.IsSpaced 10 (Files.next_file to_string true [] manager writer).2.log_files
next_file-IsSpaced_example =
    (Files.Spacing.next_file-IsSpaced to_string [] manager writer (omega arith) manager-IsSpaced
      (unfold Files.next_lsn Files.last_item in omega arith)).5

list_files-Listed_example : Files.Spacing.Listed manager 10
list_files-Listed_example = Files.Spacing.list_files-Listed manager 10 manager-IsSpaced

init-log_files_example :
    Files.init from_chars true 10
      (map (Files.Names.log_file to_string) (10 ∷ 0 ∷ []))
      Files.empty_manager
    ≡ (success, manager)
init-log_files_example =
    Files.Names.init-log_files to_string from_chars (λ n. refl) manager (10 ∷ 0 ∷ []) (omega arith)
      manager-IsSpaced (refl, (refl, tt)) (Permᴰ.swap refl refl)
