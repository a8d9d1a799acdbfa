-- ===== src/Clog/Reader/Tests.antt =====
-- A small file read by LogFileReader, and the theorem at it.
use csu_dbms.Base.{
  ℕ, zero, suc, ◌+◌, ◌*◌, ◌/◌, ◌%◌, ◌^◌, ◌<◌, take, drop, ◌≡◌, refl, true, List, [], ◌∷◌, ◌++◌,
  arith,
}
use csu_dbms.Rc.{success}
use csu_dbms.Clog.Entry.{Header, LogEntry}
use csu_dbms.Clog.Reader.{Visited, iterate, iterate_loop, skip_loop, skip_to, readn}
use csu_dbms.Clog.Reader.Written
use csu_dbms.Clog.Reader.Fuel

program : Unit {0}
unfolding iterate iterate_loop skip_loop skip_to readn Written.visit_all Written.from_lsn
    csu_dbms.Clog.Entry.init
program = tt

-- A number in bytes, the lowest first.
abbrev put_bytes : ℕ → ℕ → List ℕ
put_bytes zero n = []
put_bytes (suc count) n = n % 256 ∷ put_bytes count (n / 256)

abbrev get_bytes : List ℕ → ℕ
get_bytes [] = 0
get_bytes (byte ∷ bytes) = byte + 256 * get_bytes bytes

-- 256 ^ count
abbrev values : ℕ → ℕ
values zero = 1
values (suc count) = 256 * values count

get_bytes-put_bytes : (count n : ℕ) → n < values count → get_bytes (put_bytes count n) ≡ n
get_bytes-put_bytes zero n l = omega arith
get_bytes-put_bytes (suc count) n l =
    let rest = get_bytes-put_bytes count (n / 256) (omega arith) in omega (arith, rest)

-- LogHeader on a machine that puts the lowest byte first.
abbrev put_header : Header → List ℕ
put_header h = put_bytes 8 h.lsn ++ put_bytes 4 h.size ++ put_bytes 4 h.module_id

abbrev get_header : List ℕ → Header
get_header bytes = record {
  lsn = get_bytes (take 8 bytes);
  size = get_bytes (take 4 (drop 8 bytes));
  module_id = get_bytes (take 4 (drop 12 bytes));
}

get_header-put_header : (h : Header) → Written.InRange h → get_header (put_header h) ≡ h
get_header-put_header h r =
    let lsn : get_bytes (put_bytes 8 h.lsn) ≡ h.lsn =
      get_bytes-put_bytes 8 h.lsn (let l = r.lsn_fits in omega arith) in
    let size : get_bytes (put_bytes 4 h.size) ≡ h.size =
      get_bytes-put_bytes 4 h.size (let l = r.size_fits in omega arith) in
    let module_id : get_bytes (put_bytes 4 h.module_id) ≡ h.module_id =
      get_bytes-put_bytes 4 h.module_id (let l = r.module_id_fits in omega arith) in
    λ i. record { lsn = lsn i; size = size i; module_id = module_id i }

abbrev log_entry : ℕ → List ℕ → LogEntry
log_entry lsn d = record { header = record { lsn = lsn; size = 2; module_id = 1 }; bytes = d }

abbrev entries : List LogEntry
entries = log_entry 1 (7 ∷ 8 ∷ []) ∷ log_entry 2 (9 ∷ 9 ∷ []) ∷ log_entry 3 (5 ∷ 6 ∷ []) ∷ []

abbrev collect : LogEntry → List ℕ → Visited (List ℕ)
collect e s = record { rc = success; state = s ++ e.header.lsn ∷ e.bytes }

entries-IsWhole : (lsn a b : ℕ) → lsn < 2 ^ 63 → Written.IsWhole (log_entry lsn (a ∷ b ∷ []))
entries-IsWhole lsn a b l = record {
  in_range = record { lsn_fits = l; size_fits = omega arith; module_id_fits = omega arith };
  sized = refl;
  small = omega arith;
}

read_from_two :
    iterate get_header collect true 2 (Written.file_of put_header entries (1 ∷ 2 ∷ [])) []
    ≡ record { rc = success; state = 2 ∷ 9 ∷ 9 ∷ 3 ∷ 5 ∷ 6 ∷ [] }
unfolding program
read_from_two = refl

iterate-file_of_example :
    iterate get_header collect true 2 (Written.file_of put_header entries (1 ∷ 2 ∷ [])) []
    ≡ record { rc = success; state = 2 ∷ 9 ∷ 9 ∷ 3 ∷ 5 ∷ 6 ∷ [] }
unfolding program
iterate-file_of_example =
    Written.iterate-file_of get_header put_header (λ h r. refl) get_header-put_header collect 2
      entries (1 ∷ 2 ∷ []) []
      (
        entries-IsWhole 1 7 8 (omega arith),
        (entries-IsWhole 2 9 9 (omega arith), (entries-IsWhole 3 5 6 (omega arith), tt)),
      )
      (omega arith)

iterate_loop-fuel_example :
    iterate_loop get_header collect 3 (1 ∷ 2 ∷ 3 ∷ []) []
    ≡ iterate_loop get_header collect 50 (1 ∷ 2 ∷ 3 ∷ []) []
iterate_loop-fuel_example =
    Fuel.iterate_loop-fuel get_header collect 3 50 (1 ∷ 2 ∷ 3 ∷ []) [] (omega arith) (omega arith)
