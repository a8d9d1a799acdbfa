-- ===== src/Clog/Reader.antt =====
-- LogFileReader of observer/storage/clog/log_file.cpp, over the bytes of the file behind its position.
-- `get_header` is how a machine lays LogHeader out in memory. The system's reads and seeks do not fail,
-- and a header has no negative number.
pub mod Written
pub mod Fuel
mod Tests
use csu_dbms.Base.{
  ℕ, zero, suc, Bool, not, Option, none, some, List, [], ◌∷◌, if◌then◌else◌, ltb, leb, length, take,
  drop,
}
use csu_dbms.Rc.{Rc, success, file_not_opened, ioerr_read}
use csu_dbms.Clog.Entry.{Header, LogEntry, header_size, max_payload_size, empty_entry, init}

-- `readn` of common/io/io.cpp: what was read and what is behind it, or none at the end of the file.
unfoldable pub readn : ℕ → List ℕ → Option (List ℕ × List ℕ)
readn size file = if ltb (length file) size then none else some (take size file, drop size file)

-- What `callback` answers: its code, and its state.
pub record Visited (S : Type 0) : Type 0 where
  pub rc : Rc
  pub state : S

-- How a round of `iterate` goes on behind the callback.
abbrev pub after_callback : {S : Type 0} → Rc → Visited S → (S → Visited S) → Visited S
after_callback success r more = more r.state
after_callback rc r more = r

-- How `iterate` goes on behind `skip_to`.
abbrev pub after_skip : {S : Type 0} → Rc → S → Visited S → Visited S
after_skip success s read = read
after_skip rc s read = record { rc = rc; state = s }

module _ (get_header : List ℕ → Header) where
  -- The loop of `skip_to`, on fuel: a round reads a header. At the end of the file nothing is left.
  unfoldable pub skip_loop : ℕ → ℕ → List ℕ → Rc × List ℕ
  skip_loop zero start_lsn file = (success, [])
  skip_loop (suc fuel) start_lsn file = elim (readn header_size file) [
    | none ↦ (success, [])
    | some (head, rest) ↦
        let header = get_header head in
        let skipped = skip_loop fuel start_lsn (drop header.size rest) in
        if leb start_lsn header.lsn
        then (success, file)
        else (if ltb max_payload_size header.size then (ioerr_read, rest) else skipped)
  ]

  unfoldable pub skip_to : Bool → ℕ → List ℕ → Rc × List ℕ
  skip_to is_open start_lsn file =
      if not is_open then (file_not_opened, file) else skip_loop (length file) start_lsn file

  -- The loop of `iterate`, on fuel.
  unfoldable pub iterate_loop :
      {S : Type 0} → (LogEntry → S → Visited S) → ℕ → List ℕ → S → Visited S
  iterate_loop callback zero file s = record { rc = success; state = s }
  iterate_loop callback (suc fuel) file s = elim (readn header_size file) [
    | none ↦ record { rc = success; state = s }
    | some (head, rest) ↦
        let header = get_header head in
        if ltb max_payload_size header.size
        then record { rc = ioerr_read; state = s }
        else (elim (readn header.size rest) [
          | none ↦ record { rc = ioerr_read; state = s }
          | some (payload, behind) ↦
              let entry =
                (init (empty_entry header.module_id) header.lsn header.module_id payload).1 in
              after_callback (callback entry s).rc (callback entry s)
                (iterate_loop callback fuel behind)
        ])
  ]

  unfoldable pub iterate :
      {S : Type 0} → (LogEntry → S → Visited S) → Bool → ℕ → List ℕ → S → Visited S
  iterate callback is_open start_lsn file s =
      let (rc, behind) = skip_to is_open start_lsn file in
      after_skip rc s (iterate_loop callback (length behind) behind s)
