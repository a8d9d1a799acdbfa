-- ===== src/Clog/Buffer/Round.antt =====
-- One round of `flush`, read backwards.
use mathlib.Core.List.{append-nil}
use csu_dbms.Base.Int.{pos, leb_ℤ}
use csu_dbms.Base.{
  true, sym, ◌∙◌, ℕ, ◌+◌, ◌<◌, ◌≡◌, ◌≢◌, refl, List, [], ◌∷◌, ◌++◌, arith, ◌⊎◌, inl, inr,
  Bool-cases,
}
use csu_dbms.Rc.{Rc, success}
use csu_dbms.Clog.Entry.{LogEntry, header_size, payload_size}
use csu_dbms.Clog.Writer.{Writer, Written, entry, torn_header, torn_payload, writen, Disk, write}
use csu_dbms.Clog.Buffer.{
  Buffer, Flush, Flushed, aborted, finished, is_sound, pop_front, after_write, flush_loop,
}

-- A successful write appends the entry, whose number is above the last one and in the file's range.
pub write-success :
    (w : Writer) (e : LogEntry) (d : Disk)
    → (write w e d).0 ≡ success
    → ((write w e d).1 ≡ record w { file = w.file ++ entry e ∷ []; last_lsn = e.header.lsn })
      × (w.last_lsn < e.header.lsn)
      × (leb_ℤ (pos e.header.lsn) w.end_lsn ≡ true)
unfolding write
write-success w e d h = ground arith

-- What a failed write of an entry leaves in the file: nothing, or a piece of this entry that is not all of it.
pub data IsTorn (e : LogEntry) : List Written → Type 0 where
  nothing : IsTorn e []
  in_header : (out : ℕ) → out < header_size → IsTorn e (torn_header e.header out ∷ [])
  in_payload : (out : ℕ) → out < payload_size e → IsTorn e (torn_payload e out ∷ [])

-- A failed write leaves at most a piece of the entry in the file.
pub write-failure :
    (w : Writer) (e : LogEntry) (d : Disk)
    → (write w e d).0 ≢ success
    → (torn : List Written) × ((write w e d).1.file ≡ w.file ++ torn) × IsTorn e torn
unfolding write
write-failure w e d h =
    let header_out = writen d.header_writes header_size in
    let payload_out = writen d.payload_writes (payload_size e) in
    let left : ((write w e d).1.file ≡ w.file)
        ⊎ (((write w e d).1.file ≡ w.file ++ torn_header e.header header_out ∷ [])
            × (header_out < header_size))
        ⊎ (((write w e d).1.file ≡ w.file ++ torn_payload e payload_out ∷ [])
            × (payload_out < payload_size e)) =
      ground arith in
    elim left [
      | inl same ↦ ([], same ∙ sym (append-nil w.file), nothing)
      | inr (inl (same, few)) ↦ (_, same, in_header header_out few)
      | inr (inr (same, few)) ↦ (_, same, in_payload payload_out few)
    ]

after_write-cases :
    (rc : Rc) (more back : Flushed) (r : Flush)
    → after_write rc more back ≡ finished r
    → ((rc ≡ success) × (more ≡ finished r)) ⊎ ((rc ≢ success) × (back ≡ finished r))
after_write-cases success more back r h = inl (refl, h)
after_write-cases _ more back r h = inr ((λ e. cc), h)

module _ (disk : LogEntry → Disk) (w : Writer) (s : Buffer) (count : ℕ) where
  -- The state in which the loop goes on after an entry was written.
  abbrev pub written : LogEntry → List LogEntry → Buffer
  written e rest = record (pop_front s e rest) { flushed_lsn = e.header.lsn }

  -- The result where the entry was not written.
  abbrev pub put_back : LogEntry → List LogEntry → Flush
  put_back e rest = record {
    rc = (write w e (disk e)).0;
    count = count;
    writer = (write w e (disk e)).1;
    buffer = record (pop_front s e rest) { entries = e ∷ rest };
  }

  pub flush_loop-cases :
      (e : LogEntry) (rest : List LogEntry) (r : Flush)
      → flush_loop disk w s count (e ∷ rest) ≡ finished r
      → (((write w e (disk e)).0 ≡ success)
          × (flush_loop disk (write w e (disk e)).1 (written e rest) (count + 1) rest ≡ finished r))
        ⊎ (((write w e (disk e)).0 ≢ success) × (r ≡ put_back e rest))
  unfolding flush_loop
  flush_loop-cases e rest r h = elim (Bool-cases (is_sound e)) [
    | inl sound ↦ elim (after_write-cases (write w e (disk e)).0 _ _ r (rw sound at h)) [
      | inl (ok, more) ↦ inl (ok, more)
      | inr (bad, back) ↦ inr (bad, cc)
    ]
    | inr unsound ↦ let never : aborted ≡ finished r = rw unsound at h in absurd (cc)
  ]
