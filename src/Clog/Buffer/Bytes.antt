-- ===== src/Clog/Buffer/Bytes.antt =====
-- The byte count of the buffer.
use csu_dbms.Base.{
  ℕ, ◌+◌, ◌*◌, ◌≤◌, ◌≡◌, refl, false, List, [], ◌∷◌, ◌++◌, arith, length, inl, inr, subst, ap, sym,
  ◌∙◌, All, Option, none, some, ltb,
}
use csu_dbms.Base.Int.{pos, ◌+ℤ◌, ◌-ℤ◌, leb_ℤ, int_laws, pos_part, neg_part}
use csu_dbms.Rc.{success}
use csu_dbms.Clog.Entry.{LogEntry, header_size, max_payload_size, init, move, total_size}
use csu_dbms.Clog.Writer.{Writer, Disk, write}
use csu_dbms.Clog.Buffer.{
  Buffer, create, waits, returned, push_entry, append, Flush, finished, flush_loop, flush,
}
use csu_dbms.Clog.Buffer.Round.{flush_loop-cases, written}

-- The bytes that the entries take.
unfoldable pub sizes : List LogEntry → ℕ
sizes [] = 0
sizes (e ∷ es) = total_size e + sizes es

sizes-append : (es : List LogEntry) (e : LogEntry) → sizes (es ++ e ∷ []) ≡ sizes es + total_size e
unfolding sizes
sizes-append [] e = omega arith
sizes-append (x ∷ es) e = omega (arith, sizes-append es e)

flush_loop_bytes :
    (disk : LogEntry → Disk) (w : Writer) (s : Buffer) (count : ℕ) (es : List LogEntry) (r : Flush)
    → flush_loop disk w s count es ≡ finished r
    → r.rc ≡ success
    → r.buffer.bytes +ℤ pos (sizes es) ≡ s.bytes
unfolding flush_loop sizes
flush_loop_bytes disk w s count [] r h ok =
    let same : record { rc = success; count = count; writer = w; buffer = s } ≡ r = cc in
    subst (λ x. x.buffer.bytes +ℤ pos 0 ≡ s.bytes) same (omega int_laws)
flush_loop_bytes disk w s count (e ∷ es) r h ok = elim (flush_loop-cases disk w s count e es r h) [
  | inl (wrote, more) ↦
      let rest : r.buffer.bytes +ℤ pos (sizes es) ≡ s.bytes -ℤ pos (total_size e) =
        flush_loop_bytes disk (write w e (disk e)).1 (written disk w s count e es) (count + 1) es r
          more ok in
      omega (int_laws, ap pos_part rest, ap neg_part rest)
  | inr (bad, back) ↦ absurd (bad (sym (ap (λ x. x.rc) back) ∙ ok))
]

-- The payload bytes of some appends.
abbrev pub payloads : List (List ℕ) → ℕ
payloads [] = 0
payloads (d ∷ ds) = length d + payloads ds

-- Appends of one module, one after the other; none if one would wait.
unfoldable pub append_all : ℕ → Buffer → List (List ℕ) → Option Buffer
append_all module_id s [] = some s
append_all module_id s (d ∷ ds) = elim (append s 0 module_id d) [
  | waits ↦ none
  | returned rc lsn s' ↦ append_all module_id s' ds
]

-- The entry that `append` stores.
abbrev stored : Buffer → ℕ → List ℕ → LogEntry
stored s module_id d = record {
  header = record { lsn = s.current_lsn + 1; size = length d; module_id = module_id };
  bytes = d;
}

-- The buffer after an accepted append: the count grows by the size of a header, whatever the payload.
abbrev grown : Buffer → ℕ → List ℕ → Buffer
grown s module_id d = record s {
  entries = s.entries ++ stored s module_id d ∷ [];
  bytes = s.bytes +ℤ pos header_size;
  current_lsn = s.current_lsn + 1;
}

append-grown :
    (s : Buffer) (lsn module_id : ℕ) (d : List ℕ)
    → leb_ℤ (pos s.max_bytes) s.bytes ≡ false
    → length d ≤ max_payload_size
    → append s lsn module_id d ≡ returned success (s.current_lsn + 1) (grown s module_id d)
unfolding append init push_entry move
append-grown s lsn module_id d room fits =
    let small : ltb max_payload_size (length d) ≡ false = ground arith in rw (room, small) refl

-- While the headers of some entries alone fit into what is left of `max_bytes`, and no payload is
-- above the largest size of one, no append waits; the count grows by the headers only, and the entries
-- take the payloads besides.
pub append_all-uncounted :
    (module_id : ℕ) (ds : List (List ℕ)) (s : Buffer) (b : ℕ)
    → s.bytes ≡ pos b
    → b + header_size * length ds ≤ s.max_bytes
    → All (λ d. length d ≤ max_payload_size) ds
    → (s' : Buffer) × (append_all module_id s ds ≡ some s')
      × (s'.bytes ≡ pos (b + header_size * length ds))
      × (sizes s'.entries ≡ sizes s.entries + header_size * length ds + payloads ds)
unfolding append_all
append_all-uncounted module_id [] s b e room fits = (s, refl, e ∙ ap pos (omega arith), omega arith)
append_all-uncounted module_id (d ∷ ds) s b e room fits =
    let free : leb_ℤ (pos s.max_bytes) s.bytes ≡ false = ground arith in
    let next : s.bytes +ℤ pos header_size ≡ pos (b + header_size) =
      omega (int_laws, ap pos_part e, ap neg_part e) in
    let (s', ran, count, taken) =
      append_all-uncounted module_id ds (grown s module_id d) (b + header_size) next (omega arith)
        fits.1 in
    (
      s',
      rw (append-grown s 0 module_id d free fits.0, append_all) ran,
      count ∙ ap pos (omega arith),
      omega (arith, taken, sizes-append s.entries (stored s module_id d)),
    )

-- A buffer filled from empty, by entries whose headers fit into `max_bytes` and whose payloads are not
-- too large, counts minus the payload bytes after a flush that succeeds: the flush takes the whole
-- sizes of the entries off a count that held their headers.
pub flush_underflows :
    (disk : LogEntry → Disk) (w : Writer) (module_id lsn max : ℕ) (ds : List (List ℕ)) (s : Buffer)
    (r : Flush)
    → header_size * length ds ≤ (create lsn max).max_bytes
    → All (λ d. length d ≤ max_payload_size) ds
    → append_all module_id (create lsn max) ds ≡ some s
    → flush disk w s ≡ finished r
    → r.rc ≡ success
    → r.buffer.bytes +ℤ pos (payloads ds) ≡ pos 0
unfolding flush
flush_underflows disk w module_id lsn max ds s r room fits ran h ok =
    let (s', ran', count, taken) =
      append_all-uncounted module_id ds (create lsn max) 0 (unfold create in refl) (omega arith)
        fits in
    let same : s' ≡ s = cc in
    let count' = ap (λ x. x.bytes) (sym same) ∙ count in
    let taken' = ap (λ x. sizes x.entries) (sym same) ∙ taken in
    let start : sizes (create lsn max).entries ≡ 0 = unfold create sizes in refl in
    let out = flush_loop_bytes disk w s 0 s.entries r h ok in
    omega (int_laws, ap pos_part out, ap neg_part out, ap pos_part count', ap neg_part count')
