-- ===== src/Clog/Buffer/Order.antt =====
-- What the buffer and the file hold together: no entry is lost, repeated or reordered, and sequence
-- numbers have no gap.
use mathlib.Core.List.{append-nil, append_assoc}
use csu_dbms.Base.{
  ℕ, ◌+◌, ◌≡◌, ◌≢◌, refl, List, [], ◌∷◌, ◌++◌, map, arith, length, ◌⊎◌, inl, inr, ap, sym, subst,
  ◌∙◌, Bool-cases,
}
use csu_dbms.Base.Int.{pos, leb_ℤ}
use csu_dbms.Rc.{Rc, success}
use csu_dbms.Clog.Entry.{LogEntry, move, init, empty_entry}
use csu_dbms.Clog.Writer.{Writer, Written, entry, Disk, write}
use csu_dbms.Clog.Buffer.{
  Buffer, Flush, finished, flush_loop, flush, push_entry, append, waits, returned, create,
  after_init,
}
use csu_dbms.Clog.Buffer.Round.{
  IsTorn, write-success, write-failure, written, put_back, flush_loop-cases,
}

-- How a flush ends: with success when every entry is written, or with a failed write of the first entry that stays,
-- which may leave a piece of this entry in the file, but not all of it.
pub data Ends (rc : Rc) : List LogEntry → List Written → Type 0 where
  drained : rc ≡ success → Ends rc [] []
  failed :
      (e : LogEntry) (others : List LogEntry) (torn : List Written)
      → rc ≢ success
      → IsTorn e torn
      → Ends rc (e ∷ others) torn

-- How a flush divides the entries: those written, in order, and those that stay.
pub record Divides (w : Writer) (count : ℕ) (es : List LogEntry) (r : Flush) : Type 0 where
  pub flushed : List LogEntry
  pub rest : List LogEntry
  pub torn : List Written
  pub divided : es ≡ flushed ++ rest
  pub kept : r.buffer.entries ≡ rest
  pub filed : r.writer.file ≡ w.file ++ (map entry flushed ++ torn)
  pub counted : r.count ≡ count + length flushed
  pub ended : Ends r.rc rest torn

put_back-Divides :
    (disk : LogEntry → Disk) (w : Writer) (s : Buffer) (count : ℕ) (e : LogEntry)
    (es : List LogEntry)
    → (write w e (disk e)).0 ≢ success
    → Divides w count (e ∷ es) (put_back disk w s count e es)
put_back-Divides disk w s count e es bad =
    let (torn, filed, is_torn) = write-failure w e (disk e) bad in
    record {
      flushed = [];
      rest = e ∷ es;
      torn = torn;
      divided = refl;
      kept = refl;
      filed = filed;
      counted = omega arith;
      ended = failed e es torn bad is_torn;
    }

flush_loop-Divides :
    (disk : LogEntry → Disk) (w : Writer) (s : Buffer) (count : ℕ) (es : List LogEntry) (r : Flush)
    → s.entries ≡ es
    → flush_loop disk w s count es ≡ finished r
    → Divides w count es r
unfolding flush_loop
flush_loop-Divides disk w s count [] r none_left h =
    let same : record { rc = success; count = count; writer = w; buffer = s } ≡ r = cc in
    subst (Divides w count []) same (record {
      flushed = [];
      rest = [];
      torn = [];
      divided = refl;
      kept = none_left;
      filed = sym (append-nil w.file);
      counted = omega arith;
      ended = drained refl;
    })
flush_loop-Divides disk w s count (e ∷ es) r all h =
    elim (flush_loop-cases disk w s count e es r h) [
      | inl (ok, more) ↦
          let d =
            flush_loop-Divides disk (write w e (disk e)).1 (written disk w s count e es) (count + 1)
              es r refl more in
          let (after, _, _) = write-success w e (disk e) ok in
          record {
            flushed = e ∷ d.flushed;
            rest = d.rest;
            torn = d.torn;
            divided = ap (◌∷◌ e) d.divided;
            kept = d.kept;
            filed =
                d.filed
                ∙ ap (λ x. x.file ++ (map entry d.flushed ++ d.torn)) after
                ∙ append_assoc w.file (entry e ∷ []) (map entry d.flushed ++ d.torn);
            counted = omega (arith, d.counted);
            ended = d.ended;
          }
      | inr (bad, back) ↦
          subst (Divides w count (e ∷ es)) (sym back) (put_back-Divides disk w s count e es bad)
    ]

-- Whatever the system's writes answer, a flush that ends moves a beginning of the buffer's entries to the end of the
-- file, whole and in their order, keeps the rest in the buffer, and counts what it moved. If it succeeds, it moved
-- them all and added nothing else; if it fails, an entry stays, and the file ends with nothing more or with
-- a piece of the first entry that stays, which is not all of this entry.
pub flush-Divides :
    (disk : LogEntry → Disk) (w : Writer) (s : Buffer) (r : Flush)
    → flush disk w s ≡ finished r
    → Divides w 0 s.entries r
unfolding flush
flush-Divides disk w s r h = flush_loop-Divides disk w s 0 s.entries r refl h

-- The numbers of the entries, in order, go on from a number without a gap, up to another.
abbrev pub Runs : ℕ → List LogEntry → ℕ → Type 0
Runs n [] m = n ≡ m
Runs n (e ∷ es) m = (e.header.lsn ≡ n + 1) × Runs (n + 1) es m

-- The buffer holds exactly the entries between the last flushed number and the last given one.
abbrev pub IsGapless : Buffer → Type 0
IsGapless s = Runs s.flushed_lsn s.entries s.current_lsn

Runs-append :
    (n : ℕ) (es : List LogEntry) (m : ℕ) (e : LogEntry)
    → Runs n es m
    → e.header.lsn ≡ m + 1
    → Runs n (es ++ e ∷ []) (m + 1)
Runs-append n [] m e r h = (omega arith, omega arith)
Runs-append n (x ∷ es) m e r h = (r.0, Runs-append (n + 1) es m e r.1 h)

push_entry-IsGapless : (s : Buffer) (e : LogEntry) → IsGapless s → IsGapless (push_entry s e).0
unfolding push_entry move
push_entry-IsGapless s e g = Runs-append s.flushed_lsn s.entries s.current_lsn _ g refl

flush_loop-IsGapless :
    (disk : LogEntry → Disk) (w : Writer) (s : Buffer) (count : ℕ) (es : List LogEntry) (r : Flush)
    → s.entries ≡ es
    → Runs s.flushed_lsn es s.current_lsn
    → flush_loop disk w s count es ≡ finished r
    → IsGapless r.buffer
unfolding flush_loop
flush_loop-IsGapless disk w s count [] r all g h =
    let same : record { rc = success; count = count; writer = w; buffer = s } ≡ r = cc in
    subst (λ x. IsGapless x.buffer) same
      (subst (λ es. Runs s.flushed_lsn es s.current_lsn) (sym all) g)
flush_loop-IsGapless disk w s count (e ∷ es) r all g h =
    elim (flush_loop-cases disk w s count e es r h) [
      | inl (ok, more) ↦
          flush_loop-IsGapless disk (write w e (disk e)).1 (written disk w s count e es) (count + 1)
            es r refl (subst (λ n. Runs n es s.current_lsn) (sym g.0) g.1) more
      | inr (bad, back) ↦ subst (λ x. IsGapless x.buffer) (sym back) g
    ]

-- What happens to a buffer: an accepted append, or a flush that ends.
pub data Steps (lsn max : ℕ) : Buffer → Type 0 where
  created : Steps lsn max (create lsn max)
  appends :
      {s s' : Buffer} (in_lsn out_lsn module_id : ℕ) (d : List ℕ) (rc : Rc)
      → Steps lsn max s
      → append s in_lsn module_id d ≡ returned rc out_lsn s'
      → Steps lsn max s'
  flushes :
      {s : Buffer} (disk : LogEntry → Disk) (w : Writer) (r : Flush)
      → Steps lsn max s
      → flush disk w s ≡ finished r
      → Steps lsn max r.buffer

append-cases :
    (s s' : Buffer) (in_lsn out_lsn module_id : ℕ) (d : List ℕ) (rc : Rc)
    → append s in_lsn module_id d ≡ returned rc out_lsn s'
    → (s' ≡ s) ⊎ (s' ≡ (push_entry s (init (empty_entry module_id) in_lsn module_id d).1).0)
unfolding append
append-cases s s' in_lsn out_lsn module_id d rc h =
    elim (Bool-cases (leb_ℤ (pos s.max_bytes) s.bytes)) [
      | inl full ↦ absurd (let never : waits ≡ returned rc out_lsn s' = rw full at h in cc)
      | inr room ↦ by_code (init (empty_entry module_id) in_lsn module_id d).0 (rw room at h)
    ]
  where
    pushed : Buffer × ℕ
    pushed = push_entry s (init (empty_entry module_id) in_lsn module_id d).1

    by_code :
        (code : Rc)
        → after_init code (returned success pushed.1 pushed.0) (returned code in_lsn s)
          ≡ returned rc out_lsn s'
        → (s' ≡ s) ⊎ (s' ≡ pushed.0)
    by_code success e = inr (cc)
    by_code _ e = inl (cc)

-- After any accepted appends and any flushes, failed ones included, the buffer holds exactly the
-- entries between the last flushed number and the last number given out, each once and in order.
pub Steps-IsGapless : {lsn max : ℕ} {s : Buffer} → Steps lsn max s → IsGapless s
unfolding create flush
Steps-IsGapless created = refl
Steps-IsGapless (appends {s = s} {s' = s'} in_lsn out_lsn module_id d rc st h) =
    elim (append-cases s s' in_lsn out_lsn module_id d rc h) [
      | inl same ↦ subst IsGapless (sym same) (Steps-IsGapless st)
      | inr pushed ↦ subst IsGapless (sym pushed) (push_entry-IsGapless s _ (Steps-IsGapless st))
    ]
Steps-IsGapless (flushes {s = s} disk w r st h) =
    flush_loop-IsGapless disk w s 0 s.entries r refl (Steps-IsGapless st) h
