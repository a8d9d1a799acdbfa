-- ===== src/Clog/Reader/Written.antt =====
-- Reading back what was written: the bytes of entries that LogFileWriter::write puts into a file, and
-- LogFileReader on them.
use csu_dbms.Base.{
  take-append, drop-append, ℕ, zero, suc, ◌+◌, ◌≤◌, ◌<◌, ◌≡◌, refl, sym, ap, ◌^◌, ◌∙◌, inl, inr,
  true, false, none, some, List, [], ◌∷◌, ◌++◌, if◌then◌else◌, ltb, leb, length, drop,
  length-append, All, arith, Bool-cases,
}
use mathlib.Core.List.{append_assoc}
use mathlib.Core.Path.{fun_ext}
use csu_dbms.Rc.{success}
use csu_dbms.Clog.Entry.{Header, LogEntry, header_size, max_payload_size, empty_entry, init}
use csu_dbms.Clog.Reader.{readn, Visited, skip_loop, skip_to, after_callback, iterate_loop, iterate}

readn-append : (a b : List ℕ) → readn (length a) (a ++ b) ≡ some (a, b)
unfolding readn
readn-append a b =
    let room : ltb (length (a ++ b)) (length a) ≡ false =
      let n = length-append a b in ground arith in
    rw room (ap some (λ i. (take-append a b i, drop-append a b i)))

-- The numbers fit the fields of LogHeader: an int64_t and two int32_t.
pub record InRange (h : Header) : Type 0 where
  pub lsn_fits : h.lsn < 2 ^ 63
  pub size_fits : h.size < 2 ^ 31
  pub module_id_fits : h.module_id < 2 ^ 31

-- An entry whose header is in range and tells the size of the payload, which is not too large.
pub record IsWhole (e : LogEntry) : Type 0 where
  pub in_range : InRange e.header
  pub sized : e.header.size ≡ length e.bytes
  pub small : length e.bytes ≤ max_payload_size

-- The entries given to the callback one after the other, until one fails.
unfoldable pub visit_all : {S : Type 0} → (LogEntry → S → Visited S) → List LogEntry → S → Visited S
visit_all callback [] s = record { rc = success; state = s }
visit_all callback (e ∷ es) s =
    after_callback (callback e s).rc (callback e s) (visit_all callback es)

-- The entries from the first one on whose number is not below the start.
unfoldable pub from_lsn : ℕ → List LogEntry → List LogEntry
from_lsn start_lsn [] = []
from_lsn start_lsn (e ∷ es) =
    let rest = from_lsn start_lsn es in if leb start_lsn e.header.lsn then e ∷ es else rest

All-from_lsn :
    (start_lsn : ℕ) (es : List LogEntry) → All IsWhole es → All IsWhole (from_lsn start_lsn es)
unfolding from_lsn
All-from_lsn start_lsn [] w = tt
All-from_lsn start_lsn (e ∷ es) w = elim (Bool-cases (leb start_lsn e.header.lsn)) [
  | inl late ↦ rw late w
  | inr early ↦ rw early (All-from_lsn start_lsn es w.1)
]

abbrev pub bytes_of : (Header → List ℕ) → LogEntry → List ℕ
bytes_of put_header e = put_header e.header ++ e.bytes

-- A file of entries, with something left behind the last one.
abbrev pub file_of : (Header → List ℕ) → List LogEntry → List ℕ → List ℕ
file_of put_header [] torn = torn
file_of put_header (e ∷ es) torn = bytes_of put_header e ++ file_of put_header es torn

module _ (get_header : List ℕ → Header) (put_header : Header → List ℕ)
    (laid_out : (h : Header) → InRange h → length (put_header h) ≡ header_size)
    (reads_back : (h : Header) → InRange h → get_header (put_header h) ≡ h) where
  readn-header :
      (e : LogEntry) (more : List ℕ)
      → IsWhole e
      → readn header_size (bytes_of put_header e ++ more)
        ≡ some (put_header e.header, e.bytes ++ more)
  readn-header e more w =
      ap (readn header_size) (append_assoc (put_header e.header) e.bytes more)
      ∙ ap (λ n. readn n (put_header e.header ++ (e.bytes ++ more)))
          (sym (laid_out e.header w.in_range))
      ∙ readn-append (put_header e.header) (e.bytes ++ more)

  readn-bytes :
      (e : LogEntry) (more : List ℕ)
      → IsWhole e
      → readn e.header.size (e.bytes ++ more) ≡ some (e.bytes, more)
  readn-bytes e more h = ap (λ n. readn n (e.bytes ++ more)) h.sized ∙ readn-append e.bytes more

  readn-torn : (torn : List ℕ) → length torn < header_size → readn header_size torn ≡ none
  unfolding readn
  readn-torn torn short =
      let few : ltb (length torn) header_size ≡ true = ground arith in rw few refl

  init-whole :
      (e : LogEntry)
      → IsWhole e
      → (init (empty_entry e.header.module_id) e.header.lsn e.header.module_id e.bytes).1 ≡ e
  unfolding init
  init-whole e h =
      let fits : ltb max_payload_size (length e.bytes) ≡ false = let s = h.small in ground arith in
      rw fits (ap (λ n. record e { header = record e.header { size = n } }) (sym h.sized))

  length-bytes_of :
      (e : LogEntry) (more : List ℕ)
      → IsWhole e
      → length (bytes_of put_header e ++ more) ≡ header_size + length e.bytes + length more
  length-bytes_of e more w = omega (
    arith,
    length-append (bytes_of put_header e) more,
    length-append (put_header e.header) e.bytes,
    laid_out e.header w.in_range,
  )

  iterate_loop-round :
      {S : Type 0} (callback : LogEntry → S → Visited S) (fuel : ℕ) (e : LogEntry) (more : List ℕ)
      (s : S)
      → IsWhole e
      → iterate_loop get_header callback (suc fuel) (bytes_of put_header e ++ more) s
        ≡ after_callback
            (callback e s).rc
            (callback e s)
            (iterate_loop get_header callback fuel more)
  unfolding iterate_loop
  iterate_loop-round callback fuel e more s h =
      let g = reads_back e.header h.in_range in
      let fits : ltb max_payload_size e.header.size ≡ false =
        let b = h.small in let z = h.sized in ground arith in
      rw
        (
          iterate_loop,
          readn-header e more h,
          ap (λ x. ltb max_payload_size x.size) g ∙ fits,
          ap (λ x. readn x.size (e.bytes ++ more)) g ∙ readn-bytes e more h,
          ap (λ x. (init (empty_entry x.module_id) x.lsn x.module_id e.bytes).1) g ∙ init-whole e h,
        )
        refl

  iterate_loop-file_of :
      {S : Type 0} (callback : LogEntry → S → Visited S) (fuel : ℕ) (es : List LogEntry)
      (torn : List ℕ) (s : S)
      → length (file_of put_header es torn) ≤ fuel
      → All IsWhole es
      → length torn < header_size
      → iterate_loop get_header callback fuel (file_of put_header es torn) s
        ≡ visit_all callback es s
  unfolding visit_all iterate_loop
  iterate_loop-file_of callback zero [] torn s f w short = refl
  iterate_loop-file_of callback (suc fuel) [] torn s f w short =
      rw (iterate_loop, readn-torn torn short) refl
  iterate_loop-file_of callback zero (e ∷ es) torn s f w short =
      absurd (omega (arith, length-bytes_of e (file_of put_header es torn) w.0))
  iterate_loop-file_of callback (suc fuel) (e ∷ es) torn s f w short =
      iterate_loop-round callback fuel e (file_of put_header es torn) s w.0
      ∙ ap (after_callback (callback e s).rc (callback e s)) (
          fun_ext (λ x.
            iterate_loop-file_of callback fuel es torn x
              (omega (arith, length-bytes_of e (file_of put_header es torn) w.0)) w.1 short))

  skip_loop-file_of :
      (fuel start_lsn : ℕ) (es : List LogEntry) (torn : List ℕ)
      → length (file_of put_header es torn) ≤ fuel
      → All IsWhole es
      → length torn < header_size
      → (rest : List ℕ) × (skip_loop get_header fuel start_lsn (file_of put_header es torn)
          ≡ (success, file_of put_header (from_lsn start_lsn es) rest))
        × (length rest < header_size)
  unfolding from_lsn skip_loop
  skip_loop-file_of zero start_lsn [] torn f w short = ([], refl, omega arith)
  skip_loop-file_of (suc fuel) start_lsn [] torn f w short =
      ([], rw (skip_loop, readn-torn torn short) refl, omega arith)
  skip_loop-file_of zero start_lsn (e ∷ es) torn f w short =
      absurd (omega (arith, length-bytes_of e (file_of put_header es torn) w.0))
  skip_loop-file_of (suc fuel) start_lsn (e ∷ es) torn f w short =
      elim (Bool-cases (leb start_lsn e.header.lsn)) [
        | inl late ↦ (
          torn,
          rw
              (
                skip_loop,
                readn-header e (file_of put_header es torn) w.0,
                reads_back e.header w.0.in_range,
                late,
              )
              refl,
          short,
        )
        | inr early ↦
            let (rest, skipped, few) =
              skip_loop-file_of fuel start_lsn es torn
                (omega (arith, length-bytes_of e (file_of put_header es torn) w.0)) w.1 short in
            let h = w.0 in
            let fits : ltb max_payload_size e.header.size ≡ false =
              let b = h.small in let z = h.sized in ground arith in
            let dropped : drop e.header.size (e.bytes ++ file_of put_header es torn)
                ≡ file_of put_header es torn =
              ap (λ n. drop n (e.bytes ++ file_of put_header es torn)) h.sized
              ∙ drop-append e.bytes (file_of put_header es torn) in
            (
              rest,
              rw
                  (
                    skip_loop,
                    readn-header e (file_of put_header es torn) w.0,
                    reads_back e.header w.0.in_range,
                    early,
                    fits,
                    dropped,
                  )
                  skipped,
              few,
            )
      ]

  -- Where a header whose numbers fit its fields is laid out in 16 bytes that are read back as it was: from a file of whole entries
  -- with such headers, one behind the other, that ends with less than a header, `iterate` gives the callback exactly the
  -- entries from the first one on whose number is not below the start, as they were written, in their
  -- order, until the callback fails, and answers what the callback answers last.
  pub iterate-file_of :
      {S : Type 0} (callback : LogEntry → S → Visited S) (start_lsn : ℕ) (es : List LogEntry)
      (torn : List ℕ) (s : S)
      → All IsWhole es
      → length torn < header_size
      → iterate get_header callback true start_lsn (file_of put_header es torn) s
        ≡ visit_all callback (from_lsn start_lsn es) s
  unfolding iterate skip_to
  iterate-file_of callback start_lsn es torn s w short =
      let file = file_of put_header es torn in
      let (rest, skipped, few) =
        skip_loop-file_of (length file) start_lsn es torn (omega arith) w short in
      let found = file_of put_header (from_lsn start_lsn es) rest in
      rw skipped (
        iterate_loop-file_of callback (length found) (from_lsn start_lsn es) rest s (omega arith)
          (All-from_lsn start_lsn es w) few)
