-- ===== src/Pool/Header/Invariant.antt =====
-- The header of a file in observer/storage/os/buffer/disk_buffer_pool.cpp keeps its numbers in step with its
-- bitmap.
use csu_dbms.Base.{
  ℕ, zero, suc, ◌+◌, ◌-◌, ◌≤◌, ◌<◌, ◌≡◌, ◌≢◌, refl, sym, ap, subst, ◌∙◌, Bool, true, false, not,
  some, List, [], ◌∷◌, ltb, leb, ◌==◌, if◌then◌else◌, inl, inr, Bool-cases, Option-cases, replicate,
  search_from-IsFirst, IsFirst, arith,
}
use csu_dbms.Bitmap.{Bitmap, bytes, get_bit, set_bit, clear_bit}
use csu_dbms.Bitmap.Bits
use csu_dbms.Rc.{is_success}
use csu_dbms.Bitmap.Counts.{count, count-congr, count-next, count-set_bit, count-clear_bit}
use csu_dbms.Pool.Header.{
  Header, Answers, Call, pages, max_page_num, created, create_file, bitmap_bytes, is_pinned, reused,
  reuse, logged_next, extended, extend, disposed, first_free, allocate_page, check_page_num,
  dispose_page, step, run, allocating, disposing,
}

-- A bit for every page, a count of the bits that are set, and the header's own page set.
pub record IsValid (h : Header) : Type 0 where
  pub pages_valid : Bits.IsValid (pages h)
  pub counted : h.allocated_pages ≡ count (get_bit (pages h)) h.page_count
  pub header_page : get_bit (pages h) 0 ≡ true
  pub some_page : 0 < h.page_count

pub page_count-le : (h : Header) → IsValid h → h.page_count ≤ max_page_num h
unfolding bytes
page_count-le h v = let r = v.pages_valid.roomy in ground arith

reused-IsValid :
    (h : Header) (lsn i : ℕ)
    → IsValid h
    → i < h.page_count
    → get_bit (pages h) i ≡ false
    → IsValid (reused h lsn i)
unfolding set_bit
reused-IsValid h lsn i v l e = record {
  pages_valid = Bits.set_bit-IsValid (pages h) i v.pages_valid;
  counted = ap (λ n. n + 1) v.counted ∙ sym (count-set_bit (pages h) i v.pages_valid l e);
  header_page =
      Bits.get_bit-set_bit (pages h) i 0 v.pages_valid l
      ∙ rw v.header_page (elim (i == 0) as (λ t. (if t then true else true) ≡ true) [
        | true ↦ refl
        | false ↦ refl
      ]);
  some_page = v.some_page;
}

-- The bits with room for one page more.
abbrev wider : Header → Bitmap
wider h = record { bitmap = h.bitmap; size = h.page_count + 1 }

wider-IsValid : (h : Header) → IsValid h → h.page_count < max_page_num h → Bits.IsValid (wider h)
unfolding bytes
wider-IsValid h v l = record { are_bytes = v.pages_valid.are_bytes; roomy = ground arith }

pub extended-IsValid :
    (h : Header) (lsn : ℕ) → IsValid h → h.page_count < max_page_num h → IsValid (extended h lsn)
unfolding set_bit get_bit
extended-IsValid h lsn v l =
    let w = wider-IsValid h v l in
    let n = h.page_count in
    let p = v.some_page in
    let here : (n == n) ≡ true = ground arith in
    let not_first : (n == 0) ≡ false = ground arith in
    let set : get_bit (set_bit (wider h) n) n ≡ true =
      rw (Bits.get_bit-set_bit (wider h) n n w (omega arith), here) refl in
    let rest : count (get_bit (set_bit (wider h) n)) n ≡ count (get_bit (pages h)) n =
      count-congr _ _ n (λ j u.
        let other : (n == j) ≡ false = ground arith in
        rw (Bits.get_bit-set_bit (wider h) n j w (omega arith), other) refl) in
    record {
      pages_valid = Bits.set_bit-IsValid (wider h) n w;
      counted = sym (
          count-next (get_bit (set_bit (wider h) n)) n set
          ∙ ap (λ x. x + 1) (rest ∙ sym v.counted));
      header_page =
          rw (Bits.get_bit-set_bit (wider h) n 0 w (omega arith), not_first) v.header_page;
      some_page = omega arith;
    }

disposed-IsValid :
    (h : Header) (lsn i : ℕ)
    → IsValid h
    → i ≢ 0
    → i < h.page_count
    → get_bit (pages h) i ≡ true
    → IsValid (disposed h lsn i)
unfolding clear_bit
disposed-IsValid h lsn i v ne l e =
    let later : (i == 0) ≡ false = ground arith in
    record {
      pages_valid = Bits.clear_bit-IsValid (pages h) i v.pages_valid;
      counted = omega (arith, count-clear_bit (pages h) i v.pages_valid l e, v.counted);
      header_page = Bits.get_bit-clear_bit (pages h) i 0 v.pages_valid l ∙ rw later v.header_page;
      some_page = v.some_page;
    }

-- The first free page.
pub first_free-eq_some :
    (h : Header) (i : ℕ)
    → first_free h ≡ some i
    → (i < h.page_count) × (get_bit (pages h) i ≡ false)
first_free-eq_some h i e =
    let first =
      subst (IsFirst (λ j. not (get_bit (pages h) j)) 0 h.page_count) e
        (search_from-IsFirst (λ j. not (get_bit (pages h) j)) 0 h.page_count) in
    (let u = first.1 in omega arith, eq_false _ first.2)
  where
    eq_false : (b : Bool) → not b ≡ true → b ≡ false
    eq_false true p = cc
    eq_false false p = refl

reuse-IsValid :
    (h : Header) (a : Answers) (i : ℕ) → IsValid h → first_free h ≡ some i → IsValid (reuse h a i).1
reuse-IsValid h a i v e =
    let (l, free) = first_free-eq_some h i e in
    elim (Bool-cases (is_success a.log_rc)) [
      | inl ok ↦ rw ok (reused-IsValid h a.lsn i v l free)
      | inr bad ↦ rw bad v
    ]

logged_next-IsValid : (h : Header) (lsn : ℕ) → IsValid h → IsValid (logged_next h lsn)
logged_next-IsValid h lsn v = record {
  pages_valid = v.pages_valid;
  counted = v.counted;
  header_page = v.header_page;
  some_page = v.some_page;
}

extend-IsValid : (h : Header) (a : Answers) → IsValid h → IsValid (extend h a).1
extend-IsValid h a v = elim (Bool-cases (leb (max_page_num h) h.page_count)) [
  | inl full ↦ rw full v
  | inr room ↦ elim (Bool-cases (is_success a.log_rc)) [
    | inr bad ↦ rw (room, bad) v
    | inl ok ↦ elim (Bool-cases (is_success a.frame_rc)) [
      | inl got ↦ rw (room, ok, got) (extended-IsValid h a.lsn v (ground arith))
      | inr none_left ↦ rw (room, ok, none_left) (logged_next-IsValid h a.lsn v)
    ]
  ]
]

allocate_page-IsValid : (h : Header) (a : Answers) → IsValid h → IsValid (allocate_page h a).1
unfolding allocate_page
allocate_page-IsValid h a v = elim (Bool-cases (ltb h.allocated_pages h.page_count)) [
  | inr compact ↦ rw compact (extend-IsValid h a v)
  | inl holes ↦ rw holes (elim (Option-cases (first_free h)) [
    | inl e ↦ rw e (extend-IsValid h a v)
    | inr (i, e) ↦ rw e (reuse-IsValid h a i v e)
  ])
]

-- What `check_page_num` lets through.
pub check_page_num-is_success :
    (h : Header) (i : ℕ)
    → is_success (check_page_num h i) ≡ true
    → (i < h.page_count) × (get_bit (pages h) i ≡ true)
unfolding check_page_num
check_page_num-is_success h i e = ground arith

dispose_page-IsValid :
    (h : Header) (a : Answers) (i : ℕ) → IsValid h → IsValid (dispose_page h a i).1
unfolding dispose_page
dispose_page-IsValid h a i v = elim (Bool-cases (i == 0)) [
  | inl e ↦ rw e v
  | inr later ↦ elim (Bool-cases (is_success (check_page_num h i))) [
    | inr bad ↦ rw (later, bad) v
    | inl ok ↦ elim (Bool-cases (is_pinned a.pin_count)) [
      | inl held ↦ rw (later, ok, held) v
      | inr idle ↦ elim (Bool-cases (is_success a.log_rc)) [
        | inr bad ↦ rw (later, ok, idle, bad) v
        | inl logged ↦
            let (l, e) = check_page_num-is_success h i ok in
            rw (later, ok, idle, logged) (disposed-IsValid h a.lsn i v (ground arith) l e)
      ]
    ]
  ]
]

pub step-IsValid : (c : Call) (h : Header) → IsValid h → IsValid (step c h)
unfolding step
step-IsValid (allocating a) h v = allocate_page-IsValid h a v
step-IsValid (disposing a i) h v = dispose_page-IsValid h a i v

pub run-IsValid : (calls : List Call) (h : Header) → IsValid h → IsValid (run calls h)
unfolding run
run-IsValid [] h v = v
run-IsValid (c ∷ calls) h v = run-IsValid calls (step c h) (step-IsValid c h v)

replicate-IsBytes : (n : ℕ) → Bits.IsBytes (replicate n 0)
replicate-IsBytes zero = tt
replicate-IsBytes (suc n) = (omega arith, replicate-IsBytes n)

created-IsValid : (n : ℕ) → IsValid (created n)
unfolding bytes get_bit count
created-IsValid n = record {
  pages_valid = record { are_bytes = (omega arith, replicate-IsBytes n); roomy = omega arith };
  counted = refl;
  header_page = refl;
  some_page = omega arith;
}

-- What the header says of its pages.
pub record Agrees (h : Header) : Type 0 where
  pub counts : h.allocated_pages ≡ count (get_bit (pages h)) h.page_count
  pub bounded : h.page_count ≤ max_page_num h
  pub header_page : get_bit (pages h) 0 ≡ true

-- In a file made by `create_file`, after any sequence of `allocate_page` and `dispose_page`, whatever is
-- answered in them, `allocated_pages` is the number of set bits below `page_count`, `page_count` stays
-- within the bitmap, and the header's own page is allocated.
pub run-create_file-Agrees : (calls : List Call) → Agrees (run calls create_file)
run-create_file-Agrees calls =
    let v = run-IsValid calls create_file (created-IsValid (bitmap_bytes - 1)) in
    record { counts = v.counted; bounded = page_count-le _ v; header_page = v.header_page }

-- The bits after the file has grown by a page.
pub get_bit-extended :
    (h : Header) (lsn j : ℕ)
    → IsValid h
    → h.page_count < max_page_num h
    → get_bit (pages (extended h lsn)) j ≡ (if h.page_count == j then true else get_bit (pages h) j)
unfolding set_bit get_bit
get_bit-extended h lsn j v l =
    Bits.get_bit-set_bit (wider h) h.page_count j (wider-IsValid h v l) (omega arith)
