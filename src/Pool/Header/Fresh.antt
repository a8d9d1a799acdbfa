-- ===== src/Pool/Header/Fresh.antt =====
-- Which page `allocate_page` of observer/storage/os/buffer/disk_buffer_pool.cpp gives away.
use csu_dbms.Base.{
  ℕ, ◌+◌, ◌<◌, ◌≡◌, refl, ap, subst, ◌∙◌, Bool, true, false, not, ◌&&◌, none, some, ltb, leb, ◌==◌,
  if◌then◌else◌, inl, inr, Bool-cases, Option-cases, ◌⊎◌, search_from-IsFirst, IsFirst, arith,
}
use csu_dbms.Bitmap.{get_bit, set_bit}
use csu_dbms.Bitmap.Bits
use csu_dbms.Bitmap.Counts.{count-full}
use csu_dbms.Pool.Header.{
  Header, Answers, pages, max_page_num, reused, extended, extend, first_free, allocate_page,
}
use csu_dbms.Pool.Header.Invariant.{IsValid, first_free-eq_some, page_count-le, get_bit-extended}
use csu_dbms.Rc.{success, bufferpool_nobuf}

-- A page is allocated when it is below the count and its bit is set.
abbrev pub is_allocated : Header → ℕ → Bool
is_allocated h i = ltb i h.page_count && get_bit (pages h) i

-- Every answer to the operation is a success.
pub record IsGranted (a : Answers) : Type 0 where
  pub log_ok : a.log_rc ≡ success
  pub page_ok : a.page_rc ≡ success
  pub frame_ok : a.frame_rc ≡ success

-- What it is to give a page away.
pub record Given (h : Header) (a : Answers) (page : ℕ) (h' : Header) : Type 0 where
  pub answered : allocate_page h a ≡ (success, h', some page)
  pub inside : page < max_page_num h
  pub was_free : is_allocated h page ≡ false
  pub lowest : (j : ℕ) → j < page → is_allocated h j ≡ true
  pub now : (j : ℕ) → is_allocated h' j ≡ (if page == j then true else is_allocated h j)

eq_true : (b : Bool) → not b ≡ false → b ≡ true
eq_true true h = refl
eq_true false h = cc

is_allocated-reused :
    (h : Header) (lsn i j : ℕ)
    → IsValid h
    → i < h.page_count
    → is_allocated (reused h lsn i) j ≡ (if i == j then true else is_allocated h j)
unfolding set_bit
is_allocated-reused h lsn i j v l =
    ap (λ b. ltb j h.page_count && b) (Bits.get_bit-set_bit (pages h) i j v.pages_valid l)
    ∙ elim (Bool-cases (i == j)) [
      | inl e ↦ let below : ltb j h.page_count ≡ true = ground arith in rw (e, below) refl
      | inr ne ↦ rw ne refl
    ]

is_allocated-extended :
    (h : Header) (lsn j : ℕ)
    → IsValid h
    → h.page_count < max_page_num h
    → is_allocated (extended h lsn) j ≡ (if h.page_count == j then true else is_allocated h j)
is_allocated-extended h lsn j v l =
    ap (λ b. ltb j (h.page_count + 1) && b) (get_bit-extended h lsn j v l)
    ∙ elim (Bool-cases (h.page_count == j)) [
      | inl e ↦ let below : ltb j (h.page_count + 1) ≡ true = ground arith in rw (e, below) refl
      | inr ne ↦
          let same : ltb j (h.page_count + 1) ≡ ltb j h.page_count = ground arith in
          rw (ne, same) refl
    ]

is_allocated-below :
    (h : Header) (j : ℕ) → j < h.page_count → get_bit (pages h) j ≡ true → is_allocated h j ≡ true
is_allocated-below h j l e =
    let below : ltb j h.page_count ≡ true = ground arith in rw (below, e) refl

reuse-Given :
    (h : Header) (a : Answers) (i : ℕ)
    → IsValid h
    → IsGranted a
    → ltb h.allocated_pages h.page_count ≡ true
    → first_free h ≡ some i
    → Given h a i (reused h a.lsn i)
unfolding allocate_page
reuse-Given h a i v g holes e =
    let (l, free) = first_free-eq_some h i e in
    let bound = page_count-le h v in
    let first =
      subst (IsFirst (λ j. not (get_bit (pages h) j)) 0 h.page_count) e
        (search_from-IsFirst _ 0 h.page_count) in
    record {
      answered = rw (holes, e, g.log_ok, g.page_ok) refl;
      inside = omega arith;
      was_free =
          rw free (elim (ltb i h.page_count) as (λ b. (b && false) ≡ false) [
            | true ↦ refl
            | false ↦ refl
          ]);
      lowest = λ j u. is_allocated-below h j (omega arith) (eq_true _ (first.3 j (omega arith) u));
      now = λ j. is_allocated-reused h a.lsn i j v l;
    }

-- Where the operation goes past its loop, every page below the count is allocated.
all_set :
    (h : Header)
    → IsValid h
    → (ltb h.allocated_pages h.page_count ≡ false) ⊎ (first_free h ≡ none)
    → (j : ℕ) → j < h.page_count
    → get_bit (pages h) j ≡ true
all_set h v (inl compact) j l =
    let c = v.counted in count-full (get_bit (pages h)) h.page_count (ground arith) j l
all_set h v (inr e) j l = eq_true _ (
    subst (IsFirst (λ i. not (get_bit (pages h) i)) 0 h.page_count) e
      (search_from-IsFirst _ 0 h.page_count) j (omega arith) (omega arith))

extends :
    (h : Header) (a : Answers)
    → (ltb h.allocated_pages h.page_count ≡ false) ⊎ (first_free h ≡ none)
    → allocate_page h a ≡ extend h a
unfolding allocate_page
extends h a (inl compact) = rw compact refl
extends h a (inr e) =
    rw e
      (elim (ltb h.allocated_pages h.page_count)
        as (λ b. (if b then extend h a else extend h a) ≡ extend h a) [
          | true ↦ refl
          | false ↦ refl
        ])

extend-Given :
    (h : Header) (a : Answers)
    → IsValid h
    → IsGranted a
    → (ltb h.allocated_pages h.page_count ≡ false) ⊎ (first_free h ≡ none)
    → h.page_count < max_page_num h
    → Given h a h.page_count (extended h a.lsn)
extend-Given h a v g full room =
    let more : leb (max_page_num h) h.page_count ≡ false = ground arith in
    record {
      answered = extends h a full ∙ rw (more, g.log_ok, g.frame_ok) refl;
      inside = room;
      was_free = let self : ltb h.page_count h.page_count ≡ false = ground arith in rw self refl;
      lowest = λ j u. is_allocated-below h j u (all_set h v full j u);
      now = λ j. is_allocated-extended h a.lsn j v room;
    }

-- When a file has no page left.
pub record Exhausted (h : Header) (a : Answers) : Type 0 where
  pub refused : allocate_page h a ≡ (bufferpool_nobuf, h, none)
  pub all_allocated : (j : ℕ) → j < max_page_num h → is_allocated h j ≡ true

past_loop :
    (h : Header) (a : Answers)
    → IsValid h
    → IsGranted a
    → (ltb h.allocated_pages h.page_count ≡ false) ⊎ (first_free h ≡ none)
    → ((page : ℕ) × (h' : Header) × Given h a page h') ⊎ Exhausted h a
past_loop h a v g full = elim (Bool-cases (leb (max_page_num h) h.page_count)) [
  | inr room ↦ inl (h.page_count, extended h a.lsn, extend-Given h a v g full (ground arith))
  | inl none_left ↦
      let bound = page_count-le h v in
      let whole : h.page_count ≡ max_page_num h = ground arith in
      inr (record {
        refused = extends h a full ∙ rw none_left refl;
        all_allocated =
            λ j l. is_allocated-below h j (omega arith) (all_set h v full j (omega arith));
      })
]

-- `allocate_page` on a valid header, when the log, the page and the frame are granted: it gives away the
-- lowest page number that is not allocated, which is allocated then while all others are as before; or
-- every number below MAX_PAGE_NUM is allocated, and it answers BUFFERPOOL_NOBUF and changes nothing.
pub allocate_page-Given :
    (h : Header) (a : Answers)
    → IsValid h
    → IsGranted a
    → ((page : ℕ) × (h' : Header) × Given h a page h') ⊎ Exhausted h a
allocate_page-Given h a v g = elim (Bool-cases (ltb h.allocated_pages h.page_count)) [
  | inr compact ↦ past_loop h a v g (inl compact)
  | inl holes ↦ elim (Option-cases (first_free h)) [
    | inl e ↦ past_loop h a v g (inr e)
    | inr (i, e) ↦ inl (i, reused h a.lsn i, reuse-Given h a i v g holes e)
  ]
]
