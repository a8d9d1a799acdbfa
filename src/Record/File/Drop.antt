-- ===== src/Record/File/Drop.antt =====
-- Deletion from a file of records, observer/storage/record/record_manager.cpp: a page that has become empty is
-- given back, and no other record goes with it.
use csu_dbms.Base.{
  ℕ, ◌<◌, ◌≡◌, ◌≢◌, refl, sym, ap, subst, ◌∙◌, ◌⊎◌, inl, inr, true, false, Option, none, some, List,
  [], ◌∷◌, leb, ◌==◌, ==_iff, if◌then◌else◌, Bool-cases, All, arith,
}
use csu_dbms.Rc.{success, is_success}
use csu_dbms.Record.Page
use csu_dbms.Record.Page.{Page, is_empty, cleared}
use csu_dbms.Record.Page.Counts
use csu_dbms.Record.Page.Remove
use csu_dbms.Bitmap.{get_bit}
use csu_dbms.Bitmap.Counts.{count-none}
use csu_dbms.Record.File.{
  File, Answers, writable, put_page, erase, insert_page, open_page, after_delete, delete_record,
}
use csu_dbms.Record.File.Place.{lookup, IsKnown, IsValid, IsKnown-put_page}

-- What a deletion does to the file.
pub record Dropped (a : Answers) (f : File) (n slot : ℕ) (f' : File) : Type 0 where
  pub answered : delete_record a n slot f ≡ some (success, f')
  pub gone : lookup f' n slot ≡ none
  pub others : (k j : ℕ) → (n ≢ k) ⊎ (slot ≢ j) → lookup f' k j ≡ lookup f k j
  pub still_valid : IsValid f'

All-erase : (P : ℕ → Type 0) (n : ℕ) (ks : List ℕ) → All P ks → All P (erase n ks)
unfolding erase
All-erase P n [] h = tt
All-erase P n (k ∷ ks) h = elim (Bool-cases (k == n)) [
  | inl e ↦ rw e (All-erase P n ks h.1)
  | inr ne ↦ rw ne (h.0, All-erase P n ks h.1)
]

-- The pages but for one stay known when that leaves.
IsKnown-erase :
    (pages : ℕ → Option Page) (n : ℕ) (ks : List ℕ)
    → All (IsKnown pages) ks
    → All (IsKnown (put_page pages n none)) (erase n ks)
unfolding erase
IsKnown-erase pages n [] h = tt
IsKnown-erase pages n (k ∷ ks) h = elim (Bool-cases (k == n)) [
  | inl e ↦ rw e (IsKnown-erase pages n ks h.1)
  | inr ne ↦
      let ne' : (n == k) ≡ false = ground arith in
      rw ne ((h.0.0, rw ne' h.0.1), IsKnown-erase pages n ks h.1)
]

-- A page that counts no record has none.
get_record-empty :
    (p : Page) (j : ℕ) → Counts.IsValid p → is_empty p ≡ true → (Page.get_record p j).1 ≡ none
unfolding is_empty Page.get_record
get_record-empty p j v e = elim (Bool-cases (leb (Page.record_capacity p) j)) [
  | inl out ↦ rw out refl
  | inr within ↦
      let zero_records : p.record_num ≡ 0 = ground arith in
      let clear =
        count-none (get_bit p.bits) (Page.record_capacity p) (sym v.counted ∙ zero_records) j
          (ground arith) in
      rw (within, clear) refl
]

-- A file in which one page is replaced by one that lacks a record, or by none when that has no record.
module _ (f : File) (n slot : ℕ) (q q' : Page) (v : IsValid f) (at : f.pages n ≡ some q)
    (valid : Counts.IsValid q') (gone : (Page.get_record q' slot).1 ≡ none)
    (rest : (j : ℕ) → slot ≢ j → (Page.get_record q' j).1 ≡ (Page.get_record q j).1) where
  kept_page :
      (a : Answers) (free : List ℕ)
      → All (IsKnown (put_page f.pages n (some q'))) free
      → delete_record a n slot f
        ≡ some (success, record { free_pages = free; pages = put_page f.pages n (some q') })
      → Dropped a f n slot (record { free_pages = free; pages = put_page f.pages n (some q') })
  kept_page a free known h =
      let self : (n == n) ≡ true = ground arith in
      record {
        answered = h;
        gone = rw (lookup, self) gone;
        others = λ k j differ. elim (Bool-cases (n == k)) [
          | inr ne ↦ rw (lookup, ne) refl
          | inl e ↦
              let same : n ≡ k = (==_iff n k).0 e in
              rw (lookup, e)
                (elim differ [
                  | inl other ↦ absurd (other same)
                  | inr slot_differs ↦ rest j slot_differs ∙ before j ∙ ap (λ x. lookup f x j) same
                ])
        ];
        still_valid = record {
          pages_valid = λ k x e. elim (Bool-cases (n == k)) [
            | inl here ↦
                let now : some q' ≡ some x =
                  subst (λ b. (if b then some q' else f.pages k) ≡ some x) here e in
                let page : q' ≡ x = cc in subst Counts.IsValid page valid
            | inr ne ↦
                v.pages_valid k x (subst (λ b. (if b then some q' else f.pages k) ≡ some x) ne e)
          ];
          free_known = known;
        };
      }
    where
      before : (j : ℕ) → (Page.get_record q j).1 ≡ lookup f n j
      before j = rw (lookup, at) refl

  disposed_page :
      (a : Answers)
      → is_empty q' ≡ true
      → delete_record a n slot f
        ≡ some
            (success, record { free_pages = erase n f.free_pages; pages = put_page f.pages n none })
      → Dropped a f n slot
          (record { free_pages = erase n f.free_pages; pages = put_page f.pages n none })
  disposed_page a empty h =
      let self : (n == n) ≡ true = ground arith in
      record {
        answered = h;
        gone = rw (lookup, self) refl;
        others = λ k j differ. elim (Bool-cases (n == k)) [
          | inr ne ↦ rw (lookup, ne) refl
          | inl e ↦
              let same : n ≡ k = (==_iff n k).0 e in
              rw (lookup, e)
                (elim differ [
                  | inl other ↦ absurd (other same)
                  | inr slot_differs ↦
                      sym (get_record-empty q' j valid empty)
                      ∙ rest j slot_differs
                      ∙ before j
                      ∙ ap (λ x. lookup f x j) same
                ])
        ];
        still_valid = record {
          pages_valid = λ k x e. elim (Bool-cases (n == k)) [
            | inl here ↦ absurd (
                let clash : none ≡ some x =
                  subst (λ b. (if b then none else f.pages k) ≡ some x) here e in
                cc)
            | inr ne ↦
                v.pages_valid k x (subst (λ b. (if b then none else f.pages k) ≡ some x) ne e)
          ];
          free_known = IsKnown-erase f.pages n f.free_pages v.free_known;
        };
      }
    where
      before : (j : ℕ) → (Page.get_record q j).1 ≡ lookup f n j
      before j = rw (lookup, at) refl

insert_page-All-IsKnown :
    (pages : ℕ → Option Page) (n : ℕ) (q' : Page) (ks : List ℕ)
    → All (IsKnown (put_page pages n (some q'))) ks
    → All (IsKnown (put_page pages n (some q'))) (insert_page n ks)
insert_page-All-IsKnown pages n q' ks h =
    let self : (n == n) ≡ true = ground arith in ((q', rw self refl), All-erase _ n ks h)

-- Deletion of a record of a valid file, whose page is opened: it succeeds and the record is gone; every other
-- record is as before, also when the page has become empty and is given back, or cannot be; and the file is
-- valid again.
pub delete_record-Dropped :
    (a : Answers) (f : File) (n slot : ℕ) (q : Page)
    → IsValid f
    → is_success (a.opened_rc n) ≡ true
    → f.pages n ≡ some q
    → slot < Page.record_capacity q
    → get_bit q.bits slot ≡ true
    → (f' : File) × Dropped a f n slot f'
unfolding delete_record
delete_record-Dropped a f n slot q v opens at l set =
    let old = v.pages_valid n q at in
    let v' : Counts.IsValid (writable q) = record {
      bits_valid = old.bits_valid;
      counted = old.counted;
    } in
    let del = Remove.delete_record-Deleted (writable q) slot v' refl l set in
    let q' = cleared (writable q) slot in
    let gone : (Page.get_record q' slot).1 ≡ none = ap (λ x. x.1) del.gone in
    let rest : (j : ℕ) → slot ≢ j → (Page.get_record q' j).1 ≡ (Page.get_record q j).1 =
      λ j ne. unfold Page.get_record in ap (λ x. x.1) (del.others j ne) in
    let known = IsKnown-put_page f.pages n q' f.free_pages v.free_known in
    let answer : delete_record a n slot f ≡ some (success, after_delete a n q' f) =
      unfold delete_record in rw (delete_record, open_page, at, opens, del.answered) refl in
    elim (Bool-cases (is_empty q')) [
      | inr some_left ↦ (
        _,
        kept_page f n slot q q' v at del.still_valid gone rest a (insert_page n f.free_pages)
            (insert_page-All-IsKnown f.pages n q' f.free_pages known)
            (answer ∙ rw (after_delete, some_left) refl),
      )
      | inl empty ↦ elim (Bool-cases (is_success a.dispose_rc)) [
        | inl given ↦ (
          _,
          disposed_page f n slot q q' v at del.still_valid gone rest a empty
              (answer ∙ rw (after_delete, empty, given) refl),
        )
        | inr refused ↦ (
          _,
          kept_page f n slot q q' v at del.still_valid gone rest a
              (insert_page n (erase n f.free_pages))
              (insert_page-All-IsKnown f.pages n q' (erase n f.free_pages)
                (All-erase _ n f.free_pages known))
              (answer ∙ rw (after_delete, empty, refused) refl),
        )
      ]
    ]
