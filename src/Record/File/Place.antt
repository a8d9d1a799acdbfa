-- ===== src/Record/File/Place.antt =====
-- Insertion into a file of records, observer/storage/record/record_manager.cpp: the file as a map from record
-- ids to records.
use csu_dbms.Base.{
  ℕ, ◌≡◌, ◌≢◌, refl, sym, ap, subst, ◌∙◌, ◌⊎◌, inl, inr, true, false, Option, none, some, List, [],
  ◌∷◌, leb, ◌==◌, ==_iff, if◌then◌else◌, Bool-cases, All, All-map, arith,
}
use csu_dbms.Rc.{success, is_success}
use csu_dbms.Record.Page
use csu_dbms.Record.Page.{Page, is_full}
use csu_dbms.Record.Page.Counts
use csu_dbms.Record.Page.Insert
use csu_dbms.Bitmap.{get_bit}
use csu_dbms.Record.File.{
  File, Answers, Search, stopped, found, nothing, writable, put_page, find_page, open_page, place,
  allocated, insert_record,
}

-- The record with an id.
abbrev pub lookup : File → ℕ → ℕ → Option (List ℕ)
lookup f n slot = elim (f.pages n) [ none ↦ none | some p ↦ (Page.get_record p slot).1 ]

abbrev pub IsKnown : (ℕ → Option Page) → ℕ → Type 0
IsKnown pages n = (p : Page) × (pages n ≡ some p)

-- Every page is valid, and the free pages are pages.
pub record IsValid (f : File) : Type 0 where
  pub pages_valid : (n : ℕ) (p : Page) → f.pages n ≡ some p → Counts.IsValid p
  pub free_known : All (IsKnown f.pages) f.free_pages

-- The buffer pool opens the pages of the file, and a new page is new to the file, valid, empty and has room.
pub record IsGranted (a : Answers) (f : File) : Type 0 where
  pub opens : (n : ℕ) → is_success (a.opened_rc n) ≡ true
  pub allocates : is_success a.allocate_rc ≡ true
  pub inits : is_success a.init_rc ≡ true
  pub new : f.pages a.page_num ≡ none
  pub init_valid : Counts.IsValid a.init_page
  pub init_empty : (j : ℕ) → (Page.get_record a.init_page j).1 ≡ none
  pub init_room : is_full a.init_page ≡ false

-- What an insertion does to the file.
pub record Stored (a : Answers) (bytes : List ℕ) (f : File) (n slot : ℕ) (f' : File) : Type 0 where
  pub answered : insert_record a bytes f ≡ some (success, f', some (n, slot))
  pub was_free : lookup f n slot ≡ none
  pub stored : lookup f' n slot ≡ some bytes
  pub others : (k j : ℕ) → (n ≢ k) ⊎ (slot ≢ j) → lookup f' k j ≡ lookup f k j
  pub still_valid : IsValid f'

pub get_record-clear :
    (p : Page) (j : ℕ) → get_bit p.bits j ≡ false → (Page.get_record p j).1 ≡ none
unfolding Page.get_record
get_record-clear p j e = elim (Bool-cases (leb (Page.record_capacity p) j)) [
  | inl out ↦ rw out refl
  | inr within ↦ rw (within, e) refl
]

-- The insertion into one page.
pub record Placed (n : ℕ) (bytes : List ℕ) (q : Page) (slot : ℕ) (q' : Page) : Type 0 where
  pub answered : Page.insert_record (writable q) bytes ≡ some (success, q', some slot)
  pub valid : Counts.IsValid q'
  pub was_free : (Page.get_record q slot).1 ≡ none
  pub stored : (Page.get_record q' slot).1 ≡ some bytes
  pub others : (j : ℕ) → slot ≢ j → (Page.get_record q' j).1 ≡ (Page.get_record q j).1

insert_record-Placed :
    (n : ℕ) (bytes : List ℕ) (q : Page)
    → Counts.IsValid q
    → is_full q ≡ false
    → (slot : ℕ) × (q' : Page) × Placed n bytes q slot q'
unfolding is_full Page.get_record
insert_record-Placed n bytes q v room =
    let v' : Counts.IsValid (writable q) = record {
      bits_valid = v.bits_valid;
      counted = v.counted;
    } in
    let (slot, ins) = Insert.insert_record-Inserted (writable q) bytes v' refl (ground arith) in
    (
      slot,
      Page.placed (writable q) slot bytes,
      record {
        answered = ins.answered;
        valid = ins.still_valid;
        was_free = get_record-clear q slot ins.was_free;
        stored = ap (λ x. x.1) ins.found;
        others = λ j ne. ap (λ x. x.1) (ins.others j ne);
      },
    )

pub IsKnown-put_page :
    (pages : ℕ → Option Page) (n : ℕ) (q : Page) (ks : List ℕ)
    → All (IsKnown pages) ks
    → All (IsKnown (put_page pages n (some q))) ks
IsKnown-put_page pages n q ks h =
    All-map _ _
      (λ k known. elim (Bool-cases (n == k)) [
        | inl e ↦ (q, rw e refl)
        | inr ne ↦ (known.0, rw ne known.1)
      ])
      ks h

-- An insertion that ends in `place`, into a page whose records are those of the file at this number.
place-Stored :
    (a : Answers) (bytes : List ℕ) (f : File) (free : List ℕ) (n : ℕ) (q : Page)
    → IsValid f
    → ((p : Page) → All (IsKnown (put_page f.pages n (some p))) free)
    → insert_record a bytes f ≡ place (record f { free_pages = free }) n (writable q) bytes
    → ((j : ℕ) → lookup f n j ≡ (Page.get_record q j).1)
    → Counts.IsValid q
    → is_full q ≡ false
    → (slot : ℕ) × (f' : File) × Stored a bytes f n slot f'
place-Stored a bytes f free n q v known ends same qv room =
    let (slot, q', p) = insert_record-Placed n bytes q qv room in
    let self : (n == n) ≡ true = ground arith in
    (
      slot,
      record { free_pages = free; pages = put_page f.pages n (some q') },
      record {
        answered = ends ∙ rw (place, p.answered) refl;
        was_free = same slot ∙ p.was_free;
        stored = rw (lookup, self) p.stored;
        others = λ k j differ. elim (Bool-cases (n == k)) [
          | inr ne ↦ rw (lookup, ne) refl
          | inl e ↦
              let at : n ≡ k = (==_iff n k).0 e in
              rw (lookup, e)
                (elim differ [
                  | inl other ↦ absurd (other at)
                  | inr slot_differs ↦
                      p.others j slot_differs ∙ sym (same j) ∙ ap (λ x. lookup f x j) at
                ])
        ];
        still_valid = record {
          pages_valid = λ k x e. elim (Bool-cases (n == k)) [
            | inl here ↦
                let now : some q' ≡ some x =
                  subst (λ b. (if b then some q' else f.pages k) ≡ some x) here e in
                let page : q' ≡ x = cc in subst Counts.IsValid page p.valid
            | inr ne ↦
                v.pages_valid k x (subst (λ b. (if b then some q' else f.pages k) ≡ some x) ne e)
          ];
          free_known = known q';
        };
      },
    )

-- What the loop over the free pages finds.
abbrev Finds : File → Search → Type 0
Finds f (stopped rc) = ⊥
Finds f (found n p) = (q : Page) × (f.pages n ≡ some q) × (p ≡ writable q) × (is_full q ≡ false)
Finds f nothing = Unit

find_page-Finds :
    (a : Answers) (f : File) (ks : List ℕ)
    → ((n : ℕ) → is_success (a.opened_rc n) ≡ true)
    → All (IsKnown f.pages) ks
    → Finds f (find_page a f ks).0 × All (IsKnown f.pages) (find_page a f ks).1
unfolding find_page is_full
find_page-Finds a f [] opens known = (tt, tt)
find_page-Finds a f (n ∷ rest) opens known =
    let (p, e) = known.0 in
    elim (Bool-cases (is_full p)) [
      | inl full ↦
          rw (find_page, open_page, e, opens n, is_full, full)
            (find_page-Finds a f rest opens known.1)
      | inr room ↦ rw (find_page, open_page, e, opens n, is_full, room) ((p, e, refl, room), known)
    ]

-- Insertion into a valid file, when the buffer pool grants what it is asked for: it succeeds with a record id
-- that was free, at which the record is found then; every other record is as before, and the file is valid
-- again. The record goes into a page that had room, or into a new page.
pub insert_record-Stored :
    (a : Answers) (bytes : List ℕ) (f : File)
    → IsValid f
    → IsGranted a f
    → (n : ℕ) × (slot : ℕ) × (f' : File) × Stored a bytes f n slot f'
unfolding insert_record
insert_record-Stored a bytes f v g =
    let (finds, left) = find_page-Finds a f f.free_pages g.opens v.free_known in
    by_search (find_page a f f.free_pages).0 refl finds left
  where
    by_search :
        (s : Search)
        → (find_page a f f.free_pages).0 ≡ s
        → Finds f s
        → All (IsKnown f.pages) (find_page a f f.free_pages).1
        → (n : ℕ) × (slot : ℕ) × (f' : File) × Stored a bytes f n slot f'
    by_search (stopped rc) e finds left = elim finds [ ]
    by_search (found n p) e (q, at, same, room) left =
        let (slot, f', st) =
          place-Stored a bytes f (find_page a f f.free_pages).1 n q v
            (λ x. IsKnown-put_page f.pages n x _ left)
            (unfold insert_record in rw (insert_record, e, same) refl) (λ j. rw (lookup, at) refl)
            (v.pages_valid n q at) room in
        (n, slot, f', st)
    by_search nothing e finds left =
        let (slot, f', st) =
          place-Stored a bytes f (a.page_num ∷ []) a.page_num a.init_page v
            (λ x. (
              (x, let here : (a.page_num == a.page_num) ≡ true = ground arith in rw here refl),
              tt,
            ))
            (unfold insert_record in rw (insert_record, e, allocated, g.allocates, g.inits) refl)
            (λ j. rw (lookup, g.new) (sym (g.init_empty j))) g.init_valid g.init_room in
        (a.page_num, slot, f', st)
