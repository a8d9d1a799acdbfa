-- ===== src/Record/File.antt =====
-- RecordFileHandler of observer/storage/record/record_manager.cpp: the pages of a file and the set of those
-- that are not full, as a list in some order. What the buffer pool answers is an argument; a page that is
-- not allocated is not opened, as `get_this_page` tests its number.
pub mod Place
pub mod Drop
mod Tests
use csu_dbms.Base.{
  ℕ, Bool, true, false, not, Option, none, some, List, [], ◌∷◌, ◌==◌, if◌then◌else◌,
}
use csu_dbms.Rc.{Rc, success, is_success, bufferpool_invalid_page_num}
use csu_dbms.Record.Page
use csu_dbms.Record.Page.{Page, is_full, is_empty}

pub record File : Type 0 where
  pub free_pages : List ℕ
  pub pages : ℕ → Option Page

-- `init` of a page, `allocate_page` with the number of the page, `init_empty_page` with the page that it
-- leaves, and `dispose_page`.
pub record Answers : Type 0 where
  pub opened_rc : ℕ → Rc
  pub allocate_rc : Rc
  pub page_num : ℕ
  pub init_rc : Rc
  pub init_page : Page
  pub dispose_rc : Rc

pub data Opened : Type 0 where
  opened : Page → Opened
  failed : Rc → Opened

-- `record_page_handler->init(…, READ_WRITE)`
abbrev pub writable : Page → Page
writable p = record p { read_only = false }

abbrev pub open_page : Answers → File → ℕ → Opened
open_page a f n = elim (f.pages n) [
  | none ↦ failed bufferpool_invalid_page_num
  | some p ↦ if is_success (a.opened_rc n) then opened (writable p) else failed (a.opened_rc n)
]

-- `std::unordered_set` as it is used here.
unfoldable pub erase : ℕ → List ℕ → List ℕ
erase n [] = []
erase n (k ∷ ks) = let rest = erase n ks in if k == n then rest else k ∷ rest

abbrev pub insert_page : ℕ → List ℕ → List ℕ
insert_page n ks = n ∷ erase n ks

abbrev pub put_page : (ℕ → Option Page) → ℕ → Option Page → ℕ → Option Page
put_page m n p k = if n == k then p else m k

pub data Search : Type 0 where
  found : ℕ → Page → Search
  stopped : Rc → Search
  nothing : Search

-- The loop over the free pages, with the ones that it leaves.
unfoldable pub find_page : Answers → File → List ℕ → Search × List ℕ
find_page a f [] = (nothing, [])
find_page a f (n ∷ rest) =
    let later = find_page a f rest in
    elim (open_page a f n) [
      | failed rc ↦ (stopped rc, n ∷ rest)
      | opened p ↦ if is_full p then later else (found n p, n ∷ rest)
    ]

abbrev pub Inserted : Type 0
Inserted = Option (Rc × File × Option (ℕ × ℕ))

-- The insertion into the page at last, and the record's id.
abbrev pub placed_in : File → ℕ → Rc × Page × Option ℕ → Rc × File × Option (ℕ × ℕ)
placed_in f n (rc, p, none) = (rc, record f { pages = put_page f.pages n (some p) }, none)
placed_in f n (rc, p, some slot) =
    (rc, record f { pages = put_page f.pages n (some p) }, some (n, slot))

abbrev pub place : File → ℕ → Page → List ℕ → Inserted
place f n p bytes = elim (Page.insert_record p bytes) [
  | none ↦ none
  | some x ↦ some (placed_in f n x)
]

-- No page was found, and the set is empty.
abbrev pub allocated : Answers → File → List ℕ → Inserted
allocated a f bytes =
    if not (is_success a.allocate_rc)
    then some (a.allocate_rc, record f { free_pages = [] }, none)
    else (if not (is_success a.init_rc)
        then some (
          a.init_rc,
          record { free_pages = []; pages = put_page f.pages a.page_num (some a.init_page) },
          none,
        )
        else place (record f { free_pages = a.page_num ∷ [] }) a.page_num (writable a.init_page)
            bytes)

unfoldable pub insert_record : Answers → List ℕ → File → Inserted
insert_record a bytes f = elim (find_page a f f.free_pages).0 [
  | stopped rc ↦ some (rc, record f { free_pages = (find_page a f f.free_pages).1 }, none)
  | found n p ↦ place (record f { free_pages = (find_page a f f.free_pages).1 }) n p bytes
  | nothing ↦ allocated a f bytes
]

-- What follows a deletion that succeeded.
abbrev pub after_delete : Answers → ℕ → Page → File → File
after_delete a n p f =
    if is_empty p
    then (if is_success a.dispose_rc
        then record { free_pages = erase n f.free_pages; pages = put_page f.pages n none }
        else record f {
          free_pages = insert_page n (erase n f.free_pages);
          pages = put_page f.pages n (some p);
        })
    else record f { free_pages = insert_page n f.free_pages; pages = put_page f.pages n (some p) }

unfoldable pub delete_record : Answers → ℕ → ℕ → File → Option (Rc × File)
delete_record a n slot f = elim (open_page a f n) [
  | failed rc ↦ some (rc, f)
  | opened p ↦ elim (Page.delete_record p slot) [
    | none ↦ none
    | some (rc, p') ↦ some (if is_success rc then (rc, after_delete a n p' f) else (rc, f))
  ]
]

unfoldable pub get_record : Answers → ℕ → ℕ → File → Rc × Option (List ℕ)
get_record a n slot f = elim (open_page a f n) [
  | failed rc ↦ (rc, none)
  | opened p ↦ Page.get_record p slot
]

-- The loop of `init_free_pages` over the pages that a BufferPoolIterator gives from page 1 on. They are
-- opened read only, which is all the same to the test.
unfoldable pub init_free_pages : Answers → List ℕ → File → Rc × File
init_free_pages a [] f = (success, f)
init_free_pages a (n ∷ rest) f =
    let full = init_free_pages a rest f in
    let not_full = init_free_pages a rest (record f { free_pages = insert_page n f.free_pages }) in
    elim (open_page a f n) [ failed rc ↦ (rc, f) | opened p ↦ if is_full p then full else not_full ]

-- The page is opened before `recover_page`, so that its bit is set then.
unfoldable pub recover_insert_record : Answers → ℕ → ℕ → List ℕ → File → Rc × File
recover_insert_record a n slot bytes f = elim (open_page a f n) [
  | failed rc ↦ (rc, f)
  | opened p ↦
      let (rc, p') = Page.recover_insert_record p bytes slot in
      (rc, record f { pages = put_page f.pages n (some p') })
]

-- The callback is given a copy of the record, and tells whether it has changed it.
unfoldable pub visit_record : Answers → (List ℕ → Bool × List ℕ) → ℕ → ℕ → File → Option (Rc × File)
visit_record a updater n slot f = elim (open_page a f n) [
  | failed rc ↦ some (rc, f)
  | opened p ↦ elim (Page.get_record p slot).1 [
    | none ↦ some ((Page.get_record p slot).0, f)
    | some bytes ↦
        if (updater bytes).0
        then (elim (Page.update_record p slot (updater bytes).1) [
          | none ↦ none
          | some (rc, p') ↦ some (rc, record f { pages = put_page f.pages n (some p') })
        ])
        else some (success, f)
  ]
]
