-- ===== src/Pool/Header.antt =====
-- The allocation of pages in DiskBufferPool of observer/storage/os/buffer/disk_buffer_pool.cpp: the header
-- page of a file with the bitmap of its pages, the LSN and dirty mark of its frame, and the log entries of
-- the buffer pool, newest first. Page numbers are not negative here. What the log handler and the
-- frame manager answer to an operation are its arguments. The code holds the pool's lock meanwhile.
pub mod Invariant
pub mod Fresh
pub mod Redo
use csu_dbms.Base.{
  ℕ, zero, suc, ◌+◌, ◌-◌, ◌*◌, ◌<◌, ◌≡◌, Bool, true, false, not, Option, none, some, List, [], ◌∷◌,
  ltb, leb, ◌==◌, if◌then◌else◌, length, replicate, search_from,
}
use csu_dbms.Rc.{
  Rc, is_success, success, internal, bufferpool_nobuf, bufferpool_invalid_page_num, locked_unlock,
}
use csu_dbms.Bitmap.{Bitmap, get_bit, set_bit, clear_bit}

pub data Logged : Type 0 where
  allocate deallocate : ℕ → ℕ → Logged

pub record Header : Type 0 where
  pub page_count : ℕ
  pub allocated_pages : ℕ
  pub bitmap : List ℕ
  pub lsn : ℕ
  pub dirty : Bool
  pub log : List Logged

-- `Bitmap bitmap(file_header_->bitmap, file_header_->page_count);`
abbrev pub pages : Header → Bitmap
pages h = record { bitmap = h.bitmap; size = h.page_count }

-- The bytes of the bitmap, and MAX_PAGE_NUM.
abbrev pub bitmap_bytes : ℕ
bitmap_bytes = 8168

abbrev pub max_page_num : Header → ℕ
max_page_num h = length h.bitmap * 8

-- The header that `create_file` writes, for a bitmap of `1 + n` bytes.
abbrev pub created : ℕ → Header
created n = record {
  page_count = 1;
  allocated_pages = 1;
  bitmap = 1 ∷ replicate n 0;
  lsn = 0;
  dirty = false;
  log = [];
}

abbrev pub create_file : Header
create_file = created (bitmap_bytes - 1)

-- What is answered to one operation: the log handler with the entry's LSN, `get_this_page`,
-- `allocate_frame`, and the pin count of the page's frame, with the pin of the lookup, if it has one.
pub record Answers : Type 0 where
  pub log_rc : Rc
  pub lsn : ℕ
  pub page_rc : Rc
  pub frame_rc : Rc
  pub pin_count : Option ℕ

abbrev pub Answered : Type 0
Answered = Rc × Header × Option ℕ

abbrev pub reused : Header → ℕ → ℕ → Header
reused h lsn i = record h {
  allocated_pages = h.allocated_pages + 1;
  bitmap = (set_bit (pages h) i).bitmap;
  dirty = true;
  lsn = lsn;
  log = allocate lsn i ∷ h.log;
}

-- A page of the bitmap that is free is logged and marked; then it is read.
abbrev pub reuse : Header → Answers → ℕ → Answered
reuse h a i =
    if is_success a.log_rc
    then (a.page_rc, reused h a.lsn i, if is_success a.page_rc then some i else none)
    else (a.log_rc, h, none)

abbrev pub logged_next : Header → ℕ → Header
logged_next h lsn = record h { lsn = lsn; log = allocate lsn h.page_count ∷ h.log }

abbrev pub extended : Header → ℕ → Header
extended h lsn = record (logged_next h lsn) {
  allocated_pages = h.allocated_pages + 1;
  page_count = h.page_count + 1;
  bitmap = (set_bit (pages h) h.page_count).bitmap;
  dirty = true;
}

-- The file grows by a page. A failed flush of it is only warned of.
abbrev pub extend : Header → Answers → Answered
extend h a =
    if leb (max_page_num h) h.page_count
    then (bufferpool_nobuf, h, none)
    else (if is_success a.log_rc
        then (if is_success a.frame_rc
            then (success, extended h a.lsn, some h.page_count)
            else (a.frame_rc, logged_next h a.lsn, none))
        else (a.log_rc, h, none))

-- The loop over the bits.
abbrev pub first_free : Header → Option ℕ
first_free h = search_from (λ i. not (get_bit (pages h) i)) 0 h.page_count

unfoldable pub allocate_page : Header → Answers → Answered
allocate_page h a =
    if ltb h.allocated_pages h.page_count
    then (elim (first_free h) [ none ↦ extend h a | some i ↦ reuse h a i ])
    else extend h a

unfoldable pub check_page_num : Header → ℕ → Rc
check_page_num h page_num =
    if leb h.page_count page_num
    then bufferpool_invalid_page_num
    else (if get_bit (pages h) page_num then success else bufferpool_invalid_page_num)

abbrev pub is_pinned : Option ℕ → Bool
is_pinned none = false
is_pinned (some pin_count) = not (pin_count == 1)

abbrev pub disposed : Header → ℕ → ℕ → Header
disposed h lsn page_num = record h {
  allocated_pages = h.allocated_pages - 1;
  bitmap = (clear_bit (pages h) page_num).bitmap;
  dirty = true;
  lsn = lsn;
  log = deallocate lsn page_num ∷ h.log;
}

unfoldable pub dispose_page : Header → Answers → ℕ → Rc × Header
dispose_page h a page_num =
    if page_num == 0
    then (internal, h)
    else (if is_success (check_page_num h page_num)
        then (if is_pinned a.pin_count
            then (locked_unlock, h)
            else (if is_success a.log_rc
                then (success, disposed h a.lsn page_num)
                else (a.log_rc, h)))
        else (check_page_num h page_num, h))

unfoldable pub redo_allocate_page : Header → ℕ → ℕ → Rc × Header
redo_allocate_page h lsn page_num =
    if leb lsn h.lsn
    then (success, h)
    else (if ltb page_num h.page_count
        then (
          success,
          if get_bit (pages h) page_num then h else record h {
            bitmap = (set_bit (pages h) page_num).bitmap;
            allocated_pages = h.allocated_pages + 1;
            dirty = true;
          },
        )
        else (if ltb h.page_count page_num
            then (internal, h)
            else (if leb (max_page_num h) h.page_count then (internal, h) else (
              success,
              record h {
                allocated_pages = h.allocated_pages + 1;
                page_count = h.page_count + 1;
                lsn = lsn;
                dirty = true;
                bitmap = (set_bit (pages h) page_num).bitmap;
              },
            ))))

unfoldable pub redo_deallocate_page : Header → ℕ → ℕ → Rc × Header
redo_deallocate_page h lsn page_num =
    if leb lsn h.lsn
    then (success, h)
    else (if leb h.page_count page_num
        then (internal, h)
        else (if get_bit (pages h) page_num
            then (
              success,
              record h {
                bitmap = (clear_bit (pages h) page_num).bitmap;
                allocated_pages = h.allocated_pages - 1;
                lsn = lsn;
                dirty = true;
              },
            )
            else (internal, h)))

unfoldable pub recover_page : Header → ℕ → Header
recover_page h page_num = if get_bit (pages h) page_num then h else record h {
  bitmap = (set_bit (pages h) page_num).bitmap;
  allocated_pages = h.allocated_pages + 1;
  page_count = h.page_count + 1;
  dirty = true;
}

-- BufferPoolLogReplayer of an entry, and of a log.
unfoldable pub replay : Logged → Header → Rc × Header
replay (allocate lsn page_num) h = redo_allocate_page h lsn page_num
replay (deallocate lsn page_num) h = redo_deallocate_page h lsn page_num

unfoldable pub replay_log : List Logged → Header → Header
replay_log [] h = h
replay_log (e ∷ older) h = (replay e (replay_log older h)).1

-- A client's calls, each with what is answered in it.
pub data Call : Type 0 where
  allocating : Answers → Call
  disposing : Answers → ℕ → Call

unfoldable pub step : Call → Header → Header
step (allocating a) h = (allocate_page h a).1
step (disposing a page_num) h = (dispose_page h a page_num).1

unfoldable pub run : List Call → Header → Header
run [] h = h
run (c ∷ calls) h = run calls (step c h)
