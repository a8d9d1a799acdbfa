-- ===== src/Pool/Tests.antt =====
-- A small file, and the theorems of the allocation of pages at it.
use csu_dbms.Base.{ℕ, ◌≡◌, ◌⊎◌, refl, true, some, List, [], ◌∷◌, search_from, arith}
use csu_dbms.Rc.{success, internal}
use csu_dbms.Bitmap.{bytes, get_bit, set_bit, clear_bit}
use csu_dbms.Bitmap.Counts.{count}
use csu_dbms.Pool.Header.{
  Header, Answers, Call, created, create_file, allocate_page, check_page_num, dispose_page,
  recover_page, replay_log, step, run, allocating, disposing,
}
use csu_dbms.Pool.Header.Invariant
use csu_dbms.Pool.Header.Fresh
use csu_dbms.Pool.Header.Redo

abbrev granted : ℕ → Answers
granted lsn = record {
  log_rc = success;
  lsn = lsn;
  page_rc = success;
  frame_rc = success;
  pin_count = some 1;
}

-- A file of at most 16 pages.
abbrev small : Header
small = created 1

-- Two pages are allocated, and the first is disposed of and allocated again.
abbrev first_calls : List Call
first_calls = allocating (granted 1) ∷ allocating (granted 2) ∷ []

abbrev later_calls : List Call
later_calls = disposing (granted 3) 1 ∷ allocating (granted 4) ∷ []

run_small : run later_calls (run first_calls small) ≡ record small {
  page_count = 3;
  allocated_pages = 3;
  bitmap = 7 ∷ 0 ∷ [];
  lsn = 4;
  dirty = true;
  log = (run later_calls (run first_calls small)).log;
}
unfolding get_bit set_bit clear_bit search_from allocate_page check_page_num dispose_page step run
run_small = refl

header_page_kept : (dispose_page small (granted 1) 0).0 ≡ internal
unfolding dispose_page
header_page_kept = refl

-- `recover_page` counts a page that the file already has.
recover_page_counts :
    (recover_page
      (record small { page_count = 3; allocated_pages = 2; bitmap = 5 ∷ 0 ∷ [] })
      1).page_count
    ≡ 4
unfolding recover_page get_bit
recover_page_counts = refl

small-IsValid : Invariant.IsValid small
unfolding bytes get_bit count
small-IsValid = record {
  pages_valid = record { are_bytes = (omega arith, (omega arith, tt)); roomy = omega arith };
  counted = refl;
  header_page = refl;
  some_page = omega arith;
}

first_fresh : Redo.AllFresh first_calls small
unfolding get_bit set_bit search_from allocate_page step
first_fresh = ((omega arith, refl), ((omega arith, refl), tt))

later_fresh : Redo.AllFresh later_calls (run first_calls small)
unfolding get_bit set_bit clear_bit search_from allocate_page check_page_num dispose_page step run
later_fresh = (omega arith, ((omega arith, refl), tt))

run-create_file-Agrees_example : Invariant.Agrees (run first_calls create_file)
run-create_file-Agrees_example = Invariant.run-create_file-Agrees first_calls

allocate_page-Given_example :
    ((page : ℕ) × (h : Header) × Fresh.Given small (granted 1) page h)
    ⊎ Fresh.Exhausted small (granted 1)
allocate_page-Given_example =
    Fresh.allocate_page-Given small (granted 1) small-IsValid
      (record { log_ok = refl; page_ok = refl; frame_ok = refl })

replay_log-run_example :
    Redo.SamePages
      (run later_calls (run first_calls small))
      (replay_log (run later_calls (run first_calls small)).log (run first_calls small))
replay_log-run_example =
    Redo.replay_log-run small first_calls later_calls refl first_fresh later_fresh
