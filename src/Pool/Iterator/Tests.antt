-- ===== src/Pool/Iterator/Tests.antt =====
-- A file of four pages, and the theorem of the iterator at it.
use csu_dbms.Base.{◌≡◌, refl, false, [], ◌∷◌, search_from, arith}
use csu_dbms.Bitmap.{bytes, find_first_setted, setted_loop, next_setted_bit}
use csu_dbms.Bitmap.Bits
use csu_dbms.Pool.Header.{Header, pages}
use csu_dbms.Pool.Iterator.{init, reset, has_next, next, walk}

-- The pages 0, 1 and 3 are allocated.
abbrev four_pages : Header
four_pages = record {
  page_count = 4;
  allocated_pages = 3;
  bitmap = 11 ∷ [];
  lsn = 0;
  dirty = false;
  log = [];
}

pages-IsValid : Bits.IsValid (pages four_pages)
unfolding bytes
pages-IsValid = record { are_bytes = (omega arith, tt); roomy = omega arith }

data_pages : walk 4 (init four_pages 1) ≡ 1 ∷ 3 ∷ []
unfolding walk has_next next next_setted_bit setted_loop find_first_setted search_from bytes
data_pages = refl

-- A reset iterator does not give page 0 again.
reset_skips : walk 4 (reset (init four_pages 0)) ≡ 1 ∷ 3 ∷ []
unfolding walk has_next next next_setted_bit setted_loop find_first_setted search_from bytes
reset_skips = refl
