-- ===== src/Record/Page/Counts.antt =====
-- The count of a page's header against the bits of its bitmap, for the pages of
-- observer/storage/record/record_manager.cpp.
use csu_dbms.Base.{ℕ, ◌+◌, ◌<◌, ◌≡◌, ap, sym, ◌∙◌, true, false}
use csu_dbms.Bitmap.{get_bit, set_bit, clear_bit}
use csu_dbms.Bitmap.Bits
use csu_dbms.Bitmap.Counts
use csu_dbms.Bitmap.Counts.{count}
use csu_dbms.Record.Page.{Page, record_capacity}

-- A page whose count is the number of its taken slots.
pub record IsValid (p : Page) : Type 0 where
  pub bits_valid : Bits.IsValid p.bits
  pub counted : p.record_num ≡ count (get_bit p.bits) (record_capacity p)

pub count-set_bit :
    (p : Page) (i : ℕ)
    → IsValid p
    → i < record_capacity p
    → get_bit p.bits i ≡ false
    → count (get_bit (set_bit p.bits i)) (record_capacity p) ≡ p.record_num + 1
count-set_bit p i v l e =
    Counts.count-set_bit p.bits i v.bits_valid l e ∙ ap (λ n. n + 1) (sym v.counted)

pub count-clear_bit :
    (p : Page) (i : ℕ)
    → IsValid p
    → i < record_capacity p
    → get_bit p.bits i ≡ true
    → count (get_bit (clear_bit p.bits i)) (record_capacity p) + 1 ≡ p.record_num
count-clear_bit p i v l e = Counts.count-clear_bit p.bits i v.bits_valid l e ∙ sym v.counted
