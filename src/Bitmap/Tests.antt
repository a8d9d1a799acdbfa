-- ===== src/Bitmap/Tests.antt =====
-- A bitmap of eleven bits, and the theorems at it.
use csu_dbms.Base.{
  ◌-◌, ◌≡◌, refl, true, not, some, none, [], ◌∷◌, if◌then◌else◌, ◌==◌, search_from, arith,
}
use csu_dbms.Bitmap.{
  Bitmap, bytes, find_first_zero, find_first_setted, get_bit, set_bit, unsetted_loop, setted_loop,
  next_unsetted_bit, next_setted_bit,
}
use csu_dbms.Bitmap.Bits
use csu_dbms.Bitmap.Search

-- The bits 0 to 7 and 10.
abbrev eleven : Bitmap
eleven = record { bitmap = 255 ∷ 4 ∷ []; size = 11 }

eleven-IsValid : Bits.IsValid eleven
unfolding bytes
eleven-IsValid = record { are_bytes = (omega arith, (omega arith, tt)); roomy = omega arith }

first_free : next_unsetted_bit eleven 3 ≡ some 8
unfolding next_unsetted_bit unsetted_loop find_first_zero search_from bytes
first_free = refl

next_set : next_setted_bit eleven 8 ≡ some 10
unfolding next_setted_bit setted_loop find_first_setted search_from bytes
next_set = refl

none_set : next_setted_bit eleven 11 ≡ none
unfolding next_setted_bit setted_loop find_first_setted search_from bytes
none_set = refl

next_unsetted_bit-search_from_example :
    next_unsetted_bit eleven 3 ≡ search_from (λ i. not (get_bit eleven i)) 3 (eleven.size - 3)
next_unsetted_bit-search_from_example = Search.next_unsetted_bit-search_from eleven 3 eleven-IsValid

get_bit-set_bit_example :
    get_bit (set_bit eleven 9) 10 ≡ (if 9 == 10 then true else get_bit eleven 10)
get_bit-set_bit_example = Bits.get_bit-set_bit eleven 9 10 eleven-IsValid (omega arith)
