-- ===== src/Bitmap.antt =====
-- Bitmap of common/lang/bitmap.h and bitmap.cpp: numbered bits in an array of bytes. A byte is a number
-- below 256, and the answer -1 is none. The callers keep the index of a bit inside the array.
pub mod Bits
pub mod Counts
pub mod Search
mod Tests
use csu_dbms.Base.{
  ℕ, ◌+◌, ◌-◌, ◌*◌, ◌/◌, ◌%◌, ◌^◌, Bool, true, false, not, Option, none, some, List, [], ◌∷◌, ltb,
  ◌==◌, if◌then◌else◌, get_or, set, take, drop, search_from,
}

pub record Bitmap : Type 0 where
  pub bitmap : List ℕ
  pub size : ℕ

-- `(byte & (1 << i)) != 0`
abbrev pub bit : ℕ → ℕ → Bool
bit byte i = byte / 2 ^ i % 2 == 1

unfoldable pub find_first_zero : ℕ → ℕ → Option ℕ
find_first_zero byte start = search_from (λ i. not (bit byte i)) start (8 - start)

unfoldable pub find_first_setted : ℕ → ℕ → Option ℕ
find_first_setted byte start = search_from (bit byte) start (8 - start)

unfoldable pub bytes : ℕ → ℕ
bytes size = if size % 8 == 0 then size / 8 else size / 8 + 1

unfoldable pub get_bit : Bitmap → ℕ → Bool
get_bit m index = bit (get_or m.bitmap (index / 8) 0) (index % 8)

-- `byte |= (1 << i)` and `byte &= ~(1 << i)`
abbrev pub with_bit : ℕ → ℕ → ℕ
with_bit byte i = if bit byte i then byte else byte + 2 ^ i

abbrev pub without_bit : ℕ → ℕ → ℕ
without_bit byte i = if bit byte i then byte - 2 ^ i else byte

unfoldable pub set_bit : Bitmap → ℕ → Bitmap
set_bit m index = record m {
  bitmap = set m.bitmap (index / 8) (with_bit (get_or m.bitmap (index / 8) 0) (index % 8));
}

unfoldable pub clear_bit : Bitmap → ℕ → Bitmap
clear_bit m index = record m {
  bitmap = set m.bitmap (index / 8) (without_bit (get_or m.bitmap (index / 8) 0) (index % 8));
}

-- What a round of a search makes of the answer in its byte: `ret`, or the later rounds.
abbrev pub found_in : ℕ → Option ℕ → Option ℕ → Option ℕ
found_in iter none later = later
found_in iter (some index_in_byte) later = some (iter * 8 + index_in_byte)

-- The loops of the two searches, over the bytes from the first one on.
unfoldable pub unsetted_loop : ℕ → ℕ → List ℕ → Option ℕ
unsetted_loop iter start_in_byte [] = none
unsetted_loop iter start_in_byte (byte ∷ rest) =
    let later = unsetted_loop (iter + 1) 0 rest in
    if byte == 255 then later else found_in iter (find_first_zero byte start_in_byte) later

unfoldable pub setted_loop : ℕ → ℕ → List ℕ → Option ℕ
setted_loop iter start_in_byte [] = none
setted_loop iter start_in_byte (byte ∷ rest) =
    let later = setted_loop (iter + 1) 0 rest in
    if byte == 0 then later else found_in iter (find_first_setted byte start_in_byte) later

-- `if (ret >= size_) ret = -1;`
abbrev pub below_size : ℕ → Option ℕ → Option ℕ
below_size size none = none
below_size size (some ret) = if ltb ret size then some ret else none

unfoldable pub next_unsetted_bit : Bitmap → ℕ → Option ℕ
next_unsetted_bit m start =
    below_size m.size
      (unsetted_loop (start / 8) (start % 8) (drop (start / 8) (take (bytes m.size) m.bitmap)))

unfoldable pub next_setted_bit : Bitmap → ℕ → Option ℕ
next_setted_bit m start =
    below_size m.size
      (setted_loop (start / 8) (start % 8) (drop (start / 8) (take (bytes m.size) m.bitmap)))
