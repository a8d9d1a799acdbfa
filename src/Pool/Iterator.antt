-- ===== src/Pool/Iterator.antt =====
-- BufferPoolIterator of observer/storage/os/buffer/disk_buffer_pool.cpp: the allocated pages of a file by the
-- bitmap of its header. The page number -1 is none. The header stays as it is meanwhile.
mod Tests
use csu_dbms.Base.{
  ℕ, zero, suc, ◌+◌, ◌-◌, ◌≤◌, ◌<◌, ◌≡◌, refl, sym, ap, ◌∙◌, Bool, true, false, Option, none, some,
  List, [], ◌∷◌, ◌==◌, if◌then◌else◌, inl, inr, Bool-cases, search_from, arith,
}
use csu_dbms.Bitmap.{Bitmap, get_bit, next_setted_bit}
use csu_dbms.Bitmap.Search.{next_setted_bit-search_from}
use csu_dbms.Bitmap.Bits
use csu_dbms.Pool.Header.{Header, pages}

pub record Iterator : Type 0 where
  pub bitmap : Bitmap
  pub current_page_num : Option ℕ

abbrev pub init : Header → ℕ → Iterator
init h start_page = record {
  bitmap = pages h;
  current_page_num = if start_page == 0 then none else some (start_page - 1);
}

-- `current_page_num_ + 1`
abbrev pub next_start : Option ℕ → ℕ
next_start none = 0
next_start (some n) = n + 1

abbrev pub search : Iterator → Option ℕ
search it = next_setted_bit it.bitmap (next_start it.current_page_num)

abbrev pub is_page : Option ℕ → Bool
is_page none = false
is_page (some n) = true

unfoldable pub has_next : Iterator → Bool
has_next it = is_page (search it)

unfoldable pub next : Iterator → Option ℕ × Iterator
next it = elim (search it) [
  | none ↦ (none, it)
  | some n ↦ (some n, record it { current_page_num = some n })
]

abbrev pub reset : Iterator → Iterator
reset it = record it { current_page_num = some 0 }

-- `while (has_next()) next();`, on fuel.
unfoldable pub walk : ℕ → Iterator → List ℕ
walk zero it = []
walk (suc fuel) it =
    let (page, it') = next it in
    let later = walk fuel it' in
    if has_next it then (elim page [ none ↦ [] | some n ↦ n ∷ later ]) else []

-- The set bits among `rounds` ones from `i` on.
unfoldable pub set_bits : Bitmap → ℕ → ℕ → List ℕ
set_bits m i zero = []
set_bits m i (suc rounds) =
    let rest = set_bits m (i + 1) rounds in if get_bit m i then i ∷ rest else rest

walk-none : (fuel : ℕ) (it : Iterator) → search it ≡ none → walk fuel it ≡ []
unfolding walk has_next
walk-none zero it e = refl
walk-none (suc fuel) it e = rw (walk, has_next, e) refl

walk-some :
    (fuel : ℕ) (it : Iterator) (n : ℕ)
    → search it ≡ some n
    → walk (suc fuel) it ≡ n ∷ walk fuel (record it { current_page_num = some n })
unfolding walk
walk-some fuel it n e =
    let more : has_next it ≡ true = unfold has_next in rw (has_next, e) refl in
    let given : next it ≡ (some n, record it { current_page_num = some n }) =
      unfold next in rw (next, e) refl in
    let page = ap (λ x. x.0) given in
    let moved = ap (λ x. x.1) given in rw (walk, more, page, moved) refl

walk-search_from :
    (fuel i rounds : ℕ) (it : Iterator)
    → Bits.IsValid it.bitmap
    → i + rounds ≡ it.bitmap.size
    → rounds ≤ fuel
    → search it ≡ search_from (get_bit it.bitmap) i rounds
    → walk fuel it ≡ set_bits it.bitmap i rounds
unfolding search_from set_bits
walk-search_from fuel i zero it v w f e = walk-none fuel it e
walk-search_from zero i (suc rounds) it v w f e = absurd (omega arith)
walk-search_from (suc fuel) i (suc rounds) it v w f e = elim (Bool-cases (get_bit it.bitmap i)) [
  | inr clear ↦
      let later : search_from (get_bit it.bitmap) i (suc rounds)
          ≡ search_from (get_bit it.bitmap) (i + 1) rounds =
        rw (search_from, clear) refl in
      rw (set_bits, clear)
        (walk-search_from (suc fuel) (i + 1) rounds it v (omega arith) (omega arith) (e ∙ later))
  | inl set ↦
      let here : search_from (get_bit it.bitmap) i (suc rounds) ≡ some i =
        rw (search_from, set) refl in
      let left : it.bitmap.size - (i + 1) ≡ rounds = omega arith in
      let ahead : search (record it { current_page_num = some i })
          ≡ search_from (get_bit it.bitmap) (i + 1) rounds =
        next_setted_bit-search_from it.bitmap (i + 1) v
        ∙ ap (search_from (get_bit it.bitmap) (i + 1)) left in
      rw (set_bits, set)
        (walk-some fuel it i (e ∙ here)
          ∙ ap (◌∷◌ i) (
              walk-search_from fuel (i + 1) rounds (record it { current_page_num = some i }) v
                (omega arith) (omega arith) ahead))
]

-- An iterator from any start page of a file with a valid bitmap gives the allocated pages from there on below
-- the page count, once and in ascending order, and then ends; the page count is fuel enough.
pub walk-init :
    (h : Header) (start_page fuel : ℕ)
    → Bits.IsValid (pages h)
    → start_page ≤ h.page_count
    → h.page_count ≤ fuel
    → walk fuel (init h start_page) ≡ set_bits (pages h) start_page (h.page_count - start_page)
walk-init h start_page fuel v l f =
    walk-search_from fuel start_page (h.page_count - start_page) (init h start_page) v (omega arith)
      (omega arith)
      (ap (next_setted_bit (pages h)) starts ∙ next_setted_bit-search_from (pages h) start_page v)
  where
    starts : next_start (if start_page == 0 then none else some (start_page - 1)) ≡ start_page
    starts = ground arith
