-- ===== src/Replacement/Clock.antt =====
-- ClockReplacementPolicy of replacement_policy.cpp. A read of the ring out of its range is undefined
-- in the source; here it is the outcome `out_of_range`.
pub mod Ring
pub mod Scan
pub mod Invariant
use csu_dbms.Base.{
  ℕ, suc, zero, ◌+◌, ◌-◌, ◌*◌, ◌%◌, Bool, true, false, ◌&&◌, ◌||◌, Option, none, some, List, [],
  ◌∷◌, ◌++◌, ite, if◌then◌else◌, length, get_elem?, ltb, leb, ◌==◌,
}
use mathlib.Core.Option
use csu_dbms.Replacement.Frame.{FrameId, frame_dec, Event, insert, access, remove}

pub record Policy : Type 0 where
  pub ring : List FrameId
  pub referenced : FrameId → Option Bool
  pub hand : ℕ

unfoldable pub create : Policy
create = record { ring = []; referenced = λ f. none; hand = 0 }

abbrev pub put_bit : (FrameId → Option Bool) → FrameId → Option Bool → FrameId → Option Bool
put_bit m f v g = ite (frame_dec g f) v (m g)

-- `std::find`, as a distance from the beginning.
unfoldable pub index_of : FrameId → List FrameId → Option ℕ
index_of f [] = none
index_of f (g ∷ gs) = ite (frame_dec g f) (some 0) (Option.map suc (index_of f gs))

-- `ring_.erase(iter)`
unfoldable pub erase_at : ℕ → List FrameId → List FrameId
erase_at i [] = []
erase_at zero (g ∷ gs) = gs
erase_at (suc i) (g ∷ gs) = g ∷ erase_at i gs

abbrev pub is_empty : List FrameId → Bool
is_empty [] = true
is_empty (g ∷ gs) = false

-- The part of `on_remove` behind the search.
unfoldable pub remove_at : Policy → FrameId → ℕ → Policy
remove_at s f index =
    let hand = if ltb index s.hand && ltb 0 s.hand then s.hand - 1 else s.hand in
    let ring = erase_at index s.ring in
    record {
      ring = ring;
      referenced = put_bit s.referenced f none;
      hand = if is_empty ring || leb (length ring) hand then 0 else hand;
    }

unfoldable pub on_remove : Policy → FrameId → Policy
on_remove s f = elim (index_of f s.ring) [
  | none ↦ record s { referenced = put_bit s.referenced f none }
  | some index ↦ remove_at s f index
]

unfoldable pub push_back : Policy → FrameId → Policy
push_back s f = record s {
  ring = s.ring ++ f ∷ [];
  referenced = put_bit s.referenced f (some true);
}

unfoldable pub on_insert : Policy → FrameId → Policy
on_insert s f = push_back (on_remove s f) f

unfoldable pub on_access : Policy → FrameId → Policy
on_access s f = elim (s.referenced f) [
  | none ↦ s
  | some b ↦ record s { referenced = put_bit s.referenced f (some true) }
]

pub data Outcome : Type 0 where
  victim : FrameId → Outcome
  nothing : Outcome
  out_of_range : Outcome

-- `referenced_[candidate]` makes a clear bit for a page that has none.
unfoldable pub bit : (FrameId → Option Bool) → FrameId → Bool
bit m f = Option.get_or (m f) false

-- The loop of `choose_victim`, by the rounds that are left.
unfoldable pub scan : (FrameId → Bool) → ℕ → Policy → Policy × Outcome
scan p zero s = (s, nothing)
scan p (suc rounds) s = elim (get_elem? s.ring s.hand) [
  | none ↦ (s, out_of_range)
  | some candidate ↦
      let moved = record s { hand = (s.hand + 1) % length s.ring } in
      let cleared = record moved { referenced = put_bit s.referenced candidate (some false) } in
      let skip = scan p rounds moved in
      let again = scan p rounds cleared in
      if p candidate
      then (if bit s.referenced candidate then again else (cleared, victim candidate))
      else skip
]

unfoldable pub choose_victim : (FrameId → Bool) → Policy → Policy × Outcome
choose_victim p s =
    let found = scan p (length s.ring * 2) s in if is_empty s.ring then (s, nothing) else found

unfoldable pub step : Policy → Event → Policy
step s (insert f) = on_insert s f
step s (access f) = on_access s f
step s (remove f) = on_remove s f
