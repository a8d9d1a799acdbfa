-- ===== src/Replacement/Ordered.antt =====
-- OrderedReplacementPolicy of replacement_policy.cpp, with LRU and FIFO as its two settings.
-- A list node has an address, so that `positions_` can point at it; `splice` keeps the address.
pub mod Nodes
pub mod Linked
pub mod Refine
pub mod Recency
use csu_dbms.Base.{
  ℕ, suc, Bool, Option, none, some, List, [], ◌∷◌, ◌++◌, ite, ℕ_discrete, if◌then◌else◌,
}
use csu_dbms.Replacement.Frame.{FrameId, frame_dec, Event, insert, access, remove}

pub record Node : Type 0 where
  pub address : ℕ
  pub frame : FrameId

pub record Policy : Type 0 where
  pub touch_on_access : Bool
  pub order : List Node
  pub positions : FrameId → Option ℕ
  pub next_address : ℕ

-- The policy as its constructor leaves it.
unfoldable pub create : Bool → Policy
create touch = record {
  touch_on_access = touch;
  order = [];
  positions = λ f. none;
  next_address = 0;
}

-- `order_.erase(iter)`
unfoldable pub erase_node : ℕ → List Node → List Node
erase_node a [] = []
erase_node a (x ∷ xs) = ite (ℕ_discrete x.address a) xs (x ∷ erase_node a xs)

unfoldable pub find_node : ℕ → List Node → Option Node
find_node a [] = none
find_node a (x ∷ xs) = ite (ℕ_discrete x.address a) (some x) (find_node a xs)

-- `order_.splice(order_.end(), order_, iter)`
unfoldable pub splice_back : ℕ → List Node → List Node
splice_back a xs = elim (find_node a xs) [ none ↦ xs | some x ↦ erase_node a xs ++ x ∷ [] ]

abbrev pub put_position : (FrameId → Option ℕ) → FrameId → Option ℕ → FrameId → Option ℕ
put_position p f v g = ite (frame_dec g f) v (p g)

unfoldable pub on_remove : Policy → FrameId → Policy
on_remove s f = elim (s.positions f) [
  | none ↦ s
  | some a ↦ record s { order = erase_node a s.order; positions = put_position s.positions f none }
]

-- `order_.push_back(frame_id); positions_[frame_id] = std::prev(order_.end());`
unfoldable pub push_back : Policy → FrameId → Policy
push_back s f = record s {
  order = s.order ++ record { address = s.next_address; frame = f } ∷ [];
  positions = put_position s.positions f (some s.next_address);
  next_address = suc s.next_address;
}

unfoldable pub on_insert : Policy → FrameId → Policy
on_insert s f = push_back (on_remove s f) f

-- The part of `on_access` behind its first test.
unfoldable pub touch : Policy → FrameId → Policy
touch s f = elim (s.positions f) [
  | none ↦ s
  | some a ↦ record s {
    order = splice_back a s.order;
    positions = put_position s.positions f (some a);
  }
]

unfoldable pub on_access : Policy → FrameId → Policy
on_access s f = if s.touch_on_access then touch s f else s

unfoldable pub first_replaceable : (FrameId → Bool) → List Node → Option FrameId
first_replaceable p [] = none
first_replaceable p (x ∷ xs) = if p x.frame then some x.frame else first_replaceable p xs

unfoldable pub choose_victim : (FrameId → Bool) → Policy → Option FrameId
choose_victim p s = first_replaceable p s.order

unfoldable pub step : Policy → Event → Policy
step s (insert f) = on_insert s f
step s (access f) = on_access s f
step s (remove f) = on_remove s f

-- The events newest first.
unfoldable pub run : Bool → List Event → Policy
run touched [] = create touched
run touched (e ∷ h) = step (run touched h) e
