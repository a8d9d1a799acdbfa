-- ===== src/Replacement/LruK.antt =====
-- LRUKReplacementPolicy of replacement_policy.cpp, with K = 2. The timestamp is a uint64_t and wraps.
pub mod History
pub mod Victim
use csu_dbms.Base.{
  ℕ, ◌+◌, ◌%◌, ◌^◌, Bool, true, false, not, ◌&&◌, ◌||◌, Option, none, some, List, [], ◌∷◌, ◌++◌,
  if◌then◌else◌, length, drop, ltb, ◌==◌,
}
use mathlib.Core.Option
use csu_dbms.Replacement.Frame.{FrameId, Event, insert, access, remove}
use csu_dbms.Replacement.FrameMap

abbrev pub k : ℕ
k = 2

pub record Policy : Type 0 where
  pub current_timestamp : ℕ
  pub histories : List (FrameId × List ℕ)

unfoldable pub create : Policy
create = record { current_timestamp = 0; histories = [] }

-- `if (history.size() == K) history.pop_front(); history.push_back(t);`
unfoldable pub push_time : List ℕ → ℕ → List ℕ
push_time history t = (if length history == k then drop 1 history else history) ++ t ∷ []

abbrev pub next_timestamp : ℕ → ℕ
next_timestamp t = (t + 1) % 2 ^ 64

-- `histories_[frame_id]` makes an empty history for a page that has none.
unfoldable pub record_access : Policy → FrameId → Policy
record_access s f =
    let t = next_timestamp s.current_timestamp in
    let history = Option.get_or (FrameMap.find f s.histories) [] in
    record { current_timestamp = t; histories = FrameMap.put f (push_time history t) s.histories }

unfoldable pub on_remove : Policy → FrameId → Policy
on_remove s f = record s { histories = FrameMap.erase f s.histories }

unfoldable pub on_insert : Policy → FrameId → Policy
on_insert s f = record_access (on_remove s f) f

unfoldable pub on_access : Policy → FrameId → Policy
on_access s f = record_access s f

-- The variables of the loop of `choose_victim`; `found` is whether there is such a record.
pub record Best : Type 0 where
  pub victim : FrameId
  pub victim_is_cold : Bool
  pub oldest_relevant_access : ℕ

abbrev pub Bool-eq : Bool → Bool → Bool
Bool-eq true b = b
Bool-eq false b = not b

-- The condition that makes a candidate the new victim.
unfoldable pub is_better : Option Best → Bool → ℕ → Bool
is_better none cold relevant = true
is_better (some b) cold relevant =
    (cold && not b.victim_is_cold)
    || (Bool-eq cold b.victim_is_cold && ltb relevant b.oldest_relevant_access)

-- One round of the loop.
unfoldable pub visit : (FrameId → Bool) → Option Best → FrameId × List ℕ → Option Best
visit p b (f, []) = b
visit p b (f, front ∷ rest) =
    let cold = ltb (length (front ∷ rest)) k in
    if p f
    then (if is_better b cold front
        then some (record { victim = f; victim_is_cold = cold; oldest_relevant_access = front })
        else b)
    else b

unfoldable pub scan : (FrameId → Bool) → Option Best → List (FrameId × List ℕ) → Option Best
scan p b [] = b
scan p b (e ∷ es) = scan p (visit p b e) es

unfoldable pub choose_victim : (FrameId → Bool) → Policy → Option FrameId
choose_victim p s = Option.map (λ b. b.victim) (scan p none s.histories)

unfoldable pub step : Policy → Event → Policy
step s (insert f) = on_insert s f
step s (access f) = on_access s f
step s (remove f) = on_remove s f

-- The events newest first.
unfoldable pub run : List Event → Policy
run [] = create
run (e ∷ h) = step (run h) e
