-- ===== src/Replacement/Tests.antt =====
-- Runs of the policies on small histories, and the theorems at such inputs.
use csu_dbms.Base.{
  ℕ, ◌≤◌, ◌≡◌, ◌≢◌, refl, Bool, true, false, some, List, [], ◌∷◌, arith, ap, ite, inl, inr, In,
}
use csu_dbms.Replacement.Frame.{FrameId, frame_dec, Event, insert, access, remove}
use csu_dbms.Replacement.Ordered
use csu_dbms.Replacement.LruK
use csu_dbms.Replacement.Clock
use csu_dbms.Replacement.FrameMap

program : Unit {0}
unfolding Ordered.create Ordered.erase_node Ordered.find_node Ordered.splice_back Ordered.on_remove
    Ordered.push_back Ordered.on_insert Ordered.touch Ordered.on_access Ordered.first_replaceable
    Ordered.choose_victim Ordered.step Ordered.run Ordered.Recency.resident Ordered.Recency.last_use
    frame_dec LruK.create LruK.push_time LruK.record_access LruK.on_remove LruK.on_insert
    LruK.on_access LruK.is_better LruK.visit LruK.scan LruK.choose_victim LruK.step LruK.run
    FrameMap.put FrameMap.erase FrameMap.find LruK.History.clock LruK.History.times
    LruK.Victim.relevant_access Clock.create Clock.index_of Clock.erase_at Clock.remove_at
    Clock.on_remove Clock.push_back Clock.on_insert Clock.on_access Clock.bit Clock.scan
    Clock.choose_victim Clock.step
program = tt

abbrev page : ℕ → FrameId
page n = record { buffer_pool_id = 0; page_num = n }

abbrev any_page : FrameId → Bool
any_page f = true

-- Newest event first: 1, 2 and 3 enter, and 1 is used again.
abbrev history : List Event
history = access (page 1) ∷ insert (page 3) ∷ insert (page 2) ∷ insert (page 1) ∷ []

lru_victim : Ordered.choose_victim any_page (Ordered.run true history) ≡ some (page 2)
unfolding program
lru_victim = refl

fifo_victim : Ordered.choose_victim any_page (Ordered.run false history) ≡ some (page 1)
unfolding program
fifo_victim = refl

lru_k_victim : LruK.choose_victim any_page (LruK.run history) ≡ some (page 2)
unfolding program
lru_k_victim = refl

-- A ring of three pages of which the first two were used.
abbrev ring : Clock.Policy
ring = record {
  ring = page 1 ∷ page 2 ∷ page 3 ∷ [];
  referenced = λ f. ite (frame_dec f (page 3)) (some false) (some true);
  hand = 0;
}

clock_victim : (Clock.choose_victim any_page ring).1 ≡ Clock.victim (page 3)
unfolding program
clock_victim = refl

choose_victim_oldest_example :
    (v : FrameId) × (Ordered.choose_victim any_page (Ordered.run true history) ≡ some v)
    × (Ordered.Recency.resident history v ≡ true)
    × (any_page v ≡ true)
    × (Ordered.Recency.last_use true history v ≤ Ordered.Recency.last_use true history (page 3))
unfolding program
choose_victim_oldest_example =
    Ordered.Recency.choose_victim_oldest true history any_page (page 3) refl refl

frames-step_example :
    Ordered.Nodes.frames (Ordered.step (Ordered.run true history) (remove (page 2))).order
    ≡ Ordered.Refine.apply
        (Ordered.run true history).touch_on_access
        (remove (page 2))
        (Ordered.Nodes.frames (Ordered.run true history).order)
frames-step_example =
    Ordered.Refine.frames-step (Ordered.run true history) (remove (page 2))
      (Ordered.Linked.run-IsLinked true history)

choose_victim_lruk_example :
    (v : FrameId) × (LruK.choose_victim any_page (LruK.run history) ≡ some v)
    × (LruK.History.times history v ≢ [])
    × (any_page v ≡ true)
    × LruK.Victim.Precedes
        (LruK.Victim.is_cold (LruK.History.times history v))
        (LruK.Victim.relevant_access (LruK.History.times history v))
        (LruK.Victim.is_cold (LruK.History.times history (page 1)))
        (LruK.Victim.relevant_access (LruK.History.times history (page 1)))
unfolding program
choose_victim_lruk_example =
    LruK.Victim.choose_victim_lruk history any_page (page 1) (omega arith) (λ e. cc) refl

page_ne : (m n : ℕ) → m ≢ n → page m ≢ page n
page_ne m n h e = h (ap (λ f. f.page_num) e)

ring-Distinct : Clock.Ring.Distinct ring.ring
ring-Distinct = (
  (page_ne 2 1 (omega arith), (page_ne 3 1 (omega arith), tt)),
  ((page_ne 3 2 (omega arith), tt), (tt, tt)),
)

circle-on_remove_example :
    Clock.Ring.circle (Clock.on_remove ring (page 2))
    ≡ Ordered.Nodes.erase (page 2) (Clock.Ring.circle ring)
circle-on_remove_example = Clock.Ring.circle-on_remove ring (page 2) ring-Distinct

choose_victim_finds_example :
    (v : FrameId) × ((Clock.choose_victim any_page ring).1 ≡ Clock.victim v)
    × (any_page v ≡ true)
    × In v (page 1 ∷ page 2 ∷ page 3 ∷ [])
choose_victim_finds_example =
    Clock.Scan.choose_victim_finds ring any_page (page 2) (omega arith) (inr (inl refl)) refl

run_in_range_example :
    Clock.Invariant.IsValid (
      Clock.Invariant.run
        (Clock.Invariant.choose any_page ∷ Clock.Invariant.notify (insert (page 1)) ∷ []))
    × ((Clock.choose_victim any_page (
          Clock.Invariant.run
            (Clock.Invariant.choose any_page ∷ Clock.Invariant.notify (insert (page 1)) ∷ []))).1
        ≢ Clock.out_of_range)
run_in_range_example =
    Clock.Invariant.run_in_range
      (Clock.Invariant.choose any_page ∷ Clock.Invariant.notify (insert (page 1)) ∷ []) any_page
