-- ===== src/Pool/Frames/Policies.antt =====
-- The replacement policies as the frame manager of observer/storage/os/buffer/disk_buffer_pool.cpp has them.
use csu_dbms.Base.{◌≡◌, sym, ap, ◌∙◌, Bool, true, false, Option, none, some, List, ◌∷◌, ite}
use csu_dbms.Replacement.Ordered
use csu_dbms.Replacement.LruK
use csu_dbms.Replacement.Clock
use csu_dbms.Replacement.Clock.{Outcome, victim, nothing, out_of_range}
use csu_dbms.Replacement.Frame.{FrameId, frame_dec, Event, insert, access, remove}
use csu_dbms.Replacement.Ordered.Recency.{resident, choose_victim_oldest}
use csu_dbms.Pool.Frames.Coherent.{Follows}
use csu_dbms.Pool.Frames.{Replacement}

-- LRU and FIFO.
abbrev pub ordered : Replacement Ordered.Policy
ordered = record {
  on_insert = Ordered.on_insert;
  on_access = Ordered.on_access;
  on_remove = Ordered.on_remove;
  choose_victim = λ p s. (s, Ordered.choose_victim p s);
}

abbrev pub lru_k : Replacement LruK.Policy
lru_k = record {
  on_insert = LruK.on_insert;
  on_access = LruK.on_access;
  on_remove = LruK.on_remove;
  choose_victim = λ p s. (s, LruK.choose_victim p s);
}

-- A read out of the ring names no page here.
abbrev named : Outcome → Option FrameId
named (victim f) = some f
named nothing = none
named out_of_range = none

abbrev pub clock : Replacement Clock.Policy
clock = record {
  on_insert = Clock.on_insert;
  on_access = Clock.on_access;
  on_remove = Clock.on_remove;
  choose_victim = λ p s. ((Clock.choose_victim p s).0, named (Clock.choose_victim p s).1);
}

-- LRU and FIFO know the resident pages by the history of the calls.
abbrev pub OrderedHolds : Ordered.Policy → (FrameId → Bool) → Type 0
OrderedHolds s known =
    (touched : Bool) × (h : List Event) × (s ≡ Ordered.run touched h)
    × ((g : FrameId) → known g ≡ resident h g)

pub ordered-Follows : Follows ordered OrderedHolds
unfolding Ordered.run Ordered.step resident
ordered-Follows = record {
  congr = λ s known now same k. (k.0, k.1, k.2, λ g. same g ∙ k.3 g);
  inserts = λ s known f k. (
    k.0,
    insert f ∷ k.1,
    ap (λ x. Ordered.on_insert x f) k.2,
    λ g. ap (ite (frame_dec f g) true) (k.3 g),
  );
  accesses = λ s known f k. (k.0, access f ∷ k.1, ap (λ x. Ordered.on_access x f) k.2, k.3);
  removes = λ s known f k. (
    k.0,
    remove f ∷ k.1,
    ap (λ x. Ordered.on_remove x f) k.2,
    λ g. ap (ite (frame_dec f g) false) (k.3 g),
  );
  chooses = λ s known may k. k;
  finds = λ s known may g k here free.
      let (v, named, _, can, _) = choose_victim_oldest k.0 k.1 may g (sym (k.3 g) ∙ here) free in
      (v, ap (Ordered.choose_victim may) k.2 ∙ named, can);
}
