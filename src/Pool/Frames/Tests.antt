-- ===== src/Pool/Frames/Tests.antt =====
-- A pool of two frames with the LRU policy, and the theorems of the frame manager at it.
use csu_dbms.Base.{ℕ, ◌≡◌, refl, ap, true, false, Option, some, none, [], ◌∷◌, arith}
use csu_dbms.Rc.{Rc, success, ioerr_write, bufferpool_nobuf}
use csu_dbms.Replacement.Frame.{FrameId, frame_dec}
use csu_dbms.Replacement.FrameMap
use csu_dbms.Replacement.Ordered
use csu_dbms.Pool.Frames.{
  Manager, get, alloc, free_internal, unpin, collect, release, purge_frames, allocate_frame,
}
use csu_dbms.Pool.Frames.Policies.{ordered}
use csu_dbms.Pool.Frames.Purge
use csu_dbms.Pool.Frames.Coherent
use csu_dbms.Pool.Frames.Served
use csu_dbms.Pool.Frames.Policies.{OrderedHolds, ordered-Follows}
use csu_dbms.Replacement.Ordered.Recency.{resident}
use csu_dbms.Replacement.Frame.{insert}

abbrev page : ℕ → FrameId
page n = record { buffer_pool_id = 1; page_num = n }

-- Page 7 was loaded before page 8 and is pinned, page 8 is dirty.
abbrev two_frames : Manager Ordered.Policy
two_frames = record {
  frames =
      (page 7, record { pin_count = 1; dirty = false })
      ∷ (page 8, record { pin_count = 0; dirty = true })
      ∷ [];
  free_frames = 0;
  policy = Ordered.on_insert (Ordered.on_insert (Ordered.create true) (page 7)) (page 8);
}

abbrev flushed : FrameId → Rc
flushed f = success

abbrev not_flushed : FrameId → Rc
not_flushed f = ioerr_write

differ : (page 8 ≡ page 7) → ⊥
differ e = let n : ◌≡◌ {A = ℕ} 8 7 = ap (λ x. x.page_num) e in omega arith

two_frames-Distinct : FrameMap.Distinct two_frames.frames
two_frames-Distinct = ((differ, tt), (tt, tt))

allocate_frame-Allocates_example :
    (rc : Rc) × (m : Manager Ordered.Policy) × Purge.Allocates ordered not_flushed
      (page 9)
      two_frames
      rc
      m
allocate_frame-Allocates_example =
    Purge.allocate_frame-Allocates ordered not_flushed (page 9) two_frames two_frames-Distinct

abbrev code : Option (Rc × Manager Ordered.Policy) → Option Rc
code none = none
code (some (rc, m)) = some rc

evicts_unpinned : code (allocate_frame ordered 2 flushed (page 9) two_frames) ≡ some success
unfolding allocate_frame alloc get purge_frames collect release free_internal unpin FrameMap.find
    FrameMap.put FrameMap.erase frame_dec Ordered.on_insert Ordered.on_remove Ordered.push_back
    Ordered.create Ordered.choose_victim Ordered.first_replaceable Ordered.erase_node
evicts_unpinned = refl

keeps_unflushed :
    code (allocate_frame ordered 2 not_flushed (page 9) two_frames) ≡ some bufferpool_nobuf
unfolding allocate_frame alloc get purge_frames collect release free_internal unpin FrameMap.find
    FrameMap.put FrameMap.erase frame_dec Ordered.on_insert Ordered.on_remove Ordered.push_back
    Ordered.create Ordered.choose_victim Ordered.first_replaceable Ordered.erase_node
keeps_unflushed = refl

two_frames-IsCoherent : Coherent.IsCoherent OrderedHolds two_frames
unfolding FrameMap.find resident Ordered.run Ordered.step
two_frames-IsCoherent = record {
  distinct = two_frames-Distinct;
  known = (true, insert (page 8) ∷ insert (page 7) ∷ [], refl, λ g. ground arith);
}

page_8 : FrameMap.find (page 8) two_frames.frames ≡ some (record { pin_count = 0; dirty = true })
unfolding FrameMap.find frame_dec
page_8 = refl

allocate_frame-success_example :
    (m : Manager Ordered.Policy) × (allocate_frame ordered 2 flushed (page 9) two_frames
      ≡ some (success, m))
allocate_frame-success_example =
    Served.allocate_frame-success ordered OrderedHolds ordered-Follows 0 flushed (page 9) (page 8)
      (record { pin_count = 0; dirty = true }) two_frames two_frames-IsCoherent (λ v. refl) page_8
      refl
