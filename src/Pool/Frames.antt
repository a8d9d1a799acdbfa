-- ===== src/Pool/Frames.antt =====
-- BPFrameManager of observer/storage/os/buffer/disk_buffer_pool.cpp with Frame::pin and unpin of
-- os/page/frame.cpp, and DiskBufferPool::allocate_frame. A frame is known by the page that it holds; the
-- frames that hold none are counted. `none` is a failed ASSERT, or too little fuel in the loop of
-- `allocate_frame`. The code holds the manager's lock in an operation; `on_pin` and `on_unpin` do nothing in
-- any policy.
pub mod Release
pub mod Collect
pub mod Purge
pub mod Coherent
pub mod Served
pub mod Policies
mod Tests
use csu_dbms.Base.{
  ℕ, zero, suc, ◌+◌, ◌-◌, Bool, true, false, not, Option, none, some, List, [], ◌∷◌, ◌==◌,
  if◌then◌else◌,
}
use mathlib.Core.Option
use csu_dbms.Rc.{Rc, is_success, success, bufferpool_nobuf}
use csu_dbms.Replacement.Frame.{FrameId}
use csu_dbms.Replacement.FrameMap

pub record Frame : Type 0 where
  pub pin_count : ℕ
  pub dirty : Bool

-- The class ReplacementPolicy, over the state of a policy.
pub record Replacement (P : Type 0) : Type 0 where
  pub on_insert : P → FrameId → P
  pub on_access : P → FrameId → P
  pub on_remove : P → FrameId → P
  pub choose_victim : (FrameId → Bool) → P → P × Option FrameId

pub record Manager (P : Type 0) : Type 0 where
  pub frames : List (FrameId × Frame)
  pub free_frames : ℕ
  pub policy : P

abbrev pub pinned : Frame → Frame
pinned fr = record fr { pin_count = fr.pin_count + 1 }

abbrev pub unpinned : Frame → Frame
unpinned fr = record fr { pin_count = fr.pin_count - 1 }

-- The frame is taken from the pool, with no pin and clean.
abbrev pub new_frame : Frame
new_frame = record { pin_count = 1; dirty = false }

-- `frames_.peek(frame_id, frame) && frame->can_purge()`
abbrev pub is_replaceable : List (FrameId × Frame) → FrameId → Bool
is_replaceable frames f = elim (FrameMap.find f frames) [
  | none ↦ false
  | some fr ↦ fr.pin_count == 0
]

-- The test of the policy's answer before the frame is pinned.
abbrev pub checked : List (FrameId × Frame) → Option FrameId → Option (FrameId × Frame)
checked frames none = none
checked frames (some v) = elim (FrameMap.find v frames) [
  | none ↦ none
  | some fr ↦ if fr.pin_count == 0 then some (v, fr) else none
]

-- The callback of `allocate_frame`: a dirty frame is flushed, with this answer.
abbrev pub flush_dirty : (FrameId → Rc) → FrameId → Frame → Rc
flush_dirty flush f fr = if fr.dirty then flush f else success

module _ {P : Type 0} (r : Replacement P) where
  unfoldable pub get : Manager P → FrameId → Manager P × Option Frame
  get m f = elim (FrameMap.find f m.frames) [
    | none ↦ (m, none)
    | some fr ↦ (
      record m { frames = FrameMap.put f (pinned fr) m.frames; policy = r.on_access m.policy f },
      some (pinned fr),
    )
  ]

  unfoldable pub alloc : Manager P → FrameId → Manager P × Option Frame
  alloc m f = elim (FrameMap.find f m.frames) [
    | some fr ↦ get m f
    | none ↦ if m.free_frames == 0 then (m, none) else (
      record {
        frames = FrameMap.put f new_frame m.frames;
        free_frames = m.free_frames - 1;
        policy = r.on_insert m.policy f;
      },
      some new_frame,
    )
  ]

  abbrev pub freed : Manager P → FrameId → Manager P
  freed m f = record {
    frames = FrameMap.erase f m.frames;
    free_frames = m.free_frames + 1;
    policy = r.on_remove m.policy f;
  }

  unfoldable pub free_internal : Manager P → FrameId → Option (Manager P)
  free_internal m f = elim (FrameMap.find f m.frames) [
    | none ↦ none
    | some fr ↦ if fr.pin_count == 1 then some (freed m f) else none
  ]

  -- Frame::unpin on the frame of a page.
  unfoldable pub unpin : Manager P → FrameId → Option (Manager P)
  unpin m f = elim (FrameMap.find f m.frames) [
    | none ↦ none
    | some fr ↦
        if fr.pin_count == 0
        then none
        else some (record m { frames = FrameMap.put f (unpinned fr) m.frames })
  ]

  abbrev pub choice : Manager P → P × Option FrameId
  choice m = r.choose_victim (is_replaceable m.frames) m.policy

  abbrev pub hold : Manager P → FrameId → Frame → Manager P
  hold m v fr = record m { frames = FrameMap.put v (pinned fr) m.frames; policy = (choice m).0 }

  -- The first loop of `purge_frames`, by the frames that are still wanted.
  unfoldable pub collect : ℕ → Manager P → List FrameId × Manager P
  collect zero m = ([], m)
  collect (suc wanted) m = elim (checked m.frames (choice m).1) [
    | none ↦ ([], record m { policy = (choice m).0 })
    | some (v, fr) ↦ let (vs, m') = collect wanted (hold m v fr) in (v ∷ vs, m')
  ]

  -- The second loop: what the callback answers decides whether a frame goes.
  unfoldable pub release :
      (FrameId → Frame → Rc) → List FrameId → Manager P → Option (Manager P × ℕ)
  release purger [] m = some (m, 0)
  release purger (v ∷ vs) m = elim (FrameMap.find v m.frames) [
    | none ↦ none
    | some fr ↦
        if is_success (purger v fr)
        then (elim (free_internal m v) [
          | none ↦ none
          | some m' ↦ Option.map (λ x. (x.0, x.1 + 1)) (release purger vs m')
        ])
        else (elim (unpin m v) [ none ↦ none | some m' ↦ release purger vs m' ])
  ]

  unfoldable pub purge_frames : ℕ → (FrameId → Frame → Rc) → Manager P → Option (Manager P × ℕ)
  purge_frames count purger m =
      let (vs, m') = collect (if count == 0 then 1 else count) m in release purger vs m'

  -- The loop of `allocate_frame`, on fuel.
  unfoldable pub allocate_frame : ℕ → (FrameId → Rc) → FrameId → Manager P → Option (Rc × Manager P)
  allocate_frame zero flush f m = none
  allocate_frame (suc fuel) flush f m = elim (alloc m f).1 [
    | some fr ↦ some (success, (alloc m f).0)
    | none ↦ elim (purge_frames 1 (flush_dirty flush) (alloc m f).0) [
      | none ↦ none
      | some (m', purged) ↦
          let again = allocate_frame fuel flush f m' in
          if purged == 0 then some (bufferpool_nobuf, m') else again
    ]
  ]
