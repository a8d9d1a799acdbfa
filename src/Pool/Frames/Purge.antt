-- ===== src/Pool/Frames/Purge.antt =====
-- BPFrameManager::purge_frames and DiskBufferPool::allocate_frame of
-- observer/storage/os/buffer/disk_buffer_pool.cpp, with any replacement policy.
use csu_dbms.Base.{
  ℕ, suc, ◌+◌, ◌-◌, ◌<◌, ◌≡◌, ◌≢◌, refl, sym, ap, ◌∙◌, ◌⊎◌, inl, inr, true, false, Option, none,
  some, List, ◌==◌, if◌then◌else◌, Bool-cases, Option-cases, All-map, All-In, arith,
}
use csu_dbms.Rc.{Rc, success, bufferpool_nobuf, is_success}
use csu_dbms.Replacement.Frame.{FrameId}
use csu_dbms.Replacement.FrameMap
use csu_dbms.Pool.Frames.{
  Frame, Replacement, Manager, pinned, unpinned, new_frame, flush_dirty, get, alloc, collect,
  purge_frames, allocate_frame,
}
use csu_dbms.Pool.Frames.Release.{find-put_other, find-put_self, release-Releases, Released}
use csu_dbms.Pool.Frames.Collect.{Collects, collect-Collects}

pinned_injective : (a b : Frame) → pinned a ≡ pinned b → a ≡ b
pinned_injective a b q =
    let back_a : a.pin_count ≡ a.pin_count + 1 - 1 = omega arith in
    let back_b : b.pin_count + 1 - 1 ≡ b.pin_count = omega arith in
    ap (λ n. record a { pin_count = n }) back_a
    ∙ ap unpinned q
    ∙ ap (λ n. record b { pin_count = n }) back_b

module _ {P : Type 0} (r : Replacement P) where
  -- A page keeps its frame, pins and dirty mark included, or it had no pin, the callback succeeded on its
  -- frame, and it has none now.
  abbrev pub Evicts : (FrameId → Frame → Rc) → Manager P → Manager P → FrameId → Type 0
  Evicts purger m m' g =
      (FrameMap.find g m'.frames ≡ FrameMap.find g m.frames)
      ⊎ (fr : Frame) × (FrameMap.find g m.frames ≡ some fr)
        × (fr.pin_count ≡ 0)
        × (is_success (purger g (pinned fr)) ≡ true)
        × (FrameMap.find g m'.frames ≡ none)

  pub record Purges (count : ℕ) (purger : FrameId → Frame → Rc) (m m' : Manager P) (n : ℕ)
      : Type 0 where
    pub answered : purge_frames r count purger m ≡ some (m', n)
    pub distinct : FrameMap.Distinct m'.frames
    pub free_frames : m'.free_frames ≡ m.free_frames + n
    pub pages : (g : FrameId) → Evicts purger m m' g

  -- `purge_frames` of any number of frames, with any policy and callback: no ASSERT fails, and no frame with
  -- a pin is touched; a page loses its frame only when that had no pin and the callback succeeded on it, all
  -- other frames are as before, and as many frames are free again as it says.
  pub purge_frames-Purges :
      (count : ℕ) (purger : FrameId → Frame → Rc) (m : Manager P)
      → FrameMap.Distinct m.frames
      → (m' : Manager P) × (n : ℕ) × Purges count purger m m' n
  unfolding purge_frames
  purge_frames-Purges count purger m d =
      let wanted = if count == 0 then 1 else count in
      let vs = (collect r wanted m).0 in
      let mc = (collect r wanted m).1 in
      let c = collect-Collects r wanted m d in
      let held = All-map _ _ (λ v h. (h.0, h.3, h.2)) vs c.held in
      let (m', n, rel) = release-Releases r purger vs mc c.distinct c.no_repeat held in
      (
        m',
        n,
        record {
          answered = rel.answered;
          distinct = rel.distinct;
          free_frames = omega (arith, rel.free_frames, c.free_frames);
          pages = λ g. page vs mc m' c g (rel.released g);
        },
      )
    where
      page :
          (vs : List FrameId) (mc m' : Manager P)
          → Collects vs m mc
          → (g : FrameId) → Released r purger vs mc m' g
          → Evicts purger m m' g
      page vs mc m' c g (inl (same, out)) = inl (same ∙ c.others g out)
      page vs mc m' c g (inr (fr, i, e, p, end)) =
          let (fr0, before, p0, now) = All-In _ g vs c.held i in
          let joined : ◌≡◌ {A = Option Frame} (some (pinned fr)) (some (pinned fr0)) =
            sym e ∙ now in
          let pins : pinned fr ≡ pinned fr0 = cc in
          let unpinned_same = pinned_injective fr fr0 pins in
          by_end (before ∙ ap some (sym unpinned_same)) end
        where
          by_end :
              FrameMap.find g m.frames ≡ some fr
              → (FrameMap.find g m'.frames ≡ some fr)
                ⊎ ((is_success (purger g (pinned fr)) ≡ true) × (FrameMap.find g m'.frames ≡ none))
              → Evicts purger m m' g
          by_end b (inl kept) = inl (kept ∙ sym b)
          by_end b (inr (ok, gone)) = inr (fr, b, p, ok, gone)

  -- What `allocate_frame` does.
  pub record Allocates (flush : FrameId → Rc) (f : FrameId) (m : Manager P) (rc : Rc)
      (m' : Manager P) : Type 0 where
    pub answered : (fuel : ℕ) → allocate_frame r (suc (suc fuel)) flush f m ≡ some (rc, m')
    pub framed :
        ((rc ≡ success) × (fr : Frame) × (FrameMap.find f m'.frames ≡ some fr) × (0 < fr.pin_count))
        ⊎ ((rc ≡ bufferpool_nobuf) × (FrameMap.find f m.frames ≡ none) × (m.free_frames ≡ 0))
    pub others : (g : FrameId) → g ≢ f → Evicts (flush_dirty flush) m m' g

  -- The frame of a resident page.
  pub alloc-resident :
      (m : Manager P) (f : FrameId) (fr : Frame)
      → FrameMap.find f m.frames ≡ some fr
      → alloc r m f ≡ (
        record m { frames = FrameMap.put f (pinned fr) m.frames; policy = r.on_access m.policy f },
        some (pinned fr),
      )
  unfolding alloc get
  alloc-resident m f fr e = rw (alloc, e, get, e) refl

  abbrev pub taken : Manager P → FrameId → Manager P
  taken m f = record {
    frames = FrameMap.put f new_frame m.frames;
    free_frames = m.free_frames - 1;
    policy = r.on_insert m.policy f;
  }

  pub alloc-free :
      (m : Manager P) (f : FrameId)
      → FrameMap.find f m.frames ≡ none
      → (m.free_frames == 0) ≡ false
      → alloc r m f ≡ (taken m f, some new_frame)
  unfolding alloc
  alloc-free m f e free = rw (alloc, e, free) refl

  pub alloc-none :
      (m : Manager P) (f : FrameId)
      → FrameMap.find f m.frames ≡ none
      → (m.free_frames == 0) ≡ true
      → alloc r m f ≡ (m, none)
  unfolding alloc
  alloc-none m f e full = rw (alloc, e, full) refl

  pub allocate_frame-alloc :
      (fuel : ℕ) (flush : FrameId → Rc) (f : FrameId) (m m' : Manager P) (fr : Frame)
      → alloc r m f ≡ (m', some fr)
      → allocate_frame r (suc fuel) flush f m ≡ some (success, m')
  unfolding allocate_frame
  allocate_frame-alloc fuel flush f m m' fr e =
      let found = ap (λ x. x.1) e in
      let state = ap (λ x. x.0) e in rw (allocate_frame, found, state) refl

  pub allocate_frame-purge :
      (fuel : ℕ) (flush : FrameId → Rc) (f : FrameId) (m m' : Manager P) (n : ℕ)
      → alloc r m f ≡ (m, none)
      → purge_frames r 1 (flush_dirty flush) m ≡ some (m', n)
      → allocate_frame r (suc fuel) flush f m
        ≡ (if n == 0 then some (bufferpool_nobuf, m') else allocate_frame r fuel flush f m')
  unfolding allocate_frame
  allocate_frame-purge fuel flush f m m' n e p =
      let found = ap (λ x. x.1) e in
      let state = ap (λ x. x.0) e in rw (allocate_frame, found, state, p) refl

  -- The page has the frame that `alloc` gave, and the others their own.
  resident-Allocates :
      (flush : FrameId → Rc) (f : FrameId) (m : Manager P) (fr : Frame)
      → FrameMap.find f m.frames ≡ some fr
      → (m' : Manager P) × Allocates flush f m success m'
  resident-Allocates flush f m fr e = (
    record m { frames = FrameMap.put f (pinned fr) m.frames; policy = r.on_access m.policy f },
    record {
      answered =
          λ fuel. allocate_frame-alloc (suc fuel) flush f m _ (pinned fr) (alloc-resident m f fr e);
      framed = inl (refl, pinned fr, find-put_self f (pinned fr) m.frames, omega arith);
      others = λ g ne. inl (find-put_other f g (pinned fr) m.frames ne);
    },
  )

  free-Allocates :
      (flush : FrameId → Rc) (f : FrameId) (m : Manager P)
      → FrameMap.find f m.frames ≡ none
      → (m.free_frames == 0) ≡ false
      → Allocates flush f m success (taken m f)
  free-Allocates flush f m e free = record {
    answered = λ fuel.
        allocate_frame-alloc (suc fuel) flush f m (taken m f) new_frame (alloc-free m f e free);
    framed = inl (refl, new_frame, find-put_self f new_frame m.frames, omega arith);
    others = λ g ne. inl (find-put_other f g new_frame m.frames ne);
  }

  -- A second round needs no third, as a purge left a free frame.
  purged-Allocates :
      (flush : FrameId → Rc) (f : FrameId) (m m1 : Manager P) (n : ℕ)
      → FrameMap.find f m.frames ≡ none
      → (m.free_frames == 0) ≡ true
      → Purges 1 (flush_dirty flush) m m1 n
      → (rc : Rc) × (m' : Manager P) × Allocates flush f m rc m'
  purged-Allocates flush f m m1 n e full p = elim (Bool-cases (n == 0)) [
    | inl stop ↦ (
      bufferpool_nobuf,
      m1,
      record {
        answered = λ fuel. again fuel ∙ rw stop refl;
        framed = inr (refl, e, ground arith);
        others = λ g ne. p.pages g;
      },
    )
    | inr more ↦
        let count = p.free_frames in
        let free : (m1.free_frames == 0) ≡ false = ground arith in
        (
          success,
          taken m1 f,
          record {
            answered = λ fuel.
                again fuel
                ∙ rw more (
                    allocate_frame-alloc fuel flush f m1 (taken m1 f) new_frame
                      (alloc-free m1 f gone free));
            framed = inl (refl, new_frame, find-put_self f new_frame m1.frames, omega arith);
            others = λ g ne. later g (find-put_other f g new_frame m1.frames ne) (p.pages g);
          },
        )
  ]
    where
      again :
          (fuel : ℕ)
          → allocate_frame r (suc (suc fuel)) flush f m ≡ (
              if n == 0
              then some (bufferpool_nobuf, m1)
              else allocate_frame r (suc fuel) flush f m1)
      again fuel = allocate_frame-purge (suc fuel) flush f m m1 n (alloc-none m f e full) p.answered

      still_gone : Evicts (flush_dirty flush) m m1 f → FrameMap.find f m1.frames ≡ none
      still_gone (inl same) = same ∙ e
      still_gone (inr (fr, a, b, c, none_left)) = none_left

      gone : FrameMap.find f m1.frames ≡ none
      gone = still_gone (p.pages f)

      later :
          (g : FrameId)
          → FrameMap.find g (taken m1 f).frames ≡ FrameMap.find g m1.frames
          → Evicts (flush_dirty flush) m m1 g
          → Evicts (flush_dirty flush) m (taken m1 f) g
      later g o (inl same) = inl (o ∙ same)
      later g o (inr (fr, a, b, c, none_left)) = inr (fr, a, b, c, o ∙ none_left)

  -- `allocate_frame`, with any policy and any answers to the flushes: two rounds of its loop are enough, and
  -- no ASSERT fails. It succeeds, and the page has a frame with a pin; or it answers BUFFERPOOL_NOBUF, when
  -- the page had no frame and none was free. A page other than this keeps its frame, pins and dirty mark
  -- included, unless it had no pin and, when it was dirty, its flush succeeded.
  pub allocate_frame-Allocates :
      (flush : FrameId → Rc) (f : FrameId) (m : Manager P)
      → FrameMap.Distinct m.frames
      → (rc : Rc) × (m' : Manager P) × Allocates flush f m rc m'
  allocate_frame-Allocates flush f m d = elim (Option-cases (FrameMap.find f m.frames)) [
    | inr (fr, e) ↦ let (m', a) = resident-Allocates flush f m fr e in (success, m', a)
    | inl e ↦ elim (Bool-cases (m.free_frames == 0)) [
      | inr free ↦ (success, taken m f, free-Allocates flush f m e free)
      | inl full ↦
          let (m1, n, p) = purge_frames-Purges 1 (flush_dirty flush) m d in
          purged-Allocates flush f m m1 n e full p
    ]
  ]
