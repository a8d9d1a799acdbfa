-- ===== src/Pool/Frames/Served.antt =====
-- DiskBufferPool::allocate_frame in observer/storage/os/buffer/disk_buffer_pool.cpp with a policy that names a
-- replaceable page when there is one: a page is served while some frame can leave.
use csu_dbms.Base.{
  ℕ, zero, suc, ◌+◌, ◌≡◌, ◌≢◌, refl, sym, ap, subst, ◌∙◌, ◌⊎◌, inl, inr, Bool, true, false, Option,
  none, some, List, [], ◌∷◌, ◌==◌, if◌then◌else◌, Bool-cases, Option-cases, arith,
}
use mathlib.Core.Option
use csu_dbms.Rc.{Rc, success, bufferpool_nobuf, is_success}
use csu_dbms.Replacement.Frame.{FrameId}
use csu_dbms.Replacement.FrameMap
use csu_dbms.Pool.Frames.{
  Frame, Replacement, Manager, pinned, new_frame, flush_dirty, is_replaceable, choice, checked,
  hold, freed, free_internal, unpin, alloc, collect, release, purge_frames, allocate_frame,
}
use csu_dbms.Pool.Frames.Release.{find-put_self, free_internal-held}
use csu_dbms.Pool.Frames.Purge.{
  taken, alloc-resident, alloc-free, alloc-none, allocate_frame-alloc, allocate_frame-purge,
}
use csu_dbms.Pool.Frames.Collect.{checked-eq_some}
use csu_dbms.Pool.Frames.Coherent.{
  Follows, IsCoherent, is_some, is_resident, put-IsCoherent, free_internal-IsCoherent,
  unpin-IsCoherent, alloc-IsCoherent,
}

module _ {P : Type 0} (r : Replacement P) (Holds : P → (FrameId → Bool) → Type 0)
    (law : Follows r Holds) where
  hold-IsCoherent :
      (m : Manager P) (v : FrameId) (fr : Frame)
      → FrameMap.find v m.frames ≡ some fr
      → IsCoherent Holds m
      → IsCoherent Holds (hold r m v fr)
  hold-IsCoherent m v fr e c =
      put-IsCoherent r Holds law m v fr (pinned fr) (choice r m).0 e c.distinct
        (law.chooses m.policy (is_resident m.frames) (is_replaceable m.frames) c.known)

  collect-IsCoherent :
      (n : ℕ) (m : Manager P) → IsCoherent Holds m → IsCoherent Holds (collect r n m).1
  unfolding collect
  collect-IsCoherent zero m c = c
  collect-IsCoherent (suc n) m c = elim (Option-cases (checked m.frames (choice r m).1)) [
    | inl stop ↦
        rw (collect, stop)
          (record {
            distinct = c.distinct;
            known = law.chooses m.policy (is_resident m.frames) (is_replaceable m.frames) c.known;
          })
    | inr ((v, fr), e) ↦
        let (here, free) = checked-eq_some m.frames (choice r m).1 v fr e in
        rw (collect, e) (collect-IsCoherent n (hold r m v fr) (hold-IsCoherent m v fr here c))
  ]

  -- What a round of the second loop answers is what the rest answers, behind this round's change.
  release-IsCoherent :
      (purger : FrameId → Frame → Rc) (vs : List FrameId) (m m' : Manager P) (n : ℕ)
      → release r purger vs m ≡ some (m', n)
      → IsCoherent Holds m
      → IsCoherent Holds m'
  unfolding release
  release-IsCoherent purger [] m m' n h c =
      let same : m ≡ m' = cc in subst (IsCoherent Holds) same c
  release-IsCoherent purger (v ∷ vs) m m' n h c = elim (Option-cases (FrameMap.find v m.frames)) [
    | inl e ↦ absurd (never (unfold release in rw (release, e) refl))
    | inr (fr, e) ↦ elim (Bool-cases (is_success (purger v fr))) [
      | inl ok ↦ elim (Option-cases (free_internal r m v)) [
        | inl failed ↦ absurd (never (unfold release in rw (release, e, ok, failed) refl))
        | inr (m1, done) ↦
            let here : release r purger (v ∷ vs) m
                ≡ Option.map {B = Manager P × ℕ} (λ x. (x.0, x.1 + 1)) (release r purger vs m1) =
              rw (release, e, ok, done) refl in
            let (k, rest) = counted (release r purger vs m1) (sym here ∙ h) in
            release-IsCoherent purger vs m1 m' k rest
              (free_internal-IsCoherent r Holds law m m1 v done c)
      ]
      | inr kept ↦ elim (Option-cases (unpin r m v)) [
        | inl failed ↦ absurd (never (unfold release in rw (release, e, kept, failed) refl))
        | inr (m1, done) ↦
            let here : release r purger (v ∷ vs) m ≡ release r purger vs m1 =
              rw (release, e, kept, done) refl in
            release-IsCoherent purger vs m1 m' n (sym here ∙ h)
              (unpin-IsCoherent r Holds law m m1 v done c)
      ]
    ]
  ]
    where
      never : release r purger (v ∷ vs) m ≡ none → ⊥
      never e = let clash : ◌≡◌ {A = Option (Manager P × ℕ)} none (some (m', n)) = sym e ∙ h in cc

      counted :
          (o : Option (Manager P × ℕ))
          → Option.map {B = Manager P × ℕ} (λ x. (x.0, x.1 + 1)) o ≡ some (m', n)
          → (k : ℕ) × (o ≡ some (m', k))
      counted none e = absurd cc
      counted (some (m2, k)) e = let same : m2 ≡ m' = cc in (k, ap (λ x. some (x, k)) same)

  pub purge_frames-IsCoherent :
      (count : ℕ) (purger : FrameId → Frame → Rc) (m m' : Manager P) (n : ℕ)
      → purge_frames r count purger m ≡ some (m', n)
      → IsCoherent Holds m
      → IsCoherent Holds m'
  unfolding purge_frames
  purge_frames-IsCoherent count purger m m' n h c =
      let wanted = if count == 0 then 1 else count in
      release-IsCoherent purger (collect r wanted m).0 (collect r wanted m).1 m' n h
        (collect-IsCoherent wanted m c)

  -- `allocate_frame` keeps the policy in step.
  pub allocate_frame-IsCoherent :
      (fuel : ℕ) (flush : FrameId → Rc) (f : FrameId) (m m' : Manager P) (rc : Rc)
      → allocate_frame r fuel flush f m ≡ some (rc, m')
      → IsCoherent Holds m
      → IsCoherent Holds m'
  unfolding allocate_frame
  allocate_frame-IsCoherent zero flush f m m' rc h c = absurd cc
  allocate_frame-IsCoherent (suc fuel) flush f m m' rc h c =
      let c1 = alloc-IsCoherent r Holds law m f c in
      let m1 = (alloc r m f).0 in
      elim (Option-cases (alloc r m f).1) [
        | inr (fr, got) ↦
            let now : allocate_frame r (suc fuel) flush f m ≡ some (success, m1) =
              rw (allocate_frame, got) refl in
            let joined : ◌≡◌ {A = Option (Rc × Manager P)} (some (success, m1)) (some (rc, m')) =
              sym now ∙ h in
            let same : m1 ≡ m' = cc in subst (IsCoherent Holds) same c1
        | inl missed ↦ elim (Option-cases (purge_frames r 1 (flush_dirty flush) m1)) [
          | inl failed ↦
              let now : allocate_frame r (suc fuel) flush f m ≡ none =
                rw (allocate_frame, missed, failed) refl in
              absurd (
                let clash : ◌≡◌ {A = Option (Rc × Manager P)} none (some (rc, m')) = sym now ∙ h in
                cc)
          | inr ((m2, n), purged) ↦
              let c2 = purge_frames-IsCoherent 1 (flush_dirty flush) m1 m2 n purged c1 in
              elim (Bool-cases (n == 0)) [
                | inl stop ↦
                    let now : allocate_frame r (suc fuel) flush f m ≡ some (bufferpool_nobuf, m2) =
                      rw (allocate_frame, missed, purged, stop) refl in
                    let joined : ◌≡◌ {A = Option (Rc × Manager P)} (some (bufferpool_nobuf, m2))
                        (some (rc, m')) =
                      sym now ∙ h in
                    let same : m2 ≡ m' = cc in subst (IsCoherent Holds) same c2
                | inr more ↦
                    let now : allocate_frame r (suc fuel) flush f m
                        ≡ allocate_frame r fuel flush f m2 =
                      rw (allocate_frame, missed, purged, more) refl in
                    allocate_frame-IsCoherent fuel flush f m2 m' rc (sym now ∙ h) c2
              ]
        ]
      ]

  -- A purge of one frame, when the policy names one and its flush succeeds.
  purge_one :
      (flush : FrameId → Rc) (m : Manager P) (v : FrameId) (fr : Frame)
      → is_success (flush v) ≡ true
      → checked m.frames (choice r m).1 ≡ some (v, fr)
      → purge_frames r 1 (flush_dirty flush) m ≡ some (freed r (hold r m v fr) v, 1)
  unfolding purge_frames collect release
  purge_one flush m v fr ok e =
      let free = (checked-eq_some m.frames (choice r m).1 v fr e).1 in
      let flushed : is_success (flush_dirty flush v (pinned fr)) ≡ true =
        elim fr.dirty as (λ d. is_success (if d then flush v else success) ≡ true) [
          | true ↦ ok
          | false ↦ refl
        ] in
      let held = find-put_self v (pinned fr) m.frames in
      rw
        (
          purge_frames,
          collect,
          e,
          release,
          held,
          flushed,
          free_internal-held r (flush_dirty flush) (hold r m v fr) v fr held free,
        )
        refl

  is_replaceable-unpinned :
      (frames : List (FrameId × Frame)) (g : FrameId) (fr : Frame)
      → FrameMap.find g frames ≡ some fr
      → fr.pin_count ≡ 0
      → is_replaceable frames g ≡ true
  is_replaceable-unpinned frames g fr e p =
      let zero_pins : (fr.pin_count == 0) ≡ true = ground arith in
      rw (is_replaceable, e, zero_pins) refl

  checked-replaceable :
      (frames : List (FrameId × Frame)) (v : FrameId)
      → is_replaceable frames v ≡ true
      → (fr : Frame) × (checked frames (some v) ≡ some (v, fr))
  checked-replaceable frames v h = by_frame (FrameMap.find v frames) h
    where
      by_frame :
          (o : Option Frame)
          → (elim o [ none ↦ false | some fr ↦ fr.pin_count == 0 ]) ≡ true
          → (fr : Frame) × (◌≡◌ {A = Option (FrameId × Frame)}
              (elim o [
                | none ↦ none
                | some fr' ↦ if fr'.pin_count == 0 then some (v, fr') else none
              ])
              (some (v, fr)))
      by_frame none e = absurd cc
      by_frame (some fr) e = (fr, rw e refl)

  -- With a free frame, or one of its own, the page is served in the first round.
  served_at_once :
      (fuel : ℕ) (flush : FrameId → Rc) (f : FrameId) (m : Manager P)
      → (FrameMap.find f m.frames ≢ none) ⊎ ((m.free_frames == 0) ≡ false)
      → (m' : Manager P) × (allocate_frame r (suc fuel) flush f m ≡ some (success, m'))
  served_at_once fuel flush f m h = elim (Option-cases (FrameMap.find f m.frames)) [
    | inr (fr, e) ↦
        (_, allocate_frame-alloc r fuel flush f m _ (pinned fr) (alloc-resident r m f fr e))
    | inl e ↦ elim h [
      | inl resident ↦ absurd (resident e)
      | inr free ↦ (_, allocate_frame-alloc r fuel flush f m _ new_frame (alloc-free r m f e free))
    ]
  ]

  -- With a policy that follows the resident pages: while every flush succeeds and some page has a frame with no
  -- pin, `allocate_frame` gives a frame.
  pub allocate_frame-success :
      (fuel : ℕ) (flush : FrameId → Rc) (f g : FrameId) (fr : Frame) (m : Manager P)
      → IsCoherent Holds m
      → ((v : FrameId) → is_success (flush v) ≡ true)
      → FrameMap.find g m.frames ≡ some fr
      → fr.pin_count ≡ 0
      → (m' : Manager P) × (allocate_frame r (suc (suc fuel)) flush f m ≡ some (success, m'))
  allocate_frame-success fuel flush f g fr m c flushes e p =
      elim (Option-cases (FrameMap.find f m.frames)) [
        | inr (own, here) ↦
            served_at_once (suc fuel) flush f m
              (inl (λ gone. let clash : none ≡ some own = sym gone ∙ here in cc))
        | inl missing ↦ elim (Bool-cases (m.free_frames == 0)) [
          | inr free ↦ served_at_once (suc fuel) flush f m (inr free)
          | inl full ↦
              let (v, named, may) =
                law.finds m.policy (is_resident m.frames) (is_replaceable m.frames) g c.known
                  (ap is_some e) (is_replaceable-unpinned m.frames g fr e p) in
              let (fr', taken) = checked-replaceable m.frames v may in
              let purged =
                purge_one flush m v fr' (flushes v) (ap (checked m.frames) named ∙ taken) in
              let m1 = freed r (hold r m v fr') v in
              let some_free : (m1.free_frames == 0) ≡ false = ground arith in
              let (m', done) = served_at_once fuel flush f m1 (inr some_free) in
              (
                m',
                allocate_frame-purge r (suc fuel) flush f m m1 1 (alloc-none r m f missing full)
                      purged
                    ∙ done,
              )
        ]
      ]
