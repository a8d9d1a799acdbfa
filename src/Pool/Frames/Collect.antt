-- ===== src/Pool/Frames/Collect.antt =====
-- The first loop of BPFrameManager::purge_frames in observer/storage/os/buffer/disk_buffer_pool.cpp: whatever
-- the policy answers, the frames that it pins had no pin, and no frame is taken twice.
use csu_dbms.Base.{
  ℕ, zero, suc, ◌+◌, ◌≡◌, ◌≢◌, refl, sym, ap, subst, ◌∙◌, inl, inr, Bool, Option, none, some, List,
  [], ◌∷◌, ◌==◌, if◌then◌else◌, Bool-cases, Option-cases, All, arith,
}
use csu_dbms.Replacement.Frame.{FrameId}
use csu_dbms.Replacement.FrameMap
use csu_dbms.Pool.Frames.{Frame, Replacement, Manager, pinned, choice, checked, hold, collect}
use csu_dbms.Pool.Frames.Release.{NoRepeat, find-put_other, find-put_self}

-- What the test of the policy's answer lets through.
pub checked-eq_some :
    (frames : List (FrameId × Frame)) (o : Option FrameId) (v : FrameId) (fr : Frame)
    → checked frames o ≡ some (v, fr)
    → (FrameMap.find v frames ≡ some fr) × (fr.pin_count ≡ 0)
checked-eq_some frames none v fr e = absurd cc
checked-eq_some frames (some w) v fr e = elim (Option-cases (FrameMap.find w frames)) [
  | inl gone ↦
      absurd (let clash : none ≡ some (v, fr) = subst (λ o. by_frame o ≡ some (v, fr)) gone e in cc)
  | inr (fr', here) ↦
      let e' : by_frame (some fr') ≡ some (v, fr) = subst (λ o. by_frame o ≡ some (v, fr)) here e in
      elim (Bool-cases (fr'.pin_count == 0)) [
        | inr held ↦ absurd (
            let clash : none ≡ some (v, fr) = subst (λ b. by_pin fr' b ≡ some (v, fr)) held e' in
            cc)
        | inl free ↦
            let e'' : ◌≡◌ {A = Option (FrameId × Frame)} (some (w, fr')) (some (v, fr)) =
              subst (λ b. by_pin fr' b ≡ some (v, fr)) free e' in
            let a : w ≡ v = cc in
            let b : fr' ≡ fr = cc in
            (
              subst (λ x. FrameMap.find x frames ≡ some fr) a (here ∙ ap some b),
              subst (λ x. x.pin_count ≡ 0) b (ground arith),
            )
      ]
]
  where
    by_pin : Frame → Bool → Option (FrameId × Frame)
    by_pin fr' b = if b then some (w, fr') else none

    by_frame : Option Frame → Option (FrameId × Frame)
    by_frame o = elim o [ none ↦ none | some fr' ↦ by_pin fr' (fr'.pin_count == 0) ]

-- What the loop makes.
pub record Collects {P : Type 0} (vs : List FrameId) (m m' : Manager P) : Type 0 where
  pub distinct : FrameMap.Distinct m'.frames
  pub free_frames : m'.free_frames ≡ m.free_frames
  pub no_repeat : NoRepeat vs
  pub held :
      All
        (λ v.
          (fr : Frame) × (FrameMap.find v m.frames ≡ some fr)
          × (fr.pin_count ≡ 0)
          × (FrameMap.find v m'.frames ≡ some (pinned fr)))
        vs
  pub others :
      (g : FrameId) → All (λ v. g ≢ v) vs → FrameMap.find g m'.frames ≡ FrameMap.find g m.frames

module _ {P : Type 0} (r : Replacement P) where
  -- One round, and the rounds behind it.
  Collects-cons :
      (v : FrameId) (fr : Frame) (vs : List FrameId) (m m' : Manager P)
      → FrameMap.find v m.frames ≡ some fr
      → fr.pin_count ≡ 0
      → Collects vs (hold r m v fr) m'
      → Collects (v ∷ vs) m m'
  Collects-cons v fr vs m m' e p c =
      let fresh = apart vs c.held in
      record {
        distinct = c.distinct;
        free_frames = c.free_frames;
        no_repeat = (fresh, c.no_repeat);
        held = (
          (fr, e, p, c.others v (flipped vs fresh) ∙ find-put_self v (pinned fr) m.frames),
          earlier vs fresh c.held,
        );
        others = λ g ne. c.others g ne.1 ∙ find-put_other v g (pinned fr) m.frames ne.0;
      }
    where
      Held : Manager P → FrameId → Type 0
      Held before w =
          (fr' : Frame) × (FrameMap.find w before.frames ≡ some fr')
          × (fr'.pin_count ≡ 0)
          × (FrameMap.find w m'.frames ≡ some (pinned fr'))

      apart : (ws : List FrameId) → All (Held (hold r m v fr)) ws → All (λ w. w ≢ v) ws
      apart [] h = tt
      apart (w ∷ ws) ((fr', a, b, c'), h) = (
        (λ same.
            let now : some fr' ≡ some (pinned fr) =
              sym a
              ∙ subst
                  (λ x. FrameMap.find x (FrameMap.put v (pinned fr) m.frames) ≡ some (pinned fr))
                  (sym same) (find-put_self v (pinned fr) m.frames) in
            let pins : fr'.pin_count ≡ fr.pin_count + 1 = cc in absurd (omega arith)),
        apart ws h,
      )

      flipped : (ws : List FrameId) → All (λ w. w ≢ v) ws → All (λ w. v ≢ w) ws
      flipped [] h = tt
      flipped (w ∷ ws) h = ((λ e'. h.0 (sym e')), flipped ws h.1)

      earlier :
          (ws : List FrameId)
          → All (λ w. w ≢ v) ws
          → All (Held (hold r m v fr)) ws
          → All (Held m) ws
      earlier [] ne h = tt
      earlier (w ∷ ws) ne ((fr', a, b, c'), h) =
          ((fr', sym (find-put_other v w (pinned fr) m.frames ne.0) ∙ a, b, c'), earlier ws ne.1 h)

  pub collect-Collects :
      (n : ℕ) (m : Manager P)
      → FrameMap.Distinct m.frames
      → Collects (collect r n m).0 m (collect r n m).1
  unfolding collect
  collect-Collects zero m d = record {
    distinct = d;
    free_frames = refl;
    no_repeat = tt;
    held = tt;
    others = λ g ne. refl;
  }
  collect-Collects (suc n) m d = elim (Option-cases (checked m.frames (choice r m).1)) [
    | inl stop ↦
        rw (collect, stop)
          (record {
            distinct = d;
            free_frames = refl;
            no_repeat = tt;
            held = tt;
            others = λ g ne. refl;
          })
    | inr ((v, fr), e) ↦
        let (here, free) = checked-eq_some m.frames (choice r m).1 v fr e in
        rw (collect, e)
          (Collects-cons v fr (collect r n (hold r m v fr)).0 m (collect r n (hold r m v fr)).1 here
            free
            (collect-Collects n (hold r m v fr) (FrameMap.put-Distinct v (pinned fr) m.frames d)))
  ]
