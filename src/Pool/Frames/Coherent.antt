-- ===== src/Pool/Frames/Coherent.antt =====
-- The frame manager of observer/storage/os/buffer/disk_buffer_pool.cpp tells its policy of every page that gets
-- or loses a frame.
use csu_dbms.Base.{
  ℕ, ◌-◌, ◌≡◌, refl, sym, ap, subst, ◌∙◌, inl, inr, Bool, true, false, Option, none, some, List,
  ◌==◌, ite, Bool-cases, Option-cases,
}
use csu_dbms.Replacement.Frame.{FrameId, frame_dec}
use csu_dbms.Replacement.FrameMap
use csu_dbms.Pool.Frames.{
  Frame, Replacement, Manager, pinned, unpinned, new_frame, freed, free_internal, unpin, get, alloc,
}
use csu_dbms.Pool.Frames.Release.{find-put_other, find-put_self}

-- What a policy promises: in the relation `Holds` it keeps to the resident pages, and it names a replaceable page when there is one.
pub record Follows {P : Type 0} (r : Replacement P) (Holds : P → (FrameId → Bool) → Type 0)
    : Type 0 where
  pub congr :
      (s : P) (known now : FrameId → Bool)
      → ((g : FrameId) → now g ≡ known g)
      → Holds s known
      → Holds s now
  pub inserts :
      (s : P) (known : FrameId → Bool) (f : FrameId)
      → Holds s known
      → Holds (r.on_insert s f) (λ g. ite (frame_dec f g) true (known g))
  pub accesses :
      (s : P) (known : FrameId → Bool) (f : FrameId) → Holds s known → Holds (r.on_access s f) known
  pub removes :
      (s : P) (known : FrameId → Bool) (f : FrameId)
      → Holds s known
      → Holds (r.on_remove s f) (λ g. ite (frame_dec f g) false (known g))
  pub chooses :
      (s : P) (known may : FrameId → Bool) → Holds s known → Holds (r.choose_victim may s).0 known
  pub finds :
      (s : P) (known may : FrameId → Bool) (g : FrameId)
      → Holds s known
      → known g ≡ true
      → may g ≡ true
      → (v : FrameId) × ((r.choose_victim may s).1 ≡ some v) × (may v ≡ true)

abbrev pub is_some : Option Frame → Bool
is_some none = false
is_some (some fr) = true

abbrev pub is_resident : List (FrameId × Frame) → FrameId → Bool
is_resident frames f = is_some (FrameMap.find f frames)

-- The policy keeps to the pages that have a frame.
pub record IsCoherent {P : Type 0} (Holds : P → (FrameId → Bool) → Type 0) (m : Manager P)
    : Type 0 where
  pub distinct : FrameMap.Distinct m.frames
  pub known : Holds m.policy (is_resident m.frames)

module _ {P : Type 0} (r : Replacement P) (Holds : P → (FrameId → Bool) → Type 0)
    (law : Follows r Holds) where
  -- A frame that is changed stays resident.
  pub put-IsCoherent :
      (m : Manager P) (f : FrameId) (fr fr' : Frame) (s : P)
      → FrameMap.find f m.frames ≡ some fr
      → FrameMap.Distinct m.frames
      → Holds s (is_resident m.frames)
      → IsCoherent Holds (record m { frames = FrameMap.put f fr' m.frames; policy = s })
  put-IsCoherent m f fr fr' s e d k = record {
    distinct = FrameMap.put-Distinct f fr' m.frames d;
    known = law.congr s (is_resident m.frames) (is_resident (FrameMap.put f fr' m.frames)) same k;
  }
    where
      same : (g : FrameId) → is_resident (FrameMap.put f fr' m.frames) g ≡ is_resident m.frames g
      same g = elim (frame_dec g f) [
        | yes at ↦
            subst (λ x. is_resident (FrameMap.put f fr' m.frames) x ≡ is_resident m.frames x)
              (sym at) (ap is_some (find-put_self f fr' m.frames) ∙ ap is_some (sym e))
        | no ne ↦ ap is_some (find-put_other f g fr' m.frames ne)
      ]

  freed-IsCoherent :
      (m : Manager P) (f : FrameId) → IsCoherent Holds m → IsCoherent Holds (freed r m f)
  freed-IsCoherent m f c = record {
    distinct = FrameMap.erase-Distinct f m.frames c.distinct;
    known =
        law.congr (r.on_remove m.policy f) _ (is_resident (FrameMap.erase f m.frames))
          (λ g.
            ap is_some (FrameMap.find-erase f g m.frames c.distinct) ∙ by_place g (frame_dec f g))
          (law.removes m.policy (is_resident m.frames) f c.known);
  }
    where
      by_place :
          (g : FrameId) (here : Dec (f ≡ g))
          → is_some (ite here none (FrameMap.find g m.frames))
            ≡ ite here false (is_resident m.frames g)
      by_place g (yes e) = refl
      by_place g (no ne) = refl

  inserted-IsCoherent :
      (m : Manager P) (f : FrameId) (n : ℕ)
      → IsCoherent Holds m
      → IsCoherent Holds (record {
        frames = FrameMap.put f new_frame m.frames;
        free_frames = n;
        policy = r.on_insert m.policy f;
      })
  inserted-IsCoherent m f n c = record {
    distinct = FrameMap.put-Distinct f new_frame m.frames c.distinct;
    known =
        law.congr (r.on_insert m.policy f) _ (is_resident (FrameMap.put f new_frame m.frames))
          (λ g. ap is_some (FrameMap.find-put f g new_frame m.frames) ∙ by_place g (frame_dec f g))
          (law.inserts m.policy (is_resident m.frames) f c.known);
  }
    where
      by_place :
          (g : FrameId) (here : Dec (f ≡ g))
          → is_some (ite here (some new_frame) (FrameMap.find g m.frames))
            ≡ ite here true (is_resident m.frames g)
      by_place g (yes e) = refl
      by_place g (no ne) = refl

  pub get-IsCoherent :
      (m : Manager P) (f : FrameId) → IsCoherent Holds m → IsCoherent Holds (get r m f).0
  unfolding get
  get-IsCoherent m f c = elim (Option-cases (FrameMap.find f m.frames)) [
    | inl e ↦ rw (get, e) c
    | inr (fr, e) ↦
        rw (get, e)
          (put-IsCoherent m f fr (pinned fr) (r.on_access m.policy f) e c.distinct
            (law.accesses m.policy (is_resident m.frames) f c.known))
  ]

  pub alloc-IsCoherent :
      (m : Manager P) (f : FrameId) → IsCoherent Holds m → IsCoherent Holds (alloc r m f).0
  unfolding alloc
  alloc-IsCoherent m f c = elim (Option-cases (FrameMap.find f m.frames)) [
    | inr (fr, e) ↦ rw (alloc, e) (get-IsCoherent m f c)
    | inl e ↦ elim (Bool-cases (m.free_frames == 0)) [
      | inl full ↦ rw (alloc, e, full) c
      | inr free ↦ rw (alloc, e, free) (inserted-IsCoherent m f (m.free_frames - 1) c)
    ]
  ]

  pub free_internal-IsCoherent :
      (m m' : Manager P) (f : FrameId)
      → free_internal r m f ≡ some m'
      → IsCoherent Holds m
      → IsCoherent Holds m'
  unfolding free_internal
  free_internal-IsCoherent m m' f h c = elim (Option-cases (FrameMap.find f m.frames)) [
    | inl e ↦ absurd (
        let never : free_internal r m f ≡ none = rw (free_internal, e) refl in
        let clash : none ≡ some m' = sym never ∙ h in cc)
    | inr (fr, e) ↦ elim (Bool-cases (fr.pin_count == 1)) [
      | inl last ↦
          let now : free_internal r m f ≡ some (freed r m f) = rw (free_internal, e, last) refl in
          let joined : some (freed r m f) ≡ some m' = sym now ∙ h in
          let same : freed r m f ≡ m' = cc in subst (IsCoherent Holds) same (freed-IsCoherent m f c)
      | inr held ↦ absurd (
          let never : free_internal r m f ≡ none = rw (free_internal, e, held) refl in
          let clash : none ≡ some m' = sym never ∙ h in cc)
    ]
  ]

  pub unpin-IsCoherent :
      (m m' : Manager P) (f : FrameId)
      → unpin r m f ≡ some m'
      → IsCoherent Holds m
      → IsCoherent Holds m'
  unfolding unpin
  unpin-IsCoherent m m' f h c = elim (Option-cases (FrameMap.find f m.frames)) [
    | inl e ↦ absurd (
        let never : unpin r m f ≡ none = rw (unpin, e) refl in
        let clash : none ≡ some m' = sym never ∙ h in cc)
    | inr (fr, e) ↦ elim (Bool-cases (fr.pin_count == 0)) [
      | inr held ↦
          let less = record m { frames = FrameMap.put f (unpinned fr) m.frames } in
          let now : unpin r m f ≡ some less = rw (unpin, e, held) refl in
          let joined : some less ≡ some m' = sym now ∙ h in
          let same : less ≡ m' = cc in
          subst (IsCoherent Holds) same
            (put-IsCoherent m f fr (unpinned fr) m.policy e c.distinct c.known)
      | inl free ↦ absurd (
          let never : unpin r m f ≡ none = rw (unpin, e, free) refl in
          let clash : none ≡ some m' = sym never ∙ h in cc)
    ]
  ]
