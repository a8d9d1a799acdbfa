-- ===== src/Pool/Frames/Release.antt =====
-- The second loop of BPFrameManager::purge_frames in observer/storage/os/buffer/disk_buffer_pool.cpp: it has
-- the frames that the first loop pinned, and leaves all others.
use csu_dbms.Base.{
  ℕ, ◌+◌, ◌-◌, ◌≡◌, ◌≢◌, refl, sym, subst, ◌∙◌, ◌⊎◌, inl, inr, true, false, Option, none, some,
  List, [], ◌∷◌, ◌==◌, if_pos, if_neg, Bool-cases, All, In, arith,
}
use csu_dbms.Rc.{Rc, is_success}
use csu_dbms.Replacement.Frame.{FrameId, frame_dec}
use csu_dbms.Replacement.FrameMap
use csu_dbms.Pool.Frames.{Frame, Replacement, Manager, pinned, freed, free_internal, unpin, release}

-- No page is named twice.
abbrev pub NoRepeat : List FrameId → Type 0
NoRepeat [] = Unit
NoRepeat (v ∷ vs) = All (λ w. w ≢ v) vs × NoRepeat vs

-- A frame that had no pin has the one of the first loop.
abbrev pub IsHeld : List (FrameId × Frame) → FrameId → Type 0
IsHeld frames v = (fr : Frame) × (FrameMap.find v frames ≡ some (pinned fr)) × (fr.pin_count ≡ 0)

-- The lookups beside a page that was put or erased.
pub find-put_other :
    (v g : FrameId) (fr : Frame) (m : List (FrameId × Frame))
    → g ≢ v
    → FrameMap.find g (FrameMap.put v fr m) ≡ FrameMap.find g m
find-put_other v g fr m ne =
    FrameMap.find-put v g fr m
    ∙ if_neg (frame_dec v g) (λ e. ne (sym e)) (some fr) (FrameMap.find g m)

pub find-put_self :
    (v : FrameId) (fr : Frame) (m : List (FrameId × Frame))
    → FrameMap.find v (FrameMap.put v fr m) ≡ some fr
find-put_self v fr m =
    FrameMap.find-put v v fr m ∙ if_pos (frame_dec v v) refl (some fr) (FrameMap.find v m)

pub find-erase_other :
    (v g : FrameId) (m : List (FrameId × Frame))
    → FrameMap.Distinct m
    → g ≢ v
    → FrameMap.find g (FrameMap.erase v m) ≡ FrameMap.find g m
find-erase_other v g m d ne =
    FrameMap.find-erase v g m d ∙ if_neg (frame_dec v g) (λ e. ne (sym e)) none (FrameMap.find g m)

pub find-erase_self :
    (v : FrameId) (m : List (FrameId × Frame))
    → FrameMap.Distinct m
    → FrameMap.find v (FrameMap.erase v m) ≡ none
find-erase_self v m d =
    FrameMap.find-erase v v m d ∙ if_pos (frame_dec v v) refl none (FrameMap.find v m)

module _ {P : Type 0} (r : Replacement P) (purger : FrameId → Frame → Rc) where
  pub free_internal-held :
      (m : Manager P) (v : FrameId) (fr : Frame)
      → FrameMap.find v m.frames ≡ some (pinned fr)
      → fr.pin_count ≡ 0
      → free_internal r m v ≡ some (freed r m v)
  unfolding free_internal
  free_internal-held m v fr e p =
      let one : (fr.pin_count + 1 == 1) ≡ true = ground arith in rw (free_internal, e, one) refl

  abbrev let_go : Manager P → FrameId → Frame → Manager P
  let_go m v fr = record m { frames = FrameMap.put v fr m.frames }

  unpin-held :
      (m : Manager P) (v : FrameId) (fr : Frame)
      → FrameMap.find v m.frames ≡ some (pinned fr)
      → unpin r m v ≡ some (let_go m v fr)
  unfolding unpin
  unpin-held m v fr e =
      let some_pin : (fr.pin_count + 1 == 0) ≡ false = ground arith in
      let back : fr.pin_count + 1 - 1 ≡ fr.pin_count = omega arith in
      rw (unpin, e, some_pin, back) refl

  -- What becomes of a page: its frame is as it was, or it was held and is let go again or evicted.
  abbrev pub Released : List FrameId → Manager P → Manager P → FrameId → Type 0
  Released vs m m' g =
      ((FrameMap.find g m'.frames ≡ FrameMap.find g m.frames) × All (λ v. g ≢ v) vs)
      ⊎ (fr : Frame) × In g vs
        × (FrameMap.find g m.frames ≡ some (pinned fr))
        × (fr.pin_count ≡ 0)
        × ((FrameMap.find g m'.frames ≡ some fr)
            ⊎ ((is_success (purger g (pinned fr)) ≡ true) × (FrameMap.find g m'.frames ≡ none)))

  pub record Releases (vs : List FrameId) (m m' : Manager P) (n : ℕ) : Type 0 where
    pub answered : release r purger vs m ≡ some (m', n)
    pub distinct : FrameMap.Distinct m'.frames
    pub free_frames : m'.free_frames ≡ m.free_frames + n
    pub released : (g : FrameId) → Released vs m m' g

  -- One round, and the rounds behind it.
  Released-cons :
      (v : FrameId) (vs : List FrameId) (m m1 m' : Manager P) (fr : Frame)
      → FrameMap.find v m.frames ≡ some (pinned fr)
      → fr.pin_count ≡ 0
      → ((g : FrameId) → g ≢ v → FrameMap.find g m1.frames ≡ FrameMap.find g m.frames)
      → (FrameMap.find v m1.frames ≡ some fr)
        ⊎ ((is_success (purger v (pinned fr)) ≡ true) × (FrameMap.find v m1.frames ≡ none))
      → ((g : FrameId) → Released vs m1 m' g)
      → (g : FrameId) → Released (v ∷ vs) m m' g
  Released-cons v vs m m1 m' fr e p others here rest g = elim (frame_dec g v) [
    | no ne ↦ beside ne (others g ne) (rest g)
    | yes same ↦ at same
  ]
    where
      beside :
          g ≢ v
          → FrameMap.find g m1.frames ≡ FrameMap.find g m.frames
          → Released vs m1 m' g
          → Released (v ∷ vs) m m' g
      beside ne o (inl (a, b)) = inl (a ∙ o, (ne, b))
      beside ne o (inr (fr', i, a, b, c)) = inr (fr', inr i, sym o ∙ a, b, c)

      after :
          (o : Option Frame)
          → FrameMap.find v m1.frames ≡ o
          → (o ≡ some fr) ⊎ ((is_success (purger v (pinned fr)) ≡ true) × (o ≡ none))
          → Released vs m1 m' v
          → (FrameMap.find v m'.frames ≡ some fr)
            ⊎ ((is_success (purger v (pinned fr)) ≡ true) × (FrameMap.find v m'.frames ≡ none))
      after o now (inl kept) (inl (a, b)) = inl (a ∙ now ∙ kept)
      after o now (inr (ok, gone)) (inl (a, b)) = inr (ok, a ∙ now ∙ gone)
      after o now (inl kept) (inr (fr', i, a, b, c)) = absurd (
          let clash : some (pinned fr') ≡ some fr = sym a ∙ now ∙ kept in
          let pins : fr'.pin_count + 1 ≡ fr.pin_count = cc in omega arith)
      after o now (inr (ok, gone)) (inr (fr', i, a, b, c)) =
          absurd (let clash : some (pinned fr') ≡ none = sym a ∙ now ∙ gone in cc)

      at : g ≡ v → Released (v ∷ vs) m m' g
      at same =
          subst (Released (v ∷ vs) m m') (sym same)
            (inr (fr, inl refl, e, p, after (FrameMap.find v m1.frames) refl here (rest v)))

  All-IsHeld :
      (v : FrameId) (vs : List FrameId) (m m1 : Manager P)
      → ((g : FrameId) → g ≢ v → FrameMap.find g m1.frames ≡ FrameMap.find g m.frames)
      → All (λ w. w ≢ v) vs
      → All (IsHeld m.frames) vs
      → All (IsHeld m1.frames) vs
  All-IsHeld v [] m m1 o ne h = tt
  All-IsHeld v (w ∷ vs) m m1 o ne h =
      let (fr, e, p) = h.0 in ((fr, o w ne.0 ∙ e, p), All-IsHeld v vs m m1 o ne.1 h.1)

  pub release-Releases :
      (vs : List FrameId) (m : Manager P)
      → FrameMap.Distinct m.frames
      → NoRepeat vs
      → All (IsHeld m.frames) vs
      → (m' : Manager P) × (n : ℕ) × Releases vs m m' n
  unfolding release
  release-Releases [] m d u h = (
    m,
    0,
    record {
      answered = refl;
      distinct = d;
      free_frames = omega arith;
      released = λ g. inl (refl, tt);
    },
  )
  release-Releases (v ∷ vs) m d u h =
      let (fr, e, p) = h.0 in
      elim (Bool-cases (is_success (purger v (pinned fr)))) [
        | inl ok ↦
            let m1 = freed r m v in
            let others : (g : FrameId)
                → g ≢ v
                → FrameMap.find g m1.frames ≡ FrameMap.find g m.frames =
              λ g ne. find-erase_other v g m.frames d ne in
            let (m', n, rest) =
              release-Releases vs m1 (FrameMap.erase-Distinct v m.frames d) u.1
                (All-IsHeld v vs m m1 others u.0 h.1) in
            (
              m',
              n + 1,
              record {
                answered = rw (release, e, ok, free_internal-held m v fr e p, rest.answered) refl;
                distinct = rest.distinct;
                free_frames = omega (arith, rest.free_frames);
                released =
                    Released-cons v vs m m1 m' fr e p others
                      (inr (ok, find-erase_self v m.frames d)) rest.released;
              },
            )
        | inr failed ↦
            let m1 = let_go m v fr in
            let others : (g : FrameId)
                → g ≢ v
                → FrameMap.find g m1.frames ≡ FrameMap.find g m.frames =
              λ g ne. find-put_other v g fr m.frames ne in
            let (m', n, rest) =
              release-Releases vs m1 (FrameMap.put-Distinct v fr m.frames d) u.1
                (All-IsHeld v vs m m1 others u.0 h.1) in
            (
              m',
              n,
              record {
                answered = rw (release, e, failed, unpin-held m v fr e, rest.answered) refl;
                distinct = rest.distinct;
                free_frames = omega (arith, rest.free_frames);
                released =
                    Released-cons v vs m m1 m' fr e p others (inl (find-put_self v fr m.frames))
                      rest.released;
              },
            )
      ]
