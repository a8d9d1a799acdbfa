-- ===== src/Replacement/FrameMap.antt =====
-- `std::unordered_map<FrameId, …>` as the policies use it: an association list without a repeated
-- key. What is proved of a walk over it does not depend on the order of the entries.
use csu_dbms.Base.{
  ◌≡◌, ◌≢◌, refl, Option, none, some, List, [], ◌∷◌, ite, arith, All, In, inl, inr, if_pos, if_neg,
  All-In, ap, sym,
}
use csu_dbms.Replacement.Frame.{FrameId, frame_dec}

module _ {V : Type 0} where
  unfoldable pub find : FrameId → List (FrameId × V) → Option V
  find f [] = none
  find f ((g, v) ∷ m) = ite (frame_dec g f) (some v) (find f m)

  -- `m[f] = v`
  unfoldable pub put : FrameId → V → List (FrameId × V) → List (FrameId × V)
  put f v [] = (f, v) ∷ []
  put f v ((g, w) ∷ m) = ite (frame_dec g f) ((f, v) ∷ m) ((g, w) ∷ put f v m)

  -- `m.erase(f)`
  unfoldable pub erase : FrameId → List (FrameId × V) → List (FrameId × V)
  erase f [] = []
  erase f ((g, w) ∷ m) = ite (frame_dec g f) m ((g, w) ∷ erase f m)

  abbrev pub Distinct : List (FrameId × V) → Type 0
  Distinct [] = Unit
  Distinct ((g, v) ∷ m) = All (λ e. e.0 ≢ g) m × Distinct m

  pub find-put :
      (f g : FrameId) (v : V) (m : List (FrameId × V))
      → find g (put f v m) ≡ ite (frame_dec f g) (some v) (find g m)
  unfolding find put
  find-put f g v [] = refl
  find-put f g v ((k, w) ∷ m) = ground (arith, find-put f g v m)

  find_absent : (f : FrameId) (m : List (FrameId × V)) → All (λ e. e.0 ≢ f) m → find f m ≡ none
  unfolding find
  find_absent f [] h = refl
  find_absent f ((g, w) ∷ m) h = ground (arith, h.0, find_absent f m h.1)

  pub find-erase :
      (f g : FrameId) (m : List (FrameId × V))
      → Distinct m
      → find g (erase f m) ≡ ite (frame_dec f g) none (find g m)
  unfolding find erase
  find-erase f g [] d = ground arith
  find-erase f g ((k, w) ∷ m) d =
      ground (arith, find-erase f g m d.1, find_absent k m d.0, ap (λ x. find x m) {x = k} {y = g})

  All-put :
      (P : FrameId → Type 0) (f : FrameId) (v : V) (m : List (FrameId × V))
      → P f
      → All (λ e. P e.0) m
      → All (λ e. P e.0) (put f v m)
  unfolding put
  All-put P f v [] h k = (h, tt)
  All-put P f v ((g, w) ∷ m) h k = ground (arith, All-put P f v m h k.1)

  All-erase :
      (P : FrameId → Type 0) (f : FrameId) (m : List (FrameId × V))
      → All (λ e. P e.0) m
      → All (λ e. P e.0) (erase f m)
  unfolding erase
  All-erase P f [] k = tt
  All-erase P f ((g, w) ∷ m) k = ground (arith, All-erase P f m k.1)

  pub put-Distinct :
      (f : FrameId) (v : V) (m : List (FrameId × V)) → Distinct m → Distinct (put f v m)
  unfolding put
  put-Distinct f v [] d = (tt, tt)
  put-Distinct f v ((g, w) ∷ m) d = elim (frame_dec g f) [
    | yes e ↦ rw (if_pos _ e) (rw (← e) d)
    | no ne ↦
        rw (if_neg _ ne) (All-put (λ x. x ≢ g) f v m (λ e. ne (sym e)) d.0, put-Distinct f v m d.1)
  ]

  pub erase-Distinct : (f : FrameId) (m : List (FrameId × V)) → Distinct m → Distinct (erase f m)
  unfolding erase
  erase-Distinct f [] d = tt
  erase-Distinct f ((g, w) ∷ m) d = elim (frame_dec g f) [
    | yes e ↦ rw (if_pos _ e) d.1
    | no ne ↦ rw (if_neg _ ne) (All-erase (λ x. x ≢ g) f m d.0, erase-Distinct f m d.1)
  ]

  -- What is found is an entry, and an entry is found.
  pub In-find : (f : FrameId) (v : V) (m : List (FrameId × V)) → find f m ≡ some v → In (f, v) m
  unfolding find
  In-find f v [] h = absurd (cc)
  In-find f v ((g, w) ∷ m) h = elim (frame_dec g f) [
    | yes e ↦ inl (ground arith)
    | no ne ↦ inr (In-find f v m (ground arith))
  ]

  pub find-In :
      (f : FrameId) (v : V) (m : List (FrameId × V)) → Distinct m → In (f, v) m → find f m ≡ some v
  unfolding find
  find-In f v [] d h = elim h [ ]
  find-In f v ((g, w) ∷ m) d (inl e) = ground arith
  find-In f v ((g, w) ∷ m) d (inr h) =
      rw (if_neg _ (λ e. All-In (λ x. x.0 ≢ g) (f, v) m d.0 h (sym e))) (find-In f v m d.1 h)
