-- ===== src/Replacement/Ordered/Recency.antt =====
-- LRU and FIFO against the history: the list is sorted by the time of the last use, so the victim
-- is the replaceable page that was used (LRU) or entered (FIFO) longest ago.
use mathlib.Core.Bool.{false≢true}
use csu_dbms.Base.{
  ℕ, suc, ◌≡◌, ◌≢◌, ◌<◌, ◌≤◌, refl, Bool, true, false, Option, none, some, List, [], ◌∷◌, ◌++◌, ite,
  if◌then◌else◌, arith, All, All-append, All-map, length, ◌∙◌, ap, sym, subst, inl, inr, Bool-cases,
  if_pos, if_neg,
}
use csu_dbms.Replacement.Frame.{FrameId, frame_dec, Event, insert, access, remove}
use csu_dbms.Replacement.Ordered.Nodes.{frames, erase}
use csu_dbms.Replacement.Ordered.Refine.{holds, apply, apply_all, frames-run}
use csu_dbms.Replacement.Ordered.{Node, run, first_replaceable, choose_victim}

-- Whether an event counts as a use of a page.
abbrev pub uses : Bool → Event → FrameId → Bool
uses touched (insert g) f = ite (frame_dec g f) true false
uses touched (access g) f = if touched then ite (frame_dec g f) true false else false
uses touched (remove g) f = false

-- The time of the last use in a history, newest event first.
unfoldable pub last_use : Bool → List Event → FrameId → ℕ
last_use touched [] f = 0
last_use touched (e ∷ h) f = if uses touched e f then suc (length h) else last_use touched h f

-- Whether a page is registered: the last insertion or removal of it was an insertion.
unfoldable pub resident : List Event → FrameId → Bool
resident [] f = false
resident (insert g ∷ h) f = ite (frame_dec g f) true (resident h f)
resident (access g ∷ h) f = resident h f
resident (remove g ∷ h) f = ite (frame_dec g f) false (resident h f)

abbrev Sorted : (FrameId → ℕ) → List FrameId → Type 0
Sorted t [] = Unit
Sorted t (x ∷ xs) = All (λ y. t x < t y) xs × Sorted t xs

last_use-le : (touched : Bool) (h : List Event) (f : FrameId) → last_use touched h f ≤ length h
unfolding last_use
last_use-le touched [] f = omega arith
last_use-le touched (e ∷ h) f = ground (arith, last_use-le touched h f)

All-erase : (P : FrameId → Type 0) (f : FrameId) (xs : List FrameId) → All P xs → All P (erase f xs)
unfolding erase
All-erase P f [] h = tt
All-erase P f (x ∷ xs) h = ground (arith, All-erase P f xs h.1)

erase-Sorted :
    (t : FrameId → ℕ) (f : FrameId) (xs : List FrameId) → Sorted t xs → Sorted t (erase f xs)
unfolding erase
erase-Sorted t f [] s = tt
erase-Sorted t f (x ∷ xs) s =
    ground (arith, erase-Sorted t f xs s.1, All-erase (λ y. t x < t y) f xs s.0)

ne_of_lt : (t : FrameId → ℕ) (x y : FrameId) → t x < t y → y ≢ x
ne_of_lt t x y h e = omega (arith, ap t e)

All-ne_of_lt :
    (t : FrameId → ℕ) (f : FrameId) (xs : List FrameId)
    → All (λ y. t f < t y) xs
    → All (λ y. y ≢ f) xs
All-ne_of_lt t f [] h = tt
All-ne_of_lt t f (x ∷ xs) h = (ne_of_lt t f x h.0, All-ne_of_lt t f xs h.1)

erase-ne :
    (t : FrameId → ℕ) (f : FrameId) (xs : List FrameId)
    → Sorted t xs
    → All (λ y. y ≢ f) (erase f xs)
unfolding erase
erase-ne t f [] s = tt
erase-ne t f (x ∷ xs) s = elim (frame_dec x f) [
  | yes e ↦ rw (if_pos _ e) (rw (← e) (All-ne_of_lt t x xs s.0))
  | no ne ↦ rw (if_neg _ ne) (ne, erase-ne t f xs s.1)
]

module _ (t t' : FrameId → ℕ) where
  Sorted-congr : (xs : List FrameId) → All (λ y. t' y ≡ t y) xs → Sorted t xs → Sorted t' xs
  Sorted-congr [] h s = tt
  Sorted-congr (x ∷ xs) h s = (later xs h.1 s.0, Sorted-congr xs h.1 s.1)
    where
      later :
          (ys : List FrameId)
          → All (λ y. t' y ≡ t y) ys
          → All (λ y. t x < t y) ys
          → All (λ y. t' x < t' y) ys
      later [] k l = tt
      later (y ∷ ys) k l = (omega (arith, h.0, k.0, l.0), later ys k.1 l.1)

Sorted-append :
    (t : FrameId → ℕ) (xs : List FrameId) (f : FrameId)
    → Sorted t xs
    → All (λ y. t y < t f) xs
    → Sorted t (xs ++ f ∷ [])
Sorted-append t [] f s h = (tt, tt)
Sorted-append t (x ∷ xs) f s h =
    (All-append (λ y. t x < t y) xs (f ∷ []) s.0 (h.0, tt), Sorted-append t xs f s.1 h.1)

-- A page moved to the back, with a time above all others, leaves the list sorted.
moved-Sorted :
    (t t' : FrameId → ℕ) (n : ℕ) (f : FrameId) (xs : List FrameId)
    → ((g : FrameId) → t g ≤ n)
    → t' f ≡ suc n
    → ((g : FrameId) → g ≢ f → t' g ≡ t g)
    → Sorted t xs
    → Sorted t' (erase f xs ++ f ∷ [])
moved-Sorted t t' n f xs bound new same s =
    Sorted-append t' (erase f xs) f (Sorted-congr t t' _ agree (erase-Sorted t f xs s))
      (All-map _ _ (λ y (e : t' y ≡ t y). omega (arith, bound y)) (erase f xs) agree)
  where
    agree : All (λ y. t' y ≡ t y) (erase f xs)
    agree = All-map _ _ same (erase f xs) (erase-ne t f xs s)

holds_absent : (f : FrameId) (xs : List FrameId) → holds f xs ≡ false → All (λ y. y ≢ f) xs
unfolding holds
holds_absent f [] e = tt
holds_absent f (x ∷ xs) e = elim (frame_dec x f) [
  | yes p ↦ absurd (ground arith)
  | no p ↦ (p, holds_absent f xs (ground arith))
]

absent-holds : (f : FrameId) (xs : List FrameId) → All (λ y. y ≢ f) xs → holds f xs ≡ false
unfolding holds
absent-holds f [] h = refl
absent-holds f (x ∷ xs) h = ground (arith, h.0, absent-holds f xs h.1)

holds-append :
    (f g : FrameId) (xs : List FrameId)
    → holds g (xs ++ f ∷ []) ≡ ite (frame_dec f g) true (holds g xs)
unfolding holds
holds-append f g [] = refl
holds-append f g (x ∷ xs) = ground (arith, holds-append f g xs)

holds-erase_ne : (f g : FrameId) (xs : List FrameId) → f ≢ g → holds g (erase f xs) ≡ holds g xs
unfolding holds erase
holds-erase_ne f g [] ne = refl
holds-erase_ne f g (x ∷ xs) ne = ground (arith, holds-erase_ne f g xs)

holds-erase :
    (t : FrameId → ℕ) (f g : FrameId) (xs : List FrameId)
    → Sorted t xs
    → holds g (erase f xs) ≡ ite (frame_dec f g) false (holds g xs)
holds-erase t f g xs s = ground (
  arith,
  absent-holds f (erase f xs) (erase-ne t f xs s),
  ap (λ k. holds k (erase f xs)) {x = f} {y = g},
  holds-erase_ne f g xs,
)

-- The list after a history is sorted by last use and holds the resident pages.
record Tracks (touched : Bool) (h : List Event) (xs : List FrameId) : Type 0 where
  sorted : Sorted (last_use touched h) xs
  members : (f : FrameId) → resident h f ≡ holds f xs

module _ (touched : Bool) (f : FrameId) (h : List Event) (xs : List FrameId)
    (k : Tracks touched h xs) where
  used-Tracks :
      (e : Event)
      → uses touched e f ≡ true
      → ((g : FrameId) → g ≢ f → uses touched e g ≡ false)
      → ((g : FrameId) → resident (e ∷ h) g ≡ ite (frame_dec f g) true (resident h g))
      → Tracks touched (e ∷ h) (erase f xs ++ f ∷ [])
  used-Tracks e now other res = record {
    sorted =
        moved-Sorted (last_use touched h) (last_use touched (e ∷ h)) (length h) f xs
          (last_use-le touched h) (unfold last_use in rw now)
          (λ g ne. unfold last_use in rw (other g ne)) k.sorted;
    members = λ g. ground (
      arith,
      res g,
      k.members g,
      holds-append f g (erase f xs),
      holds-erase (last_use touched h) f g xs k.sorted,
    );
  }

  removed-Tracks : Tracks touched (remove f ∷ h) (erase f xs)
  unfolding resident last_use
  removed-Tracks = record {
    sorted = erase-Sorted (last_use touched h) f xs k.sorted;
    members = λ g. ground (arith, k.members g, holds-erase (last_use touched h) f g xs k.sorted);
  }

  absent-Tracks : holds f xs ≡ false → Tracks touched (access f ∷ h) xs
  unfolding resident last_use
  absent-Tracks e = record {
    sorted =
        Sorted-congr (last_use touched h) _ xs
          (All-map _ _ (λ y (ne : y ≢ f). ground arith) xs (holds_absent f xs e)) k.sorted;
    members = k.members;
  }

access-Tracks :
    (touched : Bool) (f : FrameId) (h : List Event) (xs : List FrameId)
    → Tracks touched h xs
    → Tracks touched (access f ∷ h) (apply touched (access f) xs)
unfolding apply
access-Tracks true f h xs k = elim (Bool-cases (holds f xs)) [
  | inl e ↦ rw e (
      used-Tracks true f h xs k (access f) (ground arith) (λ g ne. ground arith)
        (λ g. unfold resident in ground (arith, k.members g, ap (λ y. holds y xs) {x = f} {y = g})))
  | inr e ↦ rw e (absent-Tracks true f h xs k e)
]
access-Tracks false f h xs k = record {
  sorted = unfold last_use in k.sorted;
  members = unfold resident in k.members;
}

history-Tracks : (touched : Bool) (h : List Event) → Tracks touched h (apply_all touched h)
unfolding apply_all apply
history-Tracks touched [] = record { sorted = tt; members = λ f. unfold holds resident in refl }
history-Tracks touched (insert f ∷ h) =
    used-Tracks touched f h _ (history-Tracks touched h) (insert f) (ground arith)
      (λ g ne. ground arith) (λ g. unfold resident in refl)
history-Tracks touched (access f ∷ h) = access-Tracks touched f h _ (history-Tracks touched h)
history-Tracks touched (remove f ∷ h) = removed-Tracks touched f h _ (history-Tracks touched h)

-- A right answer to the question for a victim: a replaceable resident page whose time is least, or
-- none if no resident page is replaceable.
abbrev pub Oldest : (FrameId → Bool) → (FrameId → ℕ) → (FrameId → Bool) → Option FrameId → Type 0
Oldest here t p none = (g : FrameId) → here g ≡ true → p g ≡ false
Oldest here t p (some v) =
    (here v ≡ true) × (p v ≡ true) × ((g : FrameId) → here g ≡ true → p g ≡ true → t v ≤ t g)

head_least :
    (t : FrameId → ℕ) (x g : FrameId) (xs : List FrameId)
    → All (λ y. t x < t y) xs
    → holds g (x ∷ xs) ≡ true
    → t x ≤ t g
unfolding holds
head_least t x g [] h m = ground (arith, ap t {x = x} {y = g})
head_least t x g (y ∷ xs) h m =
    ground (arith, ap t {x = x} {y = g}, ap t {x = y} {y = g}, h.0, head_least t x g xs h.1)

-- A head that may not go changes nothing.
skip-Oldest :
    (p : FrameId → Bool) (t : FrameId → ℕ) (x : FrameId) (xs : List FrameId) (o : Option FrameId)
    → p x ≡ false
    → Oldest (λ g. holds g xs) t p o
    → Oldest (λ g. holds g (x ∷ xs)) t p o
unfolding holds
skip-Oldest p t x xs none e rest = λ g h. ground (arith, rest g, ap p {x = x} {y = g})
skip-Oldest p t x xs (some v) e rest =
    (ground arith, rest.1, λ g h k. ground (arith, rest.2 g, ap p {x = x} {y = g}))

choose-Oldest :
    (p : FrameId → Bool) (t : FrameId → ℕ) (xs : List Node)
    → Sorted t (frames xs)
    → Oldest (λ g. holds g (frames xs)) t p (first_replaceable p xs)
unfolding first_replaceable holds
choose-Oldest p t [] s = λ g h. absurd (cc)
choose-Oldest p t (x ∷ xs) s = elim (Bool-cases (p x.frame)) [
  | inl e ↦ rw e (
    if_pos (frame_dec x.frame x.frame) refl _ _,
    e,
    λ g h k. head_least t x.frame g (frames xs) s.0 h,
  )
  | inr e ↦ rw e (skip-Oldest p t x.frame (frames xs) _ e (choose-Oldest p t xs s.1))
]

Oldest-congr :
    (here here' : FrameId → Bool) (t : FrameId → ℕ) (p : FrameId → Bool) (o : Option FrameId)
    → ((g : FrameId) → here' g ≡ here g)
    → Oldest here t p o
    → Oldest here' t p o
Oldest-congr here here' t p none same k = λ g h. k g (sym (same g) ∙ h)
Oldest-congr here here' t p (some v) same k = (same v ∙ k.0, k.1, λ g h. k.2 g (sym (same g) ∙ h))

victim-Oldest :
    (touched : Bool) (h : List Event) (p : FrameId → Bool)
    → Oldest (resident h) (last_use touched h) p (choose_victim p (run touched h))
unfolding choose_victim
victim-Oldest touched h p =
    let k : Tracks touched h (frames (run touched h).order) =
      subst (Tracks touched h) (sym (frames-run touched h)) (history-Tracks touched h) in
    Oldest-congr _ _ _ p _ k.members (choose-Oldest p (last_use touched h) _ k.sorted)

-- After any history of insertions, accesses and removals, if some resident page is replaceable,
-- `choose_victim` finds a replaceable resident page, and its last use (LRU: insertion or access,
-- FIFO: insertion) is no later than that of any such page.
pub choose_victim_oldest :
    (touched : Bool) (h : List Event) (p : FrameId → Bool) (g : FrameId)
    → resident h g ≡ true
    → p g ≡ true
    → (v : FrameId) × (choose_victim p (run touched h) ≡ some v)
      × (resident h v ≡ true)
      × (p v ≡ true)
      × (last_use touched h v ≤ last_use touched h g)
choose_victim_oldest touched h p g here free =
    answer (choose_victim p (run touched h)) (victim-Oldest touched h p)
  where
    answer :
        (o : Option FrameId)
        → Oldest (resident h) (last_use touched h) p o
        → (v : FrameId) × (o ≡ some v)
          × (resident h v ≡ true)
          × (p v ≡ true)
          × (last_use touched h v ≤ last_use touched h g)
    answer none k = absurd (false≢true (sym (k g here) ∙ free))
    answer (some v) k = (v, refl, k.0, k.1, k.2 g here free)

-- After any history, a page that `choose_victim` names is resident and replaceable.
pub choose_victim_sound :
    (touched : Bool) (h : List Event) (p : FrameId → Bool) (v : FrameId)
    → choose_victim p (run touched h) ≡ some v
    → (resident h v ≡ true) × (p v ≡ true)
choose_victim_sound touched h p v e =
    let k = subst (Oldest (resident h) (last_use touched h) p) e (victim-Oldest touched h p) in
    (k.0, k.1)
