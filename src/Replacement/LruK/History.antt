-- ===== src/Replacement/LruK/History.antt =====
-- The stored histories against the full log of accesses: each page keeps its last two.
use csu_dbms.Base.{
  ℕ, suc, ◌^◌, ◌<◌, ◌≡◌, refl, Option, none, some, List, [], ◌∷◌, ite, arith, ap, ◌∙◌, if_pos,
}
use mathlib.Core.Option
use csu_dbms.Replacement.Frame.{FrameId, frame_dec, Event, insert, access, remove}
use csu_dbms.Replacement.FrameMap
use csu_dbms.Replacement.LruK.{
  Policy, create, push_time, next_timestamp, record_access, on_remove, on_insert, on_access, step,
  run,
}

-- The number of accesses so far.
unfoldable pub clock : List Event → ℕ
clock [] = 0
clock (insert g ∷ h) = suc (clock h)
clock (access g ∷ h) = suc (clock h)
clock (remove g ∷ h) = clock h

-- All access times of a page since it was last inserted or removed, newest first.
unfoldable pub times : List Event → FrameId → List ℕ
times [] f = []
times (insert g ∷ h) f = ite (frame_dec g f) (suc (clock h) ∷ []) (times h f)
times (access g ∷ h) f = ite (frame_dec g f) (suc (clock h) ∷ times h f) (times h f)
times (remove g ∷ h) f = ite (frame_dec g f) [] (times h f)

-- The last two accesses, the older first; no entry without an access.
unfoldable pub last_two : List ℕ → Option (List ℕ)
last_two [] = none
last_two (a ∷ []) = some (a ∷ [])
last_two (a ∷ b ∷ rest) = some (b ∷ a ∷ [])

push_time-last_two :
    (ts : List ℕ) (t : ℕ) → some (push_time (Option.get_or (last_two ts) []) t) ≡ last_two (t ∷ ts)
unfolding push_time last_two
push_time-last_two [] t = refl
push_time-last_two (a ∷ []) t = refl
push_time-last_two (a ∷ b ∷ rest) t = refl

pub run-Distinct : (h : List Event) → FrameMap.Distinct (run h).histories
unfolding run step create on_insert on_access on_remove record_access
run-Distinct [] = tt
run-Distinct (insert f ∷ h) =
    FrameMap.put-Distinct f _ _ (FrameMap.erase-Distinct f _ (run-Distinct h))
run-Distinct (access f ∷ h) = FrameMap.put-Distinct f _ _ (run-Distinct h)
run-Distinct (remove f ∷ h) = FrameMap.erase-Distinct f _ (run-Distinct h)

current_timestamp-run : (h : List Event) → clock h < 2 ^ 64 → (run h).current_timestamp ≡ clock h
unfolding run step create on_insert on_access on_remove record_access clock
current_timestamp-run [] b = refl
current_timestamp-run (insert f ∷ h) b = omega (arith, current_timestamp-run h (omega arith))
current_timestamp-run (access f ∷ h) b = omega (arith, current_timestamp-run h (omega arith))
current_timestamp-run (remove f ∷ h) b = current_timestamp-run h b

-- What a page's access leaves in its entry, if the entry was right and the clock is not at its end.
recorded :
    (s : Policy) (n : ℕ) (g f : FrameId) (ts us : List ℕ)
    → s.current_timestamp ≡ n
    → suc n < 2 ^ 64
    → FrameMap.find g s.histories ≡ last_two ts
    → FrameMap.find f s.histories ≡ last_two us
    → FrameMap.find f (record_access s g).histories
      ≡ ite (frame_dec g f) (last_two (suc n ∷ ts)) (last_two us)
unfolding record_access
recorded s n g f ts us e b here there =
    let t : next_timestamp s.current_timestamp ≡ suc n = omega arith in
    rw (FrameMap.find-put g f, t, here, push_time-last_two ts (suc n), there) refl

module _ (g f : FrameId) where
  -- What the removal of a page leaves.
  removed :
      (m : List (FrameId × List ℕ)) (us : List ℕ)
      → FrameMap.Distinct m
      → FrameMap.find f m ≡ last_two us
      → FrameMap.find f (FrameMap.erase g m) ≡ last_two (ite (frame_dec g f) [] us)
  unfolding last_two
  removed m us d e =
      FrameMap.find-erase g f m d
      ∙ elim (frame_dec g f) as (λ d. ite d none (FrameMap.find f m) ≡ last_two (ite d [] us)) [
        | yes p ↦ refl
        | no np ↦ e
      ]

  inserted_entry :
      (n : ℕ) (us : List ℕ)
      → ite (frame_dec g f) (last_two (n ∷ [])) (last_two (ite (frame_dec g f) [] us))
        ≡ last_two (ite (frame_dec g f) (n ∷ []) us)
  inserted_entry n us =
      elim (frame_dec g f)
        as (λ d.
          ite d (last_two (n ∷ [])) (last_two (ite d [] us)) ≡ last_two (ite d (n ∷ []) us)) [
            | yes p ↦ refl
            | no np ↦ refl
          ]

  accessed_entry :
      (n : ℕ) (us : FrameId → List ℕ)
      → ite (frame_dec g f) (last_two (n ∷ us g)) (last_two (us f))
        ≡ last_two (ite (frame_dec g f) (n ∷ us f) (us f))
  accessed_entry n us =
      elim (frame_dec g f)
        as (λ d.
          ite d (last_two (n ∷ us g)) (last_two (us f)) ≡ last_two (ite d (n ∷ us f) (us f))) [
            | yes p ↦ ap (λ x. last_two (n ∷ us x)) p
            | no np ↦ refl
          ]

-- After any history with fewer than 2^64 accesses, a page has an entry exactly if it was accessed
-- since its last insertion or removal, and the entry is the last two of those accesses.
pub histories-run :
    (h : List Event) (f : FrameId)
    → clock h < 2 ^ 64
    → FrameMap.find f (run h).histories ≡ last_two (times h f)
unfolding run step create on_insert on_access on_remove times clock
histories-run [] f b = unfold FrameMap.find last_two in refl
histories-run (insert g ∷ h) f b =
    recorded (on_remove (run h) g) (clock h) g f [] (ite (frame_dec g f) [] (times h f))
      (current_timestamp-run h (omega arith)) b
      (FrameMap.find-erase g g (run h).histories (run-Distinct h)
        ∙ unfold last_two in if_pos (frame_dec g g) refl _ _)
      (removed g f (run h).histories (times h f) (run-Distinct h) (histories-run h f (omega arith)))
    ∙ inserted_entry g f (suc (clock h)) (times h f)
histories-run (access g ∷ h) f b =
    recorded (run h) (clock h) g f (times h g) (times h f) (current_timestamp-run h (omega arith)) b
      (histories-run h g (omega arith)) (histories-run h f (omega arith))
    ∙ accessed_entry g f (suc (clock h)) (times h)
histories-run (remove g ∷ h) f b =
    removed g f (run h).histories (times h f) (run-Distinct h) (histories-run h f b)
