-- ===== src/Replacement/Ordered/Refine.antt =====
-- The policy, with its nodes and its index, refines a plain list of frames, oldest first.
use mathlib.Core.List.{map-append}
use csu_dbms.Base.{
  ◌≡◌, refl, Bool, true, false, none, some, List, [], ◌∷◌, ◌++◌, ite, if◌then◌else◌, arith,
  Option-cases, ◌∙◌, ap, sym, ◌&&◌, inl, inr,
}
use csu_dbms.Replacement.Frame.{FrameId, frame_dec, Event, insert, access, remove}
use csu_dbms.Replacement.Ordered.Nodes.{frames, erase, node_of, frames-erase_node}
use csu_dbms.Replacement.Ordered.Linked.{IsLinked, splice_back_lem, run-IsLinked}
use csu_dbms.Replacement.Ordered.{
  Node, Policy, create, on_remove, push_back, on_insert, touch, on_access, step, run,
}

unfoldable pub holds : FrameId → List FrameId → Bool
holds f [] = false
holds f (g ∷ gs) = ite (frame_dec g f) true (holds f gs)

-- What each event does to the order of the frames.
unfoldable pub apply : Bool → Event → List FrameId → List FrameId
apply touched (insert f) xs = erase f xs ++ f ∷ []
apply touched (access f) xs = if touched && holds f xs then erase f xs ++ f ∷ [] else xs
apply touched (remove f) xs = erase f xs

erase_absent :
    (f : FrameId) (xs : List Node) → node_of f xs ≡ none → erase f (frames xs) ≡ frames xs
unfolding erase node_of
erase_absent f [] e = refl
erase_absent f (x ∷ xs) e = ground (arith, erase_absent f xs)

holds-node_of-none :
    (f : FrameId) (xs : List Node) → node_of f xs ≡ none → holds f (frames xs) ≡ false
unfolding holds node_of
holds-node_of-none f [] e = refl
holds-node_of-none f (x ∷ xs) e = ground (arith, holds-node_of-none f xs)

holds-node_of :
    (f : FrameId) (xs : List Node) (a : _) → node_of f xs ≡ some a → holds f (frames xs) ≡ true
unfolding holds node_of
holds-node_of f [] a e = cc
holds-node_of f (x ∷ xs) a e = ground (arith, holds-node_of f xs a)

frames-on_remove :
    (s : Policy) (f : FrameId)
    → IsLinked s
    → frames (on_remove s f).order ≡ erase f (frames s.order)
unfolding on_remove
frames-on_remove s f l = elim (Option-cases (s.positions f)) [
  | inl e ↦ rw (e, on_remove) (sym (erase_absent f s.order (sym (l.indexed f) ∙ e)))
  | inr (a, e) ↦ rw (e, on_remove) (frames-erase_node f s.order l.distinct (sym (l.indexed f) ∙ e))
]

frames-on_insert :
    (s : Policy) (f : FrameId)
    → IsLinked s
    → frames (on_insert s f).order ≡ erase f (frames s.order) ++ f ∷ []
unfolding on_insert push_back
frames-on_insert s f l = map-append _ _ _ ∙ ap (λ xs. xs ++ f ∷ []) (frames-on_remove s f l)

frames-touch :
    (s : Policy) (f : FrameId)
    → IsLinked s
    → frames (touch s f).order ≡ apply true (access f) (frames s.order)
unfolding touch apply
frames-touch s f l = elim (Option-cases (s.positions f)) [
  | inl e ↦ rw (e, touch, holds-node_of-none f s.order (sym (l.indexed f) ∙ e)) refl
  | inr (a, e) ↦
      let at = sym (l.indexed f) ∙ e in
      rw (e, touch, holds-node_of f s.order a at, splice_back_lem f s.order l.distinct at)
        (map-append _ _ _ ∙ ap (λ xs. xs ++ f ∷ []) (frames-erase_node f s.order l.distinct at))
]

-- From any linked policy, each event does to the frames in the list what `apply` says.
pub frames-step :
    (s : Policy) (e : Event)
    → IsLinked s
    → frames (step s e).order ≡ apply s.touch_on_access e (frames s.order)
unfolding step on_access
frames-step s (insert f) l = unfold apply in frames-on_insert s f l
frames-step s (access f) l =
    elim s.touch_on_access
      as (λ b. frames (if b then touch s f else s).order ≡ apply b (access f) (frames s.order)) [
        | true ↦ frames-touch s f l
        | false ↦ unfold apply in refl
      ]
frames-step s (remove f) l = unfold apply in frames-on_remove s f l

touch_on_access-step : (s : Policy) (e : Event) → (step s e).touch_on_access ≡ s.touch_on_access
unfolding step on_insert on_remove push_back on_access touch
touch_on_access-step s (insert f) = ground arith
touch_on_access-step s (access f) = ground arith
touch_on_access-step s (remove f) = ground arith

pub touch_on_access-run :
    (touched : Bool) (h : List Event) → (run touched h).touch_on_access ≡ touched
unfolding run create
touch_on_access-run touched [] = refl
touch_on_access-run touched (e ∷ h) =
    touch_on_access-step (run touched h) e ∙ touch_on_access-run touched h

-- The frames in the list after a history of events.
unfoldable pub apply_all : Bool → List Event → List FrameId
apply_all touched [] = []
apply_all touched (e ∷ h) = apply touched e (apply_all touched h)

-- The linked list with its index behaves like the plain list over any history.
pub frames-run :
    (touched : Bool) (h : List Event) → frames (run touched h).order ≡ apply_all touched h
unfolding run apply_all create
frames-run touched [] = refl
frames-run touched (e ∷ h) =
    frames-step (run touched h) e (run-IsLinked touched h)
    ∙ rw (touch_on_access-run touched h, frames-run touched h) refl
