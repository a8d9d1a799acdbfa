-- ===== src/Replacement/Ordered/Linked.antt =====
-- `positions_` and `order_` agree after every event, and the policy refines a plain list of frames.
use csu_dbms.Base.{
  ℕ, ◌≡◌, ◌≢◌, ◌<◌, refl, Bool, true, false, Option, none, some, List, [], ◌∷◌, ◌++◌, ite, inl, inr,
  if◌then◌else◌, arith, All, Option-cases, All-append, All-map, ◌∙◌, ap, sym,
}
use csu_dbms.Replacement.Frame.{FrameId, frame_dec, Event, insert, access, remove}
use csu_dbms.Replacement.Ordered.Nodes.{
  node_of, Apart, Distinct, node_of-none, All-erase_node, erase_node-Distinct, find_node-node_of,
  node_of-erase_node, Apart-erase_node, node_of-lt,
}
use csu_dbms.Replacement.Ordered.{
  Node, Policy, put_position, create, erase_node, splice_back, on_remove, push_back, on_insert,
  touch, on_access, step, run,
}

-- The index knows exactly the nodes of the list, no address and no frame stands twice, and new
-- addresses are fresh.
pub record IsLinked (s : Policy) : Type 0 where
  pub indexed : (f : FrameId) → s.positions f ≡ node_of f s.order
  pub distinct : Distinct s.order
  pub fresh : All (λ x. x.address < s.next_address) s.order

node_of-append_self :
    (f : FrameId) (xs : List Node) (y : Node)
    → node_of f xs ≡ none
    → node_of f (xs ++ y ∷ []) ≡ ite (frame_dec y.frame f) (some y.address) none
unfolding node_of
node_of-append_self f [] y h = refl
node_of-append_self f (x ∷ xs) y h = ground (arith, node_of-append_self f xs y)

node_of-append :
    (f : FrameId) (xs : List Node) (y : Node)
    → f ≢ y.frame
    → node_of f (xs ++ y ∷ []) ≡ node_of f xs
unfolding node_of
node_of-append f [] y h = ground arith
node_of-append f (x ∷ xs) y h = ground (arith, node_of-append f xs y)

Distinct-append :
    (xs : List Node) (y : Node) → Distinct xs → All (λ x. Apart x y) xs → Distinct (xs ++ y ∷ [])
Distinct-append [] y d h = (tt, tt)
Distinct-append (x ∷ xs) y d h =
    (All-append (Apart x) xs (y ∷ []) d.0 (h.0, tt), Distinct-append xs y d.1 h.1)

All-Apart :
    (xs : List Node) (n : ℕ) (f : FrameId)
    → All (λ x. x.address < n) xs
    → All (λ x. x.frame ≢ f) xs
    → All (λ x. Apart x (record { address = n; frame = f })) xs
All-Apart [] n f h k = tt
All-Apart (x ∷ xs) n f h k = ((omega arith, k.0), All-Apart xs n f h.1 k.1)

-- An index put over a smaller one.
put_position_pos :
    (p : FrameId → Option ℕ) (f g : FrameId) (v : Option ℕ) → g ≡ f → put_position p f v g ≡ v
put_position_pos p f g v e = ground arith

pub on_remove-IsLinked : (s : Policy) (f : FrameId) → IsLinked s → IsLinked (on_remove s f)
unfolding on_remove
on_remove-IsLinked s f l = elim (Option-cases (s.positions f)) [
  | inl e ↦ rw (e, on_remove) l
  | inr (a, e) ↦
      let at = sym (l.indexed f) ∙ e in
      rw (e, on_remove)
        (record {
          indexed = λ g. rw (l.indexed g, node_of-erase_node f g s.order l.distinct at);
          distinct = erase_node-Distinct a s.order l.distinct;
          fresh = All-erase_node _ a s.order l.fresh;
        })
]

on_remove_absent : (s : Policy) (f : FrameId) → (on_remove s f).positions f ≡ none
unfolding on_remove
on_remove_absent s f = elim (Option-cases (s.positions f)) [
  | inl e ↦ rw (e, on_remove) e
  | inr (a, e) ↦ rw (e, on_remove) (put_position_pos s.positions f f none refl)
]

indexed_append :
    (p : FrameId → Option ℕ) (xs : List Node) (f g : FrameId) (a : ℕ)
    → node_of f xs ≡ none
    → (g ≢ f → p g ≡ node_of g xs)
    → put_position p f (some a) g ≡ node_of g (xs ++ record { address = a; frame = f } ∷ [])
indexed_append p xs f g a gone same =
    let y : Node = record { address = a; frame = f } in
    elim (frame_dec g f) [
      | yes e ↦
          ground (arith, node_of-append_self f xs y gone, ap (λ k. node_of k (xs ++ y ∷ [])) e)
      | no ne ↦ ground (arith, same ne, node_of-append g xs y ne)
    ]

push_back-IsLinked :
    (s : Policy) (f : FrameId) → s.positions f ≡ none → IsLinked s → IsLinked (push_back s f)
unfolding push_back
push_back-IsLinked s f e l =
    let gone = sym (l.indexed f) ∙ e in
    record {
      indexed = λ g. indexed_append s.positions s.order f g s.next_address gone (λ _. l.indexed g);
      distinct =
          Distinct-append s.order _ l.distinct
            (All-Apart s.order s.next_address f l.fresh (node_of-none f s.order gone));
      fresh =
          All-append _ s.order (_ ∷ []) (All-map _ _ (λ x h. omega arith) s.order l.fresh)
            (omega arith, tt);
    }

pub on_insert-IsLinked : (s : Policy) (f : FrameId) → IsLinked s → IsLinked (on_insert s f)
unfolding on_insert
on_insert-IsLinked s f l = push_back-IsLinked _ f (on_remove_absent s f) (on_remove-IsLinked s f l)

pub splice_back_lem :
    (f : FrameId) {a : ℕ} (xs : List Node)
    → Distinct xs
    → node_of f xs ≡ some a
    → splice_back a xs ≡ erase_node a xs ++ record { address = a; frame = f } ∷ []
unfolding splice_back
splice_back_lem f xs d e = rw (find_node-node_of f xs d e, splice_back)

pub touch-IsLinked : (s : Policy) (f : FrameId) → IsLinked s → IsLinked (touch s f)
unfolding touch
touch-IsLinked s f l = elim (Option-cases (s.positions f)) [
  | inl e ↦ rw (e, touch) l
  | inr (a, e) ↦
      let at = sym (l.indexed f) ∙ e in
      let gone =
        node_of-erase_node f f s.order l.distinct at
        ∙ put_position_pos (λ k. node_of k s.order) f f none refl in
      rw (e, touch, splice_back_lem f s.order l.distinct at)
        (record {
          indexed = λ g. indexed_append s.positions (erase_node a s.order) f g a gone (λ ne.
              l.indexed g ∙ ground (arith, ne, node_of-erase_node f g s.order l.distinct at));
          distinct =
              Distinct-append _ _ (erase_node-Distinct a s.order l.distinct)
                (Apart-erase_node f s.order l.distinct at);
          fresh =
              All-append _ (erase_node a s.order) (_ ∷ []) (All-erase_node _ a s.order l.fresh)
                (node_of-lt f s.next_address s.order l.fresh at, tt);
        })
]

pub on_access-IsLinked : (s : Policy) (f : FrameId) → IsLinked s → IsLinked (on_access s f)
unfolding on_access
on_access-IsLinked s f l = elim s.touch_on_access as (λ b. IsLinked (if b then touch s f else s)) [
  | true ↦ touch-IsLinked s f l
  | false ↦ l
]

pub step-IsLinked : (s : Policy) (e : Event) → IsLinked s → IsLinked (step s e)
unfolding step
step-IsLinked s (insert f) l = on_insert-IsLinked s f l
step-IsLinked s (access f) l = on_access-IsLinked s f l
step-IsLinked s (remove f) l = on_remove-IsLinked s f l

-- After any events the position index is exactly an index of the list.
pub run-IsLinked : (touched : Bool) (h : List Event) → IsLinked (run touched h)
unfolding run create node_of
run-IsLinked touched [] = record { indexed = λ f. refl; distinct = tt; fresh = tt }
run-IsLinked touched (e ∷ h) = step-IsLinked _ e (run-IsLinked touched h)
