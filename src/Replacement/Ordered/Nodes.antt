-- ===== src/Replacement/Ordered/Nodes.antt =====
-- The list `order_` and the index into it: what erasing by address does to the frames.
use csu_dbms.Base.{
  ℕ, ◌≡◌, ◌≢◌, refl, none, some, Option, List, [], ◌∷◌, ◌∙◌, ite, map, ◌<◌, All-map, ℕ_discrete,
  arith, All, if_pos, if_neg, sym,
}
use csu_dbms.Replacement.Frame.{FrameId, frame_dec}
use csu_dbms.Replacement.Ordered.{Node, erase_node, find_node}

abbrev pub frames : List Node → List FrameId
frames = map λ x. x.frame

-- The specification's removal: the first occurrence of a frame.
unfoldable pub erase : FrameId → List FrameId → List FrameId
erase f [] = []
erase f (g ∷ gs) = ite (frame_dec g f) gs (g ∷ erase f gs)

-- The address of the node that holds a frame.
unfoldable pub node_of : FrameId → List Node → Option ℕ
node_of f [] = none
node_of f (x ∷ xs) = ite (frame_dec x.frame f) (some x.address) (node_of f xs)

abbrev pub Apart : Node → Node → Type 0
Apart x y = (x.address ≢ y.address) × (x.frame ≢ y.frame)

-- No address and no frame stands twice.
abbrev pub Distinct : List Node → Type 0
Distinct [] = Unit
Distinct (x ∷ xs) = All (Apart x) xs × Distinct xs

node_of-All :
    (P : Node → Type 0) (f : FrameId) (xs : List Node) {a : ℕ}
    → All P xs
    → node_of f xs ≡ some a
    → (y : Node) × P y × (y.address ≡ a) × (y.frame ≡ f)
unfolding node_of
node_of-All P f [] h e = absurd (cc)
node_of-All P f (x ∷ xs) h e = elim (frame_dec x.frame f) [
  | yes p ↦ (x, h.0, ground arith, p)
  | no p ↦ node_of-All P f xs h.1 (ground arith)
]

pub node_of-none : (f : FrameId) (xs : List Node) → node_of f xs ≡ none → All (λ x. x.frame ≢ f) xs
unfolding node_of
node_of-none f [] e = tt
node_of-none f (x ∷ xs) e = elim (frame_dec x.frame f) [
  | yes p ↦ absurd (ground arith)
  | no p ↦ (p, node_of-none f xs (ground arith))
]

pub All-erase_node :
    (P : Node → Type 0) (a : ℕ) (xs : List Node) → All P xs → All P (erase_node a xs)
unfolding erase_node
All-erase_node P a [] h = tt
All-erase_node P a (x ∷ xs) h = elim (ℕ_discrete x.address a) [
  | yes p ↦ rw (if_pos _ p) h.1
  | no p ↦ rw (if_neg _ p) (h.0, All-erase_node P a xs h.1)
]

pub erase_node-Distinct : (a : ℕ) (xs : List Node) → Distinct xs → Distinct (erase_node a xs)
unfolding erase_node
erase_node-Distinct a [] d = tt
erase_node-Distinct a (x ∷ xs) d = elim (ℕ_discrete x.address a) [
  | yes p ↦ rw (if_pos _ p) d.1
  | no p ↦ rw (if_neg _ p) (All-erase_node (Apart x) a xs d.0, erase_node-Distinct a xs d.1)
]

-- Behind a head that does not hold the frame, the indexed address is not the head's.
tail_address :
    (f : FrameId) {a : ℕ} (x : Node) (xs : List Node)
    → All (Apart x) xs
    → node_of f xs ≡ some a
    → x.address ≢ a
tail_address f x xs h e =
    let (y, apart, at, _) = node_of-All (Apart x) f xs h e in ground (arith, apart.0)

-- The frame of a head stands nowhere behind it.
node_of_absent :
    (g : FrameId) (x : Node) (xs : List Node) → All (Apart x) xs → x.frame ≡ g → node_of g xs ≡ none
unfolding node_of
node_of_absent g x [] h e = refl
node_of_absent g x (y ∷ xs) h e =
    rw (if_neg _ (λ p. h.0.1 (e ∙ sym p))) (node_of_absent g x xs h.1 e)

module _ (f : FrameId) {a : ℕ} where
  -- Erasing through the index erases the frame.
  pub frames-erase_node :
      (xs : List Node)
      → Distinct xs
      → node_of f xs ≡ some a
      → frames (erase_node a xs) ≡ erase f (frames xs)
  unfolding erase_node erase node_of
  frames-erase_node [] d e = refl
  frames-erase_node (x ∷ xs) d e =
      ground (arith, tail_address f {a = a} x xs d.0, frames-erase_node xs d.1)

  -- The node that the index names is found, and holds the frame.
  pub find_node-node_of :
      (xs : List Node)
      → Distinct xs
      → node_of f xs ≡ some a
      → find_node a xs ≡ some (record { address = a; frame = f })
  unfolding find_node node_of
  find_node-node_of [] d e = cc
  find_node-node_of (x ∷ xs) d e =
      ground (arith, tail_address f {a = a} x xs d.0, find_node-node_of xs d.1)

  -- The index forgets the erased frame and keeps the others.
  pub node_of-erase_node :
      (g : FrameId) (xs : List Node)
      → Distinct xs
      → node_of f xs ≡ some a
      → node_of g (erase_node a xs) ≡ ite (frame_dec g f) none (node_of g xs)
  unfolding erase_node node_of
  node_of-erase_node g [] d e = cc
  node_of-erase_node g (x ∷ xs) d e = elim (frame_dec x.frame f) [
    | yes p ↦
        let at : x.address ≡ a = ground arith in
        rw (if_pos _ at) (ground (arith, node_of_absent g x xs d.0))
    | no p ↦
        rw (if_neg _ (tail_address f {a = a} x xs d.0 (ground arith)))
          (ground (arith, node_of-erase_node g xs d.1))
  ]

  -- What stays is apart from the node that went.
  pub Apart-erase_node :
      (xs : List Node)
      → Distinct xs
      → node_of f xs ≡ some a
      → All (λ x. Apart x (record { address = a; frame = f })) (erase_node a xs)
  unfolding erase_node node_of
  Apart-erase_node [] d e = tt
  Apart-erase_node (x ∷ xs) d e = elim (frame_dec x.frame f) [
    | yes p ↦
        let at : x.address ≡ a = ground arith in
        rw (if_pos _ at)
          (All-map (Apart x) _ (λ y h. ((λ q. h.0 (at ∙ sym q)), (λ q. h.1 (p ∙ sym q)))) xs d.0)
    | no p ↦
        let ne : x.address ≢ a = tail_address f {a = a} x xs d.0 (ground arith) in
        rw (if_neg _ ne) ((ne, p), Apart-erase_node xs d.1 (ground arith))
  ]

  pub node_of-lt :
      (n : ℕ) (xs : List Node) → All (λ x. x.address < n) xs → node_of f xs ≡ some a → a < n
  node_of-lt n xs h e =
      let (y, lt, at, _) = node_of-All (λ x. x.address < n) f xs h e in omega arith
