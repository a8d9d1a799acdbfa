-- ===== src/Replacement/LruK/Victim.antt =====
-- The choice of LRU-K: a page with a short history first, then the oldest relevant access.
use csu_dbms.Base.{
  ℕ, ◌^◌, ◌<◌, ◌≤◌, ◌≡◌, ◌≢◌, refl, Bool, true, false, Option, none, some, List, [], ◌∷◌, ◌⊎◌, inl,
  inr, length, ltb, arith, subst, sym, ◌∙◌, In, Bool-cases, not, ◌&&◌, ◌||◌,
}
use mathlib.Core.Option
use csu_dbms.Replacement.Frame.{FrameId, Event}
use csu_dbms.Replacement.FrameMap
use csu_dbms.Replacement.LruK.{Best, k, Bool-eq, is_better, visit, scan, choose_victim, run}
use csu_dbms.Replacement.LruK.History.{clock, times, last_two, histories-run, run-Distinct}

-- The first class and access go no later than the second: cold before hot, older before newer.
abbrev pub Precedes : Bool → ℕ → Bool → ℕ → Type 0
Precedes c a c' a' = ((c ≡ true) × (c' ≡ false)) ⊎ ((c ≡ c') × (a ≤ a'))

abbrev Beats : Option Best → Bool → ℕ → Type 0
Beats none c a = ⊥
Beats (some b) c a = Precedes b.victim_is_cold b.oldest_relevant_access c a

abbrev pub is_cold : List ℕ → Bool
is_cold history = ltb (length history) k

is_better_no :
    (b : Best) (c : Bool) (a : ℕ)
    → is_better (some b) c a ≡ false
    → Precedes b.victim_is_cold b.oldest_relevant_access c a
unfolding is_better
is_better_no b c a h = by_class b.victim_is_cold c h
  where
    by_class :
        (c' c : Bool)
        → (c && not c') || (Bool-eq c c' && ltb a b.oldest_relevant_access) ≡ false
        → Precedes c' b.oldest_relevant_access c a
    by_class true true h = inr (refl, ground arith)
    by_class true false h = inl (refl, refl)
    by_class false true h = absurd (cc)
    by_class false false h = inr (refl, ground arith)

is_better_yes :
    (b : Best) (c : Bool) (a : ℕ)
    → is_better (some b) c a ≡ true
    → Precedes c a b.victim_is_cold b.oldest_relevant_access
unfolding is_better
is_better_yes b c a h = by_class b.victim_is_cold c h
  where
    by_class :
        (c' c : Bool)
        → (c && not c') || (Bool-eq c c' && ltb a b.oldest_relevant_access) ≡ true
        → Precedes c a c' b.oldest_relevant_access
    by_class true true h = inr (refl, ground arith)
    by_class true false h = absurd (cc)
    by_class false true h = inl (refl, refl)
    by_class false false h = inr (refl, ground arith)

Precedes-trans :
    (c₁ c₂ c₃ : Bool) (a₁ a₂ a₃ : ℕ)
    → Precedes c₁ a₁ c₂ a₂
    → Precedes c₂ a₂ c₃ a₃
    → Precedes c₁ a₁ c₃ a₃
Precedes-trans c₁ c₂ c₃ a₁ a₂ a₃ (inl (p, q)) (inl (r, s)) = inl (p, s)
Precedes-trans c₁ c₂ c₃ a₁ a₂ a₃ (inl (p, q)) (inr (r, s)) = inl (p, sym r ∙ q)
Precedes-trans c₁ c₂ c₃ a₁ a₂ a₃ (inr (p, q)) (inl (r, s)) = inl (p ∙ r, s)
Precedes-trans c₁ c₂ c₃ a₁ a₂ a₃ (inr (p, q)) (inr (r, s)) = inr (p ∙ r, omega arith)

visit-Beats :
    (p : FrameId → Bool) (b : Option Best) (g : FrameId) (a : ℕ) (rest : List ℕ)
    → p g ≡ true
    → Beats (visit p b (g, a ∷ rest)) (is_cold (a ∷ rest)) a
unfolding visit
visit-Beats p none g a rest h = unfold is_better in rw h (inr (refl, omega arith))
visit-Beats p (some b) g a rest h = elim (Bool-cases (is_better (some b) (is_cold (a ∷ rest)) a)) [
  | inl e ↦ rw (h, e) (inr (refl, omega arith))
  | inr e ↦ rw (h, e) (is_better_no b _ a e)
]

visit-keeps :
    (p : FrameId → Bool) (b : Option Best) (e : FrameId × List ℕ) (c : Bool) (a : ℕ)
    → Beats b c a
    → Beats (visit p b e) c a
unfolding visit
visit-keeps p none e c a h = absurd h
visit-keeps p (some b) (g, []) c a h = h
visit-keeps p (some b) (g, a' ∷ rest) c a h = elim (Bool-cases (p g)) [
  | inl q ↦ elim (Bool-cases (is_better (some b) (is_cold (a' ∷ rest)) a')) [
    | inl e ↦ rw (q, e) (Precedes-trans _ _ _ _ _ _ (is_better_yes b _ a' e) h)
    | inr e ↦ rw (q, e) h
  ]
  | inr q ↦ rw q h
]

scan-keeps :
    (p : FrameId → Bool) (b : Option Best) (es : List (FrameId × List ℕ)) (c : Bool) (a : ℕ)
    → Beats b c a
    → Beats (scan p b es) c a
unfolding scan
scan-keeps p b [] c a h = h
scan-keeps p b (e ∷ es) c a h = scan-keeps p (visit p b e) es c a (visit-keeps p b e c a h)

scan-Beats :
    (p : FrameId → Bool) (b : Option Best) (es : List (FrameId × List ℕ)) (g : FrameId) (a : ℕ)
    (rest : List ℕ)
    → p g ≡ true
    → In (g, a ∷ rest) es
    → Beats (scan p b es) (is_cold (a ∷ rest)) a
unfolding scan
scan-Beats p b [] g a rest h m = elim m [ ]
scan-Beats p b (e ∷ es) g a rest h (inl q) =
    scan-keeps p (visit p b e) es _ a (rw (← q) (visit-Beats p b g a rest h))
scan-Beats p b (e ∷ es) g a rest h (inr m) = scan-Beats p (visit p b e) es g a rest h m

-- The best so far is an entry that was seen.
abbrev IsEntry : (FrameId → Bool) → List (FrameId × List ℕ) → Best → Type 0
IsEntry p es b =
    (rest : List ℕ) × In (b.victim, b.oldest_relevant_access ∷ rest) es
    × (b.victim_is_cold ≡ is_cold (b.oldest_relevant_access ∷ rest))
    × (p b.victim ≡ true)

visit_origin :
    (p : FrameId → Bool) (b : Option Best) (e : FrameId × List ℕ) (w : Best)
    → visit p b e ≡ some w
    → (b ≡ some w) ⊎ IsEntry p (e ∷ []) w
unfolding visit
visit_origin p b (g, []) w h = inl h
visit_origin p b (g, a ∷ rest) w h = elim (Bool-cases (p g)) [
  | inl q ↦ elim (Bool-cases (is_better b (is_cold (a ∷ rest)) a)) [
    | inl e ↦
        let new : Best = record {
          victim = g;
          victim_is_cold = is_cold (a ∷ rest);
          oldest_relevant_access = a;
        } in
        let found : some new ≡ some w = rw (q, e) at h in
        let same : new ≡ w = cc in
        inr (subst (IsEntry p ((g, a ∷ rest) ∷ [])) same (rest, inl refl, refl, q))
    | inr e ↦ inl (rw (q, e) at h)
  ]
  | inr q ↦ inl (rw q at h)
]

scan_origin :
    (p : FrameId → Bool) (b : Option Best) (es : List (FrameId × List ℕ)) (w : Best)
    → scan p b es ≡ some w
    → (b ≡ some w) ⊎ IsEntry p es w
unfolding scan
scan_origin p b [] w h = inl h
scan_origin p b (e ∷ es) w h = elim (scan_origin p (visit p b e) es w h) [
  | inl found ↦ elim (visit_origin p b e w found) [
    | inl before ↦ inl before
    | inr (rest, inl here, c, q) ↦ inr (rest, inl here, c, q)
    | inr (rest, inr never, c, q) ↦ absurd never
  ]
  | inr (rest, m, c, q) ↦ inr (rest, inr m, c, q)
]

-- The relevant access of a page: the older of its last two, or its only one.
unfoldable pub relevant_access : List ℕ → ℕ
relevant_access [] = 0
relevant_access (a ∷ []) = a
relevant_access (a ∷ b ∷ rest) = b

-- How a stored history reads as the log that it is the end of.
abbrev Reads : List ℕ → ℕ → List ℕ → Type 0
Reads ts a rest = (ts ≢ []) × (is_cold (a ∷ rest) ≡ is_cold ts) × (a ≡ relevant_access ts)

last_two-Reads :
    (ts : List ℕ) (a : ℕ) (rest : List ℕ) → last_two ts ≡ some (a ∷ rest) → Reads ts a rest
unfolding last_two relevant_access
last_two-Reads [] a rest e = absurd (cc)
last_two-Reads (b ∷ []) a rest e = ((λ q. cc), ground arith, cc)
last_two-Reads (b ∷ c ∷ ts) a rest e = ((λ q. cc), ground arith, cc)

last_two-some :
    (ts : List ℕ) → ts ≢ [] → (a : ℕ) × (rest : List ℕ) × (last_two ts ≡ some (a ∷ rest))
unfolding last_two
last_two-some [] u = absurd (u refl)
last_two-some (a ∷ []) u = (a, [], refl)
last_two-some (a ∷ b ∷ ts) u = (b, a ∷ [], refl)

-- After any history with fewer than 2^64 accesses, while some accessed page is replaceable,
-- `choose_victim` finds one; compared with any replaceable page that was accessed, the victim has a
-- history of fewer than two accesses and the page has not, or both are in one class and the victim's
-- relevant access is no later.
pub choose_victim_lruk :
    (h : List Event) (p : FrameId → Bool) (g : FrameId)
    → clock h < 2 ^ 64
    → times h g ≢ []
    → p g ≡ true
    → (v : FrameId) × (choose_victim p (run h) ≡ some v)
      × (times h v ≢ [])
      × (p v ≡ true)
      × Precedes
          (is_cold (times h v))
          (relevant_access (times h v))
          (is_cold (times h g))
          (relevant_access (times h g))
unfolding choose_victim
choose_victim_lruk h p g b u free =
    let (a, rest, e) = last_two-some (times h g) u in
    let (_, cold, front) = last_two-Reads (times h g) a rest e in
    answer a rest cold front (scan p none (run h).histories) refl (
      scan-Beats p none (run h).histories g a rest free
        (FrameMap.In-find g (a ∷ rest) (run h).histories (histories-run h g b ∙ e)))
  where
    answer :
        (a : ℕ) (rest : List ℕ)
        → is_cold (a ∷ rest) ≡ is_cold (times h g)
        → a ≡ relevant_access (times h g)
        → (o : Option Best) → scan p none (run h).histories ≡ o
        → Beats o (is_cold (a ∷ rest)) a
        → (v : FrameId) × (Option.map (λ x. x.victim) o ≡ some v)
          × (times h v ≢ [])
          × (p v ≡ true)
          × Precedes
              (is_cold (times h v))
              (relevant_access (times h v))
              (is_cold (times h g))
              (relevant_access (times h g))
    answer a rest cold front none e m = absurd m
    answer a rest cold front (some w) e m = elim (scan_origin p none (run h).histories w e) [
      | inl never ↦ absurd (cc)
      | inr (rest', here, cold', q) ↦
          let stored =
            sym (histories-run h w.victim b)
            ∙ FrameMap.find-In w.victim _ (run h).histories (run-Distinct h) here in
          let (used, cold'', front'') = last_two-Reads (times h w.victim) _ rest' stored in
          (w.victim, refl, used, q, rw (← cold'', ← front'', ← cold', ← cold, ← front) m)
    ]
