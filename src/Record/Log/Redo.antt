-- ===== src/Record/Log/Redo.antt =====
-- Recovery of a page of records from its log, for observer/storage/record/record_log.cpp: an insertion is redone
-- by another insertion, which finds the same slot as it meets the same page.
use csu_dbms.Base.{
  ℕ, ◌<◌, ◌≤◌, ◌≡◌, refl, sym, ap, subst, ◌∙◌, true, false, Option, none, some, List, [], ◌∷◌, leb,
  ◌==◌, All, All-map, arith,
}
use mathlib.Core.Option
use csu_dbms.Rc.{success}
use csu_dbms.Record.Page.{Page, Logged}
use csu_dbms.Record.Log.Perform.{core, core_of, perform-same, Shape, perform-Shape}
use csu_dbms.Record.Log.{
  Framed, Answer, Call, Performed, append_log, perform, after, call, as_call, replay, replay_log,
}

-- The log takes every entry, with a newer LSN than the frame's.
abbrev pub IsFresh : Answer → Framed → Type 0
IsFresh a s = (a.rc ≡ success) × (s.lsn < a.lsn)

-- No entry of the log is newer than this.
abbrev UpTo : ℕ → List (ℕ × Logged) → Type 0
UpTo lsn = All (λ e. e.0 ≤ lsn)

later-UpTo : (a b : ℕ) (log : List (ℕ × Logged)) → a < b → UpTo a log → UpTo b log
later-UpTo a b log l u = All-map _ _ (λ e p. omega arith) log u

-- A frame that the log leads to.
record Recovers (g s : Framed) : Type 0 where
  found : Framed
  replayed_to : replay_log s.written g ≡ some found
  same_page : core found.page ≡ core s.page
  same_lsn : found.lsn ≡ s.lsn
  bounded : UpTo s.lsn s.written

unchanged-Recovers :
    (g s : Framed) (p : Page) → p ≡ s.page → Recovers g s → Recovers g (record s { page = p })
unchanged-Recovers g s p e k = record {
  found = k.found;
  replayed_to = k.replayed_to;
  same_page = k.same_page ∙ ap core (sym e);
  same_lsn = k.same_lsn;
  bounded = k.bounded;
}

-- The replay of an entry whose operation succeeds.
replay_log-cons :
    (lsn : ℕ) (e : Logged) (older : List (ℕ × Logged)) (g f : Framed) (p : Page) (o : Option Logged)
    → replay_log older g ≡ some f
    → leb lsn f.lsn ≡ false
    → perform (as_call e) f.page ≡ some (success, p, o)
    → replay_log ((lsn, e) ∷ older) g ≡ some (record f { page = p; lsn = lsn })
unfolding replay_log replay Option.bind
replay_log-cons lsn e older g f p o h new done = rw (replay_log, h, replay, new, done) refl

-- An answer that looks like this one but for what `core` leaves out.
core_of-eq :
    (x : Option Performed) (p : Page) (o : Option Logged)
    → Option.map core_of x ≡ some (success, core p, o)
    → (q : Page) × (o' : Option Logged) × (x ≡ some (success, q, o')) × (core q ≡ core p)
core_of-eq none p o h = absurd cc
core_of-eq (some (rc, q, o')) p o h =
    let code : rc ≡ success = cc in
    let page : core q ≡ core p = cc in (q, o', ap (λ x. some (x, q, o')) code, page)

appended-Recovers :
    (g s : Framed) (a : Answer) (c : Call) (p : Page) (e : Logged)
    → IsFresh a s
    → perform c s.page ≡ some (success, p, some e)
    → as_call e ≡ c
    → Recovers g s
    → Recovers g (append_log a e (record s { page = p }))
appended-Recovers g s a c p e fresh done same k =
    let newer = fresh.1 in
    let nonzero : (a.lsn == 0) ≡ false = ground arith in
    let shape : append_log a e (record s { page = p })
        ≡ record { page = p; lsn = a.lsn; written = (a.lsn, e) ∷ s.written } =
      rw (fresh.0, nonzero) refl in
    let old = k.same_lsn in
    let new : leb a.lsn k.found.lsn ≡ false = ground arith in
    let (q, o, again, page) =
      core_of-eq (perform c k.found.page) p (some e)
        (perform-same c k.found.page s.page k.same_page ∙ ap (Option.map core_of) done) in
    subst (Recovers g) (sym shape) (record {
      found = record k.found { page = q; lsn = a.lsn };
      replayed_to =
          replay_log-cons a.lsn e s.written g k.found q o k.replayed_to new
            (ap (λ x. perform x k.found.page) same ∙ again);
      same_page = page;
      same_lsn = refl;
      bounded = (omega arith, later-UpTo s.lsn a.lsn s.written newer k.bounded);
    })

call-Recovers :
    (g s s' : Framed) (a : Answer) (c : Call)
    → call c a s ≡ some s'
    → IsFresh a s
    → Recovers g s
    → Recovers g s'
unfolding call
call-Recovers g s s' a c h fresh k = by_answer (perform c s.page) refl (perform-Shape c s.page) h
  where
    by_answer :
        (o : Option Performed)
        → perform c s.page ≡ o
        → Shape c s.page o
        → Option.map (after a s) o ≡ some s'
        → Recovers g s'
    by_answer none e sh j = absurd cc
    by_answer (some (rc, p, none)) e sh j =
        let same : record s { page = p } ≡ s' = cc in
        subst (Recovers g) same (unchanged-Recovers g s p sh k)
    by_answer (some (rc, p, some entry)) e sh j =
        let same : append_log a entry (record s { page = p }) ≡ s' = cc in
        subst (Recovers g) same (
          appended-Recovers g s a c p entry fresh (e ∙ ap (λ x. some (x, p, some entry)) sh.0) sh.1
            k)

-- Operations on the page one after another.
pub data Steps : Framed → Framed → Type 0 where
  none_left : {s : Framed} → Steps s s
  and_then :
      {s s' s'' : Framed} (c : Call) (a : Answer)
      → call c a s ≡ some s'
      → IsFresh a s
      → Steps s' s''
      → Steps s s''

Steps-Recovers : (g s s' : Framed) → Steps s s' → Recovers g s → Recovers g s'
Steps-Recovers g s s' none_left k = k
Steps-Recovers g s s' (and_then c a h fresh rest) k =
    Steps-Recovers g _ s' rest (call-Recovers g s _ a c h fresh k)

replay_log-old : (log : List (ℕ × Logged)) (s : Framed) → UpTo s.lsn log → replay_log log s ≡ some s
unfolding replay_log replay Option.bind
replay_log-old [] s u = refl
replay_log-old ((lsn, e) ∷ log) s u =
    let old : leb lsn s.lsn ≡ true = let l = u.0 in ground arith in
    rw (replay_log, replay_log-old log s u.1, replay, old) refl

recovered_self : (s : Framed) → UpTo s.lsn s.written → Recovers s s
recovered_self s u = record {
  found = s;
  replayed_to = replay_log-old s.written s u;
  same_page = refl;
  same_lsn = refl;
  bounded = u;
}

-- Recovery of a page. Its log is empty at the start; operations are made, the page reaches the disk, and more
-- are made. When the log takes every entry with a growing LSN, the replay of the whole log on the page of the
-- disk succeeds and gives the last page (its bitmap, its count and its records) with its LSN.
pub replay_log-Steps :
    (start disk last : Framed)
    → start.written ≡ []
    → Steps start disk
    → Steps disk last
    → (found : Framed) × (replay_log last.written disk ≡ some found)
      × (core found.page ≡ core last.page)
      × (found.lsn ≡ last.lsn)
replay_log-Steps start disk last e before later =
    let first = recovered_self start (subst (UpTo start.lsn) (sym e) tt) in
    let middle = (Steps-Recovers start start disk before first).bounded in
    let k = Steps-Recovers disk disk last later (recovered_self disk middle) in
    (k.found, k.replayed_to, k.same_page, k.same_lsn)
