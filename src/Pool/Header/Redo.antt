-- ===== src/Pool/Header/Redo.antt =====
-- Recovery of the header of a file in observer/storage/os/buffer/disk_buffer_pool.cpp from the log of the
-- buffer pool: `redo_allocate_page` and `redo_deallocate_page` on the header that had reached the disk.
use csu_dbms.Base.{
  ℕ, ◌≤◌, ◌<◌, ◌≡◌, refl, sym, ap, subst, ◌∙◌, Bool, true, false, some, List, [], ◌∷◌, ltb, leb,
  ◌==◌, inl, inr, Bool-cases, Option-cases, All, All-map, arith,
}
use csu_dbms.Bitmap.{get_bit}
use csu_dbms.Pool.Header.{
  Header, Logged, Answers, Call, pages, max_page_num, is_pinned, reused, reuse, extended, extend,
  disposed, first_free, allocate_page, check_page_num, dispose_page, step, run, allocating,
  disposing, allocate, deallocate, redo_allocate_page, redo_deallocate_page, replay, replay_log,
}
use csu_dbms.Pool.Header.Invariant.{first_free-eq_some, check_page_num-is_success}
use csu_dbms.Rc.{is_success, success}

-- The log hands out a newer LSN than the header's, and an allocation that was logged gets its frame.
abbrev pub IsFresh : Call → Header → Type 0
IsFresh (allocating a) h = (h.lsn < a.lsn) × (a.frame_rc ≡ success)
IsFresh (disposing a page_num) h = h.lsn < a.lsn

abbrev pub AllFresh : List Call → Header → Type 0
AllFresh [] h = Unit
AllFresh (c ∷ calls) h = IsFresh c h × AllFresh calls (step c h)

-- A header but for its LSN, which may be older, its dirty mark and its log.
abbrev aged : Header → ℕ → Bool → List Logged → Header
aged h lsn dirty log = record h { lsn = lsn; dirty = dirty; log = log }

abbrev logged_lsn : Logged → ℕ
logged_lsn (allocate lsn page_num) = lsn
logged_lsn (deallocate lsn page_num) = lsn

-- No entry of the log is newer than this.
abbrev UpTo : ℕ → List Logged → Type 0
UpTo lsn = All (λ e. logged_lsn e ≤ lsn)

later-UpTo : (a b : ℕ) (log : List Logged) → a < b → UpTo a log → UpTo b log
later-UpTo a b log l u = All-map _ _ (λ e p. omega arith) log u

record Recovers (g h : Header) : Type 0 where
  lsn : ℕ
  dirty : Bool
  log : List Logged
  same : replay_log h.log g ≡ aged h lsn dirty log
  older : lsn ≤ h.lsn
  bounded : UpTo h.lsn h.log

module _ (g h : Header) (r : Recovers g h) where
  reused-Recovers :
      (lsn i : ℕ)
      → h.lsn < lsn
      → i < h.page_count
      → get_bit (pages h) i ≡ false
      → Recovers g (reused h lsn i)
  unfolding replay_log replay redo_allocate_page
  reused-Recovers lsn i l below free =
      let o = r.older in
      let new : leb lsn r.lsn ≡ false = ground arith in
      let known : ltb i h.page_count ≡ true = ground arith in
      record {
        lsn = r.lsn;
        dirty = true;
        log = r.log;
        same =
            ap (λ x. (redo_allocate_page x lsn i).1) r.same
            ∙ rw (redo_allocate_page, new, known, free) refl;
        older = omega arith;
        bounded = (omega arith, later-UpTo h.lsn lsn h.log l r.bounded);
      }

  extended-Recovers :
      (lsn : ℕ)
      → h.lsn < lsn
      → leb (max_page_num h) h.page_count ≡ false
      → Recovers g (extended h lsn)
  unfolding replay_log replay redo_allocate_page
  extended-Recovers lsn l room =
      let o = r.older in
      let new : leb lsn r.lsn ≡ false = ground arith in
      let not_below : ltb h.page_count h.page_count ≡ false = ground arith in
      record {
        lsn = lsn;
        dirty = true;
        log = r.log;
        same =
            ap (λ x. (redo_allocate_page x lsn h.page_count).1) r.same
            ∙ rw (redo_allocate_page, new, not_below, room) refl;
        older = omega arith;
        bounded = (omega arith, later-UpTo h.lsn lsn h.log l r.bounded);
      }

  disposed-Recovers :
      (lsn i : ℕ)
      → h.lsn < lsn
      → i < h.page_count
      → get_bit (pages h) i ≡ true
      → Recovers g (disposed h lsn i)
  unfolding replay_log replay redo_deallocate_page
  disposed-Recovers lsn i l below set =
      let o = r.older in
      let new : leb lsn r.lsn ≡ false = ground arith in
      let known : leb h.page_count i ≡ false = ground arith in
      record {
        lsn = lsn;
        dirty = true;
        log = r.log;
        same =
            ap (λ x. (redo_deallocate_page x lsn i).1) r.same
            ∙ rw (redo_deallocate_page, new, known, set) refl;
        older = omega arith;
        bounded = (omega arith, later-UpTo h.lsn lsn h.log l r.bounded);
      }

  extend-Recovers : (a : Answers) → h.lsn < a.lsn → a.frame_rc ≡ success → Recovers g (extend h a).1
  extend-Recovers a l got = elim (Bool-cases (leb (max_page_num h) h.page_count)) [
    | inl full ↦ rw full r
    | inr room ↦ elim (Bool-cases (is_success a.log_rc)) [
      | inr bad ↦ rw (room, bad) r
      | inl ok ↦ rw (room, ok, got) (extended-Recovers a.lsn l room)
    ]
  ]

  reuse-Recovers :
      (a : Answers) (i : ℕ) → h.lsn < a.lsn → first_free h ≡ some i → Recovers g (reuse h a i).1
  reuse-Recovers a i l e =
      let (below, free) = first_free-eq_some h i e in
      elim (Bool-cases (is_success a.log_rc)) [
        | inl ok ↦ rw ok (reused-Recovers a.lsn i l below free)
        | inr bad ↦ rw bad r
      ]

  allocate_page-Recovers :
      (a : Answers) → h.lsn < a.lsn → a.frame_rc ≡ success → Recovers g (allocate_page h a).1
  unfolding allocate_page
  allocate_page-Recovers a l got = elim (Bool-cases (ltb h.allocated_pages h.page_count)) [
    | inr compact ↦ rw compact (extend-Recovers a l got)
    | inl holes ↦ rw holes (elim (Option-cases (first_free h)) [
      | inl e ↦ rw e (extend-Recovers a l got)
      | inr (i, e) ↦ rw e (reuse-Recovers a i l e)
    ])
  ]

  dispose_page-Recovers : (a : Answers) (i : ℕ) → h.lsn < a.lsn → Recovers g (dispose_page h a i).1
  unfolding dispose_page
  dispose_page-Recovers a i l = elim (Bool-cases (i == 0)) [
    | inl e ↦ rw e r
    | inr later ↦ elim (Bool-cases (is_success (check_page_num h i))) [
      | inr bad ↦ rw (later, bad) r
      | inl ok ↦ elim (Bool-cases (is_pinned a.pin_count)) [
        | inl held ↦ rw (later, ok, held) r
        | inr idle ↦ elim (Bool-cases (is_success a.log_rc)) [
          | inr bad ↦ rw (later, ok, idle, bad) r
          | inl logged ↦
              let (below, set) = check_page_num-is_success h i ok in
              rw (later, ok, idle, logged) (disposed-Recovers a.lsn i l below set)
        ]
      ]
    ]
  ]

step-Recovers : (g h : Header) (c : Call) → IsFresh c h → Recovers g h → Recovers g (step c h)
unfolding step
step-Recovers g h (allocating a) f r = allocate_page-Recovers g h r a f.0 f.1
step-Recovers g h (disposing a i) f r = dispose_page-Recovers g h r a i f

run-Recovers :
    (g h : Header) (calls : List Call) → AllFresh calls h → Recovers g h → Recovers g (run calls h)
unfolding run
run-Recovers g h [] f r = r
run-Recovers g h (c ∷ calls) f r = run-Recovers g (step c h) calls f.1 (step-Recovers g h c f.0 r)

replay-old : (e : Logged) (h : Header) → logged_lsn e ≤ h.lsn → (replay e h).1 ≡ h
unfolding replay redo_allocate_page redo_deallocate_page
replay-old (allocate lsn i) h l = let old : leb lsn h.lsn ≡ true = ground arith in rw old refl
replay-old (deallocate lsn i) h l = let old : leb lsn h.lsn ≡ true = ground arith in rw old refl

-- Replay of a log on a header that has all of it.
replay_log-old : (log : List Logged) (h : Header) → UpTo h.lsn log → replay_log log h ≡ h
unfolding replay_log
replay_log-old [] h u = refl
replay_log-old (e ∷ log) h u =
    ap (λ x. (replay e x).1) (replay_log-old log h u.1) ∙ replay-old e h u.0

recovered_self : (h : Header) → UpTo h.lsn h.log → Recovers h h
recovered_self h u = record {
  lsn = h.lsn;
  dirty = h.dirty;
  log = h.log;
  same = replay_log-old h.log h u;
  older = omega arith;
  bounded = u;
}

-- The pages of two headers are the same.
pub record SamePages (h g : Header) : Type 0 where
  pub page_count : g.page_count ≡ h.page_count
  pub allocated_pages : g.allocated_pages ≡ h.allocated_pages
  pub bitmap : g.bitmap ≡ h.bitmap

-- Recovery of the header. A file starts with an empty log; calls are made, the header reaches the disk,
-- and more calls are made. When the log's LSNs grow and no page that was logged as a new one lacks its
-- frame, then replaying the whole log on the header of the disk gives the pages of the last header.
pub replay_log-run :
    (h : Header) (before after : List Call)
    → h.log ≡ []
    → AllFresh before h
    → AllFresh after (run before h)
    → SamePages
        (run after (run before h))
        (replay_log (run after (run before h)).log (run before h))
replay_log-run h before after e fresh_before fresh_after =
    let start = recovered_self h (subst (UpTo h.lsn) (sym e) tt) in
    let middle = (run-Recovers h h before fresh_before start).bounded in
    let disk = run before h in
    let r = run-Recovers disk disk after fresh_after (recovered_self disk middle) in
    record {
      page_count = ap (λ x. x.page_count) r.same;
      allocated_pages = ap (λ x. x.allocated_pages) r.same;
      bitmap = ap (λ x. x.bitmap) r.same;
    }
