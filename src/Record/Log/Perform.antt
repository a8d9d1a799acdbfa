-- ===== src/Record/Log/Perform.antt =====
-- What an operation on a page of observer/storage/record/record_manager.cpp answers and depends on.
use csu_dbms.Base.{
  ◌≡◌, refl, sym, ap, ◌∙◌, false, Option, none, some, [], leb, ◌==◌, inl, inr, Bool-cases,
  Option-cases,
}
use mathlib.Core.Option
use csu_dbms.Bitmap.{get_bit, next_unsetted_bit}
use csu_dbms.Rc.{success}
use csu_dbms.Record.Page.{
  Page, record_capacity, in_bitmap, insert_record, delete_record, update_record,
}
use csu_dbms.Record.Log.{Call, Performed, inserting, deleting, updating, perform, as_call}

-- A page but for its dirty mark and the log that the model keeps in it.
abbrev pub core : Page → Page
core p = record p { dirty = false; log = [] }

abbrev pub core_of : Performed → Performed
core_of (rc, p, e) = (rc, core p, e)

-- An operation does not depend on what `core` leaves out.
perform-core :
    (c : Call) (p : Page)
    → Option.map core_of (perform c (core p)) ≡ Option.map core_of (perform c p)
unfolding perform insert_record delete_record update_record
perform-core (inserting bytes) p = elim (Bool-cases p.read_only) [
  | inl sealed ↦ rw sealed refl
  | inr writable ↦ elim (Bool-cases (p.record_num == record_capacity p)) [
    | inl full ↦ rw (writable, full) refl
    | inr more ↦ elim (Option-cases (next_unsetted_bit p.bits 0)) [
      | inl e ↦ rw (writable, more, e) refl
      | inr (slot, e) ↦ rw (writable, more, e) refl
    ]
  ]
]
perform-core (deleting slot) p = elim (Bool-cases p.read_only) [
  | inl sealed ↦ rw sealed refl
  | inr writable ↦ elim (Bool-cases (in_bitmap p slot)) [
    | inr out ↦ rw (writable, out) refl
    | inl within ↦ elim (Bool-cases (get_bit p.bits slot)) [
      | inl set ↦ rw (writable, within, set) refl
      | inr clear ↦ rw (writable, within, clear) refl
    ]
  ]
]
perform-core (updating slot bytes) p = elim (Bool-cases p.read_only) [
  | inl sealed ↦ rw sealed refl
  | inr writable ↦ elim (Bool-cases (leb (record_capacity p) slot)) [
    | inl out ↦ rw (writable, out) refl
    | inr within ↦ elim (Bool-cases (get_bit p.bits slot)) [
      | inl set ↦ rw (writable, within, set) refl
      | inr clear ↦ rw (writable, within, clear) refl
    ]
  ]
]

pub perform-same :
    (c : Call) (p q : Page)
    → core p ≡ core q
    → Option.map core_of (perform c p) ≡ Option.map core_of (perform c q)
perform-same c p q e =
    sym (perform-core c p) ∙ ap (λ x. Option.map core_of (perform c x)) e ∙ perform-core c q

-- What an operation may answer: the page as it was and no entry, or a success with the entry that stands for it.
abbrev pub Shape : Call → Page → Option Performed → Type 0
Shape c p none = Unit
Shape c p (some (rc, p', none)) = p' ≡ p
Shape c p (some (rc, p', some e)) = (rc ≡ success) × (as_call e ≡ c)

pub perform-Shape : (c : Call) (p : Page) → Shape c p (perform c p)
unfolding perform insert_record delete_record update_record
perform-Shape (inserting bytes) p = elim (Bool-cases p.read_only) [
  | inl sealed ↦ rw sealed tt
  | inr writable ↦ elim (Bool-cases (p.record_num == record_capacity p)) [
    | inl full ↦ rw (writable, full) refl
    | inr more ↦ elim (Option-cases (next_unsetted_bit p.bits 0)) [
      | inl e ↦ rw (writable, more, e) tt
      | inr (slot, e) ↦ rw (writable, more, e) (refl, refl)
    ]
  ]
]
perform-Shape (deleting slot) p = elim (Bool-cases p.read_only) [
  | inl sealed ↦ rw sealed tt
  | inr writable ↦ elim (Bool-cases (in_bitmap p slot)) [
    | inr out ↦ rw (writable, out) tt
    | inl within ↦ elim (Bool-cases (get_bit p.bits slot)) [
      | inl set ↦ rw (writable, within, set) (refl, refl)
      | inr clear ↦ rw (writable, within, clear) refl
    ]
  ]
]
perform-Shape (updating slot bytes) p = elim (Bool-cases p.read_only) [
  | inl sealed ↦ rw sealed tt
  | inr writable ↦ elim (Bool-cases (leb (record_capacity p) slot)) [
    | inl out ↦ rw (writable, out) refl
    | inr within ↦ elim (Bool-cases (get_bit p.bits slot)) [
      | inl set ↦ rw (writable, within, set) (refl, refl)
      | inr clear ↦ rw (writable, within, clear) refl
    ]
  ]
]
