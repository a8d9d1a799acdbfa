-- ===== src/Record/File/Tests.antt =====
-- A file with one page of two slots, and the theorems of files at it.
use csu_dbms.Base.{
  ℕ, ◌≡◌, refl, true, false, Option, some, none, [], ◌∷◌, if◌then◌else◌, ◌==◌, leb, subst, inl, inr,
  Bool-cases, arith,
}
use csu_dbms.Rc.{Rc, success}
use csu_dbms.Bitmap.{bytes, get_bit, clear_bit}
use csu_dbms.Bitmap.Counts.{count}
use csu_dbms.Record.Page
use csu_dbms.Record.Page.{Page, is_full, is_empty}
use csu_dbms.Record.Page.Counts
use csu_dbms.Record.File
use csu_dbms.Record.File.{Answers, find_page, erase}
use csu_dbms.Record.File.Place
use csu_dbms.Record.File.Drop

abbrev page_of : ℕ → ℕ → Page
page_of taken bits = record {
  read_only = false;
  record_num = taken;
  bits = record { bitmap = bits ∷ []; size = 2 };
  records = λ slot. if slot == 0 then 7 ∷ [] else [];
  dirty = false;
  log = [];
}

-- Page 1 has a record in its first slot.
abbrev one_page : File.File
one_page = record { free_pages = 1 ∷ []; pages = λ n. if n == 1 then some (page_of 1 1) else none }

abbrev granted : Answers
granted = record {
  opened_rc = λ n. success;
  allocate_rc = success;
  page_num = 2;
  init_rc = success;
  init_page = page_of 0 0;
  dispose_rc = success;
}

one_taken : Counts.IsValid (page_of 1 1)
unfolding bytes get_bit count
one_taken = record {
  bits_valid = record { are_bytes = (omega arith, tt); roomy = omega arith };
  counted = refl;
}

none_taken : Counts.IsValid (page_of 0 0)
unfolding bytes get_bit count
none_taken = record {
  bits_valid = record { are_bytes = (omega arith, tt); roomy = omega arith };
  counted = refl;
}

one_page-IsValid : Place.IsValid one_page
one_page-IsValid = record {
  pages_valid = λ n p e. elim (Bool-cases (n == 1)) [
    | inl at ↦
        let now : some (page_of 1 1) ≡ some p =
          subst (λ b. (if b then some (page_of 1 1) else none) ≡ some p) at e in
        let page : page_of 1 1 ≡ p = cc in subst Counts.IsValid page one_taken
    | inr ne ↦ absurd (
        let clash : none ≡ some p =
          subst (λ b. (if b then some (page_of 1 1) else none) ≡ some p) ne e in
        cc)
  ];
  free_known = ((page_of 1 1, refl), tt);
}

granted-IsGranted : Place.IsGranted granted one_page
unfolding is_full Page.get_record get_bit
granted-IsGranted = record {
  opens = λ n. refl;
  allocates = refl;
  inits = refl;
  new = refl;
  init_valid = none_taken;
  init_empty = λ j. elim (Bool-cases (leb 2 j)) [
    | inl out ↦ rw out refl
    | inr within ↦ Place.get_record-clear (page_of 0 0) j (ground arith)
  ];
  init_room = refl;
}

insert_record-Stored_example :
    (n : ℕ) × (slot : ℕ) × (f : File.File) × Place.Stored granted (9 ∷ []) one_page n slot f
insert_record-Stored_example =
    Place.insert_record-Stored granted (9 ∷ []) one_page one_page-IsValid granted-IsGranted

first_taken : get_bit (page_of 1 1).bits 0 ≡ true
unfolding get_bit
first_taken = refl

delete_record-Dropped_example : (f : File.File) × Drop.Dropped granted one_page 1 0 f
delete_record-Dropped_example =
    Drop.delete_record-Dropped granted one_page 1 0 (page_of 1 1) one_page-IsValid refl refl
      (omega arith) first_taken

abbrev pages_left : Option (Rc × File.File) → Option (Option Page)
pages_left none = none
pages_left (some (rc, f)) = some (f.pages 1)

-- The page has become empty, and is given back.
page_given_back : pages_left (File.delete_record granted 1 0 one_page) ≡ some none
unfolding File.delete_record Page.delete_record get_bit clear_bit is_empty erase
page_given_back = refl
