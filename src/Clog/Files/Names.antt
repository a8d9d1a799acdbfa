-- ===== src/Clog/Files/Names.antt =====
-- The names of the log files of clog/log_file.cpp, the numbers that they are read as, and a restart:
-- `init` on the names that `next_file` gave.
use csu_dbms.Base.{
  take-append, ℕ, ◌+◌, ◌-◌, ◌<◌, ◌≤◌, ◌≡◌, ◌≢◌, refl, sym, ap, ◌∙◌, inl, inr, true, Option, some,
  List, [], ◌∷◌, ◌++◌, map, All, All-map, arith, length, length-append, ℕ_discrete, In, All-In,
  take, subst,
}
use mathlib.Core.List.{reverse, reverse-append, append_assoc, append-nil, Permᴰ}
use csu_dbms.Rc.{success}
use csu_dbms.Clog.Files.{
  Name, FileMap, Manager, DirectoryEntry, starts_with, ends_with, lsn_str, get_lsn_from_filename,
  file_name, file_prefix, file_suffix, emplace, load, init, empty_manager,
}
use csu_dbms.Clog.Files.Spacing.{IsSpaced, emplace-last}

starts_with-append : (p name : Name) → starts_with (p ++ name) p ≡ true
unfolding starts_with
starts_with-append [] name = refl
starts_with-append (c ∷ p) name = let ih = starts_with-append p name in ground arith

ends_with-append : (a suffix : Name) → ends_with (a ++ suffix) suffix ≡ true
unfolding ends_with
ends_with-append a suffix =
    rw (reverse-append a suffix) (starts_with-append (reverse suffix) (reverse a))

lsn_str-file_name : (digits : Name) → lsn_str (file_prefix ++ digits ++ file_suffix) ≡ digits
unfolding lsn_str
lsn_str-file_name digits =
    let n : length (digits ++ file_suffix) ≡ length digits + 4 = length-append digits file_suffix in
    let count : length (file_prefix ++ digits ++ file_suffix) - 4 - 5 ≡ length digits =
      omega (arith, n) in
    ap (λ i. take i (digits ++ file_suffix)) count ∙ take-append digits file_suffix

-- Where `from_chars` reads what `to_string` writes, the name of a log file is read as its number.
pub get_lsn_from_filename-file_name :
    (to_string : ℕ → Name) (from_chars : Name → Option ℕ)
    → ((n : ℕ) → from_chars (to_string n) ≡ some n)
    → (lsn : ℕ) → get_lsn_from_filename from_chars (file_name to_string lsn) ≡ some lsn
unfolding get_lsn_from_filename file_name
get_lsn_from_filename-file_name to_string from_chars reads lsn =
    let a = starts_with-append file_prefix (to_string lsn ++ file_suffix) in
    let b = ends_with-append (file_prefix ++ to_string lsn) file_suffix in
    rw (a, b) (ap from_chars (lsn_str-file_name (to_string lsn)) ∙ reads lsn)

emplace-emplace :
    (a b : ℕ) (p q : Name) (m : FileMap)
    → a ≢ b
    → emplace a p (emplace b q m) ≡ emplace b q (emplace a p m)
unfolding emplace
emplace-emplace a b p q [] ne = ground arith
emplace-emplace a b p q ((k, r) ∷ m) ne = let ih = emplace-emplace a b p q m ne in ground arith

-- The directory entry of a log file.
abbrev pub log_file : (ℕ → Name) → ℕ → DirectoryEntry
log_file to_string n = record { is_regular_file = true; filename = file_name to_string n }

-- Every file stands under the name of its number.
abbrev pub IsNamed : (ℕ → Name) → FileMap → Type 0
IsNamed to_string m = All (λ f. f.1 ≡ file_name to_string f.0) m

In-append : {A : Type 0} (xs : List A) (a : A) (ys : List A) → In a (xs ++ a ∷ ys)
In-append [] a ys = inl refl
In-append (x ∷ xs) a ys = inr (In-append xs a ys)

module _ (to_string : ℕ → Name) (from_chars : Name → Option ℕ)
    (reads : (n : ℕ) → from_chars (to_string n) ≡ some n) where
  place : ℕ → FileMap → FileMap
  place n m = emplace n (file_name to_string n) m

  load_files : List ℕ → FileMap → FileMap
  load_files ns m = load from_chars (map (log_file to_string) ns) m

  load_files-cons :
      (n : ℕ) (ns : List ℕ) (m : FileMap) → load_files (n ∷ ns) m ≡ load_files ns (place n m)
  unfolding load load_files place
  load_files-cons n ns m = rw (get_lsn_from_filename-file_name to_string from_chars reads n) refl

  place-place : (a b : ℕ) (m : FileMap) → place a (place b m) ≡ place b (place a m)
  unfolding place
  place-place a b m = elim (ℕ_discrete a b) [
    | yes e ↦ rw e refl
    | no ne ↦ emplace-emplace a b _ _ m ne
  ]

  load_files-Perm :
      {ns ms : List ℕ} → Permᴰ ns ms → (m : FileMap) → load_files ns m ≡ load_files ms m
  load_files-Perm Permᴰ.nil m = refl
  load_files-Perm (Permᴰ.cons {a = a} {b = b} {l₁ = l₁} {l₂ = l₂} e d) m =
      load_files-cons a l₁ m
      ∙ load_files-Perm d (place a m)
      ∙ ap (λ x. load_files l₂ (place x m)) e
      ∙ sym (load_files-cons b l₂ m)
  load_files-Perm (Permᴰ.swap {a = a} {b = b} {a' = a'} {b' = b'} {l = l} e f) m =
      load_files-cons a (b ∷ l) m
      ∙ load_files-cons b l (place a m)
      ∙ ap (load_files l) (place-place b a m)
      ∙ ap (λ x. load_files l (place x (place b m))) e
      ∙ ap (λ x. load_files l (place b' (place x m))) f
      ∙ sym (load_files-cons a' (b' ∷ l) m ∙ load_files-cons b' l (place a' m))
  load_files-Perm (Permᴰ.trans d₁ d₂) m = load_files-Perm d₁ m ∙ load_files-Perm d₂ m

  spaced_below :
      (n : ℕ) (acc : FileMap) (f : ℕ × Name) (m : FileMap)
      → IsSpaced n (acc ++ f ∷ m)
      → All (λ g. g.0 + n ≤ f.0) acc
  spaced_below n [] f m s = tt
  spaced_below n (g ∷ acc) f m s = (
    All-In (λ h. g.0 + n ≤ h.0) f (acc ++ f ∷ m) s.0 (In-append acc f m),
    spaced_below n acc f m s.1,
  )

  load_files-in_order :
      (n : ℕ) (acc m : FileMap)
      → 0 < n
      → IsSpaced n (acc ++ m)
      → IsNamed to_string m
      → load_files (map (λ f. f.0) m) acc ≡ acc ++ m
  load_files-in_order n acc [] some_room s named = unfold load_files load in sym (append-nil acc)
  load_files-in_order n acc ((k, p) ∷ m) some_room s named =
      let below =
        All-map (λ g. g.0 + n ≤ k) (λ g. g.0 < k) (λ g b. omega arith) acc
          (spaced_below n acc (k, p) m s) in
      let placed : place k acc ≡ acc ++ (k, p) ∷ [] =
        unfold place in
        (emplace-last k (file_name to_string k) acc below
          ∙ ap (λ q. acc ++ (k, q) ∷ []) (sym named.0)) in
      let whole = append_assoc acc ((k, p) ∷ []) m in
      load_files-cons k (map (λ f. f.0) m) acc
      ∙ ap (load_files (map (λ f. f.0) m)) placed
      ∙ load_files-in_order n (acc ++ (k, p) ∷ []) m some_room (subst (IsSpaced n) (sym whole) s)
          named.1
      ∙ whole

  -- Where `from_chars` reads what `to_string` writes, a restart in the directory of a manager whose files
  -- are spaced and named by `next_file` finds the same files, in whatever order the directory lists
  -- them.
  pub init-log_files :
      (s : Manager) (ns : List ℕ)
      → 0 < s.max_entry_number_per_file
      → IsSpaced s.max_entry_number_per_file s.log_files
      → IsNamed to_string s.log_files
      → Permᴰ ns (map (λ f. f.0) s.log_files)
      → init from_chars true s.max_entry_number_per_file (map (log_file to_string) ns) empty_manager
        ≡ (success, s)
  unfolding init load_files
  init-log_files s ns some_room spaced named p =
      ap (λ m. (success, record s { log_files = m }))
        (load_files-Perm p []
          ∙ load_files-in_order s.max_entry_number_per_file [] s.log_files some_room spaced named)
