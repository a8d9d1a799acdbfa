-- ===== src/Clog/Files/Spacing.antt =====
-- The ranges of the log files: a file holds the numbers from its own up to that of the next one, and
-- `next_file` and `list_files` of clog/log_file.cpp go by that.
use csu_dbms.Base.Int.{pos}
use csu_dbms.Base.{
  ◌%◌, ◌^◌, ℕ, ◌+◌, ◌-◌, ◌≤◌, ◌<◌, ◌≡◌, refl, sym, ap, ◌∙◌, inl, inr, Bool, true, some, List, [],
  ◌∷◌, ◌++◌, map, All, All-append, All-map, subst, arith, leb, leb→le, Bool-cases,
}
use csu_dbms.Rc.{success}
use csu_dbms.Clog.Writer.{Writer, Written, as_int, open_file, close}
use csu_dbms.Clog.Files.{
  Name, FileMap, Manager, emplace, last_item, listed, list_files, file_name, next_lsn, next_file,
  last_file,
}

-- Every file's numbers end before the next one's.
abbrev pub IsSpaced : ℕ → FileMap → Type 0
IsSpaced n [] = Unit
IsSpaced n (f ∷ m) = All (λ g. f.0 + n ≤ g.0) m × IsSpaced n m

last-bound :
    (n : ℕ) (f : ℕ × Name) (m : FileMap) (l : ℕ × Name)
    → IsSpaced n (f ∷ m)
    → last_item (f ∷ m) ≡ some l
    → All (λ g. g.0 + n ≤ l.0 + n) (f ∷ m)
unfolding last_item
last-bound n f [] l s e = let same : f ≡ l = cc in (omega (arith, ap (λ x. x.0) same), tt)
last-bound n f (g ∷ m) l s e =
    let rec = last-bound n g m l s.1 e in (omega (arith, s.0.0, rec.0), rec)

pub emplace-last :
    (lsn : ℕ) (p : Name) (m : FileMap)
    → All (λ g. g.0 < lsn) m
    → emplace lsn p m ≡ m ++ (lsn, p) ∷ []
unfolding emplace
emplace-last lsn p [] h = refl
emplace-last lsn p ((k, q) ∷ m) h =
    let ih = emplace-last lsn p m h.1 in let less = h.0 in ground arith

IsSpaced-append :
    (n lsn : ℕ) (p : Name) (m : FileMap)
    → IsSpaced n m
    → All (λ g. g.0 + n ≤ lsn) m
    → IsSpaced n (m ++ (lsn, p) ∷ [])
IsSpaced-append n lsn p [] s h = (tt, tt)
IsSpaced-append n lsn p (f ∷ m) s h =
    (All-append _ m _ s.0 (h.0, tt), IsSpaced-append n lsn p m s.1 h.1)

last-some : (f : ℕ × Name) (m : FileMap) → (l : ℕ × Name) × (last_item (f ∷ m) ≡ some l)
unfolding last_item
last-some f [] = (f, refl)
last-some f (g ∷ m) = last-some g m

-- The next file's number is above all that the files may hold.
next_lsn-bound : (n : ℕ) (m : FileMap) → IsSpaced n m → All (λ g. g.0 + n ≤ next_lsn n m) m
unfolding next_lsn
next_lsn-bound n [] s = tt
next_lsn-bound n (f ∷ m) s =
    let (l, e) = last-some f m in
    let b = last-bound n f m l s e in
    let same : l.0 + n ≡ next_lsn n (f ∷ m) = rw (next_lsn, e) refl in
    subst (λ x. All (λ g. g.0 + n ≤ x) (f ∷ m)) same b

as_int_pos : (n : ℕ) → n < 2 ^ 31 → as_int n ≡ pos n
unfolding as_int
as_int_pos n l = let same : n % 2 ^ 32 ≡ n = omega arith in ground arith

-- Where the files are spaced, a file holds at least one number, and the new file's last number fits an int,
-- `next_file` that the system lets open adds one file behind all others, whose numbers start where the last file's may end, keeps the
-- files spaced, and leaves the writer open up to the new file's last number.
pub next_file-IsSpaced :
    (to_string : ℕ → Name) (content : List Written) (s : Manager) (w : Writer)
    → 0 < s.max_entry_number_per_file
    → IsSpaced s.max_entry_number_per_file s.log_files
    → next_lsn s.max_entry_number_per_file s.log_files + s.max_entry_number_per_file - 1 < 2 ^ 31
    → (let (rc, w', s') = next_file to_string true content s w in
        let max = s.max_entry_number_per_file in
        let lsn = next_lsn max s.log_files in
        (rc ≡ success)
        × (w'.is_open ≡ true)
        × (w'.end_lsn ≡ pos (lsn + max - 1))
        × (s'.log_files ≡ s.log_files ++ (lsn, file_name to_string lsn) ∷ [])
        × All (λ f. f.0 + max ≤ lsn) s.log_files
        × IsSpaced max s'.log_files)
unfolding next_file open_file close
next_file-IsSpaced to_string content s w some_room spaced fits =
    let max = s.max_entry_number_per_file in
    let lsn = next_lsn max s.log_files in
    let above = next_lsn-bound max s.log_files spaced in
    let grown =
      emplace-last lsn (file_name to_string lsn) s.log_files
        (All-map (λ g. g.0 + max ≤ lsn) (λ g. g.0 < lsn) (λ g b. omega arith) s.log_files above) in
    (
      refl,
      refl,
      as_int_pos _ fits,
      grown,
      above,
      subst (IsSpaced max) (sym grown) (IsSpaced-append max lsn _ s.log_files spaced above),
    )

last-append : (m : FileMap) (f : ℕ × Name) → last_item (m ++ f ∷ []) ≡ some f
unfolding last_item
last-append [] f = refl
last-append (g ∷ []) f = refl
last-append (g ∷ h ∷ m) f = last-append (h ∷ m) f

-- Where the files are spaced and a file holds at least one number, `last_file` after a `next_file` goes
-- back to the file that `next_file` made: with the same last number, and without a change of the files.
pub last_file-next_file :
    (to_string : ℕ → Name) (opened : Bool) (before after : List Written) (s : Manager)
    (w v : Writer)
    → 0 < s.max_entry_number_per_file
    → IsSpaced s.max_entry_number_per_file s.log_files
    → (let s' = (next_file to_string opened before s w).2 in
        let max = s.max_entry_number_per_file in
        last_file to_string true after s' v ≡ (
          success,
          record v {
            is_open = true;
            end_lsn = as_int (next_lsn max s.log_files + max - 1);
            file = after;
          },
          s',
        ))
unfolding next_file last_file open_file close
last_file-next_file to_string opened before after s w v some_room spaced =
    let max = s.max_entry_number_per_file in
    let lsn = next_lsn max s.log_files in
    let grown = emplace-last lsn (file_name to_string lsn) s.log_files (
      All-map (λ g. g.0 + max ≤ lsn) (λ g. g.0 < lsn) (λ g b. omega arith) s.log_files
        (next_lsn-bound max s.log_files spaced)) in
    let newest : last_item (emplace lsn (file_name to_string lsn) s.log_files)
        ≡ some (lsn, file_name to_string lsn) =
      ap last_item grown ∙ last-append s.log_files (lsn, file_name to_string lsn) in
    rw (last_file, newest) refl

listed-from :
    (max start_lsn : ℕ) (m : FileMap)
    → All (λ f. start_lsn ≤ f.0 + max - 1) m
    → listed max start_lsn m ≡ map (λ f. f.1) m
unfolding listed
listed-from max start_lsn [] h = refl
listed-from max start_lsn ((k, p) ∷ m) h =
    let ih = listed-from max start_lsn m h.1 in let here = h.0 in ground arith

-- How `list_files` divides the files at a number.
pub record Listed (s : Manager) (start_lsn : ℕ) : Type 0 where
  pub old : FileMap
  pub new : FileMap
  pub divided : s.log_files ≡ old ++ new
  pub names : list_files s start_lsn ≡ map (λ f. f.1) new
  pub before : All (λ f. f.0 + s.max_entry_number_per_file - 1 < start_lsn) old
  pub behind : All (λ f. start_lsn ≤ f.0 + s.max_entry_number_per_file - 1) new

-- Where the files are spaced, `list_files` names the files from some file on, in order: all numbers of
-- the files before it are below the start, and each named file has room for the start or a number
-- behind it.
pub list_files-Listed :
    (s : Manager) (start_lsn : ℕ)
    → IsSpaced s.max_entry_number_per_file s.log_files
    → Listed s start_lsn
unfolding list_files listed
list_files-Listed s start_lsn spaced =
    let (old, new, d, n, b, a) = divide s.log_files spaced in
    record { old = old; new = new; divided = d; names = n; before = b; behind = a }
  where
    divide :
        (m : FileMap)
        → IsSpaced s.max_entry_number_per_file m
        → (old new : FileMap) × (m ≡ old ++ new)
          × (listed s.max_entry_number_per_file start_lsn m ≡ map (λ f. f.1) new)
          × All (λ f. f.0 + s.max_entry_number_per_file - 1 < start_lsn) old
          × All (λ f. start_lsn ≤ f.0 + s.max_entry_number_per_file - 1) new
    divide [] sp = ([], [], refl, refl, tt, tt)
    divide ((k, p) ∷ m) sp =
        elim (Bool-cases (leb start_lsn (k + s.max_entry_number_per_file - 1))) [
          | inl late ↦
              let here = leb→le start_lsn (k + s.max_entry_number_per_file - 1) late in
              let rest =
                All-map (λ g. k + s.max_entry_number_per_file ≤ g.0)
                  (λ g. start_lsn ≤ g.0 + s.max_entry_number_per_file - 1) (λ g b. omega arith) m
                  sp.0 in
              (
                [],
                (k, p) ∷ m,
                refl,
                rw late (ap (◌∷◌ p) (listed-from s.max_entry_number_per_file start_lsn m rest)),
                tt,
                (here, rest),
              )
          | inr early ↦
              let (old, new, d, n, b, a) = divide m sp.1 in
              let low : k + s.max_entry_number_per_file - 1 < start_lsn = ground arith in
              ((k, p) ∷ old, new, ap (◌∷◌ (k, p)) d, rw early n, (low, b), a)
        ]
