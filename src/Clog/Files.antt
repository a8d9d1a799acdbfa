-- ===== src/Clog/Files.antt =====
-- LogFileManager of observer/storage/clog/log_file.cpp. A file stands under its name in the directory,
-- a list of characters. `from_chars` and `to_string` are those of the standard library, for numbers
-- that are not negative.
pub mod Spacing
pub mod Names
use csu_dbms.Base.{
  ℕ, ◌+◌, ◌-◌, Bool, true, false, not, ◌&&◌, Option, none, some, List, [], ◌∷◌, ◌++◌, if◌then◌else◌,
  ltb, leb, ◌==◌, length, take, drop,
}
use mathlib.Core.List.{reverse}
use csu_dbms.Rc.{Rc, success, file_create}
use csu_dbms.Clog.Writer.{Writer, Written, open_file, close}

abbrev pub Name : Type 0
Name = List ℕ

-- `map<LSN, filesystem::path>`, by ascending keys.
abbrev pub FileMap : Type 0
FileMap = List (ℕ × Name)

pub record Manager : Type 0 where
  pub max_entry_number_per_file : ℕ
  pub log_files : FileMap

-- A manager before `init`, which sets the size.
abbrev pub empty_manager : Manager
empty_manager = record { max_entry_number_per_file = 0; log_files = [] }

-- "clog_"
abbrev pub file_prefix : Name
file_prefix = 99 ∷ 108 ∷ 111 ∷ 103 ∷ 95 ∷ []

-- ".log"
abbrev pub file_suffix : Name
file_suffix = 46 ∷ 108 ∷ 111 ∷ 103 ∷ []

unfoldable pub starts_with : Name → Name → Bool
starts_with name [] = true
starts_with [] (c ∷ p) = false
starts_with (d ∷ name) (c ∷ p) = c == d && starts_with name p

unfoldable pub ends_with : Name → Name → Bool
ends_with name suffix = starts_with (reverse name) (reverse suffix)

-- `emplace` keeps what stands under the key.
unfoldable pub emplace : ℕ → Name → FileMap → FileMap
emplace lsn path [] = (lsn, path) ∷ []
emplace lsn path ((key, p) ∷ m) =
    let rest = emplace lsn path m in
    if ltb lsn key
    then (lsn, path) ∷ (key, p) ∷ m
    else (if lsn == key then (key, p) ∷ m else (key, p) ∷ rest)

-- `rbegin()`
unfoldable pub last_item : FileMap → Option (ℕ × Name)
last_item [] = none
last_item (f ∷ []) = some f
last_item (f ∷ g ∷ m) = last_item (g ∷ m)

-- The characters between the prefix and the suffix.
unfoldable pub lsn_str : Name → Name
lsn_str name =
    take (length name - length file_suffix - length file_prefix) (drop (length file_prefix) name)

unfoldable pub get_lsn_from_filename : (Name → Option ℕ) → Name → Option ℕ
get_lsn_from_filename from_chars name =
    if starts_with name file_prefix && ends_with name file_suffix
    then from_chars (lsn_str name)
    else none

pub record DirectoryEntry : Type 0 where
  pub is_regular_file : Bool
  pub filename : Name

-- The loop of `init` over the directory; a name under a number that has a file already changes nothing.
unfoldable pub load : (Name → Option ℕ) → List DirectoryEntry → FileMap → FileMap
load from_chars [] m = m
load from_chars (e ∷ es) m =
    let skipped = load from_chars es m in
    if e.is_regular_file
    then (elim (get_lsn_from_filename from_chars e.filename) [
      | none ↦ skipped
      | some lsn ↦ load from_chars es (emplace lsn e.filename m)
    ])
    else skipped

-- `found` is whether the directory is there or could be created.
unfoldable pub init : (Name → Option ℕ) → Bool → ℕ → List DirectoryEntry → Manager → Rc × Manager
init from_chars found max es s =
    let named = record s { max_entry_number_per_file = max } in
    if found
    then (success, record named { log_files = load from_chars es s.log_files })
    else (file_create, named)

-- The loop of `list_files`: the test is of the last number that a file may hold.
unfoldable pub listed : ℕ → ℕ → FileMap → List Name
listed max start_lsn [] = []
listed max start_lsn ((lsn, path) ∷ m) =
    let rest = listed max start_lsn m in if leb start_lsn (lsn + max - 1) then path ∷ rest else rest

unfoldable pub list_files : Manager → ℕ → List Name
list_files s start_lsn = listed s.max_entry_number_per_file start_lsn s.log_files

unfoldable pub file_name : (ℕ → Name) → ℕ → Name
file_name to_string lsn = file_prefix ++ to_string lsn ++ file_suffix

-- The number of the file that `next_file` makes.
unfoldable pub next_lsn : ℕ → FileMap → ℕ
next_lsn max m = elim (last_item m) [ none ↦ 0 | some f ↦ f.0 + max ]

-- `opened` and `content` are what `open` meets.
unfoldable pub next_file :
    (ℕ → Name) → Bool → List Written → Manager → Writer → Rc × Writer × Manager
next_file to_string opened content s w =
    let lsn = next_lsn s.max_entry_number_per_file s.log_files in
    let (rc, w') = open_file opened content (lsn + s.max_entry_number_per_file - 1) (close w) in
    (rc, w', record s { log_files = emplace lsn (file_name to_string lsn) s.log_files })

unfoldable pub last_file :
    (ℕ → Name) → Bool → List Written → Manager → Writer → Rc × Writer × Manager
last_file to_string opened content s w = elim (last_item s.log_files) [
  | none ↦ next_file to_string opened content s w
  | some f ↦
      let (rc, w') = open_file opened content (f.0 + s.max_entry_number_per_file - 1) (close w) in
      (rc, w', s)
]
