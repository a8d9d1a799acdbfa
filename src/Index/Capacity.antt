-- ===== src/Index/Capacity.antt =====
-- The layout of nodes in bplus_tree.cpp: how many items `create` lets a node have, and where the items stand.
use native.Mathlib.Nat.{div-mul-le_self, lt-div-mul-add}
use csu_dbms.Base.{◌≡◌, ℕ, ◌+◌, ◌-◌, ◌*◌, ◌/◌, ◌≤◌, ◌<◌, arith}
use csu_dbms.Base.Int.{ℤ, pos, negsuc}

-- A page of 8192 bytes, less its LSN and its check sum.
abbrev pub bp_page_data_size : ℕ
bp_page_data_size = 8180

-- The three fields of a node; a leaf has one more.
abbrev pub internal_header_size : ℕ
internal_header_size = 12

abbrev pub leaf_header_size : ℕ
leaf_header_size = 16

abbrev pub size_of_rid : ℕ
size_of_rid = 8

abbrev pub size_of_page_num : ℕ
size_of_page_num = 4

unfoldable pub calc_internal_page_capacity : ℕ → ℕ
calc_internal_page_capacity attr_length =
    (bp_page_data_size - internal_header_size) / (attr_length + size_of_rid + size_of_page_num)

unfoldable pub calc_leaf_page_capacity : ℕ → ℕ
calc_leaf_page_capacity attr_length =
    (bp_page_data_size - leaf_header_size) / (attr_length + size_of_rid + size_of_rid)

-- The sizes in the first page of the index.
pub record IndexFileHeader : Type 0 where
  pub attr_length : ℕ
  pub key_length : ℕ
  pub internal_max_size : ℕ
  pub leaf_max_size : ℕ

-- The header that `create` writes; a negative largest size asks for the capacity of a page.
unfoldable pub create_header : ℕ → ℤ → ℤ → IndexFileHeader
create_header attr_length internal_max_size leaf_max_size = record {
  attr_length = attr_length;
  key_length = attr_length + size_of_rid;
  internal_max_size = elim internal_max_size [
    | pos n ↦ n
    | negsuc n ↦ calc_internal_page_capacity attr_length
  ];
  leaf_max_size = elim leaf_max_size [ pos n ↦ n | negsuc n ↦ calc_leaf_page_capacity attr_length ];
}

-- `IndexNodeHandler::item_size` of a leaf: the key and `value_size`.
abbrev pub leaf_item_size : IndexFileHeader → ℕ
leaf_item_size header = header.key_length + size_of_rid

-- `InternalIndexNodeHandler::item_size`
abbrev pub internal_item_size : IndexFileHeader → ℕ
internal_item_size header = header.key_length + size_of_page_num

-- `__item_at`, from the beginning of the page's data.
abbrev pub leaf_item_at : IndexFileHeader → ℕ → ℕ
leaf_item_at header index = leaf_header_size + index * leaf_item_size header

abbrev pub internal_item_at : IndexFileHeader → ℕ → ℕ
internal_item_at header index = internal_header_size + index * internal_item_size header

-- The nodes of an index that is created without largest sizes: the items of a node of the largest size, placed by the
-- node's handler, end within the data of the page, and one item more would not.
pub create_header-fits :
    (attr_length : ℕ)
    → (let header = create_header attr_length (negsuc 0) (negsuc 0) in
        (leaf_item_at header header.leaf_max_size ≤ bp_page_data_size)
        × (internal_item_at header header.internal_max_size ≤ bp_page_data_size)
        × (bp_page_data_size < leaf_item_at header (header.leaf_max_size + 1))
        × (bp_page_data_size < internal_item_at header (header.internal_max_size + 1)))
unfolding create_header calc_leaf_page_capacity calc_internal_page_capacity
create_header-fits attr_length =
    let leaf = attr_length + size_of_rid + size_of_rid in
    let internal = attr_length + size_of_rid + size_of_page_num in
    let a : 8164 / leaf * leaf ≤ 8164 = div-mul-le_self 8164 leaf in
    let b : 8168 / internal * internal ≤ 8168 = div-mul-le_self 8168 internal in
    let c : 8164 < 8164 / leaf * leaf + leaf = lt-div-mul-add (omega arith) in
    let d : 8168 < 8168 / internal * internal + internal = lt-div-mul-add (omega arith) in
    let e : (8164 / leaf + 1) * leaf ≡ 8164 / leaf * leaf + leaf = grind arith in
    let f : (8168 / internal + 1) * internal ≡ 8168 / internal * internal + internal =
      grind arith in
    (omega arith, omega arith, omega (arith, e), omega (arith, f))
