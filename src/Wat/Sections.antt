-- ===== src/Wat/Sections.antt =====
-- The sections that `assemble_module` of src/deep_wat.c writes, as functions of what it has
-- gathered from the forms. The buffer that is written to is the list of its bytes.
use deepvm.Base.{
  ℕ, zero, suc, ◌/◌, ◌%◌, Bool, true, false, List, [], ◌∷◌, ◌++◌, length, if◌then◌else◌,
}
use deepvm.Leb.Write.{bb_put_leb_u32, bb_put_leb_s32, bb_put_leb_s64}
use deepvm.Vm.State.{FuncType, Export, TableType, MemoryType, Elem}

-- `bb_put_u32le` and `bb_put_u64le`, of 4 and of 8 bytes.
unfoldable pub bb_put_le : ℕ → ℕ → List ℕ
bb_put_le zero v = []
bb_put_le (suc n) v = v % 256 ∷ bb_put_le n (v / 256)

unfoldable pub put_section : ℕ → List ℕ → List ℕ
put_section id payload = id ∷ bb_put_leb_u32 (length payload) ++ payload

-- `for (size_t i = 0; …)` around the writing of one entry.
unfoldable pub put_each : {A : Type 0} → (A → List ℕ) → List A → List ℕ
put_each put [] = []
put_each put (x ∷ xs) = put x ++ put_each put xs

-- A count and that many entries, as most sections have them.
unfoldable pub put_vector : {A : Type 0} → (A → List ℕ) → List A → List ℕ
put_vector put xs = bb_put_leb_u32 (length xs) ++ put_each put xs

unfoldable pub header : List ℕ
header = 0x00 ∷ 0x61 ∷ 0x73 ∷ 0x6d ∷ bb_put_le 4 1

unfoldable pub put_type : FuncType → List ℕ
put_type sig =
    0x60 ∷ bb_put_leb_u32 (length sig.params)
    ++ (sig.params ++ (bb_put_leb_u32 (length sig.results) ++ sig.results))

-- The flag for a maximum, the minimum and the maximum.
unfoldable pub put_limits : Bool → ℕ → ℕ → List ℕ
put_limits true min max = 0x01 ∷ bb_put_leb_u32 min ++ bb_put_leb_u32 max
put_limits false min max = 0x00 ∷ bb_put_leb_u32 min

-- What an import describes.
pub data Description : Type 0 where
  func : ℕ → Description
  table memory : Bool → ℕ → ℕ → Description
  global : ℕ → Bool → Description

pub record ImportForm : Type 0 where
  pub module_name : List ℕ
  pub member_name : List ℕ
  pub description : Description

unfoldable pub put_mutable : Bool → ℕ
put_mutable mut = if mut then 0x01 else 0x00

unfoldable pub put_description : Description → List ℕ
put_description (func index) = 0x00 ∷ bb_put_leb_u32 index
put_description (table has_max min max) = 0x01 ∷ 0x70 ∷ put_limits has_max min max
put_description (memory has_max min max) = 0x02 ∷ put_limits has_max min max
put_description (global type mut) = 0x03 ∷ type ∷ put_mutable mut ∷ []

unfoldable pub put_import : ImportForm → List ℕ
put_import i =
    bb_put_leb_u32 (length i.module_name)
    ++ (i.module_name
        ++ (bb_put_leb_u32 (length i.member_name)
            ++ (i.member_name ++ put_description i.description)))

unfoldable pub put_table : TableType → List ℕ
put_table t = bb_put_leb_u32 1 ++ (0x70 ∷ put_limits t.has_max t.min t.max)

unfoldable pub put_memory : MemoryType → List ℕ
put_memory t = bb_put_leb_u32 1 ++ put_limits t.has_max t.min_pages t.max_pages

-- A global's initial value: a constant, as its pattern of bits, or another global.
pub data Init : Type 0 where
  i32_init i64_init f32_init f64_init get_init : ℕ → Init

pub record GlobalForm : Type 0 where
  pub type : ℕ
  pub is_mutable : Bool
  pub init : Init

unfoldable pub put_init : Init → List ℕ
put_init (i32_init v) = 0x41 ∷ bb_put_leb_s32 v
put_init (i64_init v) = 0x42 ∷ bb_put_leb_s64 v
put_init (f32_init v) = 0x43 ∷ bb_put_le 4 v
put_init (f64_init v) = 0x44 ∷ bb_put_le 8 v
put_init (get_init index) = 0x23 ∷ bb_put_leb_u32 index

unfoldable pub put_global : GlobalForm → List ℕ
put_global g = g.type ∷ put_mutable g.is_mutable ∷ put_init g.init ++ (0x0b ∷ [])

unfoldable pub emit_export_entry : Export → List ℕ
emit_export_entry e = bb_put_leb_u32 (length e.name) ++ (e.name ++ (e.tag ∷ bb_put_leb_u32 e.index))

-- `(i32.const off)`, as the segments have it.
unfoldable pub put_offset : ℕ → List ℕ
put_offset off = 0x41 ∷ bb_put_leb_s32 off ++ (0x0b ∷ [])

unfoldable pub put_elem : Elem → List ℕ
put_elem e = bb_put_leb_u32 0 ++ (put_offset e.offset ++ put_vector bb_put_leb_u32 e.func_indices)

pub record DataForm : Type 0 where
  pub offset : ℕ
  pub bytes : List ℕ

unfoldable pub put_data : DataForm → List ℕ
put_data d = 0x00 ∷ put_offset d.offset ++ (bb_put_leb_u32 (length d.bytes) ++ d.bytes)
