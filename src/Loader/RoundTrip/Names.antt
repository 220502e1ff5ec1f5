-- ===== src/Loader/RoundTrip/Names.antt =====
-- The export and import sections.
use deepvm.Base.{
  ℕ, suc, ◌+◌, ◌^◌, ◌<◌, ◌≡◌, refl, ap, ◌∙◌, List, [], ◌∷◌, ◌++◌, map, append_assoc, ok, length,
  All, arith,
}
use deepvm.Leb.{Ptr}
use deepvm.Leb.Write.{bb_put_leb_u32}
use deepvm.Vm.State.{Export, Import, Module, read_byte}
use deepvm.Loader.Sections.{
  decode_export, decode_export_section, decode_import, decode_import_section, count_tag,
}
use deepvm.Loader.Reads.{map_same, then_leb, then_bytes, read_vector-put_vector}
use deepvm.Wat.Sections.{emit_export_entry, func, put_import, put_description, put_vector}

pub record IsSmallExport (e : Export) : Type 0 where
  pub short : length e.name < 2 ^ 32
  pub small_index : e.index < 2 ^ 32

decode_export-emit_export_entry :
    (e : Export) (rest : Ptr)
    → IsSmallExport e
    → decode_export (emit_export_entry e ++ rest) ≡ ok (e, rest)
unfolding decode_export emit_export_entry read_byte
decode_export-emit_export_entry e rest small =
    rw
      (
        append_assoc (bb_put_leb_u32 (length e.name)) (e.name ++ (e.tag ∷ bb_put_leb_u32 e.index))
            rest,
        append_assoc e.name (e.tag ∷ bb_put_leb_u32 e.index) rest,
      )
      (then_leb (length e.name) _ _ small.short
        ∙ then_bytes e.name _ _
        ∙ then_leb e.index rest _ small.small_index)

-- The exports that the assembler wrote are read back.
pub decode_export_section-put_vector :
    (exports : List Export) (rest : Ptr) (m : Module)
    → length exports < 2 ^ 32
    → All IsSmallExport exports
    → decode_export_section (put_vector emit_export_entry exports ++ rest) m
      ≡ ok (record m { export_section = exports })
unfolding decode_export_section
decode_export_section-put_vector exports rest m few small = rw (
  read_vector-put_vector decode_export emit_export_entry (λ e. e) IsSmallExport
      decode_export-emit_export_entry exports rest few small,
  decode_export_section,
  map_same exports,
)

-- An import of a function.
pub record FuncImport : Type 0 where
  pub module_name : List ℕ
  pub member_name : List ℕ
  pub index : ℕ

pub record IsSmallImport (i : FuncImport) : Type 0 where
  pub short_module : length i.module_name < 2 ^ 32
  pub short_member : length i.member_name < 2 ^ 32
  pub small_index : i.index < 2 ^ 32

abbrev pub put_func_import : FuncImport → Ptr
put_func_import i = put_import (record {
  module_name = i.module_name;
  member_name = i.member_name;
  description = func i.index;
})

unfoldable pub as_import : FuncImport → Import
as_import i = record {
  module_name = i.module_name;
  member_name = i.member_name;
  index = i.index;
  tag = 0;
}

decode_import-put_import :
    (i : FuncImport) (rest : Ptr)
    → IsSmallImport i
    → decode_import (put_func_import i ++ rest) ≡ ok (as_import i, rest)
unfolding decode_import put_import put_description read_byte as_import
decode_import-put_import i rest small =
    let last : Ptr = 0 ∷ bb_put_leb_u32 i.index in
    let member : Ptr = bb_put_leb_u32 (length i.member_name) ++ (i.member_name ++ last) in
    rw
      (
        append_assoc (bb_put_leb_u32 (length i.module_name)) (i.module_name ++ member) rest,
        append_assoc i.module_name member rest,
        append_assoc (bb_put_leb_u32 (length i.member_name)) (i.member_name ++ last) rest,
        append_assoc i.member_name last rest,
      )
      (then_leb (length i.module_name) _ _ small.short_module
        ∙ then_bytes i.module_name _ _
        ∙ then_leb (length i.member_name) _ _ small.short_member
        ∙ then_bytes i.member_name _ _
        ∙ then_leb i.index rest _ small.small_index)

count_functions : (imports : List FuncImport) → count_tag 0 (map as_import imports) ≡ length imports
unfolding count_tag as_import
count_functions [] = refl
count_functions (i ∷ imports) = ap suc (count_functions imports)

count_others :
    (tag : ℕ) (imports : List FuncImport) → 0 < tag → count_tag tag (map as_import imports) ≡ 0
unfolding count_tag as_import
count_others tag [] h = refl
count_others tag (i ∷ imports) h = ground (arith, count_others tag imports h)

plus_zero : (n : ℕ) → n + 0 ≡ n
plus_zero n = omega arith

-- Imports of functions that the assembler wrote are read back, and counted.
pub decode_import_section-put_vector :
    (imports : List FuncImport) (rest : Ptr) (m : Module)
    → length imports < 2 ^ 32
    → All IsSmallImport imports
    → decode_import_section (put_vector put_func_import imports ++ rest) m
      ≡ ok (record m {
        import_section = map as_import imports;
        import_function_count = m.import_function_count + length imports;
      })
unfolding decode_import_section
decode_import_section-put_vector imports rest m few small = rw (
  read_vector-put_vector decode_import put_func_import as_import IsSmallImport
      decode_import-put_import imports rest few small,
  decode_import_section,
  count_functions imports,
  count_others 1 imports (omega arith),
  count_others 2 imports (omega arith),
  count_others 3 imports (omega arith),
  plus_zero m.import_table_count,
  plus_zero m.import_memory_count,
  plus_zero m.import_global_count,
)
