-- ===== src/Loader/RoundTrip/Whole.antt =====
-- A whole module through `assemble_module` of src/deep_wat.c and `deep_load` of src/deep_loader.c.
use deepvm.Base.{
  ℕ, ◌^◌, ◌<◌, ◌≡◌, Bool, true, false, Option, none, some, List, ◌++◌, map, length, All,
}
use deepvm.Leb.{Ptr}
use deepvm.Vm.State.{Module, TableType, MemoryType}
use deepvm.Loader.Linked.{put_pair}
use deepvm.Wat.Sections.{ImportForm, func, put_each, put_vector, put_data}
use deepvm.Wat.Bodies.{put_code}
use deepvm.Wat.Modules.{ModuleForm, section_of, sections}
use deepvm.Loader.RoundTrip.Types.{IsSmallType}
use deepvm.Loader.RoundTrip.Names.{IsSmallExport, IsSmallImport}
use deepvm.Loader.RoundTrip.Values.{IsLimits, IsSmallInit, as_global}
use deepvm.Loader.RoundTrip.Segments.{IsSmallElem, IsSmallData, data_segments}
use deepvm.Loader.RoundTrip.Sections.{
  IsFitFunc, IsFitImport, TypedImport, import_of, imported_func, as_funcs,
}

-- The import of a function as the assembler has it.
abbrev pub form_of : TypedImport → ImportForm
form_of i = record {
  module_name = i.named.module_name;
  member_name = i.named.member_name;
  description = func i.named.index;
}

-- What is asked of a module: functions are the only imports, counts and numbers fit in 32 bits and
-- types exist, functions have 255 variables at most, data lies below 2 ^ 31, no section is
-- larger than that, and there is a function.
pub record IsLoadable (f : ModuleForm) (imports : List TypedImport) : Type 0 where
  pub only_functions : f.imports ≡ map form_of imports
  pub some_function : 0 < length f.funcs
  pub few_types : length f.types < 2 ^ 32
  pub types_fit : All IsSmallType f.types
  pub few_imports : length imports < 2 ^ 32
  pub imports_small : All IsSmallImport (map (λ i. i.named) imports)
  pub imports_fit : All (IsFitImport (map some f.types)) imports
  pub few_funcs : length f.funcs < 2 ^ 32
  pub funcs_fit : All (IsFitFunc (map some f.types)) f.funcs
  pub table_fits :
      (t : TableType) → f.table ≡ some t → (t.element_type ≡ 0x70) × IsLimits t.has_max t.min t.max
  pub memory_fits :
      (t : MemoryType) → f.memory ≡ some t → IsLimits t.has_max t.min_pages t.max_pages
  pub few_globals : length f.globals < 2 ^ 32
  pub globals_fit : All (λ g. IsSmallInit g.init) f.globals
  pub few_exports : length f.exports < 2 ^ 32
  pub exports_fit : All IsSmallExport f.exports
  pub start_fits : (i : ℕ) → f.start ≡ some i → i < 2 ^ 32
  pub few_elems : length f.elems < 2 ^ 32
  pub elems_fit : All IsSmallElem f.elems
  pub few_datas : length f.datas < 2 ^ 32
  pub datas_fit : All IsSmallData f.datas
  pub sections_fit : All (λ s. length s.1 < 2 ^ 31) (sections f)

-- The start function's number, and 0 without one.
unfoldable pub start_of : Option ℕ → ℕ
start_of none = 0
start_of (some i) = i

unfoldable pub is_some : {A : Type 0} → Option A → Bool
is_some none = false
is_some (some a) = true

-- The sections behind the code section.
abbrev pub behind_code : ModuleForm → Ptr → Ptr
behind_code f rest = put_each put_pair (section_of 11 put_data f.datas) ++ rest

-- The module as it was assembled, with the bytes of its code and its data where they lie.
unfoldable pub module_of : ModuleForm → List TypedImport → Ptr → Module
module_of f imports rest = record {
  type_section = map some f.types;
  func_section = map imported_func imports ++ as_funcs f.funcs (behind_code f rest);
  import_function_count = length imports;
  import_table_count = 0;
  import_memory_count = 0;
  import_global_count = 0;
  export_section = f.exports;
  import_section = map import_of imports;
  data_section = data_segments f.datas rest;
  global_section = map as_global f.globals;
  memory = f.memory;
  table = f.table;
  elem_section = f.elems;
  start_index = start_of f.start;
  has_start = is_some f.start;
}

-- The content of the code section, with what is behind it.
abbrev pub code_of : ModuleForm → Ptr → Ptr
code_of f rest = put_vector put_code f.funcs ++ behind_code f rest
