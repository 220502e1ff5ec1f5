-- ===== src/Loader/Load.antt =====
-- `deep_load` of src/deep_loader.c, and the two passes of `decode_each_sections` over the list.
use deepvm.Base.{
  ℕ, zero, suc, ◌-◌, Bool, false, ◌&&◌, Option, none, some, List, [], Result, ok, err, undefined,
  out_of_fuel, ◌>>=◌, get_elem?, ◌==◌, if◌then◌else◌,
}
use deepvm.Leb.{Ptr}
use deepvm.Vm.State.{Module, read_value}
use deepvm.Loader.Sections.{
  decode_type_section, decode_import_section, decode_table_section, decode_memory_section,
  decode_global_section, decode_export_section, decode_start_section, decode_elem_section,
  decode_data_section,
}
use deepvm.Loader.Functions.{decode_func_section}
use deepvm.Loader.List.{Node, create_section_list}

-- `READ_UINT32` twice: the magic number and the version.
unfoldable pub check_magic_number_and_version : Ptr → Result (Bool × Ptr)
check_magic_number_and_version p = do
  (magic_number, p1) ← read_value 4 p
  (version, p2) ← read_value 4 p1
  ok ((magic_number == 0x6d736100) && (version == 1), p2)

-- The `switch` of `decode_each_sections`.
unfoldable pub decode_section : Ptr → ℕ → Ptr → Module → Result Module
decode_section p_code type buf m =
    if type == 1
    then decode_type_section buf m
    else if type == 2
    then decode_import_section buf m
    else if type == 3
    then decode_func_section buf p_code m
    else if type == 4
    then decode_table_section buf m
    else if type == 5
    then decode_memory_section buf m
    else if type == 6
    then decode_global_section buf m
    else if type == 7
    then decode_export_section buf m
    else if type == 8
    then decode_start_section buf m
    else if type == 9
    then decode_elem_section buf m
    else if type == 11
    then decode_data_section buf m
    else ok m

-- `while (section->section_type != SECTION_TYPE_CODE) section = section->next`, which does not
-- test for NULL.
unfoldable pub find_code : ℕ → List Node → Option ℕ → Result Ptr
find_code fuel nodes none = err undefined
find_code zero nodes (some i) = err out_of_fuel
find_code (suc fuel) nodes (some i) = elim (get_elem? nodes i) [
  | none ↦ err undefined
  | some node ↦
      let rest = find_code fuel nodes node.next in
      if node.section_type == 10 then ok node.section_begin else rest
]

-- `while (section_list)`
unfoldable pub decode_list : ℕ → List Node → Option ℕ → Ptr → Module → Result Module
decode_list fuel nodes none p_code m = ok m
decode_list zero nodes (some i) p_code m = err out_of_fuel
decode_list (suc fuel) nodes (some i) p_code m = elim (get_elem? nodes i) [
  | none ↦ err undefined
  | some node ↦
      decode_section p_code node.section_type node.section_begin m
      >>= decode_list fuel nodes node.next p_code
]

unfoldable pub decode_each_sections : ℕ → List Node → Module → Result Module
decode_each_sections fuel nodes m = do
  p_code ← find_code fuel nodes (some 0)
  decode_list fuel nodes (some 0) p_code m

-- `memset (module, 0, …)`
abbrev pub empty_module : Module
empty_module = record {
  type_section = [];
  func_section = [];
  import_function_count = 0;
  import_table_count = 0;
  import_memory_count = 0;
  import_global_count = 0;
  export_section = [];
  import_section = [];
  data_section = [];
  global_section = [];
  memory = none;
  table = none;
  elem_section = [];
  start_index = 0;
  has_start = false;
}

-- NULL is `none`: a wrong header, or no list of sections. The fuel is for walking the list.
unfoldable pub deep_load : ℕ → Ptr → ℕ → Result (Option Module)
deep_load fuel p size = do
  (checked, p1) ← check_magic_number_and_version p
  let load = (do
    list ← create_section_list p1 (size - 8)
    elim list [
      | none ↦ ok none
      | some nodes ↦ do m ← decode_each_sections fuel nodes empty_module; ok (some m)
    ])
  if checked then load else ok none
