-- ===== src/Loader/Sections.antt =====
-- The section decoders of src/deep_loader.c but for the function section's. A decoder reads from
-- the section's first byte on, and nothing holds it to the section's end. The errors that only
-- print a message are left out.
use deepvm.Base.{
  ℕ, zero, suc, ◌+◌, Bool, true, false, Option, none, some, List, [], ◌∷◌, Result, ok, err, bit_and,
  ◌==◌, if◌then◌else◌,
}
use deepvm.Leb.{Ptr, read_leb_u32, read_leb_i32, read_leb_i64}
use deepvm.Vm.State.{
  Module, FuncType, Export, Import, DataSegment, Global, MemoryType, TableType, Elem, read_byte,
  read_value,
}
use deepvm.Loader.Reader.{Reader, return, ◌>>=◌, ◌>>◌, position, repeat, read_bytes, skip}

-- A section's vector: its count, and then that many entries.
unfoldable pub read_vector : {A : Type 0} → Reader A → Reader (List A)
read_vector r = do count ← read_leb_u32; repeat count r

-- An entry that does not start with 0x60 stays NULL, and only its first byte is read. `ret_count`
-- is read twice: ahead, behind the parameters, and again when they have been copied.
unfoldable pub decode_type : Reader (Option FuncType)
decode_type = do form ← read_byte; if form == 0x60 then func_type else return none
  where
    func_type : Reader (Option FuncType)
    func_type = do
      param_count ← read_leb_u32
      p ← position
      skip param_count
      ret_count ← read_leb_u32
      λ _.
          (do
            params ← repeat param_count read_byte
            again ← read_leb_u32
            results ← repeat ret_count read_byte
            return (some (record { params = params; results = results })))
            p

unfoldable pub decode_type_section : Ptr → Module → Result Module
decode_type_section p m = elim (read_vector decode_type p) [
  | err e ↦ err e
  | ok (types, q) ↦ ok (record m { type_section = types })
]

unfoldable pub decode_export : Reader Export
decode_export = do
  name_len ← read_leb_u32
  name ← read_bytes name_len
  tag ← read_byte
  index ← read_leb_u32
  return (record { name = name; index = index; tag = tag })

unfoldable pub decode_export_section : Ptr → Module → Result Module
decode_export_section p m = elim (read_vector decode_export p) [
  | err e ↦ err e
  | ok (exports, q) ↦ ok (record m { export_section = exports })
]

-- Whatever the tag, one number is read behind it.
unfoldable pub decode_import : Reader Import
decode_import = do
  module_name_len ← read_leb_u32
  module_name ← read_bytes module_name_len
  member_name_len ← read_leb_u32
  member_name ← read_bytes member_name_len
  tag ← read_byte
  index ← read_leb_u32
  return (record { module_name = module_name; member_name = member_name; index = index; tag = tag })

-- How many imports have the tag.
unfoldable pub count_tag : ℕ → List Import → ℕ
count_tag tag [] = 0
count_tag tag (i ∷ is) = let rest = count_tag tag is in if i.tag == tag then suc rest else rest

unfoldable pub decode_import_section : Ptr → Module → Result Module
decode_import_section p m = elim (read_vector decode_import p) [
  | err e ↦ err e
  | ok (imports, q) ↦ ok (record m {
    import_section = imports;
    import_function_count = m.import_function_count + count_tag 0 imports;
    import_table_count = m.import_table_count + count_tag 1 imports;
    import_memory_count = m.import_memory_count + count_tag 2 imports;
    import_global_count = m.import_global_count + count_tag 3 imports;
  })
]

-- The offset's expression is taken to be a constant: the bytes around the number are skipped.
unfoldable pub decode_data : Reader DataSegment
decode_data = do
  memory_index ← read_byte
  skip 1
  offset ← read_leb_u32
  skip 1
  datasize ← read_leb_u32
  bytes ← position
  skip datasize
  return (record { offset = offset; datasize = datasize; bytes = bytes })

unfoldable pub decode_data_section : Ptr → Module → Result Module
decode_data_section p m = elim (read_vector decode_data p) [
  | err e ↦ err e
  | ok (segments, q) ↦ ok (record m { data_section = segments })
]

-- The `switch` on the opcode of a global's expression. After any other opcode `init_value` is the
-- 0 that the allocator leaves.
unfoldable pub init_expr : ℕ → Reader ℕ
init_expr op =
    if op == 0x41
    then read_leb_i32
    else if op == 0x42
    then read_leb_i64
    else if op == 0x43
    then read_value 4
    else if op == 0x44
    then read_value 8
    else if op == 0x23
    then read_leb_u32 >> return 0
    else return 0

unfoldable pub decode_global : Reader Global
decode_global = do
  type ← read_byte
  mutable ← read_byte
  op ← read_byte
  init_value ← init_expr op
  end ← read_byte
  return (record { type = type; is_mutable = mutable == 0x01; init_value = init_value })

unfoldable pub decode_global_section : Ptr → Module → Result Module
decode_global_section p m = elim (read_vector decode_global p) [
  | err e ↦ err e
  | ok (globals, q) ↦ ok (record m { global_section = globals })
]

unfoldable pub decode_start_section : Ptr → Module → Result Module
decode_start_section p m = elim (read_leb_u32 p) [
  | err e ↦ err e
  | ok (index, q) ↦ ok (record m { start_index = index; has_start = true })
]

-- The maximum of a table or of a memory, and 0 where the flags say that there is none.
unfoldable pub read_max : ℕ → Reader (Bool × ℕ)
read_max flags =
    if bit_and flags 0x01 == 0 then return (false, 0) else do max ← read_leb_u32; return (true, max)

unfoldable pub decode_table : Reader TableType
decode_table = do
  element_type ← read_byte
  flags ← read_byte
  min ← read_leb_u32
  max ← read_max flags
  return (record { element_type = element_type; min = min; max = max.1; has_max = max.0 })

-- Only the first table is read, whatever the count.
unfoldable pub decode_table_section : Ptr → Module → Result Module
decode_table_section p m = elim (read_leb_u32 p) [
  | err e ↦ err e
  | ok (zero, q) ↦ ok (record m { table = none })
  | ok (suc count, q) ↦ elim (decode_table q) [
    | err e ↦ err e
    | ok (t, q') ↦ ok (record m { table = some t })
  ]
]

unfoldable pub decode_memory : Reader MemoryType
decode_memory = do
  flags ← read_byte
  min_pages ← read_leb_u32
  max ← read_max flags
  return (record { min_pages = min_pages; max_pages = max.1; has_max = max.0 })

unfoldable pub decode_memory_section : Ptr → Module → Result Module
decode_memory_section p m = elim (read_leb_u32 p) [
  | err e ↦ err e
  | ok (zero, q) ↦ ok m
  | ok (suc count, q) ↦ elim (decode_memory q) [
    | err e ↦ err e
    | ok (t, q') ↦ ok (record m { memory = some t })
  ]
]

-- The offset of a segment of elements: 0, with nothing read, where it is no `i32.const`.
unfoldable pub elem_offset : ℕ → Reader ℕ
elem_offset op = if op == 0x41 then read_leb_i32 else return 0

unfoldable pub decode_elem : Reader Elem
decode_elem = do
  table_index ← read_leb_u32
  op ← read_byte
  offset ← elem_offset op
  end ← read_byte
  func_count ← read_leb_u32
  func_indices ← repeat func_count read_leb_u32
  return (record { table_index = table_index; offset = offset; func_indices = func_indices })

unfoldable pub decode_elem_section : Ptr → Module → Result Module
decode_elem_section p m = elim (read_vector decode_elem p) [
  | err e ↦ err e
  | ok (elems, q) ↦ ok (record m { elem_section = elems })
]
