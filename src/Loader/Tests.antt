-- ===== src/Loader/Tests.antt =====
-- A small module, assembled and loaded.
use deepvm.Base.{
  ℕ, ◌+◌, ◌-◌, ◌^◌, ◌≤◌, ◌≡◌, refl, sym, true, false, none, some, List, [], ◌∷◌, ◌++◌, map, ok, err,
  ◌>>=◌, out_of_fuel, length, arith, get_elem?,
}
use mathlib.Core.Path.{subst}
use mathlib.Core.Option.{some-injective, some-ne-none}
use deepvm.Leb.Write.{bb_put_leb_u32, put_leb_u, bb_put_leb_s32, put_leb_s, shift_right7}
use deepvm.Vm.State.{Module, FuncType, Export, TableType, MemoryType, Import}
use deepvm.Wat.Sections.{
  GlobalForm, DataForm, i32_init, get_init, put_each, put_vector, put_type, put_import,
  put_description, put_table, put_limits, put_memory, put_global, put_mutable, put_init,
  emit_export_entry, put_elem, put_offset, put_data,
}
use deepvm.Wat.Bodies.{
  FuncForm, put_index, put_code, put_body, body_bytes, clusters, run_lengths, split_run, put_run,
}
use deepvm.Wat.Modules.{ModuleForm, sections, section_of, section_of_option, assemble_module}
use deepvm.Loader.Load.{deep_load, empty_module}
use deepvm.Loader.Sections.{decode_data_section, decode_global_section}
use deepvm.Loader.Functions.{local_offsets, decode_func_section}
use deepvm.Loader.Linked.{placed}
use deepvm.Loader.Assembled.{
  assembled, loaded, first_code, decode_in_order, deep_load-in_order, deep_load-never_ends,
}
use deepvm.Loader.RoundTrip.Values.{
  IsLimits, IsSmallInit, as_global, decode_global_section-put_vector,
}
use deepvm.Loader.RoundTrip.Segments.{data_segments, decode_data_section-put_vector}
use deepvm.Loader.RoundTrip.Offsets.{i32_type, i64_type, value_size, local_offsets-disjoint}
use deepvm.Loader.RoundTrip.Sections.{
  TypedImport, IsFitFunc, IsFitImport, import_of, imported_func, as_funcs,
  decode_func_section-put_vector, decode_func_section-drops_functions,
}
use deepvm.Loader.RoundTrip.Whole.{form_of, IsLoadable, module_of}
use deepvm.Loader.RoundTrip.Loaded.{deep_load-assemble_module}

abbrev unary : FuncType
unary = record { params = 0x7f ∷ []; results = 0x7f ∷ [] }

abbrev printer : TypedImport
printer = record {
  named = record { module_name = b'e' ∷ b'n' ∷ b'v' ∷ []; member_name = b'p' ∷ []; index = 0 };
  type = unary;
}

-- Two variables of one type and one of another, and `local.get 0`.
abbrev echo : FuncForm
echo = record {
  type_index = 0;
  type = unary;
  body = record { local_types = 0x7f ∷ 0x7f ∷ 0x7e ∷ []; code = 0x20 ∷ 0 ∷ [] };
}

abbrev main_export : Export
main_export = record { name = b'm' ∷ b'a' ∷ b'i' ∷ b'n' ∷ []; index = 1; tag = 0 }

abbrev one_table : TableType
one_table = record { element_type = 0x70; min = 2; max = 5; has_max = true }

abbrev one_memory : MemoryType
one_memory = record { min_pages = 1; max_pages = 0; has_max = false }

abbrev sample : ModuleForm
sample = record {
  types = unary ∷ [];
  imports = form_of printer ∷ [];
  funcs = echo ∷ [];
  table = some one_table;
  memory = some one_memory;
  globals = record { type = 0x7f; is_mutable = true; init = i32_init (2 ^ 32 - 1) } ∷ [];
  exports = main_export ∷ [];
  start = none;
  elems = record { table_index = 0; offset = 1; func_indices = 1 ∷ 0 ∷ [] } ∷ [];
  datas = record { offset = 300; bytes = b'h' ∷ b'i' ∷ [] } ∷ [];
}

one_table-IsLimits : IsLimits true 2 5
one_table-IsLimits = record {
  small_min = omega arith;
  small_max = omega arith;
  no_max = λ never. absurd (ground (arith, never));
}

one_memory-IsLimits : IsLimits false 1 0
one_memory-IsLimits = record {
  small_min = omega arith;
  small_max = omega arith;
  no_max = λ _. refl;
}

echo-IsFitFunc : IsFitFunc (some unary ∷ []) echo
unfolding body_bytes clusters run_lengths split_run put_run put_each bb_put_leb_u32 put_leb_u
echo-IsFitFunc = record {
  small_index = omega arith;
  is_type = refl;
  small_body = record {
    few = omega arith;
    values = (i32_type, (i32_type, (i32_type, (i64_type, tt))));
    short = omega arith;
  };
}

sample-IsLoadable : IsLoadable sample (printer ∷ [])
unfolding IsSmallInit sections section_of section_of_option put_vector put_type put_each put_limits
    put_table put_memory put_global put_init put_mutable put_import put_description put_elem
    put_offset put_data emit_export_entry put_body body_bytes clusters run_lengths split_run put_run
    bb_put_leb_u32 put_leb_u bb_put_leb_s32 put_leb_s shift_right7
sample-IsLoadable = record {
  only_functions = refl;
  some_function = omega arith;
  few_types = omega arith;
  types_fit = (record { few_params = omega arith; few_results = omega arith }, tt);
  few_imports = omega arith;
  imports_small = (
    record { short_module = omega arith; short_member = omega arith; small_index = omega arith },
    tt,
  );
  imports_fit = (record { is_type = refl; few = omega arith; values = (i32_type, tt) }, tt);
  few_funcs = omega arith;
  funcs_fit = (echo-IsFitFunc, tt);
  table_fits = λ t is.
      subst (λ (t : TableType). (t.element_type ≡ 0x70) × IsLimits t.has_max t.min t.max)
        (some-injective one_table t is) (refl, one_table-IsLimits);
  memory_fits = λ t is.
      subst (λ (t : MemoryType). IsLimits t.has_max t.min_pages t.max_pages)
        (some-injective one_memory t is) one_memory-IsLimits;
  few_globals = omega arith;
  globals_fit = (omega arith, tt);
  few_exports = omega arith;
  exports_fit = (record { short = omega arith; small_index = omega arith }, tt);
  start_fits = λ i is. absurd (some-ne-none i (sym is));
  few_elems = omega arith;
  elems_fit = (
    record {
      first_table = refl;
      small_offset = omega arith;
      few = omega arith;
      small_indices = (omega arith, (omega arith, tt));
    },
    tt,
  );
  few_datas = omega arith;
  datas_fit = (record { positive_offset = omega arith; short = omega arith }, tt);
  sections_fit = (
    omega arith,
    (
      omega arith,
      (
        omega arith,
        (
          omega arith,
          (
            omega arith,
            (omega arith, (omega arith, (omega arith, (omega arith, (omega arith, tt))))),
          ),
        ),
      ),
    ),
  );
}

deep_load-assemble_module_example :
    deep_load 11 (assemble_module sample ++ (9 ∷ [])) (length (assemble_module sample))
    ≡ ok (some (module_of sample (printer ∷ []) (9 ∷ [])))
unfolding sections section_of section_of_option
deep_load-assemble_module_example =
    deep_load-assemble_module sample (printer ∷ []) 11 (9 ∷ []) sample-IsLoadable (omega arith)

-- A user section and an empty code section.
deep_load-in_order_example :
    deep_load 2
      (assembled ((0, 7 ∷ []) ∷ ((10, 0 ∷ []) ∷ [])) ++ [])
      (length (assembled ((0, 7 ∷ []) ∷ ((10, 0 ∷ []) ∷ []))))
    ≡ loaded (
        first_code (placed ((0, 7 ∷ []) ∷ ((10, 0 ∷ []) ∷ [])) []) >>= λ p.
        decode_in_order p (placed ((0, 7 ∷ []) ∷ ((10, 0 ∷ []) ∷ [])) []) empty_module)
deep_load-in_order_example =
    deep_load-in_order (0, 7 ∷ []) (10, 0 ∷ []) [] 2 [] (omega arith)
      (omega arith, (omega arith, tt))

-- What the assembler writes for `(module)`: an empty type section, and nothing else.
deep_load-never_ends_example :
    deep_load 50 (assembled ((1, 0 ∷ []) ∷ []) ++ []) (length (assembled ((1, 0 ∷ []) ∷ [])))
    ≡ err out_of_fuel
deep_load-never_ends_example = deep_load-never_ends (1, 0 ∷ []) 50 [] (omega arith)

-- A module whose types and imports are read.
abbrev with_types : List Import → Module
with_types imports = record empty_module {
  type_section = some unary ∷ [];
  import_function_count = 1;
  import_section = imports;
}

abbrev memory_import : Import
memory_import = record { module_name = b'e' ∷ []; member_name = b'm' ∷ []; index = 0; tag = 2 }

printer-IsFitImport : IsFitImport (some unary ∷ []) printer
printer-IsFitImport = record { is_type = refl; few = omega arith; values = (i32_type, tt) }

decode_func_section-put_vector_example :
    decode_func_section
      (put_vector put_index (echo ∷ []) ++ [])
      (put_vector put_code (echo ∷ []) ++ [])
      (with_types (import_of printer ∷ []))
    ≡ ok (record (with_types (import_of printer ∷ [])) {
      func_section = imported_func printer ∷ as_funcs (echo ∷ []) [];
    })
decode_func_section-put_vector_example =
    decode_func_section-put_vector (with_types (import_of printer ∷ [])) (printer ∷ []) (echo ∷ [])
      [] [] refl refl (printer-IsFitImport, tt) (omega arith) (echo-IsFitFunc, tt)

decode_func_section-drops_functions_example :
    decode_func_section
      (put_vector put_index (echo ∷ []) ++ [])
      (put_vector put_code (echo ∷ []) ++ [])
      (with_types (import_of printer ∷ (memory_import ∷ [])))
    ≡ ok (record (with_types (import_of printer ∷ (memory_import ∷ []))) {
      func_section = imported_func printer ∷ [];
    })
decode_func_section-drops_functions_example =
    decode_func_section-drops_functions (with_types (import_of printer ∷ (memory_import ∷ [])))
      (printer ∷ []) memory_import [] (echo ∷ []) [] [] refl refl (printer-IsFitImport, tt)
      (omega arith)

-- The second of three variables.
local_offsets-disjoint_example :
    (o : ℕ) × (offsets : List ℕ) × (local_offsets 3 0 (0x7f ∷ 0x7e ∷ 0x7f ∷ []) ≡ ok offsets)
    × (length offsets ≡ 4)
    × (get_elem? offsets 1 ≡ some o)
    × (get_elem? offsets 2 ≡ some (o + value_size 0x7e))
    × (o + value_size 0x7e ≤ 24)
local_offsets-disjoint_example =
    local_offsets-disjoint (0x7f ∷ 0x7e ∷ 0x7f ∷ []) 1 0x7e (i32_type, (i64_type, (i32_type, tt)))
      refl

abbrev greeting : List DataForm
greeting =
    record { offset = 300; bytes = b'h' ∷ b'i' ∷ [] } ∷ (record { offset = 2; bytes = 7 ∷ [] } ∷ [])

decode_data_section-put_vector_example :
    decode_data_section (put_vector put_data greeting ++ (5 ∷ [])) empty_module
    ≡ ok (record empty_module { data_section = data_segments greeting (5 ∷ []) })
decode_data_section-put_vector_example =
    decode_data_section-put_vector greeting (5 ∷ []) empty_module (omega arith) (
      record { positive_offset = omega arith; short = omega arith },
      (record { positive_offset = omega arith; short = omega arith }, tt),
    )

-- -1, and another global.
abbrev two_globals : List GlobalForm
two_globals =
    record { type = 0x7f; is_mutable = true; init = i32_init (2 ^ 32 - 1) }
    ∷ (record { type = 0x7f; is_mutable = false; init = get_init 0 } ∷ [])

decode_global_section-put_vector_example :
    decode_global_section (put_vector put_global two_globals ++ []) empty_module
    ≡ ok (record empty_module { global_section = map as_global two_globals })
unfolding IsSmallInit
decode_global_section-put_vector_example =
    decode_global_section-put_vector two_globals [] empty_module (omega arith)
      (omega arith, (omega arith, tt))
