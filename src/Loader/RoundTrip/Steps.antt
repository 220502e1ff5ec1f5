-- ===== src/Loader/RoundTrip/Steps.antt =====
-- One section of a module that the assembler wrote, or none, through the loader.
use deepvm.Base.{
  ℕ, ◌^◌, ◌<◌, ◌≡◌, refl, sym, ap, ◌∙◌, Bool, false, Option, none, some, List, [], ◌∷◌, map, ok,
  length, All,
}
use deepvm.Leb.{Ptr}
use deepvm.Leb.Write.{bb_put_leb_u32}
use deepvm.Loader.RoundTrip.Whole.{start_of, is_some}
use deepvm.Vm.State.{Global, DataSegment, Module, FuncType, Export, TableType, MemoryType, Elem}
use deepvm.Loader.Load.{decode_section}
use deepvm.Loader.Linked.{placed}
use deepvm.Loader.Assembled.{decode_in_order}
use deepvm.Wat.Sections.{
  GlobalForm, DataForm, put_each, put_vector, put_type, put_table, put_memory, put_global,
  emit_export_entry, put_elem, put_data,
}
use deepvm.Wat.Bodies.{FuncForm, put_code}
use deepvm.Wat.Modules.{section_of, section_of_option}
use deepvm.Loader.RoundTrip.Types.{IsSmallType, decode_type_section-put_vector}
use deepvm.Loader.RoundTrip.Names.{IsSmallExport, decode_export_section-put_vector}
use deepvm.Loader.RoundTrip.Values.{
  IsLimits, IsSmallInit, as_global, decode_table_section-put_table,
  decode_memory_section-put_memory, decode_start_section-bb_put_leb_u32,
  decode_global_section-put_vector,
}
use deepvm.Loader.RoundTrip.Segments.{
  IsSmallElem, IsSmallData, data_segments, decode_elem_section-put_vector,
  decode_data_section-put_vector,
}
use deepvm.Loader.RoundTrip.Modules.{section_of-decoded, section_of_option-decoded}

module _ (p_code : Ptr) where
  pub types_step :
      (types : List FuncType) (rest : Ptr) (m : Module)
      → length types < 2 ^ 32
      → All IsSmallType types
      → decode_in_order p_code (placed ((1, put_vector put_type types) ∷ []) rest) m
        ≡ ok (record m { type_section = map some types })
  unfolding decode_in_order decode_section placed put_each
  types_step types rest m few small = rw (decode_type_section-put_vector types rest m few small)

  pub global_step :
      (globals : List GlobalForm) (rest : Ptr) (m : Module)
      → m.global_section ≡ []
      → length globals < 2 ^ 32
      → All (λ g. IsSmallInit g.init) globals
      → decode_in_order p_code (placed (section_of 6 put_global globals) rest) m
        ≡ ok (record m { global_section = map as_global globals })
  unfolding decode_section
  global_step globals rest m empty few small =
      section_of-decoded p_code 6 put_global globals rest m
        (record m { global_section = map as_global globals })
        (λ nil.
          ap (λ (xs : List Global). record m { global_section = xs })
            (empty ∙ ap (map as_global) (sym nil)))
        (decode_global_section-put_vector globals rest m few small)

  pub export_step :
      (exports : List Export) (rest : Ptr) (m : Module)
      → m.export_section ≡ []
      → length exports < 2 ^ 32
      → All IsSmallExport exports
      → decode_in_order p_code (placed (section_of 7 emit_export_entry exports) rest) m
        ≡ ok (record m { export_section = exports })
  unfolding decode_section
  export_step exports rest m empty few small =
      section_of-decoded p_code 7 emit_export_entry exports rest m
        (record m { export_section = exports })
        (λ nil. ap (λ (xs : List Export). record m { export_section = xs }) (empty ∙ sym nil))
        (decode_export_section-put_vector exports rest m few small)

  pub elem_step :
      (elems : List Elem) (rest : Ptr) (m : Module)
      → m.elem_section ≡ []
      → length elems < 2 ^ 32
      → All IsSmallElem elems
      → decode_in_order p_code (placed (section_of 9 put_elem elems) rest) m
        ≡ ok (record m { elem_section = elems })
  unfolding decode_section
  elem_step elems rest m empty few small =
      section_of-decoded p_code 9 put_elem elems rest m (record m { elem_section = elems })
        (λ nil. ap (λ (xs : List Elem). record m { elem_section = xs }) (empty ∙ sym nil))
        (decode_elem_section-put_vector elems rest m few small)

  pub data_step :
      (datas : List DataForm) (rest : Ptr) (m : Module)
      → m.data_section ≡ []
      → length datas < 2 ^ 32
      → All IsSmallData datas
      → decode_in_order p_code (placed (section_of 11 put_data datas) rest) m
        ≡ ok (record m { data_section = data_segments datas rest })
  unfolding decode_section data_segments
  data_step datas rest m empty few small =
      section_of-decoded p_code 11 put_data datas rest m
        (record m { data_section = data_segments datas rest })
        (λ nil.
          ap (λ (xs : List DataSegment). record m { data_section = xs })
            (empty ∙ ap (λ (ds : List DataForm). data_segments ds rest) (sym nil)))
        (decode_data_section-put_vector datas rest m few small)

  pub code_step :
      (fs : List FuncForm) (rest : Ptr) (m : Module)
      → decode_in_order p_code (placed (section_of 10 put_code fs) rest) m ≡ ok m
  unfolding decode_section
  code_step fs rest m = section_of-decoded p_code 10 put_code fs rest m m (λ _. refl) refl

  pub table_step :
      (table : Option TableType) (rest : Ptr) (m : Module)
      → m.table ≡ none
      → ((t : TableType)
          → table ≡ some t
          → (t.element_type ≡ 0x70) × IsLimits t.has_max t.min t.max)
      → decode_in_order p_code (placed (section_of_option 4 put_table table) rest) m
        ≡ ok (record m { table = table })
  unfolding decode_section
  table_step table rest m empty fits =
      section_of_option-decoded p_code 4 put_table table rest m (record m { table = table })
        (λ nil. ap (λ (t : Option TableType). record m { table = t }) (empty ∙ sym nil))
        (λ t is.
          decode_table_section-put_table t rest m (fits t is).0 (fits t is).1
          ∙ ap (λ (o : Option TableType). ok (record m { table = o })) (sym is))

  pub memory_step :
      (memory : Option MemoryType) (rest : Ptr) (m : Module)
      → m.memory ≡ none
      → ((t : MemoryType) → memory ≡ some t → IsLimits t.has_max t.min_pages t.max_pages)
      → decode_in_order p_code (placed (section_of_option 5 put_memory memory) rest) m
        ≡ ok (record m { memory = memory })
  unfolding decode_section
  memory_step memory rest m empty fits =
      section_of_option-decoded p_code 5 put_memory memory rest m (record m { memory = memory })
        (λ nil. ap (λ (t : Option MemoryType). record m { memory = t }) (empty ∙ sym nil))
        (λ t is.
          decode_memory_section-put_memory t rest m (fits t is)
          ∙ ap (λ (o : Option MemoryType). ok (record m { memory = o })) (sym is))

  pub start_step :
      (start : Option ℕ) (rest : Ptr) (m : Module)
      → m.start_index ≡ 0
      → m.has_start ≡ false
      → ((i : ℕ) → start ≡ some i → i < 2 ^ 32)
      → decode_in_order p_code (placed (section_of_option 8 bb_put_leb_u32 start) rest) m
        ≡ ok (record m { start_index = start_of start; has_start = is_some start })
  unfolding decode_section start_of is_some
  start_step start rest m no_index no_start fits =
      section_of_option-decoded p_code 8 bb_put_leb_u32 start rest m
        (record m { start_index = start_of start; has_start = is_some start })
        (λ nil.
          ap (λ (i : ℕ). record m { start_index = i }) (no_index ∙ ap start_of (sym nil))
          ∙ ap (λ (b : Bool). record m { start_index = start_of start; has_start = b })
              (no_start ∙ ap is_some (sym nil)))
        (λ i is.
          decode_start_section-bb_put_leb_u32 i rest m (fits i is)
          ∙ ap (λ (o : Option ℕ). ok (record m { start_index = start_of o; has_start = is_some o }))
              (sym is))
