-- ===== src/Wat/Modules.antt =====
-- The module that `assemble_module` of src/deep_wat.c writes: the header, and the sections in their
-- order, most of them only where they have entries.
use deepvm.Base.{ℕ, Option, none, some, List, [], ◌∷◌, ◌++◌}
use deepvm.Leb.Write.{bb_put_leb_u32}
use deepvm.Vm.State.{FuncType, Export, TableType, MemoryType, Elem}
use deepvm.Wat.Sections.{
  ImportForm, GlobalForm, DataForm, header, put_section, put_each, put_vector, put_type, put_import,
  put_table, put_memory, put_global, emit_export_entry, put_elem, put_data,
}
use deepvm.Wat.Bodies.{FuncForm, put_index, put_code}

-- What `assemble_module` has gathered from the forms, with names resolved.
pub record ModuleForm : Type 0 where
  pub types : List FuncType
  pub imports : List ImportForm
  pub funcs : List FuncForm
  pub table : Option TableType
  pub memory : Option MemoryType
  pub globals : List GlobalForm
  pub exports : List Export
  pub start : Option ℕ
  pub elems : List Elem
  pub datas : List DataForm

-- A section that is left out where it would have no entries.
unfoldable pub section_of : {A : Type 0} → ℕ → (A → List ℕ) → List A → List (ℕ × List ℕ)
section_of id put [] = []
section_of id put (x ∷ xs) = (id, put_vector put (x ∷ xs)) ∷ []

unfoldable pub section_of_option : {A : Type 0} → ℕ → (A → List ℕ) → Option A → List (ℕ × List ℕ)
section_of_option id put none = []
section_of_option id put (some x) = (id, put x) ∷ []

-- The sections, by number and content. The section of the types is always there.
unfoldable pub sections : ModuleForm → List (ℕ × List ℕ)
sections f =
    (1, put_vector put_type f.types) ∷ section_of 2 put_import f.imports
    ++ (section_of 3 put_index f.funcs
        ++ (section_of_option 4 put_table f.table
            ++ (section_of_option 5 put_memory f.memory
                ++ (section_of 6 put_global f.globals
                    ++ (section_of 7 emit_export_entry f.exports
                        ++ (section_of_option 8 bb_put_leb_u32 f.start
                            ++ (section_of 9 put_elem f.elems
                                ++ (section_of 10 put_code f.funcs
                                    ++ section_of 11 put_data f.datas))))))))

unfoldable pub assemble_module : ModuleForm → List ℕ
assemble_module f = header ++ put_each (λ s. put_section s.0 s.1) (sections f)
