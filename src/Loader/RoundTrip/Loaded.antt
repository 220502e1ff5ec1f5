-- ===== src/Loader/RoundTrip/Loaded.antt =====
-- A whole module through `assemble_module` of src/deep_wat.c and `deep_load` of src/deep_loader.c.
use deepvm.Base.{
  ℕ, ◌<◌, ◌≤◌, ◌≡◌, refl, ap, ◌∙◌, some, List, [], ◌∷◌, ◌++◌, Result, ok, ◌>>=◌, length,
  length-append, arith,
}
use deepvm.Leb.{Ptr}
use deepvm.Leb.Write.{bb_put_leb_u32}
use deepvm.Loader.RoundTrip.Whole.{IsLoadable, module_of, code_of, behind_code}
use deepvm.Loader.Load.{deep_load, empty_module}
use deepvm.Loader.Linked.{put_pair, placed}
use deepvm.Loader.Assembled.{first_code, decode_in_order, loaded}
use deepvm.Wat.Sections.{
  put_each, put_vector, put_type, put_import, put_table, put_memory, put_global, emit_export_entry,
  put_elem,
}
use deepvm.Wat.Bodies.{FuncForm, put_index, put_code}
use deepvm.Wat.Modules.{ModuleForm, section_of, section_of_option, sections, assemble_module}
use deepvm.Loader.RoundTrip.Sections.{TypedImport}
use deepvm.Loader.RoundTrip.Modules.{
  in_turn, first_code-section_of, first_code-section_of_option, deep_load-sections,
}
use deepvm.Loader.RoundTrip.Steps.{
  types_step, global_step, export_step, elem_step, data_step, code_step, table_step, memory_step,
  start_step,
}
use deepvm.Loader.RoundTrip.Entries.{import_step, func_step}

first_code-code :
    (fs : List FuncForm) (ys : List (ℕ × List ℕ)) (rest : Ptr)
    → 0 < length fs
    → first_code (placed (section_of 10 put_code fs ++ ys) rest)
      ≡ ok (put_vector put_code fs ++ (put_each put_pair ys ++ rest))
unfolding section_of first_code placed
first_code-code [] ys rest some_function = absurd (omega arith)
first_code-code (f ∷ fs) ys rest some_function = refl

first_code-sections :
    (f : ModuleForm) (rest : Ptr)
    → 0 < length f.funcs
    → first_code (placed (sections f) rest) ≡ ok (code_of f rest)
unfolding sections placed first_code
first_code-sections f rest some_function =
    first_code-section_of 2 put_import f.imports _ rest refl
    ∙ first_code-section_of 3 put_index f.funcs _ rest refl
    ∙ first_code-section_of_option 4 put_table f.table _ rest refl
    ∙ first_code-section_of_option 5 put_memory f.memory _ rest refl
    ∙ first_code-section_of 6 put_global f.globals _ rest refl
    ∙ first_code-section_of 7 emit_export_entry f.exports _ rest refl
    ∙ first_code-section_of_option 8 bb_put_leb_u32 f.start _ rest refl
    ∙ first_code-section_of 9 put_elem f.elems _ rest refl
    ∙ first_code-code f.funcs _ rest some_function

decode_in_order-sections :
    (f : ModuleForm) (imports : List TypedImport) (rest : Ptr)
    → IsLoadable f imports
    → decode_in_order (code_of f rest) (placed (sections f) rest) empty_module
      ≡ ok (module_of f imports rest)
unfolding sections module_of
decode_in_order-sections f imports rest fit =
    let p : Ptr = code_of f rest in
    in_turn p ((1, put_vector put_type f.types) ∷ []) _ rest empty_module
      (types_step p f.types _ empty_module fit.few_types fit.types_fit)
    ∙ in_turn p (section_of 2 put_import f.imports) _ rest _ (
        import_step p f.imports imports _ _ fit.only_functions refl refl fit.few_imports
          fit.imports_small)
    ∙ in_turn p (section_of 3 put_index f.funcs) _ rest _ (
        func_step f.funcs imports _ (behind_code f rest) _ fit.some_function refl refl
          fit.imports_fit fit.few_funcs fit.funcs_fit)
    ∙ in_turn p (section_of_option 4 put_table f.table) _ rest _
        (table_step p f.table _ _ refl fit.table_fits)
    ∙ in_turn p (section_of_option 5 put_memory f.memory) _ rest _
        (memory_step p f.memory _ _ refl fit.memory_fits)
    ∙ in_turn p (section_of 6 put_global f.globals) _ rest _
        (global_step p f.globals _ _ refl fit.few_globals fit.globals_fit)
    ∙ in_turn p (section_of 7 emit_export_entry f.exports) _ rest _
        (export_step p f.exports _ _ refl fit.few_exports fit.exports_fit)
    ∙ in_turn p (section_of_option 8 bb_put_leb_u32 f.start) _ rest _
        (start_step p f.start _ _ refl refl fit.start_fits)
    ∙ in_turn p (section_of 9 put_elem f.elems) _ rest _
        (elem_step p f.elems _ _ refl fit.few_elems fit.elems_fit)
    ∙ in_turn p (section_of 10 put_code f.funcs) _ rest _ (code_step p f.funcs _ _)
    ∙ data_step p f.datas rest _ refl fit.few_datas fit.datas_fit

section_of-some :
    {A : Type 0} (id : ℕ) (put : A → Ptr) (xs : List A)
    → 0 < length xs
    → length (section_of id put xs) ≡ 1
unfolding section_of
section_of-some id put [] h = absurd (omega arith)
section_of-some id put (x ∷ xs) h = refl

two_more :
    {A : Type 0} (x : A) (xs ys zs : List A) → 0 < length ys → 2 ≤ length (x ∷ xs ++ (ys ++ zs))
two_more x xs ys zs h = omega (arith, length-append xs (ys ++ zs), length-append ys zs)

two_sections : (f : ModuleForm) → 0 < length f.funcs → 2 ≤ length (sections f)
unfolding sections
two_sections f some_function =
    two_more (1, put_vector put_type f.types) (section_of 2 put_import f.imports)
      (section_of 3 put_index f.funcs) _
      (omega (arith, section_of-some 3 put_index f.funcs some_function))

-- The loader reads a module back that the assembler wrote, with the bytes of the code and of the
-- data where they lie, and 0 for the value of a global that another global initialises, whatever
-- bytes follow: a module whose imports are functions, with a function of its own, whose numbers fit
-- their types, whose data segments start below 2 ^ 31, and whose functions have at most 255
-- variables. As much fuel as there are sections is enough.
pub deep_load-assemble_module :
    (f : ModuleForm) (imports : List TypedImport) (fuel : ℕ) (rest : Ptr)
    → IsLoadable f imports
    → length (sections f) ≤ fuel
    → deep_load fuel (assemble_module f ++ rest) (length (assemble_module f))
      ≡ ok (some (module_of f imports rest))
unfolding assemble_module
deep_load-assemble_module f imports fuel rest fit enough =
    deep_load-sections (sections f) fuel rest (two_sections f fit.some_function) enough
      fit.sections_fit
    ∙ (ap
          (λ (r : Result Ptr).
            loaded (r >>= λ p. decode_in_order p (placed (sections f) rest) empty_module))
          (first_code-sections f rest fit.some_function)
        ∙ ap loaded (decode_in_order-sections f imports rest fit))
