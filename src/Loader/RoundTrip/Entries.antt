-- ===== src/Loader/RoundTrip/Entries.antt =====
-- The import section and the function section of a module that the assembler wrote, through the
-- loader.
use deepvm.Base.{
  ℕ, suc, ◌+◌, ◌^◌, ◌<◌, ◌≡◌, refl, sym, ap, ◌∙◌, List, [], ◌∷◌, ◌++◌, map, ok, length, All, arith,
}
use deepvm.Leb.{Ptr}
use deepvm.Loader.RoundTrip.Whole.{form_of}
use deepvm.Vm.State.{Import, Module}
use deepvm.Loader.Load.{decode_section}
use deepvm.Loader.Sections.{decode_import_section}
use deepvm.Loader.Linked.{placed}
use deepvm.Loader.Assembled.{decode_in_order}
use deepvm.Wat.Sections.{ImportForm, put_each, put_vector, put_import}
use deepvm.Wat.Bodies.{FuncForm, put_index, put_code}
use deepvm.Wat.Modules.{section_of}
use deepvm.Loader.RoundTrip.Names.{
  FuncImport, IsSmallImport, as_import, put_func_import, decode_import_section-put_vector,
}
use deepvm.Loader.RoundTrip.Sections.{
  IsFitFunc, IsFitImport, TypedImport, import_of, imported_func, as_funcs,
  decode_func_section-put_vector,
}
use deepvm.Loader.RoundTrip.Modules.{section_of-decoded}

put_forms :
    (imports : List TypedImport)
    → put_each put_import (map form_of imports)
      ≡ put_each put_func_import (map (λ i. i.named) imports)
unfolding put_each
put_forms [] = refl
put_forms (i ∷ imports) = ap (λ (xs : Ptr). put_func_import i.named ++ xs) (put_forms imports)

length-map : {A B : Type 0} (f : A → B) (xs : List A) → length (map f xs) ≡ length xs
length-map f [] = refl
length-map f (x ∷ xs) = ap suc (length-map f xs)

put_vector_forms :
    (imports : List TypedImport)
    → put_vector put_import (map form_of imports)
      ≡ put_vector put_func_import (map (λ i. i.named) imports)
unfolding put_vector
put_vector_forms imports =
    rw
      (
        length-map form_of imports,
        length-map (λ (i : TypedImport). i.named) imports,
        put_forms imports,
      )
      refl

map_imports :
    (imports : List TypedImport)
    → map as_import (map (λ i. i.named) imports) ≡ map import_of imports
map_imports [] = refl
map_imports (i ∷ imports) = ap (◌∷◌ (as_import i.named)) (map_imports imports)

no_imports : (imports : List TypedImport) → map form_of imports ≡ [] → imports ≡ []
no_imports [] nil = refl
no_imports (i ∷ imports) nil = absurd (omega (arith, ap length nil))

-- The module with its imports.
abbrev pub with_imports : Module → List TypedImport → Module
with_imports m imports = record m {
  import_section = map import_of imports;
  import_function_count = length imports;
}

read_imports :
    (p_code rest : Ptr) (imports : List TypedImport) (m : Module)
    → m.import_function_count ≡ 0
    → length imports < 2 ^ 32
    → All IsSmallImport (map (λ i. i.named) imports)
    → decode_section p_code 2 (put_vector put_import (map form_of imports) ++ rest) m
      ≡ ok (with_imports m imports)
unfolding decode_section
read_imports p_code rest imports m none_yet few small =
    let named : List FuncImport = map (λ i. i.named) imports in
    let count = length-map (λ (i : TypedImport). i.named) imports in
    ap (λ (xs : Ptr). decode_import_section (xs ++ rest) m) (put_vector_forms imports)
    ∙ (decode_import_section-put_vector named rest m (omega (arith, count)) small
        ∙ (ap
              (λ (is : List Import). ok (record m {
                import_section = is;
                import_function_count = m.import_function_count + length named;
              }))
              (map_imports imports)
            ∙ ap
                (λ (n : ℕ).
                  ok (record m {
                    import_section = map import_of imports;
                    import_function_count = n;
                  }))
                (omega (arith, count, none_yet))))

pub import_step :
    (p_code : Ptr) (forms : List ImportForm) (imports : List TypedImport) (rest : Ptr) (m : Module)
    → forms ≡ map form_of imports
    → m.import_section ≡ []
    → m.import_function_count ≡ 0
    → length imports < 2 ^ 32
    → All IsSmallImport (map (λ i. i.named) imports)
    → decode_in_order p_code (placed (section_of 2 put_import forms) rest) m
      ≡ ok (with_imports m imports)
import_step p_code forms imports rest m is empty none_yet few small =
    section_of-decoded p_code 2 put_import forms rest m (with_imports m imports)
      (λ nil.
        let nil' = no_imports imports (sym is ∙ nil) in
        ap (λ (xs : List Import). record m { import_section = xs }) empty
        ∙ ap (λ (n : ℕ). record m { import_section = []; import_function_count = n }) none_yet
        ∙ ap (λ (xs : List TypedImport). with_imports m xs) (sym nil'))
      (ap (λ (xs : List ImportForm). decode_section p_code 2 (put_vector put_import xs ++ rest) m)
          is
        ∙ read_imports p_code rest imports m none_yet few small)

pub func_step :
    (fs : List FuncForm) (imports : List TypedImport) (rest rest_code : Ptr) (m : Module)
    → 0 < length fs
    → m.import_function_count ≡ length imports
    → m.import_section ≡ map import_of imports
    → All (IsFitImport m.type_section) imports
    → length fs < 2 ^ 32
    → All (IsFitFunc m.type_section) fs
    → decode_in_order
        (put_vector put_code fs ++ rest_code)
        (placed (section_of 3 put_index fs) rest)
        m
      ≡ ok (record m { func_section = map imported_func imports ++ as_funcs fs rest_code })
unfolding decode_section
func_step fs imports rest rest_code m some_function counted imported fit few fit_own =
    section_of-decoded (put_vector put_code fs ++ rest_code) 3 put_index fs rest m
      (record m { func_section = map imported_func imports ++ as_funcs fs rest_code })
      (λ nil. absurd (omega (arith, ap length nil)))
      (decode_func_section-put_vector m imports fs rest rest_code counted imported fit few fit_own)
