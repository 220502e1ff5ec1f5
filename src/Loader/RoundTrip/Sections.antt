-- ===== src/Loader/RoundTrip/Sections.antt =====
-- `decode_func_section` of src/deep_loader.c on what the assembler writes.
use deepvm.Base.{
  ℕ, ◌%◌, ◌^◌, ◌<◌, ◌≡◌, refl, sym, ap, ◌∙◌, Bool, true, false, Option, some, List, [], ◌∷◌, ◌++◌,
  map, append_assoc, append-nil, ok, length, get_elem?, All, arith, ◌==◌, ==-refl, take,
}
use deepvm.Leb.{Ptr}
use deepvm.Leb.Write.{bb_put_leb_u32}
use deepvm.Leb.Unsigned.{read_leb_u32-bb_put_leb_u32}
use deepvm.Vm.State.{FuncType, Func, Import, Module}
use deepvm.Loader.Functions.{
  own_functions, type_at, all_functions, decode_func_section, import_function, import_functions,
}
use deepvm.Wat.Sections.{put_each, put_vector}
use deepvm.Wat.Bodies.{FuncForm, put_index, put_code}
use deepvm.Loader.RoundTrip.Names.{FuncImport, as_import}
use deepvm.Loader.RoundTrip.Offsets.{IsValueType, offsets_from, make_function-value}
use deepvm.Loader.RoundTrip.Functions.{IsSmallBody, as_func, decode_body-put_body}

pub record IsFitFunc (types : List (Option FuncType)) (f : FuncForm) : Type 0 where
  pub small_index : f.type_index < 2 ^ 32
  pub is_type : get_elem? types f.type_index ≡ some (some f.type)
  pub small_body : IsSmallBody f.type f.body

unfoldable pub as_funcs : List FuncForm → Ptr → List Func
as_funcs [] rest = []
as_funcs (f ∷ fs) rest = as_func f.type f.body (put_each put_code fs ++ rest) ∷ as_funcs fs rest

type_at-some :
    (m : Module) (i : ℕ) (t : FuncType)
    → get_elem? m.type_section i ≡ some (some t)
    → type_at m i ≡ ok t
unfolding type_at
type_at-some m i t h = rw (h, type_at)

own_functions-put_each :
    (m : Module) (fs : List FuncForm) (rest rest_code : Ptr)
    → All (IsFitFunc m.type_section) fs
    → own_functions m
        (length fs)
        (put_each put_index fs ++ rest)
        (put_each put_code fs ++ rest_code)
      ≡ ok (as_funcs fs rest_code)
unfolding own_functions put_each as_funcs
own_functions-put_each m [] rest rest_code fit = refl
own_functions-put_each m (f ∷ fs) rest rest_code fit = rw (
  append_assoc (put_index f) (put_each put_index fs) rest,
  append_assoc (put_code f) (put_each put_code fs) rest_code,
  read_leb_u32-bb_put_leb_u32 f.type_index (put_each put_index fs ++ rest) fit.0.small_index,
  type_at-some m f.type_index f.type fit.0.is_type,
  decode_body-put_body f.type f.body (put_each put_code fs ++ rest_code) fit.0.small_body,
  own_functions-put_each m fs rest rest_code fit.1,
)

-- An import of a function, and its type.
pub record TypedImport : Type 0 where
  pub named : FuncImport
  pub type : FuncType

pub record IsFitImport (types : List (Option FuncType)) (i : TypedImport) : Type 0 where
  pub is_type : get_elem? types i.named.index ≡ some (some i.type)
  pub few : length i.type.params < 256
  pub values : All IsValueType i.type.params

abbrev pub import_of : TypedImport → Import
import_of i = as_import i.named

-- The function that stands for an import: its parameters are its variables, and it has no code.
unfoldable pub imported_func : TypedImport → Func
imported_func i = record {
  func_type = i.type;
  code_size = 0;
  code_begin = [];
  local_var_offsets = offsets_from 0 i.type.params;
  is_import = true;
}

take_all : {A : Type 0} (xs : List A) → take (length xs) xs ≡ xs
take_all [] = refl
take_all (x ∷ xs) = ap (◌∷◌ x) (take_all xs)

import_function-fit :
    (m : Module) (i : TypedImport)
    → IsFitImport m.type_section i
    → import_function m (import_of i) ≡ ok (imported_func i)
unfolding import_function imported_func as_import
import_function-fit m i fit =
    let few = fit.few in
    let count : length i.type.params % 2 ^ 8 ≡ length i.type.params = omega arith in
    rw (
      type_at-some m i.named.index i.type fit.is_type,
      count,
      take_all i.type.params,
      make_function-value i.type true 0 [] i.type.params (length i.type.params) refl fit.values,
    )

-- Whether nothing follows.
unfoldable pub is_last : List Import → Bool
is_last [] = true
is_last (i ∷ more) = false

function_tag : (i : FuncImport) → ((as_import i).tag == 0) ≡ true
unfolding as_import
function_tag i = refl

import_functions-fit :
    (m : Module) (is : List TypedImport) (more : List Import)
    → All (IsFitImport m.type_section) is
    → import_functions m (length is) (map import_of is ++ more)
      ≡ ok (map imported_func is, is_last more)
unfolding import_functions is_last
import_functions-fit m [] [] fit = refl
import_functions-fit m [] (other ∷ more) fit = refl
import_functions-fit m (i ∷ is) more fit =
    rw (function_tag i.named, import_function-fit m i fit.0, import_functions-fit m is more fit.1)

module _ (m : Module) (imports : List TypedImport) (more : List Import) (fs : List FuncForm)
    (rest rest_code : Ptr) (counted : m.import_function_count ≡ length imports)
    (imported : m.import_section ≡ map import_of imports ++ more)
    (fit : All (IsFitImport m.type_section) imports) (few : length fs < 2 ^ 32) where
  read_counts :
      decode_func_section (put_vector put_index fs ++ rest) (put_vector put_code fs ++ rest_code) m
      ≡ all_functions
          (length fs)
          (put_each put_index fs ++ rest)
          (put_each put_code fs ++ rest_code)
          m
  unfolding decode_func_section put_vector
  read_counts = rw (
    append_assoc (bb_put_leb_u32 (length fs)) (put_each put_index fs) rest,
    append_assoc (bb_put_leb_u32 (length fs)) (put_each put_code fs) rest_code,
    read_leb_u32-bb_put_leb_u32 (length fs) (put_each put_index fs ++ rest) few,
    read_leb_u32-bb_put_leb_u32 (length fs) (put_each put_code fs ++ rest_code) few,
    ==-refl (length fs),
  )

  imported_functions :
      import_functions m m.import_function_count m.import_section
      ≡ ok (map imported_func imports, is_last more)
  imported_functions =
      ap (λ (n : ℕ). import_functions m n m.import_section) counted
      ∙ (ap (λ (is : List Import). import_functions m (length imports) is) imported
          ∙ import_functions-fit m imports more fit)

-- The functions that the assembler wrote are read back behind the imported ones, where all the
-- imports are functions, no function has more than 255 variables, and the numbers fit their types.
pub decode_func_section-put_vector :
    (m : Module) (imports : List TypedImport) (fs : List FuncForm) (rest rest_code : Ptr)
    → m.import_function_count ≡ length imports
    → m.import_section ≡ map import_of imports
    → All (IsFitImport m.type_section) imports
    → length fs < 2 ^ 32
    → All (IsFitFunc m.type_section) fs
    → decode_func_section (put_vector put_index fs ++ rest) (put_vector put_code fs ++ rest_code) m
      ≡ ok (record m { func_section = map imported_func imports ++ as_funcs fs rest_code })
unfolding all_functions is_last
decode_func_section-put_vector m imports fs rest rest_code counted imported fit few fit_own =
    let imported' = imported ∙ sym (append-nil (map import_of imports)) in
    read_counts m imports [] fs rest rest_code counted imported' fit few
    ∙ rw (
      imported_functions m imports [] fs rest rest_code counted imported' fit few,
      own_functions-put_each m fs rest rest_code fit_own,
    )

-- Where an import of another kind comes behind the last imported function, the module is left
-- without its own functions.
pub decode_func_section-drops_functions :
    (m : Module) (imports : List TypedImport) (other : Import) (more : List Import)
    (fs : List FuncForm) (rest rest_code : Ptr)
    → m.import_function_count ≡ length imports
    → m.import_section ≡ map import_of imports ++ (other ∷ more)
    → All (IsFitImport m.type_section) imports
    → length fs < 2 ^ 32
    → decode_func_section (put_vector put_index fs ++ rest) (put_vector put_code fs ++ rest_code) m
      ≡ ok (record m { func_section = map imported_func imports })
unfolding all_functions is_last
decode_func_section-drops_functions m imports other more fs rest rest_code counted imported fit
      few =
    read_counts m imports (other ∷ more) fs rest rest_code counted imported fit few
    ∙ rw (
      imported_functions m imports (other ∷ more) fs rest rest_code counted imported fit few,
      append-nil (map imported_func imports),
    )
