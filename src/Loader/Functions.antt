-- ===== src/Loader/Functions.antt =====
-- `decode_func_section` of src/deep_loader.c. The function section and the code section are read
-- side by side: `p` is in the first one and `p_code` in the second.
use deepvm.Base.{
  ℕ, zero, suc, ◌+◌, ◌-◌, ◌%◌, ◌^◌, Bool, true, false, some, List, [], ◌∷◌, ◌++◌, Result, ok, err,
  undefined, ◌>>=◌, length, get_elem?, take, ◌==◌, if◌then◌else◌, u32,
}
use deepvm.Leb.{Ptr, read_leb_u32}
use deepvm.Vm.State.{Module, FuncType, Func, Import}
use deepvm.Interp.Exec.{wasm_type_size}
use deepvm.Loader.Reader.{Reader, skip}
use deepvm.Loader.Locals.{read_clusters, all_variables, local_var_count}

-- The array `local_var_offsets`, which has room for `room` more variables and the total. An
-- `assert` holds that it gets full.
unfoldable pub local_offsets : ℕ → ℕ → List ℕ → Result (List ℕ)
local_offsets room offset [] = if room == 0 then ok (offset ∷ []) else err undefined
local_offsets zero offset (t ∷ ts) = err undefined
local_offsets (suc room) offset (t ∷ ts) = do
  size ← wasm_type_size t
  offsets ← local_offsets room (offset + size) ts
  ok (offset ∷ offsets)

-- `module->type_section[i]`, which is used without a test for NULL.
unfoldable pub type_at : Module → ℕ → Result FuncType
type_at m i = elim (get_elem? m.type_section i) [ some (some t) ↦ ok t | _ ↦ err undefined ]

-- A function whose `local_var_count` is the byte `count`.
unfoldable pub make_function : FuncType → Bool → ℕ → Ptr → List ℕ → ℕ → Result Func
make_function type is_import code_size code_begin types count = do
  offsets ← local_offsets count 0 types
  ok (record {
    func_type = type;
    code_size = code_size;
    code_begin = code_begin;
    local_var_offsets = offsets;
    is_import = is_import;
  })

-- An imported function has its parameters for variables, as many as the byte counts, and no code.
unfoldable pub import_function : Module → Import → Result Func
import_function m i = do
  type ← type_at m i.index
  make_function type true 0 [] (take (length type.params % 2 ^ 8) type.params)
      (length type.params % 2 ^ 8)

-- The loop over the imports, with `left` of the counted functions to come: the functions, and
-- whether the loop comes to its end. At the first import, of any kind, behind the last counted
-- function it returns from `decode_func_section`. Fewer functions than counted, which is so only
-- behind a second import section, would leave entries NULL in between: that is not modelled.
unfoldable pub import_functions : Module → ℕ → List Import → Result (List Func × Bool)
import_functions m zero [] = ok ([], true)
import_functions m (suc left) [] = err undefined
import_functions m zero (i ∷ rest) = ok ([], false)
import_functions m (suc left) (i ∷ rest) =
    if i.tag == 0
    then (do
      func ← import_function m i
      others ← import_functions m left rest
      ok (func ∷ others.0, others.1))
    else import_functions m (suc left) rest

-- One entry of the code section, at `p_code`, for a function of this type: the function, and the
-- pointer behind the entry. `p_code - p_code_temp` bytes of it are not code.
unfoldable pub decode_body : FuncType → Reader Func
decode_body type p_code = do
  (code_size, p_code_temp) ← read_leb_u32 p_code
  (clusters, code_begin) ← read_clusters (length type.params) p_code_temp
  func ←
      make_function type false (u32 (code_size + 2 ^ 32 - (length p_code_temp - length code_begin)))
        code_begin (all_variables type clusters) (local_var_count type clusters)
  (_, p_code') ← skip code_size p_code_temp
  ok (func, p_code')

unfoldable pub own_functions : Module → ℕ → Ptr → Ptr → Result (List Func)
own_functions m zero p p_code = ok []
own_functions m (suc n) p p_code = do
  (type_index, p') ← read_leb_u32 p
  type ← type_at m type_index
  (func, p_code') ← decode_body type p_code
  rest ← own_functions m n p' p_code'
  ok (func ∷ rest)

-- The entries of the two sections behind their counts.
unfoldable pub all_functions : ℕ → Ptr → Ptr → Module → Result Module
all_functions func_count p p_code m = do
  imported ← import_functions m m.import_function_count m.import_section
  own ← if imported.1 then own_functions m func_count p p_code else ok []
  ok (record m { func_section = imported.0 ++ own })

-- Counts that differ leave the module as it is.
unfoldable pub decode_func_section : Ptr → Ptr → Module → Result Module
decode_func_section p p_code m = do
  (func_count, p') ← read_leb_u32 p
  (code_func_count, p_code') ← read_leb_u32 p_code
  if func_count == code_func_count then all_functions func_count p' p_code' m else ok m
