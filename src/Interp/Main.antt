-- ===== src/Interp/Main.antt =====
-- `call_main` of src/deep_interp.c, and the part of `main` in src/deep_main.c that sets the
-- environment up: the stacks, the linear memory, the global variables and the function table.
use deepvm.Base.{
  ℕ, zero, suc, ◌+◌, ◌*◌, ◌-◌, ◌^◌, Option, none, some, List, [], ◌∷◌, length, set, map, ltb, ◌==◌,
  if◌then◌else◌, u32, undefined, bad_return_type, Result, ok, err,
}
use deepvm.Bytes.{zeroed, read_mem}
use deepvm.Vm.Int.{pos}
use deepvm.Vm.State.{State, M, ◌>>=◌, ◌>>◌, return, Module, FuncType, Export, Elem}
use deepvm.Vm.Floats.{Floats}
use deepvm.Interp.Instructions.{element, defined}
use deepvm.Interp.Native.{same_string}
use deepvm.Interp.Exec.{call_function, exec_instructions}

stack_capacity : ℕ
stack_capacity = 800

page_size : ℕ
page_size = 65536

-- The loop over the exports does not stop at the first one: the last `main` counts.
unfoldable pub find_main : List Export → Option ℕ
unfolding same_string
find_main [] = none
find_main (e ∷ es) = elim (find_main es) [
  | some i ↦ some i
  | none ↦ if same_string e.name (b'm' ∷ b'a' ∷ b'i' ∷ b'n' ∷ []) then some e.index else none
]

-- The word of `n` bytes at the top of the stack.
unfoldable pub top_word : ℕ → M ℕ
top_word n s = if ltb s.env_sp n then err undefined else ok (read_mem n s.stack (s.env_sp - n), s)

-- The word at the top of the stack, as the `int64_t` that is returned.
unfoldable pub main_result : Floats → ℕ → M ℕ
main_result fl type s =
    if type == 0x7f
    then top_word 4 s
    else if type == 0x7e
    then top_word 8 s
    else if type == 0x7d
    then (do x ← top_word 4; defined (fl.single.to_i64 x)) s
    else if type == 0x7c
    then (do x ← top_word 8; defined (fl.double.to_i64 x)) s
    else err bad_return_type

-- A function with no result has a zero byte where its result type is read.
unfoldable pub first_result : FuncType → ℕ
first_result t = elim t.results [ [] ↦ 0 | r ∷ _ ↦ r ]

-- `none` is the failed search for `main`, for which -1 is returned.
unfoldable pub call_main : Floats → Module → ℕ → M (Option ℕ)
call_main fl m fuel s = elim (find_main m.export_section) [
  | none ↦ ok (none, s)
  | some main_index ↦
      (do
        main_func ← element m.func_section main_index
        size ← element main_func.local_var_offsets (length main_func.local_var_offsets - 1)
        λ s. ok (tt, record s { local_vars = zeroed; local_size = size })
        if m.has_start
            then call_function fl m (exec_instructions fl m fuel) m.start_index
            else return tt
        _ ← exec_instructions fl m fuel (record { sp = s.env_sp; function = main_func })
        x ← main_result fl (first_result main_func.func_type)
        return (some x))
        s
]

-- The entries of one element segment, from its `j`-th on.
unfoldable pub apply_elem : ℕ → List ℕ → List ℕ → List ℕ
apply_elem at [] table = table
apply_elem at (f ∷ fs) table = apply_elem (u32 (at + 1)) fs (set table at f)

unfoldable pub apply_elems : List Elem → List ℕ → List ℕ
unfolding apply_elem
apply_elems [] table = table
apply_elems (e ∷ es) table = apply_elems es (apply_elem e.offset e.func_indices table)

unfoldable pub empty_table : ℕ → List ℕ
empty_table zero = []
empty_table (suc n) = (2 ^ 32 - 1) ∷ empty_table n

unfoldable pub initial_table : Module → Option (List ℕ)
unfolding apply_elems empty_table
initial_table m = elim m.table [
  | none ↦ none
  | some t ↦ some (apply_elems m.elem_section (empty_table t.min))
]

-- One page where the module declares no memory, or one of no pages.
unfoldable pub initial_pages : Module → ℕ
initial_pages m = elim m.memory [ none ↦ 1 | some t ↦ if t.min_pages == 0 then 1 else t.min_pages ]

unfoldable pub initial_state : Module → State
unfolding initial_pages initial_table stack_capacity page_size
initial_state m = record {
  ip = [];
  sp = 0;
  env_sp = 0;
  stack = zeroed;
  sp_end = stack_capacity;
  local_vars = zeroed;
  local_size = 0;
  global_vars = map (λ g. g.init_value) m.global_section;
  memory = zeroed;
  memory_size = u32 (initial_pages m * page_size);
  memory_pages = initial_pages m;
  table = initial_table m;
  current_frame_index = 0;
  jump_depth = pos 0;
  output = [];
}

-- The run of a loaded module.
unfoldable pub run_module : Floats → Module → ℕ → Result (Option ℕ × State)
unfolding call_main initial_state
run_module fl m fuel = call_main fl m fuel (initial_state m)
