-- ===== src/Interp/Exec/Calls.antt =====
-- `enter_frame` and `call_function` of src/deep_interp.c, over the `exec_instructions` that they
-- call. The records that they allocate for frames and blocks are taken to be there.
use deepvm.Base.{
  ℕ, zero, suc, ◌+◌, ◌-◌, Bool, true, false, ◌&&◌, ◌||◌, not, none, some, List, [], ◌∷◌, length,
  drop, ltb, leb, ◌==◌, if◌then◌else◌, undefined, out_of_fuel, invalid_type, no_builtin, Result, ok,
  err,
}
use deepvm.Bytes.{zeroed, memcpy}
use deepvm.Leb.{Ptr}
use deepvm.Vm.Int.{pos, is_zero, is_negative}
use deepvm.Vm.State.{M, ◌>>=◌, ◌>>◌, return, trap, Module, Func}
use deepvm.Vm.Floats.{Floats}
use deepvm.Interp.Instructions.{element, lift}
use deepvm.Interp.Native.{deep_native_call, import_name}

pub data FrameType : Type 0 where
  function_frame block_frame if_frame loop_frame : FrameType

abbrev pub is_loop : FrameType → Bool
is_loop loop_frame = true
is_loop _ = false

-- What `exec_instructions` reads of a `DEEPInterpFrame`: the `sp` at its start and its code.
pub record Frame : Type 0 where
  pub sp : ℕ
  pub function : Func

-- `exec_instructions` on a frame: true at the end of the code, false after a jump.
abbrev pub Run : Type 0
Run = Frame → M Bool

control_stack_capacity : ℕ
control_stack_capacity = 100

-- `frames[++current_frame_index] = frame`, with no check in the source.
unfoldable pub push_frame : M (Unit {0})
unfolding control_stack_capacity
push_frame s =
    if ltb (s.current_frame_index + 1) control_stack_capacity
    then ok (tt, record s { current_frame_index = s.current_frame_index + 1 })
    else err undefined

unfoldable pub pop_frame : M (Unit {0})
pop_frame s = ok (tt, record s { current_frame_index = s.current_frame_index - 1 })

-- `while (!exited_naturally && jump_depth == 0) { if not a loop, break; run again }`
unfoldable pub run_again : Run → Frame → FrameType → ℕ → Bool → M (Unit {0})
run_again run frame type zero exited s = err out_of_fuel
run_again run frame type (suc fuel) exited s =
    elim (not exited && (is_zero s.jump_depth && is_loop type)) [
      | false ↦ ok (tt, s)
      | true ↦ elim (run frame s) [
        | err e ↦ err e
        | ok (exited', s') ↦ run_again run frame type fuel exited' s'
      ]
    ]

-- The pointer behind the block is the result.
unfoldable pub enter_frame : Run → ℕ → Func → FrameType → M Ptr
enter_frame run fuel block type s =
    (do
      push_frame
      exited ← run (record { sp = s.env_sp; function = block })
      run_again run (record { sp = s.env_sp; function = block }) type fuel exited
      pop_frame
      return (drop block.code_size block.code_begin))
      s

-- `wasm_type_size`
unfoldable pub wasm_type_size : ℕ → Result ℕ
wasm_type_size type =
    if type == 0x7f || type == 0x7d
    then ok 4
    else if type == 0x7e || type == 0x7c
    then ok 8
    else if type == 0x40
    then ok 0
    else err invalid_type

-- The bytes of the parameters together.
unfoldable pub params_size : List ℕ → Result ℕ
unfolding wasm_type_size
params_size [] = ok 0
params_size (t ∷ ts) = elim (wasm_type_size t) [
  | err e ↦ err e
  | ok n ↦ elim (params_size ts) [ err e ↦ err e | ok total ↦ ok (n + total) ]
]

-- The arguments are copied from below `sp` into a fresh array of local variables. They also stay
-- where they are.
unfoldable pub pass_arguments : ℕ → ℕ → M (Unit {0})
pass_arguments size total s =
    if leb total s.env_sp
    then ok (
      tt,
      record s { local_vars = memcpy zeroed 0 s.stack (s.env_sp - total) total; local_size = size },
    )
    else err undefined

-- `if (jump_depth < 0) jump_depth = 0`
unfoldable pub finish_return : M (Unit {0})
finish_return s =
    ok (tt, record s { jump_depth = if is_negative s.jump_depth then pos 0 else s.jump_depth })

module _ (fl : Floats) (m : Module) (run : Run) where
  -- The body of an imported function, or of one of the module's own.
  unfoldable pub run_body : ℕ → Frame → M (Unit {0})
  run_body func_index frame =
      if frame.function.is_import
      then elim (import_name m.import_section 0 func_index) [
        | none ↦ trap no_builtin
        | some name ↦ deep_native_call fl m name frame.sp
      ]
      else (run frame >>= λ _. return tt)

  -- The caller's local variables are the current ones again afterwards.
  unfoldable pub call_function : ℕ → M (Unit {0})
  call_function func_index s =
      (do
        func ← element m.func_section func_index
        size ← element func.local_var_offsets (length func.local_var_offsets - 1)
        total ← lift (params_size func.func_type.params)
        pass_arguments size total
        push_frame
        run_body func_index (record { sp = s.env_sp; function = func })
        finish_return
        pop_frame
        λ s'. ok (tt, record s' { local_vars = s.local_vars; local_size = s.local_size }))
        s
