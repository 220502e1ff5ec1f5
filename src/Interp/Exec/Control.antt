-- ===== src/Interp/Exec/Control.antt =====
-- The control instructions of `exec_instructions` in src/deep_interp.c, over the `Run` that enters
-- a nested block or a called function.
use deepvm.Base.{
  ℕ, ◌+◌, ◌-◌, ◌^◌, false, Option, none, some, get_elem?, drop, ltb, ◌==◌, if◌then◌else◌, u8, u32,
  undefined, undefined_element, uninitialized_element, ok, err,
}
use deepvm.Leb.{Ptr, read_leb_u32}
use deepvm.Vm.Int.{pos, negsuc, signed}
use deepvm.Vm.State.{M, ◌>>=◌, ◌>>◌, Module, Func, pop32, read_ip, read_byte}
use deepvm.Vm.Floats.{Floats}
use deepvm.Interp.Instructions.{lift}
use deepvm.Interp.ReadBlock.{read_block}
use deepvm.Interp.Exec.Calls.{Frame, Run, FrameType, function_frame, enter_frame, call_function}

abbrev pub get_ip : M Ptr
get_ip s = ok (s.ip, s)

abbrev pub set_ip : Ptr → M (Unit {0})
set_ip p s = ok (tt, record s { ip = p })

-- `current_env->sp = sp` before a call, and `sp = current_env->sp` after it.
abbrev pub save_sp : M (Unit {0})
save_sp s = ok (tt, record s { env_sp = s.sp })

abbrev pub load_sp : M (Unit {0})
load_sp s = ok (tt, record s { sp = s.env_sp })

-- `current_env->jump_depth = label + 1`, a `uint32_t` put into an `int`.
abbrev pub jump_to : ℕ → M (Unit {0})
jump_to label s = ok (tt, record s { jump_depth = signed 32 (u32 (label + 1)) })

-- The block of `size` bytes at a pointer, with the local variables of the running function.
abbrev pub block_at : Func → Ptr → ℕ → Func
block_at f start size = record f { code_begin = start; code_size = size; is_import = false }

unfoldable pub exec_br : M (Unit {0})
exec_br = do label ← read_ip read_leb_u32; jump_to label

-- The condition is popped before the label is read; where it is 0, `jump_depth` becomes 0.
unfoldable pub exec_br_if : M (Unit {0})
exec_br_if = do
  c ← pop32
  label ← read_ip read_leb_u32
  if c == 0 then (λ s. ok (tt, record s { jump_depth = pos 0 })) else jump_to label

abbrev pub byte_or_undefined : Option ℕ → M ℕ
byte_or_undefined o s = elim o [ none ↦ err undefined | some b ↦ ok (b, s) ]

-- Targets are single bytes. `ip` has been moved behind the table when the default one is read.
unfoldable pub exec_br_table : M (Unit {0})
exec_br_table = do
  count ← read_ip read_leb_u32
  table ← get_ip
  popped ← pop32
  let jump_table_size = u8 (1 + u8 count)
  let jump_label = u8 popped
  set_ip (drop jump_table_size table)
  target ← byte_or_undefined (
      get_elem? table
        (if ltb (jump_label + 1) jump_table_size then jump_label else jump_table_size))
  jump_to target

unfoldable pub exec_return : M (Unit {0})
exec_return s = ok (tt, record s { jump_depth = negsuc 0 })

-- `current_env->table[elem_index]`; `UINT32_MAX` marks an entry that was never set.
unfoldable pub table_entry : ℕ → M ℕ
table_entry elem_index s = elim s.table [
  | none ↦ err undefined_element
  | some entries ↦ elim (get_elem? entries elem_index) [
    | none ↦ err undefined_element
    | some func_index ↦
        if func_index == 2 ^ 32 - 1 then err uninitialized_element else ok (func_index, s)
  ]
]

module _ (fl : Floats) (m : Module) (run : Run) (fuel : ℕ) (frame : Frame) where
  unfoldable pub exec_block : FrameType → M (Unit {0})
  exec_block type = do
    _ ← read_ip read_byte
    start ← get_ip
    size ← lift (read_block start)
    save_sp
    ip' ← enter_frame run fuel (block_at frame.function start size) type
    set_ip ip'
    load_sp

  -- The second block begins where the first one ends. `sp` is saved with the condition still on
  -- the stack, and `opcode == IF_FRAME` is 0, the frame type of a function.
  unfoldable pub exec_if : M (Unit {0})
  exec_if = do
    _ ← read_ip read_byte
    then_start ← get_ip
    then_size ← lift (read_block then_start)
    let else_start = drop then_size then_start
    else_size ← lift (read_block else_start)
    save_sp
    c ← pop32
    _ ←
        if c == 0
        then enter_frame run fuel (block_at frame.function else_start else_size) function_frame
        else enter_frame run fuel (block_at frame.function then_start then_size) function_frame
    set_ip (drop else_size else_start)
    load_sp

  unfoldable pub exec_call : M (Unit {0})
  exec_call = do
    func_index ← read_ip read_leb_u32
    ip' ← get_ip
    save_sp
    call_function fl m run func_index
    set_ip ip'
    load_sp

  -- The type index is not checked.
  unfoldable pub exec_call_indirect : M (Unit {0})
  exec_call_indirect = do
    _ ← read_ip read_leb_u32
    _ ← read_ip read_byte
    elem_index ← pop32
    func_index ← table_entry elem_index
    ip' ← get_ip
    save_sp
    call_function fl m run func_index
    set_ip ip'
    load_sp
