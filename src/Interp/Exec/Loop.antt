-- ===== src/Interp/Exec/Loop.antt =====
-- `exec_instructions` of src/deep_interp.c: the dispatch on the opcode, and the loop.
use deepvm.Base.{
  ℕ, zero, suc, Bool, true, false, none, some, drop, length, ltb, unreachable, unknown_opcode,
  out_of_fuel, ok, err,
}
use deepvm.Leb.{Ptr}
use deepvm.Opcode.Table.{opcode_of}
use deepvm.Opcode.Kinds.{
  Opcode, control, load, store, const, int_compare, int_unary, int_binary, float_compare,
  float_unary, float_binary, convert, Control, op_unreachable, op_nop, op_block, op_loop, op_if,
  op_else, op_end, op_br, op_br_if, op_br_table, op_return, op_call, op_call_indirect, op_drop,
  op_select, op_local_get, op_local_set, op_local_tee, op_global_get, op_global_set, memory_size,
  memory_grow,
}
use deepvm.Vm.Int.{is_zero, decrement}
use deepvm.Vm.State.{State, M, ◌>>=◌, return, trap, Module, read_ip, read_byte}
use deepvm.Vm.Floats.{Floats}
use deepvm.Interp.Instructions.{
  exec_load, exec_store, exec_memory_size, exec_memory_grow, exec_drop, exec_select, exec_local_get,
  exec_local_set, exec_local_tee, exec_global_get, exec_global_set, exec_const, exec_int_compare,
  exec_int_unary, exec_int_binary, exec_float_compare, exec_float_unary, exec_float_binary,
  exec_convert,
}
use deepvm.Interp.Exec.Calls.{Frame, Run, block_frame, loop_frame}
use deepvm.Interp.Exec.Control.{
  exec_br, exec_br_if, exec_br_table, exec_return, exec_block, exec_if, exec_call,
  exec_call_indirect,
}

module _ (fl : Floats) (m : Module) where
  module _ (run : Run) (fuel : ℕ) (frame : Frame) where
    unfoldable pub exec_control : Control → M (Unit {0})
    exec_control op_unreachable = trap unreachable
    exec_control op_nop = return tt
    exec_control op_block = exec_block fl m run fuel frame block_frame
    exec_control op_loop = exec_block fl m run fuel frame loop_frame
    exec_control op_if = exec_if fl m run fuel frame
    exec_control op_else = return tt
    exec_control op_end = return tt
    exec_control op_br = exec_br
    exec_control op_br_if = exec_br_if
    exec_control op_br_table = exec_br_table
    exec_control op_return = exec_return
    exec_control op_call = exec_call fl m run fuel frame
    exec_control op_call_indirect = exec_call_indirect fl m run fuel frame
    exec_control op_drop = exec_drop
    exec_control op_select = exec_select
    exec_control op_local_get = exec_local_get frame.function.local_var_offsets
    exec_control op_local_set = exec_local_set frame.function.local_var_offsets
    exec_control op_local_tee = exec_local_tee frame.function.local_var_offsets
    exec_control op_global_get = exec_global_get m
    exec_control op_global_set = exec_global_set m
    exec_control memory_size = exec_memory_size
    exec_control memory_grow = exec_memory_grow

    -- The `switch`, after `ip++`.
    unfoldable pub exec_opcode : Opcode → M (Unit {0})
    exec_opcode (control c) = exec_control c
    exec_opcode (load l) = exec_load l
    exec_opcode (store o) = exec_store o
    exec_opcode (const c) = exec_const c
    exec_opcode (int_compare t o) = exec_int_compare t o
    exec_opcode (int_unary t o) = exec_int_unary t o
    exec_opcode (int_binary t o) = exec_int_binary t o
    exec_opcode (float_compare t o) = exec_float_compare fl t o
    exec_opcode (float_unary t o) = exec_float_unary fl t o
    exec_opcode (float_binary t o) = exec_float_binary fl t o
    exec_opcode (convert c) = exec_convert fl c

    unfoldable pub exec_instruction : M (Unit {0})
    exec_instruction = do
      byte ← read_ip read_byte
      elim (opcode_of byte) [ none ↦ trap unknown_opcode | some op ↦ exec_opcode op ]

  -- `sp` and `ip` are the frame's at the start.
  unfoldable pub start_frame : Frame → State → State
  start_frame frame s = record s { ip = frame.function.code_begin; sp = frame.sp }

  -- The loop, up to `ip_end`. A jump leaves the block and is one level nearer to its target. The
  -- report of an overflow leaves it too, and does not save `sp`.
  unfoldable pub exec_loop : ℕ → Frame → Ptr → M Bool
  exec_loop zero frame ip_end s = err out_of_fuel
  exec_loop (suc fuel) frame ip_end s = elim (is_zero s.jump_depth) [
    | false ↦ ok (false, record s { jump_depth = decrement s.jump_depth; env_sp = s.sp })
    | true ↦ elim (ltb (length ip_end) (length s.ip)) [
      | false ↦ ok (true, record s { env_sp = s.sp })
      | true ↦
          elim (exec_instruction
            (λ inner s'.
              exec_loop fuel inner (drop inner.function.code_size inner.function.code_begin)
                (start_frame inner s'))
            fuel frame s) [
              | err e ↦ err e
              | ok (_, s') ↦ elim (ltb s'.sp_end s'.sp) [
                | true ↦ ok (false, s')
                | false ↦ exec_loop fuel frame ip_end s'
              ]
            ]
    ]
  ]

  unfoldable pub exec_instructions : ℕ → Run
  exec_instructions fuel frame s =
      exec_loop fuel frame (drop frame.function.code_size frame.function.code_begin)
        (start_frame frame s)
