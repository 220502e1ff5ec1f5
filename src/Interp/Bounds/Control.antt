-- ===== src/Interp/Bounds/Control.antt =====
-- The control instructions, and the dispatch on the opcode, keep the limits.
use deepvm.Base.{
  ℕ, ◌+◌, ◌-◌, Option, none, some, List, drop, get_elem?, arith, ltb, ◌==◌, ◌^◌, if◌then◌else◌, ok,
  err, u8, undefined_element, uninitialized_element, unknown_opcode,
}
use deepvm.Leb.{Ptr, read_leb_u32}
use deepvm.Opcode.Table.{opcode_of}
use deepvm.Opcode.Kinds.{
  Opcode, control, load, store, const, int_compare, int_unary, int_binary, float_compare,
  float_unary, float_binary, convert, Control, op_unreachable, op_nop, op_block, op_loop, op_if,
  op_else, op_end, op_br, op_br_if, op_br_table, op_return, op_call, op_call_indirect, op_drop,
  op_select, op_local_get, op_local_set, op_local_tee, op_global_get, op_global_set, memory_size,
  memory_grow,
}
use deepvm.Vm.Int.{ℤ}
use deepvm.Vm.State.{◌>>=◌, ◌>>◌, trap, Module, read_byte}
use deepvm.Vm.Floats.{Floats}
use deepvm.Vm.Keeps.{
  Limits, IsWithin, Ends, stops, ends, Keeps, Keeps-bind, Keeps-if, Ends-if, Keeps-pop,
  Keeps-read_ip,
}
use deepvm.Interp.ReadBlock.{read_block}
use deepvm.Interp.Exec.{
  Frame, Run, FrameType, block_frame, loop_frame, function_frame, block_at, table_entry, get_ip,
  set_ip, save_sp, load_sp, jump_to, exec_br, exec_br_if, exec_br_table, exec_return, exec_block,
  exec_if, exec_call, exec_call_indirect, call_function, exec_control, exec_opcode,
  exec_instruction, byte_or_undefined,
}
use deepvm.Interp.Bounds.Numeric.{
  Keeps-lift, exec_const-Keeps, exec_int_compare-Keeps, exec_int_unary-Keeps, exec_int_binary-Keeps,
  exec_float_compare-Keeps, exec_float_unary-Keeps, exec_float_binary-Keeps, exec_convert-Keeps,
}
use deepvm.Interp.Bounds.Variables.{
  exec_drop-Keeps, exec_select-Keeps, exec_local_get-Keeps, exec_local_set-Keeps,
  exec_local_tee-Keeps, exec_global_get-Keeps, exec_global_set-Keeps,
}
use deepvm.Interp.Bounds.Memory.{
  exec_load-Keeps, exec_store-Keeps, exec_memory_size-Keeps, exec_memory_grow-Keeps,
}
use deepvm.Interp.Bounds.Calls.{KeepsFrames, enter_frame-Keeps, call_function-Keeps, Keeps-save_sp}

module _ (c : Limits) where
  Keeps-get_ip : Keeps c get_ip
  Keeps-get_ip s w = ends w

  Keeps-set_ip : (p : Ptr) → Keeps c (set_ip p)
  Keeps-set_ip p s w = ends (ground arith)

  Keeps-load_sp : Keeps c load_sp
  Keeps-load_sp s w = ends (ground arith)

  Keeps-jump : (d : ℤ) → Keeps c (λ s. ok (tt, record s { jump_depth = d }))
  Keeps-jump d s w = ends (ground arith)

  Keeps-jump_to : (label : ℕ) → Keeps c (jump_to label)
  Keeps-jump_to label s w = ends (ground arith)

  Keeps-byte : (o : Option ℕ) → Keeps c (byte_or_undefined o)
  Keeps-byte none s w = stops
  Keeps-byte (some b) s w = ends w

  exec_br-Keeps : Keeps c exec_br
  unfolding exec_br
  exec_br-Keeps = Keeps-bind c _ _ (Keeps-read_ip c read_leb_u32) (λ l. Keeps-jump _)

  exec_br_if-Keeps : Keeps c exec_br_if
  unfolding exec_br_if
  exec_br_if-Keeps = Keeps-bind c _ _ (Keeps-pop c 4) λ x.
      Keeps-bind c _ _ (Keeps-read_ip c read_leb_u32)
        λ l. Keeps-if c (x == 0) _ _ (Keeps-jump _) (Keeps-jump _)

  exec_br_table-Keeps : Keeps c exec_br_table
  unfolding exec_br_table
  exec_br_table-Keeps = Keeps-bind c _ _ (Keeps-read_ip c read_leb_u32) λ n.
      Keeps-bind c _ _ Keeps-get_ip λ table. Keeps-bind c _ _ (Keeps-pop c 4) λ x.
        Keeps-bind c _ _ (Keeps-set_ip (drop (u8 (1 + u8 n)) table)) λ _.
          Keeps-bind c _ _
            (Keeps-byte
              (get_elem? table (if ltb (u8 x + 1) (u8 (1 + u8 n)) then u8 x else u8 (1 + u8 n))))
            Keeps-jump_to

  exec_return-Keeps : Keeps c exec_return
  unfolding exec_return
  exec_return-Keeps = Keeps-jump _

  Keeps-table_entry : (i : ℕ) → Keeps c (table_entry i)
  unfolding table_entry
  Keeps-table_entry i s w = entries s.table
    where
      entry :
          (o : Option ℕ)
          → Ends (IsWithin c) (elim o [
            | none ↦ err undefined_element
            | some f ↦ if f == 2 ^ 32 - 1 then err uninitialized_element else ok (f, s)
          ])
      entry none = stops
      entry (some f) = Ends-if c (f == 2 ^ 32 - 1) (λ _. stops) (λ _. ends w)

      entries :
          (o : Option (List ℕ))
          → Ends (IsWithin c) (elim o [
            | none ↦ err undefined_element
            | some t ↦ elim (get_elem? t i) [
              | none ↦ err undefined_element
              | some f ↦ if f == 2 ^ 32 - 1 then err uninitialized_element else ok (f, s)
            ]
          ])
      entries none = stops
      entries (some t) = entry (get_elem? t i)

  module _ (fl : Floats) (m : Module) (run : Run) (keeps : KeepsFrames c run) (fuel : ℕ)
      (frame : Frame) where
    exec_block-Keeps : (type : FrameType) → Keeps c (exec_block fl m run fuel frame type)
    unfolding exec_block
    exec_block-Keeps type = Keeps-bind c _ _ (Keeps-read_ip c read_byte) λ _.
        Keeps-bind c _ _ Keeps-get_ip λ start.
          Keeps-bind c _ _ (Keeps-lift c (read_block start)) λ size.
            Keeps-bind c _ _ (Keeps-save_sp c) λ _.
              Keeps-bind c _ _
                (enter_frame-Keeps c run keeps fuel (block_at frame.function start size) type)
                λ p. Keeps-bind c _ _ (Keeps-set_ip p) (λ _. Keeps-load_sp)

    exec_if-Keeps : Keeps c (exec_if fl m run fuel frame)
    unfolding exec_if
    exec_if-Keeps = Keeps-bind c _ _ (Keeps-read_ip c read_byte) λ _.
        Keeps-bind c _ _ Keeps-get_ip λ start.
          Keeps-bind c _ _ (Keeps-lift c (read_block start)) λ then_size.
            Keeps-bind c _ _ (Keeps-lift c (read_block (drop then_size start))) λ else_size.
              Keeps-bind c _ _ (Keeps-save_sp c) λ _. Keeps-bind c _ _ (Keeps-pop c 4) λ x.
                Keeps-bind c _ _
                  (Keeps-if c (x == 0) _ _
                    (enter_frame-Keeps c run keeps fuel
                      (block_at frame.function (drop then_size start) else_size) function_frame)
                    (enter_frame-Keeps c run keeps fuel (block_at frame.function start then_size)
                      function_frame))
                  λ _.
                    Keeps-bind c _ _ (Keeps-set_ip (drop else_size (drop then_size start)))
                      (λ _. Keeps-load_sp)

    call_and_return :
        (i : ℕ) → Keeps c (do ip' ← get_ip; save_sp; call_function fl m run i; set_ip ip'; load_sp)
    call_and_return i = Keeps-bind c _ _ Keeps-get_ip λ p. Keeps-bind c _ _ (Keeps-save_sp c) λ _.
        Keeps-bind c _ _ (call_function-Keeps c run keeps fl m i)
          λ _. Keeps-bind c _ _ (Keeps-set_ip p) (λ _. Keeps-load_sp)

    exec_call-Keeps : Keeps c (exec_call fl m run fuel frame)
    unfolding exec_call
    exec_call-Keeps = Keeps-bind c _ _ (Keeps-read_ip c read_leb_u32) λ i. call_and_return i

    exec_call_indirect-Keeps : Keeps c (exec_call_indirect fl m run fuel frame)
    unfolding exec_call_indirect
    exec_call_indirect-Keeps = Keeps-bind c _ _ (Keeps-read_ip c read_leb_u32) λ _.
        Keeps-bind c _ _ (Keeps-read_ip c read_byte) λ _.
          Keeps-bind c _ _ (Keeps-pop c 4)
            λ e. Keeps-bind c _ _ (Keeps-table_entry e) λ i. call_and_return i

    exec_control-Keeps : (o : Control) → Keeps c (exec_control fl m run fuel frame o)
    unfolding exec_control
    exec_control-Keeps op_unreachable s w = stops
    exec_control-Keeps op_nop s w = ends w
    exec_control-Keeps op_block s w = exec_block-Keeps block_frame s w
    exec_control-Keeps op_loop s w = exec_block-Keeps loop_frame s w
    exec_control-Keeps op_if s w = exec_if-Keeps s w
    exec_control-Keeps op_else s w = ends w
    exec_control-Keeps op_end s w = ends w
    exec_control-Keeps op_br s w = exec_br-Keeps s w
    exec_control-Keeps op_br_if s w = exec_br_if-Keeps s w
    exec_control-Keeps op_br_table s w = exec_br_table-Keeps s w
    exec_control-Keeps op_return s w = exec_return-Keeps s w
    exec_control-Keeps op_call s w = exec_call-Keeps s w
    exec_control-Keeps op_call_indirect s w = exec_call_indirect-Keeps s w
    exec_control-Keeps op_drop s w = exec_drop-Keeps c s w
    exec_control-Keeps op_select s w = exec_select-Keeps c s w
    exec_control-Keeps op_local_get s w = exec_local_get-Keeps c _ s w
    exec_control-Keeps op_local_set s w = exec_local_set-Keeps c _ s w
    exec_control-Keeps op_local_tee s w = exec_local_tee-Keeps c _ s w
    exec_control-Keeps op_global_get s w = exec_global_get-Keeps c m s w
    exec_control-Keeps op_global_set s w = exec_global_set-Keeps c m s w
    exec_control-Keeps memory_size s w = exec_memory_size-Keeps c s w
    exec_control-Keeps memory_grow s w = exec_memory_grow-Keeps c s w

    exec_opcode-Keeps : (o : Opcode) → Keeps c (exec_opcode fl m run fuel frame o)
    unfolding exec_opcode
    exec_opcode-Keeps (control o) = exec_control-Keeps o
    exec_opcode-Keeps (load o) = exec_load-Keeps c o
    exec_opcode-Keeps (store o) = exec_store-Keeps c o
    exec_opcode-Keeps (const o) = exec_const-Keeps c o
    exec_opcode-Keeps (int_compare t o) = exec_int_compare-Keeps c t o
    exec_opcode-Keeps (int_unary t o) = exec_int_unary-Keeps c t o
    exec_opcode-Keeps (int_binary t o) = exec_int_binary-Keeps c t o
    exec_opcode-Keeps (float_compare t o) = exec_float_compare-Keeps c fl t o
    exec_opcode-Keeps (float_unary t o) = exec_float_unary-Keeps c fl t o
    exec_opcode-Keeps (float_binary t o) = exec_float_binary-Keeps c fl t o
    exec_opcode-Keeps (convert o) = exec_convert-Keeps c fl o

    pub exec_instruction-Keeps : Keeps c (exec_instruction fl m run fuel frame)
    unfolding exec_instruction
    exec_instruction-Keeps = Keeps-bind c _ _ (Keeps-read_ip c read_byte) (λ b. go (opcode_of b))
      where
        go :
            (o : Option Opcode)
            → Keeps c {A = Unit {0}} (elim o [
              | none ↦ trap unknown_opcode
              | some op ↦ exec_opcode fl m run fuel frame op
            ])
        go none s w = stops
        go (some op) s w = exec_opcode-Keeps op s w
