-- ===== src/Interp/ReadBlock.antt =====
-- `read_block` of src/deep_interp.c: the length of a block's code, found by passing over its
-- instructions up to the `end` or the `else` that belongs to it.
pub mod Code
pub mod Rounds
pub mod Structure
pub mod Ending
use deepvm.Base.{
  ℕ, zero, suc, ◌+◌, ◌-◌, Option, none, some, drop, length, ◌==◌, if◌then◌else◌, u8, Trap,
  unknown_opcode, undefined, out_of_fuel, Result, ok, err, ◌>>=◌,
}
use deepvm.Leb.{Ptr, read_leb_u32}
use deepvm.Opcode.Table.{opcode_of}
use deepvm.Opcode.Kinds.{
  Opcode, control, load, store, const, int_compare, int_unary, int_binary, float_compare,
  float_unary, float_binary, convert, FloatType, f32, f64, Control, op_block, op_loop, op_if,
  op_br_table, op_end, op_else, op_call_indirect, op_call, op_local_get, op_local_set, op_local_tee,
  op_global_get, op_global_set, op_br, op_br_if, memory_size, memory_grow,
}
use deepvm.Vm.State.{read_byte}

-- What stands behind an opcode, as the cases of the `switch` group them. The two-operand
-- arithmetic on `double` is in none of the groups, so that it goes to `default`.
pub data Shape : Type 0 where
  nested table end_of_block else_of_block plain indirect one_leb two_lebs unlisted : Shape

unfoldable pub shape_of_control : Control → Shape
shape_of_control op_block = nested
shape_of_control op_loop = nested
shape_of_control op_if = nested
shape_of_control op_br_table = table
shape_of_control op_end = end_of_block
shape_of_control op_else = else_of_block
shape_of_control op_call_indirect = indirect
shape_of_control op_call = one_leb
shape_of_control op_local_get = one_leb
shape_of_control op_local_set = one_leb
shape_of_control op_local_tee = one_leb
shape_of_control op_global_get = one_leb
shape_of_control op_global_set = one_leb
shape_of_control op_br = one_leb
shape_of_control op_br_if = one_leb
shape_of_control memory_size = one_leb
shape_of_control memory_grow = one_leb
shape_of_control _ = plain

unfoldable pub shape_of : Opcode → Shape
unfolding shape_of_control
shape_of (control c) = shape_of_control c
shape_of (load l) = two_lebs
shape_of (store l) = two_lebs
shape_of (const c) = one_leb
shape_of (float_binary f32 o) = plain
shape_of (float_binary f64 o) = unlisted
shape_of (int_compare t o) = plain
shape_of (int_unary t o) = plain
shape_of (int_binary t o) = plain
shape_of (float_compare t o) = plain
shape_of (float_unary t o) = plain
shape_of (convert c) = plain

-- The case that a byte falls in.
unfoldable pub shape_at : ℕ → Shape
unfolding shape_of
shape_at byte = elim (opcode_of byte) [ none ↦ unlisted | some op ↦ shape_of op ]

-- The body of the loop, behind an opcode of each shape. `scan` goes on, with the brackets that
-- are open then.
unfoldable pub read_block_case : (ℕ → Ptr → Result Ptr) → Shape → ℕ → Ptr → Result Ptr
unfolding read_byte
read_block_case scan nested net ip = do (_, ip1) ← read_byte ip; scan (u8 (net + 1)) ip1
read_block_case scan table net ip = do
  (count, ip1) ← read_leb_u32 ip
  scan net (drop (count + 1) ip1)
read_block_case scan end_of_block net ip =
    let net' = u8 (net + 255) in if net' == 0 then ok ip else scan net' ip
read_block_case scan else_of_block net ip =
    let net' = u8 (net + 255) in if net' == 0 then ok ip else scan (u8 (net' + 1)) ip
read_block_case scan plain net ip = scan net ip
read_block_case scan indirect net ip = do
  (_, ip1) ← read_leb_u32 ip
  (_, ip2) ← read_byte ip1
  scan net ip2
read_block_case scan one_leb net ip = do (_, ip1) ← read_leb_u32 ip; scan net ip1
read_block_case scan two_lebs net ip = do
  (_, ip1) ← read_leb_u32 ip
  (_, ip2) ← read_leb_u32 ip1
  scan net ip2
read_block_case scan unlisted net ip = err unknown_opcode

-- The loop, from the opcode at `ip` on, with `net` brackets open in a `uint8_t`. It gives the
-- pointer behind the block. The `ip++` with which each case of the source begins stands here, in
-- front of the `switch`. Every round passes over a byte at least, so fuel for every byte is enough.
unfoldable pub read_block_loop : ℕ → ℕ → Ptr → Result Ptr
unfolding read_byte read_block_case
read_block_loop zero net ip = err out_of_fuel
read_block_loop (suc fuel) net ip = do
  (byte, ip1) ← read_byte ip
  read_block_case (read_block_loop fuel) (shape_at byte) net ip1

-- The length of the block that starts at `ip`, its last opcode included.
unfoldable pub read_block : Ptr → Result ℕ
unfolding read_block_loop shape_at
read_block ip = do after ← read_block_loop (length ip + 1) 1 ip; ok (length ip - length after)
