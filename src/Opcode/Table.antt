-- ===== src/Opcode/Table.antt =====
-- The byte of each opcode, as include/deep_opcode.h numbers them.
use deepvm.Base.{ℕ, List, [], ◌∷◌, ◌++◌, Option, none, some, ◌==◌, if◌then◌else◌}
use deepvm.Opcode.Kinds.{
  Opcode, control, load, store, const, int_compare, int_unary, int_binary, float_compare,
  float_unary, float_binary, convert, i32, i64, f32, f64, IntCompare, clz, ctz, popcnt, IntBinary,
  FloatCompare, FloatUnary, FloatBinary, op_unreachable, op_nop, op_block, op_loop, op_if, op_else,
  op_end, op_br, op_br_if, op_br_table, op_return, op_call, op_call_indirect, op_drop, op_select,
  op_local_get, op_local_set, op_local_tee, op_global_get, op_global_set, memory_size, memory_grow,
  i32_load, i64_load, f32_load, f64_load, i32_load8_s, i32_load8_u, i32_load16_s, i32_load16_u,
  i64_load8_s, i64_load8_u, i64_load16_s, i64_load16_u, i64_load32_s, i64_load32_u, i32_store,
  i64_store, f32_store, f64_store, i32_store8, i32_store16, i64_store8, i64_store16, i64_store32,
  i32_const, i64_const, f32_const, f64_const, i32_wrap_i64, i32_trunc_f32_s, i32_trunc_f32_u,
  i32_trunc_f64_s, i32_trunc_f64_u, i64_extend_i32_s, i64_extend_i32_u, i64_trunc_f32_s,
  i64_trunc_f32_u, i64_trunc_f64_s, i64_trunc_f64_u, f32_convert_i32_s, f32_convert_i32_u,
  f32_convert_i64_s, f32_convert_i64_u, f32_demote_f64, f64_convert_i32_s, f64_convert_i32_u,
  f64_convert_i64_s, f64_convert_i64_u, f64_promote_f32, i32_reinterpret_f32, i64_reinterpret_f64,
  f32_reinterpret_i32, f64_reinterpret_i64,
}

abbrev control_opcodes : List (ℕ × Opcode)
control_opcodes =
    (0x1a, control op_drop)
    ∷ (0x1b, control op_select)
    ∷ (0x00, control op_unreachable)
    ∷ (0x01, control op_nop)
    ∷ (0x02, control op_block)
    ∷ (0x03, control op_loop)
    ∷ (0x04, control op_if)
    ∷ (0x05, control op_else)
    ∷ (0x0b, control op_end)
    ∷ (0x0c, control op_br)
    ∷ (0x0d, control op_br_if)
    ∷ (0x0e, control op_br_table)
    ∷ (0x0f, control op_return)
    ∷ (0x10, control op_call)
    ∷ (0x11, control op_call_indirect)
    ∷ (0x20, control op_local_get)
    ∷ (0x21, control op_local_set)
    ∷ (0x22, control op_local_tee)
    ∷ (0x23, control op_global_get)
    ∷ (0x24, control op_global_set)
    ∷ []

abbrev memory_opcodes : List (ℕ × Opcode)
memory_opcodes =
    (0x28, load i32_load)
    ∷ (0x29, load i64_load)
    ∷ (0x2a, load f32_load)
    ∷ (0x2b, load f64_load)
    ∷ (0x2c, load i32_load8_s)
    ∷ (0x2d, load i32_load8_u)
    ∷ (0x2e, load i32_load16_s)
    ∷ (0x2f, load i32_load16_u)
    ∷ (0x30, load i64_load8_s)
    ∷ (0x31, load i64_load8_u)
    ∷ (0x32, load i64_load16_s)
    ∷ (0x33, load i64_load16_u)
    ∷ (0x34, load i64_load32_s)
    ∷ (0x35, load i64_load32_u)
    ∷ (0x36, store i32_store)
    ∷ (0x37, store i64_store)
    ∷ (0x38, store f32_store)
    ∷ (0x39, store f64_store)
    ∷ (0x3a, store i32_store8)
    ∷ (0x3b, store i32_store16)
    ∷ (0x3c, store i64_store8)
    ∷ (0x3d, store i64_store16)
    ∷ (0x3e, store i64_store32)
    ∷ (0x3f, control memory_size)
    ∷ (0x40, control memory_grow)
    ∷ (0x41, const i32_const)
    ∷ (0x42, const i64_const)
    ∷ (0x43, const f32_const)
    ∷ (0x44, const f64_const)
    ∷ []

abbrev compare_opcodes : List (ℕ × Opcode)
compare_opcodes =
    (0x45, int_compare i32 IntCompare.eqz)
    ∷ (0x46, int_compare i32 IntCompare.eq)
    ∷ (0x47, int_compare i32 IntCompare.ne)
    ∷ (0x48, int_compare i32 IntCompare.lts)
    ∷ (0x49, int_compare i32 IntCompare.ltu)
    ∷ (0x4a, int_compare i32 IntCompare.gts)
    ∷ (0x4b, int_compare i32 IntCompare.gtu)
    ∷ (0x4c, int_compare i32 IntCompare.les)
    ∷ (0x4d, int_compare i32 IntCompare.leu)
    ∷ (0x4e, int_compare i32 IntCompare.ges)
    ∷ (0x4f, int_compare i32 IntCompare.geu)
    ∷ (0x50, int_compare i64 IntCompare.eqz)
    ∷ (0x51, int_compare i64 IntCompare.eq)
    ∷ (0x52, int_compare i64 IntCompare.ne)
    ∷ (0x53, int_compare i64 IntCompare.lts)
    ∷ (0x54, int_compare i64 IntCompare.ltu)
    ∷ (0x55, int_compare i64 IntCompare.gts)
    ∷ (0x56, int_compare i64 IntCompare.gtu)
    ∷ (0x57, int_compare i64 IntCompare.les)
    ∷ (0x58, int_compare i64 IntCompare.leu)
    ∷ (0x59, int_compare i64 IntCompare.ges)
    ∷ (0x5a, int_compare i64 IntCompare.geu)
    ∷ (0x5b, float_compare f32 FloatCompare.eq)
    ∷ (0x5c, float_compare f32 FloatCompare.ne)
    ∷ (0x5d, float_compare f32 FloatCompare.lt)
    ∷ (0x5e, float_compare f32 FloatCompare.gt)
    ∷ (0x5f, float_compare f32 FloatCompare.le)
    ∷ (0x60, float_compare f32 FloatCompare.ge)
    ∷ (0x61, float_compare f64 FloatCompare.eq)
    ∷ (0x62, float_compare f64 FloatCompare.ne)
    ∷ (0x63, float_compare f64 FloatCompare.lt)
    ∷ (0x64, float_compare f64 FloatCompare.gt)
    ∷ (0x65, float_compare f64 FloatCompare.le)
    ∷ (0x66, float_compare f64 FloatCompare.ge)
    ∷ []

abbrev int_opcodes : List (ℕ × Opcode)
int_opcodes =
    (0x6a, int_binary i32 IntBinary.add)
    ∷ (0x6b, int_binary i32 IntBinary.sub)
    ∷ (0x6c, int_binary i32 IntBinary.mul)
    ∷ (0x6d, int_binary i32 IntBinary.divs)
    ∷ (0x6e, int_binary i32 IntBinary.divu)
    ∷ (0x6f, int_binary i32 IntBinary.rems)
    ∷ (0x70, int_binary i32 IntBinary.remu)
    ∷ (0x71, int_binary i32 IntBinary.and)
    ∷ (0x72, int_binary i32 IntBinary.or)
    ∷ (0x73, int_binary i32 IntBinary.xor)
    ∷ (0x74, int_binary i32 IntBinary.shl)
    ∷ (0x75, int_binary i32 IntBinary.shrs)
    ∷ (0x76, int_binary i32 IntBinary.shru)
    ∷ (0x77, int_binary i32 IntBinary.rotl)
    ∷ (0x78, int_binary i32 IntBinary.rotr)
    ∷ (0x7c, int_binary i64 IntBinary.add)
    ∷ (0x7d, int_binary i64 IntBinary.sub)
    ∷ (0x7e, int_binary i64 IntBinary.mul)
    ∷ (0x7f, int_binary i64 IntBinary.divs)
    ∷ (0x80, int_binary i64 IntBinary.divu)
    ∷ (0x81, int_binary i64 IntBinary.rems)
    ∷ (0x82, int_binary i64 IntBinary.remu)
    ∷ (0x83, int_binary i64 IntBinary.and)
    ∷ (0x84, int_binary i64 IntBinary.or)
    ∷ (0x85, int_binary i64 IntBinary.xor)
    ∷ (0x86, int_binary i64 IntBinary.shl)
    ∷ (0x87, int_binary i64 IntBinary.shrs)
    ∷ (0x88, int_binary i64 IntBinary.shru)
    ∷ (0x89, int_binary i64 IntBinary.rotl)
    ∷ (0x8a, int_binary i64 IntBinary.rotr)
    ∷ (0x67, int_unary i32 clz)
    ∷ (0x68, int_unary i32 ctz)
    ∷ (0x69, int_unary i32 popcnt)
    ∷ (0x79, int_unary i64 clz)
    ∷ (0x7a, int_unary i64 ctz)
    ∷ (0x7b, int_unary i64 popcnt)
    ∷ []

abbrev float_opcodes : List (ℕ × Opcode)
float_opcodes =
    (0x92, float_binary f32 FloatBinary.add)
    ∷ (0x93, float_binary f32 FloatBinary.sub)
    ∷ (0x94, float_binary f32 FloatBinary.mul)
    ∷ (0x95, float_binary f32 FloatBinary.div)
    ∷ (0x96, float_binary f32 FloatBinary.min)
    ∷ (0x97, float_binary f32 FloatBinary.max)
    ∷ (0x98, float_binary f32 FloatBinary.copysign)
    ∷ (0xa0, float_binary f64 FloatBinary.add)
    ∷ (0xa1, float_binary f64 FloatBinary.sub)
    ∷ (0xa2, float_binary f64 FloatBinary.mul)
    ∷ (0xa3, float_binary f64 FloatBinary.div)
    ∷ (0xa4, float_binary f64 FloatBinary.min)
    ∷ (0xa5, float_binary f64 FloatBinary.max)
    ∷ (0xa6, float_binary f64 FloatBinary.copysign)
    ∷ (0x8b, float_unary f32 FloatUnary.abs)
    ∷ (0x8c, float_unary f32 FloatUnary.neg)
    ∷ (0x8d, float_unary f32 FloatUnary.ceil)
    ∷ (0x8e, float_unary f32 FloatUnary.floor)
    ∷ (0x8f, float_unary f32 FloatUnary.trunc)
    ∷ (0x90, float_unary f32 FloatUnary.nearest)
    ∷ (0x91, float_unary f32 FloatUnary.sqrt)
    ∷ (0x99, float_unary f64 FloatUnary.abs)
    ∷ (0x9a, float_unary f64 FloatUnary.neg)
    ∷ (0x9b, float_unary f64 FloatUnary.ceil)
    ∷ (0x9c, float_unary f64 FloatUnary.floor)
    ∷ (0x9d, float_unary f64 FloatUnary.trunc)
    ∷ (0x9e, float_unary f64 FloatUnary.nearest)
    ∷ (0x9f, float_unary f64 FloatUnary.sqrt)
    ∷ []

abbrev convert_opcodes : List (ℕ × Opcode)
convert_opcodes =
    (0xa7, convert i32_wrap_i64)
    ∷ (0xa8, convert i32_trunc_f32_s)
    ∷ (0xa9, convert i32_trunc_f32_u)
    ∷ (0xaa, convert i32_trunc_f64_s)
    ∷ (0xab, convert i32_trunc_f64_u)
    ∷ (0xac, convert i64_extend_i32_s)
    ∷ (0xad, convert i64_extend_i32_u)
    ∷ (0xae, convert i64_trunc_f32_s)
    ∷ (0xaf, convert i64_trunc_f32_u)
    ∷ (0xb0, convert i64_trunc_f64_s)
    ∷ (0xb1, convert i64_trunc_f64_u)
    ∷ (0xb2, convert f32_convert_i32_s)
    ∷ (0xb3, convert f32_convert_i32_u)
    ∷ (0xb4, convert f32_convert_i64_s)
    ∷ (0xb5, convert f32_convert_i64_u)
    ∷ (0xb6, convert f32_demote_f64)
    ∷ (0xb7, convert f64_convert_i32_s)
    ∷ (0xb8, convert f64_convert_i32_u)
    ∷ (0xb9, convert f64_convert_i64_s)
    ∷ (0xba, convert f64_convert_i64_u)
    ∷ (0xbb, convert f64_promote_f32)
    ∷ (0xbc, convert i32_reinterpret_f32)
    ∷ (0xbd, convert i64_reinterpret_f64)
    ∷ (0xbe, convert f32_reinterpret_i32)
    ∷ (0xbf, convert f64_reinterpret_i64)
    ∷ []

abbrev opcodes : List (ℕ × Opcode)
opcodes =
    control_opcodes
    ++ (memory_opcodes ++ (compare_opcodes ++ (int_opcodes ++ (float_opcodes ++ convert_opcodes))))

unfoldable pub find_opcode : List (ℕ × Opcode) → ℕ → Option Opcode
find_opcode [] b = none
find_opcode ((c, o) ∷ table) b = if c == b then some o else find_opcode table b

-- The `switch` on a byte: `none` is its `default`.
unfoldable pub opcode_of : ℕ → Option Opcode
unfolding find_opcode
opcode_of b = find_opcode opcodes b
