-- ===== src/Opcode/Kinds.antt =====
-- The kinds of instruction of include/deep_opcode.h. Each family that the source repeats for two
-- widths is one type here, and the width stands beside it in `Opcode`.
pub data Control : Type 0 where
  op_unreachable op_nop op_block op_loop op_if op_else op_end op_br op_br_if : Control
  op_br_table op_return op_call op_call_indirect op_drop op_select op_local_get : Control
  op_local_set op_local_tee op_global_get op_global_set memory_size memory_grow : Control

pub data Load : Type 0 where
  i32_load i64_load f32_load f64_load i32_load8_s i32_load8_u i32_load16_s : Load
  i32_load16_u i64_load8_s i64_load8_u i64_load16_s i64_load16_u i64_load32_s : Load
  i64_load32_u : Load

pub data Store : Type 0 where
  i32_store i64_store f32_store f64_store i32_store8 i32_store16 i64_store8 : Store
  i64_store16 i64_store32 : Store

pub data Const : Type 0 where
  i32_const i64_const f32_const f64_const : Const

pub data IntType : Type 0 where
  i32 i64 : IntType

pub data FloatType : Type 0 where
  f32 f64 : FloatType

pub data IntCompare : Type 0 where
  eqz eq ne lts ltu gts gtu les leu ges geu : IntCompare

pub data IntUnary : Type 0 where
  clz ctz popcnt : IntUnary

pub data IntBinary : Type 0 where
  add sub mul divs divu rems remu and or xor shl shrs shru rotl rotr : IntBinary

pub data FloatCompare : Type 0 where
  eq ne lt gt le ge : FloatCompare

pub data FloatUnary : Type 0 where
  abs neg ceil floor trunc nearest sqrt : FloatUnary

pub data FloatBinary : Type 0 where
  add sub mul div min max copysign : FloatBinary

pub data Conversion : Type 0 where
  i32_wrap_i64 i32_trunc_f32_s i32_trunc_f32_u i32_trunc_f64_s i32_trunc_f64_u : Conversion
  i64_extend_i32_s i64_extend_i32_u i64_trunc_f32_s i64_trunc_f32_u i64_trunc_f64_s : Conversion
  i64_trunc_f64_u f32_convert_i32_s f32_convert_i32_u f32_convert_i64_s : Conversion
  f32_convert_i64_u f32_demote_f64 f64_convert_i32_s f64_convert_i32_u : Conversion
  f64_convert_i64_s f64_convert_i64_u f64_promote_f32 i32_reinterpret_f32 : Conversion
  i64_reinterpret_f64 f32_reinterpret_i32 f64_reinterpret_i64 : Conversion

pub data Opcode : Type 0 where
  control : Control → Opcode
  load : Load → Opcode
  store : Store → Opcode
  const : Const → Opcode
  int_compare : IntType → IntCompare → Opcode
  int_unary : IntType → IntUnary → Opcode
  int_binary : IntType → IntBinary → Opcode
  float_compare : FloatType → FloatCompare → Opcode
  float_unary : FloatType → FloatUnary → Opcode
  float_binary : FloatType → FloatBinary → Opcode
  convert : Conversion → Opcode
