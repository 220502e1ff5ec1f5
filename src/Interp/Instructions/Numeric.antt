-- ===== src/Interp/Instructions/Numeric.antt =====
-- The constants, comparisons, arithmetic and conversions: operands are popped, last one first, and
-- the result is pushed.
use deepvm.Base.{
  ℕ, Bool, Option, none, some, if◌then◌else◌, u32, sign_extend, undefined, Result, ok, err,
}
use deepvm.Leb.{read_leb_i32, read_leb_i64}
use deepvm.Opcode.Kinds.{
  Const, i32_const, i64_const, f32_const, f64_const, IntType, IntCompare, eqz, IntUnary, IntBinary,
  FloatType, FloatCompare, FloatUnary, FloatBinary, Conversion, i32_wrap_i64, i32_trunc_f32_s,
  i32_trunc_f32_u, i32_trunc_f64_s, i32_trunc_f64_u, i64_extend_i32_s, i64_extend_i32_u,
  i64_trunc_f32_s, i64_trunc_f32_u, i64_trunc_f64_s, i64_trunc_f64_u, f32_convert_i32_s,
  f32_convert_i32_u, f32_convert_i64_s, f32_convert_i64_u, f32_demote_f64, f64_convert_i32_s,
  f64_convert_i32_u, f64_convert_i64_s, f64_convert_i64_u, f64_promote_f32, i32_reinterpret_f32,
  i64_reinterpret_f64, f32_reinterpret_i32, f64_reinterpret_i64,
}
use deepvm.Vm.State.{
  M, ◌>>=◌, ◌>>◌, return, pop, push, pop32, push32, push64, pop64, read_ip, read_value,
}
use deepvm.Vm.Words.{width, bytes_of, int_binary_op, int_compare_op, int_unary_op}
use deepvm.Vm.Floats.{
  Floats, arith_of, float_bytes, float_compare_op, float_unary_op, float_binary_op,
}

abbrev pub bit : Bool → ℕ
bit b = if b then 1 else 0

-- A result that C may leave undefined, or that may stop the program.
abbrev pub lift : {A : Type 0} → Result A → M A
lift r s = elim r [ err e ↦ err e | ok a ↦ ok (a, s) ]

abbrev pub defined : {A : Type 0} → Option A → M A
defined o s = elim o [ none ↦ err undefined | some a ↦ ok (a, s) ]

-- `f32_const` pushes its value, pops it and pushes it again.
unfoldable pub exec_const : Const → M (Unit {0})
exec_const i32_const = do x ← read_ip read_leb_i32; push32 x
exec_const i64_const = do x ← read_ip read_leb_i64; push64 x
exec_const f32_const = do x ← read_ip (read_value 4); push32 x; y ← pop32; push32 y
exec_const f64_const = do x ← read_ip (read_value 8); push64 x

unfoldable pub exec_int_compare : IntType → IntCompare → M (Unit {0})
exec_int_compare t eqz = do a ← pop (bytes_of t); push32 (bit (int_compare_op (width t) eqz 0 a))
exec_int_compare t o = do
  a ← pop (bytes_of t)
  b ← pop (bytes_of t)
  push32 (bit (int_compare_op (width t) o b a))

unfoldable pub exec_int_unary : IntType → IntUnary → M (Unit {0})
exec_int_unary t o = do a ← pop (bytes_of t); push (bytes_of t) (int_unary_op (width t) o a)

unfoldable pub exec_int_binary : IntType → IntBinary → M (Unit {0})
exec_int_binary t o = do
  a ← pop (bytes_of t)
  b ← pop (bytes_of t)
  r ← lift (int_binary_op (width t) o b a)
  push (bytes_of t) r

module _ (fl : Floats) where
  unfoldable pub exec_float_compare : FloatType → FloatCompare → M (Unit {0})
  exec_float_compare t o = do
    a ← pop (float_bytes t)
    b ← pop (float_bytes t)
    push32 (bit (float_compare_op (arith_of fl t) o b a))

  unfoldable pub exec_float_unary : FloatType → FloatUnary → M (Unit {0})
  exec_float_unary t o = do
    a ← pop (float_bytes t)
    push (float_bytes t) (float_unary_op (arith_of fl t) o a)

  unfoldable pub exec_float_binary : FloatType → FloatBinary → M (Unit {0})
  exec_float_binary t o = do
    a ← pop (float_bytes t)
    b ← pop (float_bytes t)
    push (float_bytes t) (float_binary_op (arith_of fl t) o b a)

  -- The reinterpretations leave the stack as it is.
  unfoldable pub exec_convert : Conversion → M (Unit {0})
  exec_convert i32_wrap_i64 = do x ← pop64; push32 (u32 x)
  exec_convert i32_trunc_f32_s = do x ← pop32; y ← defined (fl.single.to_i32 x); push32 y
  exec_convert i32_trunc_f32_u = do x ← pop32; y ← defined (fl.single.to_u32 x); push32 y
  exec_convert i32_trunc_f64_s = do x ← pop64; y ← defined (fl.double.to_i32 x); push32 y
  exec_convert i32_trunc_f64_u = do x ← pop64; y ← defined (fl.double.to_u32 x); push32 y
  exec_convert i64_extend_i32_s = do x ← pop32; push64 (sign_extend 32 64 x)
  exec_convert i64_extend_i32_u = do x ← pop32; push64 x
  exec_convert i64_trunc_f32_s = do x ← pop32; y ← defined (fl.single.to_i64 x); push64 y
  exec_convert i64_trunc_f32_u = do x ← pop32; y ← defined (fl.single.to_u64 x); push64 y
  exec_convert i64_trunc_f64_s = do x ← pop64; y ← defined (fl.double.to_i64 x); push64 y
  exec_convert i64_trunc_f64_u = do x ← pop64; y ← defined (fl.double.to_u64 x); push64 y
  exec_convert f32_convert_i32_s = do x ← pop32; push32 (fl.single.of_i32 x)
  exec_convert f32_convert_i32_u = do x ← pop32; push32 (fl.single.of_u32 x)
  exec_convert f32_convert_i64_s = do x ← pop64; push32 (fl.single.of_i64 x)
  exec_convert f32_convert_i64_u = do x ← pop64; push32 (fl.single.of_u64 x)
  exec_convert f32_demote_f64 = do x ← pop64; push32 (fl.demote x)
  exec_convert f64_convert_i32_s = do x ← pop32; push64 (fl.double.of_i32 x)
  exec_convert f64_convert_i32_u = do x ← pop32; push64 (fl.double.of_u32 x)
  exec_convert f64_convert_i64_s = do x ← pop64; push64 (fl.double.of_i64 x)
  exec_convert f64_convert_i64_u = do x ← pop64; push64 (fl.double.of_u64 x)
  exec_convert f64_promote_f32 = do x ← pop32; push64 (fl.promote x)
  exec_convert i32_reinterpret_f32 = return tt
  exec_convert i64_reinterpret_f64 = return tt
  exec_convert f32_reinterpret_i32 = return tt
  exec_convert f64_reinterpret_i64 = return tt
