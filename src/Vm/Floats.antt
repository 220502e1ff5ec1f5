-- ===== src/Vm/Floats.antt =====
-- What the interpreter takes from the C implementation's floating point: a number is its IEEE
-- pattern, and each operation of the language and of `math.h` is a field.
use deepvm.Base.{ℕ, Bool, not, Option, if◌then◌else◌}
use deepvm.Opcode.Kinds.{
  FloatType, f32, f64, FloatCompare, FloatUnary, abs, neg, ceil, floor, trunc, nearest, sqrt,
  FloatBinary,
}

-- The operations of `float` or of `double`.
pub record FloatArith : Type 0 where
  pub fadd : ℕ → ℕ → ℕ
  pub fsub : ℕ → ℕ → ℕ
  pub fmul : ℕ → ℕ → ℕ
  pub fdiv : ℕ → ℕ → ℕ
  pub feq : ℕ → ℕ → Bool
  pub flt : ℕ → ℕ → Bool
  pub fle : ℕ → ℕ → Bool
  pub fneg : ℕ → ℕ
  pub fabs : ℕ → ℕ
  pub fceil : ℕ → ℕ
  pub ffloor : ℕ → ℕ
  pub ftrunc : ℕ → ℕ
  pub fround : ℕ → ℕ
  pub fsqrt : ℕ → ℕ
  pub fcopysign : ℕ → ℕ → ℕ
  pub fisinf : ℕ → ℕ
  pub fisnan : ℕ → ℕ
  -- Conversions to an `int32_t`, `uint32_t`, `int64_t`, `uint64_t`; out of range is undefined.
  pub to_i32 : ℕ → Option ℕ
  pub to_u32 : ℕ → Option ℕ
  pub to_i64 : ℕ → Option ℕ
  pub to_u64 : ℕ → Option ℕ
  -- Conversions from them.
  pub of_i32 : ℕ → ℕ
  pub of_u32 : ℕ → ℕ
  pub of_i64 : ℕ → ℕ
  pub of_u64 : ℕ → ℕ

pub record Floats : Type 0 where
  pub single : FloatArith
  pub double : FloatArith
  pub demote : ℕ → ℕ
  pub promote : ℕ → ℕ

abbrev pub arith_of : Floats → FloatType → FloatArith
arith_of fl f32 = fl.single
arith_of fl f64 = fl.double

abbrev pub float_bytes : FloatType → ℕ
float_bytes f32 = 4
float_bytes f64 = 8

-- The comparisons `b == a` … `b >= a`.
unfoldable pub float_compare_op : FloatArith → FloatCompare → ℕ → ℕ → Bool
float_compare_op f FloatCompare.eq b a = f.feq b a
float_compare_op f FloatCompare.ne b a = not (f.feq b a)
float_compare_op f FloatCompare.lt b a = f.flt b a
float_compare_op f FloatCompare.gt b a = f.flt a b
float_compare_op f FloatCompare.le b a = f.fle b a
float_compare_op f FloatCompare.ge b a = f.fle a b

-- `nearest` is `roundf` or `round`.
unfoldable pub float_unary_op : FloatArith → FloatUnary → ℕ → ℕ
float_unary_op f abs a = f.fabs a
float_unary_op f neg a = f.fneg a
float_unary_op f ceil a = f.fceil a
float_unary_op f floor a = f.ffloor a
float_unary_op f trunc a = f.ftrunc a
float_unary_op f nearest a = f.fround a
float_unary_op f sqrt a = f.fsqrt a

unfoldable pub float_binary_op : FloatArith → FloatBinary → ℕ → ℕ → ℕ
float_binary_op f FloatBinary.add b a = f.fadd b a
float_binary_op f FloatBinary.sub b a = f.fsub b a
float_binary_op f FloatBinary.mul b a = f.fmul b a
float_binary_op f FloatBinary.div b a = f.fdiv b a
float_binary_op f FloatBinary.min b a = if f.flt b a then b else a
float_binary_op f FloatBinary.max b a = if f.flt a b then b else a
float_binary_op f FloatBinary.copysign b a = f.fcopysign b a
