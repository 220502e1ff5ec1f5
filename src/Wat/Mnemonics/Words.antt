-- ===== src/Wat/Mnemonics/Words.antt =====
-- The names that WebAssembly's text format gives to the instructions of include/deep_opcode.h,
-- after the constructors of Opcode/Kinds: what the table of src/deep_wat.c should say.
use deepvm.Base.{ℕ, List, [], ◌∷◌, ◌++◌}
use deepvm.Opcode.Kinds.{
  Opcode, IntType, FloatType, Control, Load, Store, Const, IntCompare, IntUnary, IntBinary,
  FloatCompare, FloatUnary, FloatBinary, Conversion, control, load, store, const, int_compare,
  int_unary, int_binary, float_compare, float_unary, float_binary, convert, abs, and, ceil, clz,
  copysign, ctz, div, divs, divu, eqz, f32, f32_const, f32_convert_i32_s, f32_convert_i32_u,
  f32_convert_i64_s, f32_convert_i64_u, f32_demote_f64, f32_load, f32_reinterpret_i32, f32_store,
  f64, f64_const, f64_convert_i32_s, f64_convert_i32_u, f64_convert_i64_s, f64_convert_i64_u,
  f64_load, f64_promote_f32, f64_reinterpret_i64, f64_store, floor, ge, ges, geu, gt, gts, gtu, i32,
  i32_const, i32_load, i32_load16_s, i32_load16_u, i32_load8_s, i32_load8_u, i32_reinterpret_f32,
  i32_store, i32_store16, i32_store8, i32_trunc_f32_s, i32_trunc_f32_u, i32_trunc_f64_s,
  i32_trunc_f64_u, i32_wrap_i64, i64, i64_const, i64_extend_i32_s, i64_extend_i32_u, i64_load,
  i64_load16_s, i64_load16_u, i64_load32_s, i64_load32_u, i64_load8_s, i64_load8_u,
  i64_reinterpret_f64, i64_store, i64_store16, i64_store32, i64_store8, i64_trunc_f32_s,
  i64_trunc_f32_u, i64_trunc_f64_s, i64_trunc_f64_u, le, les, leu, lt, lts, ltu, max, memory_grow,
  memory_size, min, nearest, neg, op_block, op_br, op_br_if, op_br_table, op_call, op_call_indirect,
  op_drop, op_else, op_end, op_global_get, op_global_set, op_if, op_local_get, op_local_set,
  op_local_tee, op_loop, op_nop, op_return, op_select, op_unreachable, or, popcnt, rems, remu, rotl,
  rotr, shl, shrs, shru, sqrt, trunc, xor,
}

unfoldable pub int_type_word : IntType → List ℕ
int_type_word i32 = b'i' ∷ b'3' ∷ b'2' ∷ b'.' ∷ []
int_type_word i64 = b'i' ∷ b'6' ∷ b'4' ∷ b'.' ∷ []

unfoldable pub float_type_word : FloatType → List ℕ
float_type_word f32 = b'f' ∷ b'3' ∷ b'2' ∷ b'.' ∷ []
float_type_word f64 = b'f' ∷ b'6' ∷ b'4' ∷ b'.' ∷ []

unfoldable pub control_word : Control → List ℕ
control_word op_unreachable =
    b'u' ∷ b'n' ∷ b'r' ∷ b'e' ∷ b'a' ∷ b'c' ∷ b'h' ∷ b'a' ∷ b'b' ∷ b'l' ∷ b'e' ∷ []
control_word op_nop = b'n' ∷ b'o' ∷ b'p' ∷ []
control_word op_block = b'b' ∷ b'l' ∷ b'o' ∷ b'c' ∷ b'k' ∷ []
control_word op_loop = b'l' ∷ b'o' ∷ b'o' ∷ b'p' ∷ []
control_word op_if = b'i' ∷ b'f' ∷ []
control_word op_else = b'e' ∷ b'l' ∷ b's' ∷ b'e' ∷ []
control_word op_end = b'e' ∷ b'n' ∷ b'd' ∷ []
control_word op_br = b'b' ∷ b'r' ∷ []
control_word op_br_if = b'b' ∷ b'r' ∷ b'_' ∷ b'i' ∷ b'f' ∷ []
control_word op_br_table = b'b' ∷ b'r' ∷ b'_' ∷ b't' ∷ b'a' ∷ b'b' ∷ b'l' ∷ b'e' ∷ []
control_word op_return = b'r' ∷ b'e' ∷ b't' ∷ b'u' ∷ b'r' ∷ b'n' ∷ []
control_word op_call = b'c' ∷ b'a' ∷ b'l' ∷ b'l' ∷ []
control_word op_call_indirect =
    b'c' ∷ b'a' ∷ b'l' ∷ b'l' ∷ b'_' ∷ b'i' ∷ b'n' ∷ b'd' ∷ b'i' ∷ b'r' ∷ b'e' ∷ b'c' ∷ b't' ∷ []
control_word op_drop = b'd' ∷ b'r' ∷ b'o' ∷ b'p' ∷ []
control_word op_select = b's' ∷ b'e' ∷ b'l' ∷ b'e' ∷ b'c' ∷ b't' ∷ []
control_word op_local_get = b'l' ∷ b'o' ∷ b'c' ∷ b'a' ∷ b'l' ∷ b'.' ∷ b'g' ∷ b'e' ∷ b't' ∷ []
control_word op_local_set = b'l' ∷ b'o' ∷ b'c' ∷ b'a' ∷ b'l' ∷ b'.' ∷ b's' ∷ b'e' ∷ b't' ∷ []
control_word op_local_tee = b'l' ∷ b'o' ∷ b'c' ∷ b'a' ∷ b'l' ∷ b'.' ∷ b't' ∷ b'e' ∷ b'e' ∷ []
control_word op_global_get =
    b'g' ∷ b'l' ∷ b'o' ∷ b'b' ∷ b'a' ∷ b'l' ∷ b'.' ∷ b'g' ∷ b'e' ∷ b't' ∷ []
control_word op_global_set =
    b'g' ∷ b'l' ∷ b'o' ∷ b'b' ∷ b'a' ∷ b'l' ∷ b'.' ∷ b's' ∷ b'e' ∷ b't' ∷ []
control_word memory_size =
    b'm' ∷ b'e' ∷ b'm' ∷ b'o' ∷ b'r' ∷ b'y' ∷ b'.' ∷ b's' ∷ b'i' ∷ b'z' ∷ b'e' ∷ []
control_word memory_grow =
    b'm' ∷ b'e' ∷ b'm' ∷ b'o' ∷ b'r' ∷ b'y' ∷ b'.' ∷ b'g' ∷ b'r' ∷ b'o' ∷ b'w' ∷ []

unfoldable pub load_word : Load → List ℕ
load_word i32_load = b'i' ∷ b'3' ∷ b'2' ∷ b'.' ∷ b'l' ∷ b'o' ∷ b'a' ∷ b'd' ∷ []
load_word i64_load = b'i' ∷ b'6' ∷ b'4' ∷ b'.' ∷ b'l' ∷ b'o' ∷ b'a' ∷ b'd' ∷ []
load_word f32_load = b'f' ∷ b'3' ∷ b'2' ∷ b'.' ∷ b'l' ∷ b'o' ∷ b'a' ∷ b'd' ∷ []
load_word f64_load = b'f' ∷ b'6' ∷ b'4' ∷ b'.' ∷ b'l' ∷ b'o' ∷ b'a' ∷ b'd' ∷ []
load_word i32_load8_s =
    b'i' ∷ b'3' ∷ b'2' ∷ b'.' ∷ b'l' ∷ b'o' ∷ b'a' ∷ b'd' ∷ b'8' ∷ b'_' ∷ b's' ∷ []
load_word i32_load8_u =
    b'i' ∷ b'3' ∷ b'2' ∷ b'.' ∷ b'l' ∷ b'o' ∷ b'a' ∷ b'd' ∷ b'8' ∷ b'_' ∷ b'u' ∷ []
load_word i32_load16_s =
    b'i' ∷ b'3' ∷ b'2' ∷ b'.' ∷ b'l' ∷ b'o' ∷ b'a' ∷ b'd' ∷ b'1' ∷ b'6' ∷ b'_' ∷ b's' ∷ []
load_word i32_load16_u =
    b'i' ∷ b'3' ∷ b'2' ∷ b'.' ∷ b'l' ∷ b'o' ∷ b'a' ∷ b'd' ∷ b'1' ∷ b'6' ∷ b'_' ∷ b'u' ∷ []
load_word i64_load8_s =
    b'i' ∷ b'6' ∷ b'4' ∷ b'.' ∷ b'l' ∷ b'o' ∷ b'a' ∷ b'd' ∷ b'8' ∷ b'_' ∷ b's' ∷ []
load_word i64_load8_u =
    b'i' ∷ b'6' ∷ b'4' ∷ b'.' ∷ b'l' ∷ b'o' ∷ b'a' ∷ b'd' ∷ b'8' ∷ b'_' ∷ b'u' ∷ []
load_word i64_load16_s =
    b'i' ∷ b'6' ∷ b'4' ∷ b'.' ∷ b'l' ∷ b'o' ∷ b'a' ∷ b'd' ∷ b'1' ∷ b'6' ∷ b'_' ∷ b's' ∷ []
load_word i64_load16_u =
    b'i' ∷ b'6' ∷ b'4' ∷ b'.' ∷ b'l' ∷ b'o' ∷ b'a' ∷ b'd' ∷ b'1' ∷ b'6' ∷ b'_' ∷ b'u' ∷ []
load_word i64_load32_s =
    b'i' ∷ b'6' ∷ b'4' ∷ b'.' ∷ b'l' ∷ b'o' ∷ b'a' ∷ b'd' ∷ b'3' ∷ b'2' ∷ b'_' ∷ b's' ∷ []
load_word i64_load32_u =
    b'i' ∷ b'6' ∷ b'4' ∷ b'.' ∷ b'l' ∷ b'o' ∷ b'a' ∷ b'd' ∷ b'3' ∷ b'2' ∷ b'_' ∷ b'u' ∷ []

unfoldable pub store_word : Store → List ℕ
store_word i32_store = b'i' ∷ b'3' ∷ b'2' ∷ b'.' ∷ b's' ∷ b't' ∷ b'o' ∷ b'r' ∷ b'e' ∷ []
store_word i64_store = b'i' ∷ b'6' ∷ b'4' ∷ b'.' ∷ b's' ∷ b't' ∷ b'o' ∷ b'r' ∷ b'e' ∷ []
store_word f32_store = b'f' ∷ b'3' ∷ b'2' ∷ b'.' ∷ b's' ∷ b't' ∷ b'o' ∷ b'r' ∷ b'e' ∷ []
store_word f64_store = b'f' ∷ b'6' ∷ b'4' ∷ b'.' ∷ b's' ∷ b't' ∷ b'o' ∷ b'r' ∷ b'e' ∷ []
store_word i32_store8 = b'i' ∷ b'3' ∷ b'2' ∷ b'.' ∷ b's' ∷ b't' ∷ b'o' ∷ b'r' ∷ b'e' ∷ b'8' ∷ []
store_word i32_store16 =
    b'i' ∷ b'3' ∷ b'2' ∷ b'.' ∷ b's' ∷ b't' ∷ b'o' ∷ b'r' ∷ b'e' ∷ b'1' ∷ b'6' ∷ []
store_word i64_store8 = b'i' ∷ b'6' ∷ b'4' ∷ b'.' ∷ b's' ∷ b't' ∷ b'o' ∷ b'r' ∷ b'e' ∷ b'8' ∷ []
store_word i64_store16 =
    b'i' ∷ b'6' ∷ b'4' ∷ b'.' ∷ b's' ∷ b't' ∷ b'o' ∷ b'r' ∷ b'e' ∷ b'1' ∷ b'6' ∷ []
store_word i64_store32 =
    b'i' ∷ b'6' ∷ b'4' ∷ b'.' ∷ b's' ∷ b't' ∷ b'o' ∷ b'r' ∷ b'e' ∷ b'3' ∷ b'2' ∷ []

unfoldable pub const_word : Const → List ℕ
const_word i32_const = b'i' ∷ b'3' ∷ b'2' ∷ b'.' ∷ b'c' ∷ b'o' ∷ b'n' ∷ b's' ∷ b't' ∷ []
const_word i64_const = b'i' ∷ b'6' ∷ b'4' ∷ b'.' ∷ b'c' ∷ b'o' ∷ b'n' ∷ b's' ∷ b't' ∷ []
const_word f32_const = b'f' ∷ b'3' ∷ b'2' ∷ b'.' ∷ b'c' ∷ b'o' ∷ b'n' ∷ b's' ∷ b't' ∷ []
const_word f64_const = b'f' ∷ b'6' ∷ b'4' ∷ b'.' ∷ b'c' ∷ b'o' ∷ b'n' ∷ b's' ∷ b't' ∷ []

unfoldable pub int_compare_word : IntCompare → List ℕ
int_compare_word eqz = b'e' ∷ b'q' ∷ b'z' ∷ []
int_compare_word IntCompare.eq = b'e' ∷ b'q' ∷ []
int_compare_word IntCompare.ne = b'n' ∷ b'e' ∷ []
int_compare_word lts = b'l' ∷ b't' ∷ b'_' ∷ b's' ∷ []
int_compare_word ltu = b'l' ∷ b't' ∷ b'_' ∷ b'u' ∷ []
int_compare_word gts = b'g' ∷ b't' ∷ b'_' ∷ b's' ∷ []
int_compare_word gtu = b'g' ∷ b't' ∷ b'_' ∷ b'u' ∷ []
int_compare_word les = b'l' ∷ b'e' ∷ b'_' ∷ b's' ∷ []
int_compare_word leu = b'l' ∷ b'e' ∷ b'_' ∷ b'u' ∷ []
int_compare_word ges = b'g' ∷ b'e' ∷ b'_' ∷ b's' ∷ []
int_compare_word geu = b'g' ∷ b'e' ∷ b'_' ∷ b'u' ∷ []

unfoldable pub int_unary_word : IntUnary → List ℕ
int_unary_word clz = b'c' ∷ b'l' ∷ b'z' ∷ []
int_unary_word ctz = b'c' ∷ b't' ∷ b'z' ∷ []
int_unary_word popcnt = b'p' ∷ b'o' ∷ b'p' ∷ b'c' ∷ b'n' ∷ b't' ∷ []

unfoldable pub int_binary_word : IntBinary → List ℕ
int_binary_word IntBinary.add = b'a' ∷ b'd' ∷ b'd' ∷ []
int_binary_word IntBinary.sub = b's' ∷ b'u' ∷ b'b' ∷ []
int_binary_word IntBinary.mul = b'm' ∷ b'u' ∷ b'l' ∷ []
int_binary_word divs = b'd' ∷ b'i' ∷ b'v' ∷ b'_' ∷ b's' ∷ []
int_binary_word divu = b'd' ∷ b'i' ∷ b'v' ∷ b'_' ∷ b'u' ∷ []
int_binary_word rems = b'r' ∷ b'e' ∷ b'm' ∷ b'_' ∷ b's' ∷ []
int_binary_word remu = b'r' ∷ b'e' ∷ b'm' ∷ b'_' ∷ b'u' ∷ []
int_binary_word and = b'a' ∷ b'n' ∷ b'd' ∷ []
int_binary_word or = b'o' ∷ b'r' ∷ []
int_binary_word xor = b'x' ∷ b'o' ∷ b'r' ∷ []
int_binary_word shl = b's' ∷ b'h' ∷ b'l' ∷ []
int_binary_word shrs = b's' ∷ b'h' ∷ b'r' ∷ b'_' ∷ b's' ∷ []
int_binary_word shru = b's' ∷ b'h' ∷ b'r' ∷ b'_' ∷ b'u' ∷ []
int_binary_word rotl = b'r' ∷ b'o' ∷ b't' ∷ b'l' ∷ []
int_binary_word rotr = b'r' ∷ b'o' ∷ b't' ∷ b'r' ∷ []

unfoldable pub float_compare_word : FloatCompare → List ℕ
float_compare_word FloatCompare.eq = b'e' ∷ b'q' ∷ []
float_compare_word FloatCompare.ne = b'n' ∷ b'e' ∷ []
float_compare_word lt = b'l' ∷ b't' ∷ []
float_compare_word gt = b'g' ∷ b't' ∷ []
float_compare_word le = b'l' ∷ b'e' ∷ []
float_compare_word ge = b'g' ∷ b'e' ∷ []

unfoldable pub float_unary_word : FloatUnary → List ℕ
float_unary_word abs = b'a' ∷ b'b' ∷ b's' ∷ []
float_unary_word neg = b'n' ∷ b'e' ∷ b'g' ∷ []
float_unary_word ceil = b'c' ∷ b'e' ∷ b'i' ∷ b'l' ∷ []
float_unary_word floor = b'f' ∷ b'l' ∷ b'o' ∷ b'o' ∷ b'r' ∷ []
float_unary_word trunc = b't' ∷ b'r' ∷ b'u' ∷ b'n' ∷ b'c' ∷ []
float_unary_word nearest = b'n' ∷ b'e' ∷ b'a' ∷ b'r' ∷ b'e' ∷ b's' ∷ b't' ∷ []
float_unary_word sqrt = b's' ∷ b'q' ∷ b'r' ∷ b't' ∷ []

unfoldable pub float_binary_word : FloatBinary → List ℕ
float_binary_word FloatBinary.add = b'a' ∷ b'd' ∷ b'd' ∷ []
float_binary_word FloatBinary.sub = b's' ∷ b'u' ∷ b'b' ∷ []
float_binary_word FloatBinary.mul = b'm' ∷ b'u' ∷ b'l' ∷ []
float_binary_word div = b'd' ∷ b'i' ∷ b'v' ∷ []
float_binary_word min = b'm' ∷ b'i' ∷ b'n' ∷ []
float_binary_word max = b'm' ∷ b'a' ∷ b'x' ∷ []
float_binary_word copysign = b'c' ∷ b'o' ∷ b'p' ∷ b'y' ∷ b's' ∷ b'i' ∷ b'g' ∷ b'n' ∷ []

unfoldable pub conversion_word : Conversion → List ℕ
conversion_word i32_wrap_i64 =
    b'i' ∷ b'3' ∷ b'2' ∷ b'.' ∷ b'w' ∷ b'r' ∷ b'a' ∷ b'p' ∷ b'_' ∷ b'i' ∷ b'6' ∷ b'4' ∷ []
conversion_word i32_trunc_f32_s =
    b'i' ∷ b'3' ∷ b'2' ∷ b'.' ∷ b't' ∷ b'r' ∷ b'u' ∷ b'n' ∷ b'c' ∷ b'_' ∷ b'f' ∷ b'3' ∷ b'2' ∷ b'_'
    ∷ b's' ∷ []
conversion_word i32_trunc_f32_u =
    b'i' ∷ b'3' ∷ b'2' ∷ b'.' ∷ b't' ∷ b'r' ∷ b'u' ∷ b'n' ∷ b'c' ∷ b'_' ∷ b'f' ∷ b'3' ∷ b'2' ∷ b'_'
    ∷ b'u' ∷ []
conversion_word i32_trunc_f64_s =
    b'i' ∷ b'3' ∷ b'2' ∷ b'.' ∷ b't' ∷ b'r' ∷ b'u' ∷ b'n' ∷ b'c' ∷ b'_' ∷ b'f' ∷ b'6' ∷ b'4' ∷ b'_'
    ∷ b's' ∷ []
conversion_word i32_trunc_f64_u =
    b'i' ∷ b'3' ∷ b'2' ∷ b'.' ∷ b't' ∷ b'r' ∷ b'u' ∷ b'n' ∷ b'c' ∷ b'_' ∷ b'f' ∷ b'6' ∷ b'4' ∷ b'_'
    ∷ b'u' ∷ []
conversion_word i64_extend_i32_s =
    b'i' ∷ b'6' ∷ b'4' ∷ b'.' ∷ b'e' ∷ b'x' ∷ b't' ∷ b'e' ∷ b'n' ∷ b'd' ∷ b'_' ∷ b'i' ∷ b'3' ∷ b'2'
    ∷ b'_' ∷ b's' ∷ []
conversion_word i64_extend_i32_u =
    b'i' ∷ b'6' ∷ b'4' ∷ b'.' ∷ b'e' ∷ b'x' ∷ b't' ∷ b'e' ∷ b'n' ∷ b'd' ∷ b'_' ∷ b'i' ∷ b'3' ∷ b'2'
    ∷ b'_' ∷ b'u' ∷ []
conversion_word i64_trunc_f32_s =
    b'i' ∷ b'6' ∷ b'4' ∷ b'.' ∷ b't' ∷ b'r' ∷ b'u' ∷ b'n' ∷ b'c' ∷ b'_' ∷ b'f' ∷ b'3' ∷ b'2' ∷ b'_'
    ∷ b's' ∷ []
conversion_word i64_trunc_f32_u =
    b'i' ∷ b'6' ∷ b'4' ∷ b'.' ∷ b't' ∷ b'r' ∷ b'u' ∷ b'n' ∷ b'c' ∷ b'_' ∷ b'f' ∷ b'3' ∷ b'2' ∷ b'_'
    ∷ b'u' ∷ []
conversion_word i64_trunc_f64_s =
    b'i' ∷ b'6' ∷ b'4' ∷ b'.' ∷ b't' ∷ b'r' ∷ b'u' ∷ b'n' ∷ b'c' ∷ b'_' ∷ b'f' ∷ b'6' ∷ b'4' ∷ b'_'
    ∷ b's' ∷ []
conversion_word i64_trunc_f64_u =
    b'i' ∷ b'6' ∷ b'4' ∷ b'.' ∷ b't' ∷ b'r' ∷ b'u' ∷ b'n' ∷ b'c' ∷ b'_' ∷ b'f' ∷ b'6' ∷ b'4' ∷ b'_'
    ∷ b'u' ∷ []
conversion_word f32_convert_i32_s =
    b'f' ∷ b'3' ∷ b'2' ∷ b'.' ∷ b'c' ∷ b'o' ∷ b'n' ∷ b'v' ∷ b'e' ∷ b'r' ∷ b't' ∷ b'_' ∷ b'i' ∷ b'3'
    ∷ b'2' ∷ b'_' ∷ b's' ∷ []
conversion_word f32_convert_i32_u =
    b'f' ∷ b'3' ∷ b'2' ∷ b'.' ∷ b'c' ∷ b'o' ∷ b'n' ∷ b'v' ∷ b'e' ∷ b'r' ∷ b't' ∷ b'_' ∷ b'i' ∷ b'3'
    ∷ b'2' ∷ b'_' ∷ b'u' ∷ []
conversion_word f32_convert_i64_s =
    b'f' ∷ b'3' ∷ b'2' ∷ b'.' ∷ b'c' ∷ b'o' ∷ b'n' ∷ b'v' ∷ b'e' ∷ b'r' ∷ b't' ∷ b'_' ∷ b'i' ∷ b'6'
    ∷ b'4' ∷ b'_' ∷ b's' ∷ []
conversion_word f32_convert_i64_u =
    b'f' ∷ b'3' ∷ b'2' ∷ b'.' ∷ b'c' ∷ b'o' ∷ b'n' ∷ b'v' ∷ b'e' ∷ b'r' ∷ b't' ∷ b'_' ∷ b'i' ∷ b'6'
    ∷ b'4' ∷ b'_' ∷ b'u' ∷ []
conversion_word f32_demote_f64 =
    b'f' ∷ b'3' ∷ b'2' ∷ b'.' ∷ b'd' ∷ b'e' ∷ b'm' ∷ b'o' ∷ b't' ∷ b'e' ∷ b'_' ∷ b'f' ∷ b'6' ∷ b'4'
    ∷ []
conversion_word f64_convert_i32_s =
    b'f' ∷ b'6' ∷ b'4' ∷ b'.' ∷ b'c' ∷ b'o' ∷ b'n' ∷ b'v' ∷ b'e' ∷ b'r' ∷ b't' ∷ b'_' ∷ b'i' ∷ b'3'
    ∷ b'2' ∷ b'_' ∷ b's' ∷ []
conversion_word f64_convert_i32_u =
    b'f' ∷ b'6' ∷ b'4' ∷ b'.' ∷ b'c' ∷ b'o' ∷ b'n' ∷ b'v' ∷ b'e' ∷ b'r' ∷ b't' ∷ b'_' ∷ b'i' ∷ b'3'
    ∷ b'2' ∷ b'_' ∷ b'u' ∷ []
conversion_word f64_convert_i64_s =
    b'f' ∷ b'6' ∷ b'4' ∷ b'.' ∷ b'c' ∷ b'o' ∷ b'n' ∷ b'v' ∷ b'e' ∷ b'r' ∷ b't' ∷ b'_' ∷ b'i' ∷ b'6'
    ∷ b'4' ∷ b'_' ∷ b's' ∷ []
conversion_word f64_convert_i64_u =
    b'f' ∷ b'6' ∷ b'4' ∷ b'.' ∷ b'c' ∷ b'o' ∷ b'n' ∷ b'v' ∷ b'e' ∷ b'r' ∷ b't' ∷ b'_' ∷ b'i' ∷ b'6'
    ∷ b'4' ∷ b'_' ∷ b'u' ∷ []
conversion_word f64_promote_f32 =
    b'f' ∷ b'6' ∷ b'4' ∷ b'.' ∷ b'p' ∷ b'r' ∷ b'o' ∷ b'm' ∷ b'o' ∷ b't' ∷ b'e' ∷ b'_' ∷ b'f' ∷ b'3'
    ∷ b'2' ∷ []
conversion_word i32_reinterpret_f32 =
    b'i' ∷ b'3' ∷ b'2' ∷ b'.' ∷ b'r' ∷ b'e' ∷ b'i' ∷ b'n' ∷ b't' ∷ b'e' ∷ b'r' ∷ b'p' ∷ b'r' ∷ b'e'
    ∷ b't' ∷ b'_' ∷ b'f' ∷ b'3' ∷ b'2' ∷ []
conversion_word i64_reinterpret_f64 =
    b'i' ∷ b'6' ∷ b'4' ∷ b'.' ∷ b'r' ∷ b'e' ∷ b'i' ∷ b'n' ∷ b't' ∷ b'e' ∷ b'r' ∷ b'p' ∷ b'r' ∷ b'e'
    ∷ b't' ∷ b'_' ∷ b'f' ∷ b'6' ∷ b'4' ∷ []
conversion_word f32_reinterpret_i32 =
    b'f' ∷ b'3' ∷ b'2' ∷ b'.' ∷ b'r' ∷ b'e' ∷ b'i' ∷ b'n' ∷ b't' ∷ b'e' ∷ b'r' ∷ b'p' ∷ b'r' ∷ b'e'
    ∷ b't' ∷ b'_' ∷ b'i' ∷ b'3' ∷ b'2' ∷ []
conversion_word f64_reinterpret_i64 =
    b'f' ∷ b'6' ∷ b'4' ∷ b'.' ∷ b'r' ∷ b'e' ∷ b'i' ∷ b'n' ∷ b't' ∷ b'e' ∷ b'r' ∷ b'p' ∷ b'r' ∷ b'e'
    ∷ b't' ∷ b'_' ∷ b'i' ∷ b'6' ∷ b'4' ∷ []

unfoldable pub word_of : Opcode → List ℕ
word_of (control o) = control_word o
word_of (load o) = load_word o
word_of (store o) = store_word o
word_of (const o) = const_word o
word_of (int_compare t o) = int_type_word t ++ int_compare_word o
word_of (int_unary t o) = int_type_word t ++ int_unary_word o
word_of (int_binary t o) = int_type_word t ++ int_binary_word o
word_of (float_compare t o) = float_type_word t ++ float_compare_word o
word_of (float_unary t o) = float_type_word t ++ float_unary_word o
word_of (float_binary t o) = float_type_word t ++ float_binary_word o
word_of (convert o) = conversion_word o
