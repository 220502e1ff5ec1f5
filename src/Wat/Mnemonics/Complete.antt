-- ===== src/Wat/Mnemonics/Complete.antt =====
-- The table of src/deep_wat.c has every instruction of include/deep_opcode.h, by its name and with
-- its byte.
use deepvm.Base.{ℕ, ◌≡◌, refl, some}
use deepvm.Opcode.Kinds.{
  Opcode, IntType, FloatType, Control, Load, Store, Const, IntCompare, IntUnary, IntBinary,
  FloatCompare, FloatUnary, FloatBinary, Conversion, i32, i64, f32, f64, control, load, store,
  const, int_compare, int_unary, int_binary, float_compare, float_unary, float_binary, convert, abs,
  and, ceil, clz, copysign, ctz, div, divs, divu, eqz, f32_const, f32_convert_i32_s,
  f32_convert_i32_u, f32_convert_i64_s, f32_convert_i64_u, f32_demote_f64, f32_load,
  f32_reinterpret_i32, f32_store, f64_const, f64_convert_i32_s, f64_convert_i32_u,
  f64_convert_i64_s, f64_convert_i64_u, f64_load, f64_promote_f32, f64_reinterpret_i64, f64_store,
  floor, ge, ges, geu, gt, gts, gtu, i32_const, i32_load, i32_load16_s, i32_load16_u, i32_load8_s,
  i32_load8_u, i32_reinterpret_f32, i32_store, i32_store16, i32_store8, i32_trunc_f32_s,
  i32_trunc_f32_u, i32_trunc_f64_s, i32_trunc_f64_u, i32_wrap_i64, i64_const, i64_extend_i32_s,
  i64_extend_i32_u, i64_load, i64_load16_s, i64_load16_u, i64_load32_s, i64_load32_u, i64_load8_s,
  i64_load8_u, i64_reinterpret_f64, i64_store, i64_store16, i64_store32, i64_store8,
  i64_trunc_f32_s, i64_trunc_f32_u, i64_trunc_f64_s, i64_trunc_f64_u, le, les, leu, lt, lts, ltu,
  max, memory_grow, memory_size, min, nearest, neg, op_block, op_br, op_br_if, op_br_table, op_call,
  op_call_indirect, op_drop, op_else, op_end, op_global_get, op_global_set, op_if, op_local_get,
  op_local_set, op_local_tee, op_loop, op_nop, op_return, op_select, op_unreachable, or, popcnt,
  rems, remu, rotl, rotr, shl, shrs, shru, sqrt, trunc, xor,
}
use deepvm.Opcode.Table.{opcode_of, find_opcode}
use deepvm.Interp.Native.{same_string, same_bytes, c_string}
use deepvm.Wat.Mnemonics.{find_mnemonic, lookup_opcode}
use deepvm.Wat.Mnemonics.Words.{
  word_of, int_type_word, float_type_word, control_word, load_word, store_word, const_word,
  int_compare_word, int_unary_word, int_binary_word, float_compare_word, float_unary_word,
  float_binary_word, conversion_word,
}

-- The assembler's byte for the instruction's name is the interpreter's byte for the instruction.
abbrev IsAssembled : Opcode → Type 0
IsAssembled o = (op : ℕ) × (lookup_opcode (word_of o) ≡ some op) × (opcode_of op ≡ some o)

control-IsAssembled : (o : Control) → IsAssembled (control o)
unfolding lookup_opcode find_mnemonic same_string same_bytes c_string opcode_of find_opcode word_of
    control_word
control-IsAssembled op_unreachable = (0x00, refl, refl)
control-IsAssembled op_nop = (0x01, refl, refl)
control-IsAssembled op_block = (0x02, refl, refl)
control-IsAssembled op_loop = (0x03, refl, refl)
control-IsAssembled op_if = (0x04, refl, refl)
control-IsAssembled op_else = (0x05, refl, refl)
control-IsAssembled op_end = (0x0b, refl, refl)
control-IsAssembled op_br = (0x0c, refl, refl)
control-IsAssembled op_br_if = (0x0d, refl, refl)
control-IsAssembled op_br_table = (0x0e, refl, refl)
control-IsAssembled op_return = (0x0f, refl, refl)
control-IsAssembled op_call = (0x10, refl, refl)
control-IsAssembled op_call_indirect = (0x11, refl, refl)
control-IsAssembled op_drop = (0x1a, refl, refl)
control-IsAssembled op_select = (0x1b, refl, refl)
control-IsAssembled op_local_get = (0x20, refl, refl)
control-IsAssembled op_local_set = (0x21, refl, refl)
control-IsAssembled op_local_tee = (0x22, refl, refl)
control-IsAssembled op_global_get = (0x23, refl, refl)
control-IsAssembled op_global_set = (0x24, refl, refl)
control-IsAssembled memory_size = (0x3f, refl, refl)
control-IsAssembled memory_grow = (0x40, refl, refl)

load-IsAssembled : (o : Load) → IsAssembled (load o)
unfolding lookup_opcode find_mnemonic same_string same_bytes c_string opcode_of find_opcode word_of
    load_word
load-IsAssembled i32_load = (0x28, refl, refl)
load-IsAssembled i64_load = (0x29, refl, refl)
load-IsAssembled f32_load = (0x2a, refl, refl)
load-IsAssembled f64_load = (0x2b, refl, refl)
load-IsAssembled i32_load8_s = (0x2c, refl, refl)
load-IsAssembled i32_load8_u = (0x2d, refl, refl)
load-IsAssembled i32_load16_s = (0x2e, refl, refl)
load-IsAssembled i32_load16_u = (0x2f, refl, refl)
load-IsAssembled i64_load8_s = (0x30, refl, refl)
load-IsAssembled i64_load8_u = (0x31, refl, refl)
load-IsAssembled i64_load16_s = (0x32, refl, refl)
load-IsAssembled i64_load16_u = (0x33, refl, refl)
load-IsAssembled i64_load32_s = (0x34, refl, refl)
load-IsAssembled i64_load32_u = (0x35, refl, refl)

store-IsAssembled : (o : Store) → IsAssembled (store o)
unfolding lookup_opcode find_mnemonic same_string same_bytes c_string opcode_of find_opcode word_of
    store_word
store-IsAssembled i32_store = (0x36, refl, refl)
store-IsAssembled i64_store = (0x37, refl, refl)
store-IsAssembled f32_store = (0x38, refl, refl)
store-IsAssembled f64_store = (0x39, refl, refl)
store-IsAssembled i32_store8 = (0x3a, refl, refl)
store-IsAssembled i32_store16 = (0x3b, refl, refl)
store-IsAssembled i64_store8 = (0x3c, refl, refl)
store-IsAssembled i64_store16 = (0x3d, refl, refl)
store-IsAssembled i64_store32 = (0x3e, refl, refl)

const-IsAssembled : (o : Const) → IsAssembled (const o)
unfolding lookup_opcode find_mnemonic same_string same_bytes c_string opcode_of find_opcode word_of
    const_word
const-IsAssembled i32_const = (0x41, refl, refl)
const-IsAssembled i64_const = (0x42, refl, refl)
const-IsAssembled f32_const = (0x43, refl, refl)
const-IsAssembled f64_const = (0x44, refl, refl)

int_compare-IsAssembled : (t : IntType) (o : IntCompare) → IsAssembled (int_compare t o)
unfolding lookup_opcode find_mnemonic same_string same_bytes c_string opcode_of find_opcode word_of
    int_type_word int_compare_word
int_compare-IsAssembled i32 eqz = (0x45, refl, refl)
int_compare-IsAssembled i32 IntCompare.eq = (0x46, refl, refl)
int_compare-IsAssembled i32 IntCompare.ne = (0x47, refl, refl)
int_compare-IsAssembled i32 lts = (0x48, refl, refl)
int_compare-IsAssembled i32 ltu = (0x49, refl, refl)
int_compare-IsAssembled i32 gts = (0x4a, refl, refl)
int_compare-IsAssembled i32 gtu = (0x4b, refl, refl)
int_compare-IsAssembled i32 les = (0x4c, refl, refl)
int_compare-IsAssembled i32 leu = (0x4d, refl, refl)
int_compare-IsAssembled i32 ges = (0x4e, refl, refl)
int_compare-IsAssembled i32 geu = (0x4f, refl, refl)
int_compare-IsAssembled i64 eqz = (0x50, refl, refl)
int_compare-IsAssembled i64 IntCompare.eq = (0x51, refl, refl)
int_compare-IsAssembled i64 IntCompare.ne = (0x52, refl, refl)
int_compare-IsAssembled i64 lts = (0x53, refl, refl)
int_compare-IsAssembled i64 ltu = (0x54, refl, refl)
int_compare-IsAssembled i64 gts = (0x55, refl, refl)
int_compare-IsAssembled i64 gtu = (0x56, refl, refl)
int_compare-IsAssembled i64 les = (0x57, refl, refl)
int_compare-IsAssembled i64 leu = (0x58, refl, refl)
int_compare-IsAssembled i64 ges = (0x59, refl, refl)
int_compare-IsAssembled i64 geu = (0x5a, refl, refl)

int_unary-IsAssembled : (t : IntType) (o : IntUnary) → IsAssembled (int_unary t o)
unfolding lookup_opcode find_mnemonic same_string same_bytes c_string opcode_of find_opcode word_of
    int_type_word int_unary_word
int_unary-IsAssembled i32 clz = (0x67, refl, refl)
int_unary-IsAssembled i32 ctz = (0x68, refl, refl)
int_unary-IsAssembled i32 popcnt = (0x69, refl, refl)
int_unary-IsAssembled i64 clz = (0x79, refl, refl)
int_unary-IsAssembled i64 ctz = (0x7a, refl, refl)
int_unary-IsAssembled i64 popcnt = (0x7b, refl, refl)

int_binary-IsAssembled : (t : IntType) (o : IntBinary) → IsAssembled (int_binary t o)
unfolding lookup_opcode find_mnemonic same_string same_bytes c_string opcode_of find_opcode word_of
    int_type_word int_binary_word
int_binary-IsAssembled i32 IntBinary.add = (0x6a, refl, refl)
int_binary-IsAssembled i32 IntBinary.sub = (0x6b, refl, refl)
int_binary-IsAssembled i32 IntBinary.mul = (0x6c, refl, refl)
int_binary-IsAssembled i32 divs = (0x6d, refl, refl)
int_binary-IsAssembled i32 divu = (0x6e, refl, refl)
int_binary-IsAssembled i32 rems = (0x6f, refl, refl)
int_binary-IsAssembled i32 remu = (0x70, refl, refl)
int_binary-IsAssembled i32 and = (0x71, refl, refl)
int_binary-IsAssembled i32 or = (0x72, refl, refl)
int_binary-IsAssembled i32 xor = (0x73, refl, refl)
int_binary-IsAssembled i32 shl = (0x74, refl, refl)
int_binary-IsAssembled i32 shrs = (0x75, refl, refl)
int_binary-IsAssembled i32 shru = (0x76, refl, refl)
int_binary-IsAssembled i32 rotl = (0x77, refl, refl)
int_binary-IsAssembled i32 rotr = (0x78, refl, refl)
int_binary-IsAssembled i64 IntBinary.add = (0x7c, refl, refl)
int_binary-IsAssembled i64 IntBinary.sub = (0x7d, refl, refl)
int_binary-IsAssembled i64 IntBinary.mul = (0x7e, refl, refl)
int_binary-IsAssembled i64 divs = (0x7f, refl, refl)
int_binary-IsAssembled i64 divu = (0x80, refl, refl)
int_binary-IsAssembled i64 rems = (0x81, refl, refl)
int_binary-IsAssembled i64 remu = (0x82, refl, refl)
int_binary-IsAssembled i64 and = (0x83, refl, refl)
int_binary-IsAssembled i64 or = (0x84, refl, refl)
int_binary-IsAssembled i64 xor = (0x85, refl, refl)
int_binary-IsAssembled i64 shl = (0x86, refl, refl)
int_binary-IsAssembled i64 shrs = (0x87, refl, refl)
int_binary-IsAssembled i64 shru = (0x88, refl, refl)
int_binary-IsAssembled i64 rotl = (0x89, refl, refl)
int_binary-IsAssembled i64 rotr = (0x8a, refl, refl)

float_compare-IsAssembled : (t : FloatType) (o : FloatCompare) → IsAssembled (float_compare t o)
unfolding lookup_opcode find_mnemonic same_string same_bytes c_string opcode_of find_opcode word_of
    float_type_word float_compare_word
float_compare-IsAssembled f32 FloatCompare.eq = (0x5b, refl, refl)
float_compare-IsAssembled f32 FloatCompare.ne = (0x5c, refl, refl)
float_compare-IsAssembled f32 lt = (0x5d, refl, refl)
float_compare-IsAssembled f32 gt = (0x5e, refl, refl)
float_compare-IsAssembled f32 le = (0x5f, refl, refl)
float_compare-IsAssembled f32 ge = (0x60, refl, refl)
float_compare-IsAssembled f64 FloatCompare.eq = (0x61, refl, refl)
float_compare-IsAssembled f64 FloatCompare.ne = (0x62, refl, refl)
float_compare-IsAssembled f64 lt = (0x63, refl, refl)
float_compare-IsAssembled f64 gt = (0x64, refl, refl)
float_compare-IsAssembled f64 le = (0x65, refl, refl)
float_compare-IsAssembled f64 ge = (0x66, refl, refl)

float_unary-IsAssembled : (t : FloatType) (o : FloatUnary) → IsAssembled (float_unary t o)
unfolding lookup_opcode find_mnemonic same_string same_bytes c_string opcode_of find_opcode word_of
    float_type_word float_unary_word
float_unary-IsAssembled f32 abs = (0x8b, refl, refl)
float_unary-IsAssembled f32 neg = (0x8c, refl, refl)
float_unary-IsAssembled f32 ceil = (0x8d, refl, refl)
float_unary-IsAssembled f32 floor = (0x8e, refl, refl)
float_unary-IsAssembled f32 trunc = (0x8f, refl, refl)
float_unary-IsAssembled f32 nearest = (0x90, refl, refl)
float_unary-IsAssembled f32 sqrt = (0x91, refl, refl)
float_unary-IsAssembled f64 abs = (0x99, refl, refl)
float_unary-IsAssembled f64 neg = (0x9a, refl, refl)
float_unary-IsAssembled f64 ceil = (0x9b, refl, refl)
float_unary-IsAssembled f64 floor = (0x9c, refl, refl)
float_unary-IsAssembled f64 trunc = (0x9d, refl, refl)
float_unary-IsAssembled f64 nearest = (0x9e, refl, refl)
float_unary-IsAssembled f64 sqrt = (0x9f, refl, refl)

float_binary-IsAssembled : (t : FloatType) (o : FloatBinary) → IsAssembled (float_binary t o)
unfolding lookup_opcode find_mnemonic same_string same_bytes c_string opcode_of find_opcode word_of
    float_type_word float_binary_word
float_binary-IsAssembled f32 FloatBinary.add = (0x92, refl, refl)
float_binary-IsAssembled f32 FloatBinary.sub = (0x93, refl, refl)
float_binary-IsAssembled f32 FloatBinary.mul = (0x94, refl, refl)
float_binary-IsAssembled f32 div = (0x95, refl, refl)
float_binary-IsAssembled f32 min = (0x96, refl, refl)
float_binary-IsAssembled f32 max = (0x97, refl, refl)
float_binary-IsAssembled f32 copysign = (0x98, refl, refl)
float_binary-IsAssembled f64 FloatBinary.add = (0xa0, refl, refl)
float_binary-IsAssembled f64 FloatBinary.sub = (0xa1, refl, refl)
float_binary-IsAssembled f64 FloatBinary.mul = (0xa2, refl, refl)
float_binary-IsAssembled f64 div = (0xa3, refl, refl)
float_binary-IsAssembled f64 min = (0xa4, refl, refl)
float_binary-IsAssembled f64 max = (0xa5, refl, refl)
float_binary-IsAssembled f64 copysign = (0xa6, refl, refl)

convert-IsAssembled : (o : Conversion) → IsAssembled (convert o)
unfolding lookup_opcode find_mnemonic same_string same_bytes c_string opcode_of find_opcode word_of
    conversion_word
convert-IsAssembled i32_wrap_i64 = (0xa7, refl, refl)
convert-IsAssembled i32_trunc_f32_s = (0xa8, refl, refl)
convert-IsAssembled i32_trunc_f32_u = (0xa9, refl, refl)
convert-IsAssembled i32_trunc_f64_s = (0xaa, refl, refl)
convert-IsAssembled i32_trunc_f64_u = (0xab, refl, refl)
convert-IsAssembled i64_extend_i32_s = (0xac, refl, refl)
convert-IsAssembled i64_extend_i32_u = (0xad, refl, refl)
convert-IsAssembled i64_trunc_f32_s = (0xae, refl, refl)
convert-IsAssembled i64_trunc_f32_u = (0xaf, refl, refl)
convert-IsAssembled i64_trunc_f64_s = (0xb0, refl, refl)
convert-IsAssembled i64_trunc_f64_u = (0xb1, refl, refl)
convert-IsAssembled f32_convert_i32_s = (0xb2, refl, refl)
convert-IsAssembled f32_convert_i32_u = (0xb3, refl, refl)
convert-IsAssembled f32_convert_i64_s = (0xb4, refl, refl)
convert-IsAssembled f32_convert_i64_u = (0xb5, refl, refl)
convert-IsAssembled f32_demote_f64 = (0xb6, refl, refl)
convert-IsAssembled f64_convert_i32_s = (0xb7, refl, refl)
convert-IsAssembled f64_convert_i32_u = (0xb8, refl, refl)
convert-IsAssembled f64_convert_i64_s = (0xb9, refl, refl)
convert-IsAssembled f64_convert_i64_u = (0xba, refl, refl)
convert-IsAssembled f64_promote_f32 = (0xbb, refl, refl)
convert-IsAssembled i32_reinterpret_f32 = (0xbc, refl, refl)
convert-IsAssembled i64_reinterpret_f64 = (0xbd, refl, refl)
convert-IsAssembled f32_reinterpret_i32 = (0xbe, refl, refl)
convert-IsAssembled f64_reinterpret_i64 = (0xbf, refl, refl)

-- Every instruction of the interpreter can be written: the assembler finds the instruction's name,
-- and the byte that stands beside the name is the one that the interpreter takes for this
-- instruction.
pub lookup_opcode-word_of :
    (o : Opcode) → (op : ℕ) × (lookup_opcode (word_of o) ≡ some op) × (opcode_of op ≡ some o)
lookup_opcode-word_of (control o) = control-IsAssembled o
lookup_opcode-word_of (load o) = load-IsAssembled o
lookup_opcode-word_of (store o) = store-IsAssembled o
lookup_opcode-word_of (const o) = const-IsAssembled o
lookup_opcode-word_of (int_compare t o) = int_compare-IsAssembled t o
lookup_opcode-word_of (int_unary t o) = int_unary-IsAssembled t o
lookup_opcode-word_of (int_binary t o) = int_binary-IsAssembled t o
lookup_opcode-word_of (float_compare t o) = float_compare-IsAssembled t o
lookup_opcode-word_of (float_unary t o) = float_unary-IsAssembled t o
lookup_opcode-word_of (float_binary t o) = float_binary-IsAssembled t o
lookup_opcode-word_of (convert o) = convert-IsAssembled o
