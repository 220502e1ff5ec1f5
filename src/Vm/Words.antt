-- ===== src/Vm/Words.antt =====
-- The integer instructions of src/deep_interp.c on words of 32 and 64 bits, as C computes them.
-- `b` is the operand that was pushed first. `w` is the width.
use deepvm.Base.{
  ℕ, zero, suc, ◌+◌, ◌-◌, ◌*◌, ◌/◌, ◌%◌, ◌^◌, bit_and, bit_or, bit_xor, Bool, true, false, ◌&&◌,
  ltb, leb, ◌==◌, if◌then◌else◌, div_by_zero, rem_by_zero, undefined, Result, ok, err,
}
use deepvm.Vm.Int.{signed, magnitude, ◌<?ℤ◌, ◌≤?ℤ◌}
use deepvm.Opcode.Kinds.{
  IntType, i32, i64, IntCompare, eqz, eq, ne, lts, ltu, gts, gtu, les, leu, ges, geu, IntUnary, clz,
  ctz, popcnt, IntBinary, add, sub, mul, divs, divu, rems, remu, and, or, xor, shl, shrs, shru,
  rotl, rotr,
}

abbrev pub width : IntType → ℕ
width i32 = 32
width i64 = 64

abbrev pub bytes_of : IntType → ℕ
bytes_of i32 = 4
bytes_of i64 = 8

-- `-x` and `x << k` in an unsigned type.
abbrev pub negate : ℕ → ℕ → ℕ
negate w x = (2 ^ w - x) % 2 ^ w

abbrev pub shift_left : ℕ → ℕ → ℕ → ℕ
shift_left w x k = x * 2 ^ k % 2 ^ w

abbrev pub shift_right : ℕ → ℕ → ℕ
shift_right x k = x / 2 ^ k

-- The quotient of signed numbers, truncated towards zero, of non-zero `a`.
unfoldable pub div_signed : ℕ → ℕ → ℕ → ℕ
div_signed w b a =
    let q = magnitude (signed w b) / magnitude (signed w a) in
    if ltb b (2 ^ (w - 1))
    then if ltb a (2 ^ (w - 1)) then q else negate w q
    else if ltb a (2 ^ (w - 1))
    then negate w q
    else q

-- The remainder has the sign of the dividend.
unfoldable pub rem_signed : ℕ → ℕ → ℕ → ℕ
rem_signed w b a =
    let r = magnitude (signed w b) % magnitude (signed w a) in
    if ltb b (2 ^ (w - 1)) then r else negate w r

-- The most negative number divided by -1 overflows, which C leaves undefined.
abbrev pub division_overflows : ℕ → ℕ → ℕ → Bool
division_overflows w b a = (b == 2 ^ (w - 1)) && (a == 2 ^ w - 1)

-- `DIVIDE` and `MODULUS`, signed and unsigned.
unfoldable pub divide_s : ℕ → ℕ → ℕ → Result ℕ
divide_s w b a =
    if a == 0
    then err div_by_zero
    else if division_overflows w b a
    then err undefined
    else ok (div_signed w b a)

unfoldable pub divide_u : ℕ → ℕ → Result ℕ
divide_u b a = if a == 0 then err div_by_zero else ok (b / a)

unfoldable pub modulus_s : ℕ → ℕ → ℕ → Result ℕ
modulus_s w b a =
    if a == 0
    then err rem_by_zero
    else if division_overflows w b a
    then err undefined
    else ok (rem_signed w b a)

unfoldable pub modulus_u : ℕ → ℕ → Result ℕ
modulus_u b a = if a == 0 then err rem_by_zero else ok (b % a)

-- `i32_shrs` and `i64_shrs`: a logical shift, with ones put in front of a negative number.
unfoldable pub shift_right_signed : ℕ → ℕ → ℕ → ℕ
shift_right_signed w b a =
    let n = a % w in
    if n == 0
    then b
    else bit_or (shift_right b n)
        (if bit_and b (2 ^ (w - 1)) == 0 then 0 else shift_left w (2 ^ w - 1) (w - n))

unfoldable pub rotate_left : ℕ → ℕ → ℕ → ℕ
rotate_left w b a =
    let n = a % w in bit_or (shift_left w b n) (shift_right b (bit_and (w - n) (w - 1)))

unfoldable pub rotate_right : ℕ → ℕ → ℕ → ℕ
rotate_right w b a =
    let n = a % w in bit_or (shift_right b n) (shift_left w b (bit_and (w - n) (w - 1)))

-- The two-operand arithmetic.
unfoldable pub int_binary_op : ℕ → IntBinary → ℕ → ℕ → Result ℕ
int_binary_op w add b a = ok ((a + b) % 2 ^ w)
int_binary_op w sub b a = ok ((b + 2 ^ w - a) % 2 ^ w)
int_binary_op w mul b a = ok (b * a % 2 ^ w)
int_binary_op w divs b a = divide_s w b a
int_binary_op w divu b a = divide_u b a
int_binary_op w rems b a = modulus_s w b a
int_binary_op w remu b a = modulus_u b a
int_binary_op w and b a = ok (bit_and b a)
int_binary_op w or b a = ok (bit_or b a)
int_binary_op w xor b a = ok (bit_xor b a)
int_binary_op w shl b a = ok (shift_left w b (a % w))
int_binary_op w shrs b a = ok (shift_right_signed w b a)
int_binary_op w shru b a = ok (shift_right b (a % w))
int_binary_op w rotl b a = ok (rotate_left w b a)
int_binary_op w rotr b a = ok (rotate_right w b a)

-- The comparisons. The operands of `gts` and `ges` are popped into unsigned variables, so that
-- these two compare as `gtu` and `geu` do. `eqz` has one operand only and never comes here.
unfoldable pub int_compare_op : ℕ → IntCompare → ℕ → ℕ → Bool
int_compare_op w eqz b a = a == 0
int_compare_op w eq b a = b == a
int_compare_op w ne b a = if b == a then false else true
int_compare_op w lts b a = signed w b <?ℤ signed w a
int_compare_op w ltu b a = ltb b a
int_compare_op w gts b a = ltb a b
int_compare_op w gtu b a = ltb a b
int_compare_op w les b a = signed w b ≤?ℤ signed w a
int_compare_op w leu b a = leb b a
int_compare_op w ges b a = leb a b
int_compare_op w geu b a = leb a b

-- `__builtin_clz`, `__builtin_ctz` and `__builtin_popcount` on the `k` low bits: the zeros above
-- the highest one, those below the lowest one, and the number of ones.
unfoldable pub leading_zeros : ℕ → ℕ → ℕ
leading_zeros zero x = 0
leading_zeros (suc k) x = if leb (2 ^ k) x then 0 else suc (leading_zeros k x)

unfoldable pub trailing_zeros : ℕ → ℕ → ℕ
trailing_zeros zero x = 0
trailing_zeros (suc k) x = if x % 2 == 1 then 0 else suc (trailing_zeros k (x / 2))

unfoldable pub ones : ℕ → ℕ → ℕ
ones zero x = 0
ones (suc k) x = x % 2 + ones k (x / 2)

unfoldable pub int_unary_op : ℕ → IntUnary → ℕ → ℕ
int_unary_op w clz a = if a == 0 then w else leading_zeros w a
int_unary_op w ctz a = if a == 0 then w else trailing_zeros w a
int_unary_op w popcnt a = ones w a
