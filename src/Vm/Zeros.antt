-- ===== src/Vm/Zeros.antt =====
-- What the counts of zeros say of a word.
use native.Mathlib.Nat.{pow-suc, div-div-eq-div-mul}
use native.Mathlib.Decide.{dec_le}
use deepvm.Base.{
  ℕ, zero, suc, ◌-◌, ◌*◌, ◌/◌, ◌%◌, ◌^◌, ◌≤◌, ◌<◌, ◌≡◌, true, false, leb, ◌==◌, Bool-cases, inl,
  inr, arith, pow-pos,
}
use deepvm.Vm.Words.{leading_zeros, trailing_zeros, int_unary_op}
use deepvm.Opcode.Kinds.{clz, ctz}

leading_zeros-bounds :
    (k x : ℕ)
    → 0 < x
    → x < 2 ^ k
    → (leading_zeros k x < k)
      × (2 ^ (k - 1 - leading_zeros k x) ≤ x)
      × (x < 2 ^ (k - leading_zeros k x))
unfolding leading_zeros
leading_zeros-bounds zero x pos fits = absurd (omega arith)
leading_zeros-bounds (suc k) x pos fits = elim (dec_le (2 ^ k) x) [
  | yes h ↦ let e : leb (2 ^ k) x ≡ true = ground arith in rw e (ground arith)
  | no h ↦
      let e : leb (2 ^ k) x ≡ false = ground arith in
      let ih = leading_zeros-bounds k x pos (omega arith) in rw e (ground (arith, ih))
]

-- `clz` of a word of `w` bits that is not 0 is the number of zeros above its highest one: with `z`
-- for the result, `z < w` and the word is at least 2 ^ (w - 1 - z) and below 2 ^ (w - z).
pub int_unary_op-clz :
    (w x : ℕ)
    → 0 < x
    → x < 2 ^ w
    → (int_unary_op w clz x < w)
      × (2 ^ (w - 1 - int_unary_op w clz x) ≤ x)
      × (x < 2 ^ (w - int_unary_op w clz x))
unfolding int_unary_op
int_unary_op-clz w x pos fits =
    let e : (x == 0) ≡ false = ground arith in rw e (leading_zeros-bounds w x pos fits)

double_mod_zero : (x m : ℕ) → 0 < m → x % 2 ≡ 0 → x / 2 % m ≡ 0 → x % (2 * m) ≡ 0
double_mod_zero x m pos even h = grind arith

trailing_zeros-divides :
    (k x : ℕ)
    → 0 < x
    → x < 2 ^ k
    → (trailing_zeros k x < k)
      × (x % 2 ^ trailing_zeros k x ≡ 0)
      × (x / 2 ^ trailing_zeros k x % 2 ≡ 1)
unfolding trailing_zeros
trailing_zeros-divides zero x pos fits = absurd (omega arith)
trailing_zeros-divides (suc k) x pos fits = elim (Bool-cases (x % 2 == 1)) [
  | inl odd ↦ rw odd (omega arith, omega arith, ground arith)
  | inr even ↦
      let is_even : x % 2 ≡ 0 = ground arith in
      let p : 2 ^ suc k ≡ 2 ^ k * 2 = pow-suc 2 k in
      let ih = trailing_zeros-divides k (x / 2) (omega arith) (omega arith) in
      let q : 2 ^ suc (trailing_zeros k (x / 2)) ≡ 2 * 2 ^ trailing_zeros k (x / 2) =
        omega (arith, pow-suc 2 (trailing_zeros k (x / 2))) in
      rw even (
        omega arith,
        rw q (double_mod_zero x (2 ^ trailing_zeros k (x / 2)) (pow-pos _) is_even ih.1),
        rw (q, ← div-div-eq-div-mul) ih.2,
      )
]

-- `ctz` of a word of `w` bits that is not 0 is the number of zeros below its lowest one: it is
-- below `w`, two to this power divides the word, and the quotient is odd.
pub int_unary_op-ctz :
    (w x : ℕ)
    → 0 < x
    → x < 2 ^ w
    → (int_unary_op w ctz x < w)
      × (x % 2 ^ int_unary_op w ctz x ≡ 0)
      × (x / 2 ^ int_unary_op w ctz x % 2 ≡ 1)
unfolding int_unary_op
int_unary_op-ctz w x pos fits =
    let e : (x == 0) ≡ false = ground arith in rw e (trailing_zeros-divides w x pos fits)
