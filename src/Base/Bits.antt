-- ===== src/Base/Bits.antt =====
-- `|` and `&` of native numbers, as arithmetic where the bits do not meet.
use Prim.Native.Nat.{
  ℕ, zero, suc, ◌+◌, ◌*◌, ◌/◌, ◌%◌, ◌^◌, ◌≤◌, ◌<◌, ◌-◌, max, min, bit_and, bit_and-bitwise,
}
use Prim.Native.Nat.{digits, bit_or, bit_or-bitwise}
use mathlib.Core.Path.{◌≡◌, refl, ap}
use mathlib.Core.Bool.{Bool, true, ◌&&◌}
use native.Mathlib.Omega.{arith}
use native.Mathlib.Nat.{pow-suc}
use native.Mathlib.Numerals.{towards_suc}

-- A test that holds of every number below a bound, by trying them all.
unfoldable pub all_below : ℕ → (ℕ → Bool) → Bool
all_below zero test = true
all_below (suc bound) test = all_below bound test && test bound

pub all_below_sound :
    (bound : ℕ) (test : ℕ → Bool) (i : ℕ) → all_below bound test ≡ true → i < bound → test i ≡ true
unfolding all_below
all_below_sound zero test i all_pass inside = absurd (omega arith)
all_below_sound (suc bound) test i all_pass inside = ground (arith, all_below_sound bound test i)

-- More fuel than the number itself changes none of its binary digits.
module _ (z : ℕ → ℕ) (f : ℕ → ℕ → ℕ) where
  digits_enough : (n a b : ℕ) → a ≤ n → (m : ℕ) → a ≤ m → digits z f n a b ≡ digits z f m a b
  digits_enough zero zero b p zero q = refl
  digits_enough zero zero b p (suc m) q = refl
  digits_enough zero (suc a) b p m q = absurd (omega arith)
  digits_enough (suc n) zero b p zero q = refl
  digits_enough (suc n) zero b p (suc m) q = refl
  digits_enough (suc n) (suc a) b p zero q = absurd (omega arith)
  digits_enough (suc n) (suc a) b p (suc m) q =
      rw (digits_enough n (suc a / 2) (b / 2) (omega arith) m (omega arith))

bit_or_halves : (a b : ℕ) → bit_or a b ≡ bit_or (a / 2) (b / 2) * 2 + max (a % 2) (b % 2)
bit_or_halves zero b = omega (arith, bit_or-bitwise 0 b, bit_or-bitwise 0 (b / 2))
bit_or_halves (suc a) b = omega (
  arith,
  bit_or-bitwise (suc a) b,
  bit_or-bitwise (suc a / 2) (b / 2),
  digits_enough (λ y. y) max a (suc a / 2) (b / 2) (omega arith) (suc a / 2) (omega arith),
)

bit_or_zero_left : (b : ℕ) → bit_or 0 b ≡ b
bit_or_zero_left b = bit_or-bitwise 0 b

-- `r | (q << k)` is a sum where `r` has at most `k` bits.
pub bit_or_shifted : (k r q : ℕ) → r < 2 ^ k → bit_or r (q * 2 ^ k) ≡ r + q * 2 ^ k
bit_or_shifted zero zero q h = omega (arith, bit_or_zero_left (q * 2 ^ 0))
bit_or_shifted zero (suc r) q h = absurd (omega arith)
bit_or_shifted (suc k) r q h =
    let twice : q * 2 ^ suc k ≡ 2 * (q * 2 ^ k) =
      omega (arith, ap (λ (t : ℕ). q * t) (pow-suc 2 k)) in
    let half : r / 2 < 2 ^ k = omega (arith, pow-suc 2 k) in
    let same : q * 2 ^ suc k / 2 ≡ q * 2 ^ k = omega arith in
    rw bit_or_halves (rw same (omega (arith, bit_or_shifted k (r / 2) q half)))

pub pow-pos : (k : ℕ) → 0 < 2 ^ k
pow-pos zero = omega arith
pow-pos (suc k) = omega (arith, pow-suc 2 k, pow-pos k)

bit_and_halves : (a b : ℕ) → bit_and a b ≡ bit_and (a / 2) (b / 2) * 2 + min (a % 2) (b % 2)
bit_and_halves zero b = omega (arith, bit_and-bitwise 0 b, bit_and-bitwise 0 (b / 2))
bit_and_halves (suc a) b = omega (
  arith,
  bit_and-bitwise (suc a) b,
  bit_and-bitwise (suc a / 2) (b / 2),
  digits_enough (λ y. 0) min a (suc a / 2) (b / 2) (omega arith) (suc a / 2) (omega arith),
)

bit_and_none : (bound x : ℕ) → x ≤ bound → bit_and x 0 ≡ 0
bit_and_none bound zero small = refl
bit_and_none zero (suc x) small = absurd (omega arith)
bit_and_none (suc bound) (suc x) small =
    let halved : bit_and (suc x / 2) 0 ≡ 0 = bit_and_none bound (suc x / 2) (omega arith) in
    omega (arith, halved, bit_and_halves (suc x) 0)

double_mod : (a m : ℕ) → 0 < m → a / 2 % m * 2 + min (a % 2) 1 ≡ a % (m * 2)
double_mod a m h = grind arith

-- A mask of the `k` lowest bits, one bit at a time.
pub bit_and_low : (k a : ℕ) → bit_and a (2 ^ k - 1) ≡ a % 2 ^ k
bit_and_low zero a = omega (arith, bit_and_none a a (omega arith))
bit_and_low (suc k) a =
    let p : 2 ^ suc k ≡ 2 ^ k * 2 = pow-suc 2 k in
    let pos : 0 < 2 ^ k = pow-pos k in
    let ih : bit_and (a / 2) (2 ^ k - 1) ≡ a / 2 % 2 ^ k = bit_and_low k (a / 2) in
    let half : (2 ^ suc k - 1) / 2 ≡ 2 ^ k - 1 = omega arith in
    let odd : (2 ^ suc k - 1) % 2 ≡ 1 = omega arith in
    rw (bit_and_halves a (2 ^ suc k - 1), half, odd, ih, p) (double_mod a (2 ^ k) pos)

pub pow-add7 : (s : ℕ) → 2 ^ (s + 7) ≡ 128 * 2 ^ s
pow-add7 s = simp towards_suc (omega arith)
