-- ===== src/Leb/Rounds.antt =====
-- One round of the signed writers and of the signed readers, and the powers of two that both meet.
use native.Mathlib.Nat.{pow-suc, pow-le-pow_right}
use native.Mathlib.Decide.{dec_lt}
use deepvm.Base.{
  ℕ, zero, suc, ◌+◌, ◌-◌, ◌*◌, ◌/◌, ◌%◌, ◌^◌, ◌≤◌, ◌<◌, bit_and, bit_or, ◌≡◌, refl, ap, ◌∙◌, Bool,
  true, false, not, ◌&&◌, ◌||◌, [], ◌∷◌, Result, ok, arith, ltb, ◌==◌, if◌then◌else◌, lt→ltb,
  bit_or_shifted, bit_and_low7, bit_and_sign7, pow-add7, pow-pos,
}
use deepvm.Leb.{Ptr, leb_s_loop}
use deepvm.Leb.Write.{put_leb_s, shift_right7}
use deepvm.Leb.Unsigned.{
  add_septet, septet_split, septet_lt, continued_payload, continued_flag, last_payload, last_flag,
}

pub sign_clear : (b : ℕ) → b < 64 → (bit_and b 0x40 == 0) ≡ true
sign_clear b h = ground (arith, bit_and_sign7 b (omega arith))

pub sign_set : (b : ℕ) → 64 ≤ b → b < 128 → (bit_and b 0x40 == 0) ≡ false
sign_set b h k = ground (arith, bit_and_sign7 b (omega arith))

and_false : (c : Bool) (r r' : Result (ℕ × Ptr)) → (if c && false then r else r') ≡ r'
and_false true r r' = refl
and_false false r r' = refl

pub pow-add : (a b : ℕ) → 2 ^ (a + b) ≡ 2 ^ a * 2 ^ b
pow-add a zero = let e : a + 0 ≡ a = omega arith in rw e (omega arith)
pow-add a (suc b) =
    let e : a + suc b ≡ suc (a + b) = omega arith in
    rw (e, pow-suc, pow-suc, pow-add a b) (grind arith)

-- The writer's step, by the byte and the value that is left.
pub put_leb_s-last_positive :
    (width n v : ℕ) → v < 64 → shift_right7 width v ≡ 0 → put_leb_s width (suc n) v ≡ v ∷ []
unfolding put_leb_s
put_leb_s-last_positive width n v small none_left =
    let byte : bit_and v 0x7f ≡ v = omega (arith, bit_and_low7 v (omega arith)) in
    rw (byte, none_left, sign_clear v small)

pub put_leb_s-last_negative :
    (width n x b : ℕ)
    → bit_and x 0x7f ≡ b
    → 64 ≤ b
    → b < 128
    → 1 < 2 ^ width
    → shift_right7 width x ≡ 2 ^ width - 1
    → put_leb_s width (suc n) x ≡ b ∷ []
unfolding put_leb_s
put_leb_s-last_negative width n x b is_b high low some_bits left =
    let nonzero : (2 ^ width - 1 == 0) ≡ false = ground arith in
    let same : (2 ^ width - 1 == 2 ^ width - 1) ≡ true = ground arith in
    rw (is_b, left, sign_set b high low, nonzero, same)

pub put_leb_s-more :
    (width n x b next : ℕ)
    → bit_and x 0x7f ≡ b
    → shift_right7 width x ≡ next
    → (((next == 0) && not (not (bit_and b 0x40 == 0)))
        || ((next == 2 ^ width - 1) && not (bit_and b 0x40 == 0)))
      ≡ false
    → put_leb_s width (suc n) x ≡ bit_or b 0x80 ∷ put_leb_s width n next
unfolding put_leb_s
put_leb_s-more width n x b next is_b is_next goes_on = rw (is_b, is_next, goes_on)

-- The reader's round at a byte that is not the last.
pub leb_s_loop-more :
    (width n shift res b : ℕ) (start buf : Ptr)
    → b < 128
    → res < 2 ^ shift
    → b * 2 ^ shift < 2 ^ width
    → leb_s_loop width (suc n) shift res start (bit_or b 0x80 ∷ buf)
      ≡ leb_s_loop width n (shift + 7) (res + b * 2 ^ shift) start buf
unfolding leb_s_loop
leb_s_loop-more width n shift res b start buf small low fits =
    rw (continued_flag b small, continued_payload b small, add_septet width shift res b low fits)

pub leb_s_loop-last_positive :
    (width n shift res b : ℕ) (start buf : Ptr)
    → b < 64
    → res < 2 ^ shift
    → b * 2 ^ shift < 2 ^ width
    → leb_s_loop width (suc n) shift res start (b ∷ buf) ≡ ok (res + b * 2 ^ shift, buf)
unfolding leb_s_loop
leb_s_loop-last_positive width n shift res b start buf small low fits =
    rw
      (
        last_flag b (omega arith),
        last_payload b (omega arith),
        add_septet width shift res b low fits,
        sign_clear b small,
      )
      (and_false (ltb (shift + 7) width) _ _)

-- A last byte whose sign bit is set, below the width: the bits above it are set too.
pub leb_s_loop-last_extended :
    (width n shift res b q : ℕ) (start buf : Ptr)
    → 64 ≤ b
    → b < 128
    → res < 2 ^ shift
    → shift + 7 < width
    → b * 2 ^ shift < 2 ^ width
    → 2 ^ width - 2 ^ (shift + 7) ≡ q * 2 ^ (shift + 7)
    → leb_s_loop width (suc n) shift res start (b ∷ buf)
      ≡ ok (res + b * 2 ^ shift + q * 2 ^ (shift + 7), buf)
unfolding leb_s_loop
leb_s_loop-last_extended width n shift res b q start buf high small low below fits above = rw (
  last_flag b small,
  last_payload b small,
  add_septet width shift res b low fits,
  sign_set b high small,
  lt→ltb _ _ below,
  above,
  bit_or_shifted (shift + 7) (res + b * 2 ^ shift) q (septet_lt shift res b small low),
)

-- A last byte that fills the width up: what lies above it is cut off.
pub leb_s_loop-last_cut :
    (width n shift res b r : ℕ) (start buf : Ptr)
    → b < 128
    → res < 2 ^ shift
    → width ≤ shift + 7
    → b * 2 ^ shift % 2 ^ width ≡ r * 2 ^ shift
    → leb_s_loop width (suc n) shift res start (b ∷ buf) ≡ ok (res + r * 2 ^ shift, buf)
unfolding leb_s_loop
leb_s_loop-last_cut width n shift res b r start buf small low beyond cut =
    let above : ltb (shift + 7) width ≡ false = ground arith in
    rw (last_flag b small, last_payload b small, cut, bit_or_shifted shift res r low, above)

-- What is left of a value after a byte.
pub shift_right7-positive : (width v : ℕ) → v < 2 ^ (width - 1) → shift_right7 width v ≡ v / 128
unfolding shift_right7
shift_right7-positive width v h = rw (lt→ltb _ _ h)

-- A factor more on both sides, and seven bits less.
pub scaled : (v p t : ℕ) → v < p → 0 < t → v * t < p * t
scaled v p t h pos = grind arith

pub fewer : (n v : ℕ) → 2 * v < 2 ^ (suc n * 7) → 2 * (v / 128) < 2 ^ (n * 7)
fewer n v h =
    let e : suc n * 7 ≡ n * 7 + 7 = omega arith in
    let h' : 2 * v < 2 ^ (n * 7 + 7) = rw e at h in omega (arith, pow-add7 (n * 7))

pub seven_bits : (k v : ℕ) → 64 ≤ v → v < 2 ^ k → 7 ≤ k
seven_bits k v large fits = elim (dec_lt k 7) [
  | yes h ↦
      let most : 2 ^ k ≤ 2 ^ 6 =
        pow-le-pow_right {n = 2} (omega arith) {i = k} {j = 6} (omega arith) in
      absurd (omega arith)
  | no h ↦ omega arith
]

pub rounds_left : (n v : ℕ) → 2 * v < 2 ^ (suc n * 7) → 64 ≤ v → 0 < v / 128 + n
rounds_left zero v few large = absurd (omega arith)
rounds_left (suc n) v few large = omega arith

pub two_halves : (w : ℕ) → 2 ≤ w → 2 ^ w ≡ 2 * 2 ^ (w - 1)
two_halves w h =
    let e : w ≡ suc (w - 1) = omega arith in
    ap (λ (i : ℕ). 2 ^ i) e ∙ omega (arith, pow-suc 2 (w - 1))

-- The writer goes on where the byte does not show the sign of what is left.
pub goes_on_positive :
    (w v : ℕ)
    → 64 ≤ v
    → v < 2 ^ (w - 1)
    → 2 ^ w ≡ 2 * 2 ^ (w - 1)
    → (((v / 128 == 0) && not (not (bit_and (v % 128) 0x40 == 0)))
        || ((v / 128 == 2 ^ w - 1) && not (bit_and (v % 128) 0x40 == 0)))
      ≡ false
goes_on_positive w v large small twice =
    let no_ones : (v / 128 == 2 ^ w - 1) ≡ false = ground arith in
    elim (dec_lt v 128) [
      | yes h ↦
          let none_left : v / 128 ≡ 0 = omega arith in
          rw (no_ones, sign_set (v % 128) (omega arith) (omega arith), none_left) refl
      | no h ↦ let some_left : (v / 128 == 0) ≡ false = ground arith in rw (some_left, no_ones) refl
    ]

-- A word of `w` bits, `w` = shift + k + 1, from its bit `shift` on.
module _ (w shift k : ℕ) (is : w ≡ shift + suc k) where
  pub word_split : 2 ^ w ≡ 2 * (2 ^ k * 2 ^ shift)
  word_split = rw (is, pow-add shift (suc k), pow-suc) (grind arith)

  pub below_half : (v : ℕ) → v < 2 ^ k → v < 2 ^ (w - 1)
  below_half v h =
      let more : 2 ^ k ≤ 2 ^ (w - 1) =
        pow-le-pow_right {n = 2} (omega arith) {i = k} {j = w - 1} (omega arith) in
      omega arith

  pub below_word : (v : ℕ) → v < 2 ^ k → v * 2 ^ shift < 2 ^ w
  below_word v h = omega (arith, word_split, scaled v (2 ^ k) (2 ^ shift) h (pow-pos shift))

  pub septet_below_word : (v : ℕ) → v < 2 ^ k → v % 128 * 2 ^ shift < 2 ^ w
  septet_below_word v h = omega (arith, below_word v h, septet_split v (2 ^ shift))

  pub seven_less :
      (v : ℕ) → 64 ≤ v → v < 2 ^ k → (w ≡ shift + 7 + suc (k - 7)) × (v / 128 < 2 ^ (k - 7))
  seven_less v large h =
      let seven = seven_bits k v large h in
      let e : k ≡ k - 7 + 7 = omega arith in
      let f : 2 ^ k ≡ 128 * 2 ^ (k - 7) = ap (λ (i : ℕ). 2 ^ i) e ∙ pow-add7 (k - 7) in
      (omega arith, omega arith)
