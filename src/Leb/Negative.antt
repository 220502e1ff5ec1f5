-- ===== src/Leb/Negative.antt =====
-- The signed readers on the negative values of the signed writers. A negative value of `w` bits has
-- the pattern 2 ^ w - 1 - c, where `c` is its complement.
use native.Mathlib.Nat.{mod-eq_of_lt, pow-suc, pow-le-pow_right, add-mul-mod_self_right}
use native.Mathlib.Decide.{dec_lt}
use deepvm.Base.{
  ℕ, zero, suc, ◌+◌, ◌-◌, ◌*◌, ◌/◌, ◌%◌, ◌^◌, ◌≤◌, ◌<◌, bit_and, ◌≡◌, refl, ap, ◌∙◌, true, false,
  not, ◌&&◌, ◌||◌, ◌∷◌, ◌++◌, ok, arith, ltb, ◌==◌, bit_and_low, pow-add7, pow-pos,
}
use deepvm.Leb.{Ptr, leb_s_loop}
use deepvm.Leb.Write.{put_leb_s, shift_right7}
use deepvm.Leb.Unsigned.{septet_split, septet_lt}
use deepvm.Leb.Rounds.{
  sign_clear, put_leb_s-last_negative, put_leb_s-more, leb_s_loop-more, leb_s_loop-last_extended,
  leb_s_loop-last_cut, pow-add, scaled, fewer, rounds_left, two_halves, word_split, below_half,
  seven_less,
}

module _ (w : ℕ) (wide : 7 ≤ w) where
  whole : 2 ^ w ≡ 128 * 2 ^ (w - 7)
  whole = let e : w ≡ w - 7 + 7 = omega arith in ap (λ (i : ℕ). 2 ^ i) e ∙ pow-add7 (w - 7)

  shift_right7-negative :
      (c : ℕ) → c < 2 ^ (w - 1) → shift_right7 w (2 ^ w - 1 - c) ≡ 2 ^ w - 1 - c / 128
  unfolding shift_right7
  shift_right7-negative c h =
      let twice = two_halves w (omega arith) in
      let high : ltb (2 ^ w - 1 - c) (2 ^ (w - 1)) ≡ false = ground (arith, twice) in
      rw high (omega (arith, whole, twice))

  low_septet-negative : (c : ℕ) → c < 2 ^ (w - 1) → bit_and (2 ^ w - 1 - c) 0x7f ≡ 127 - c % 128
  low_septet-negative c h =
      omega (arith, bit_and_low 7 (2 ^ w - 1 - c), whole, two_halves w (omega arith))

  goes_on_negative :
      (c : ℕ)
      → 64 ≤ c
      → c < 2 ^ (w - 1)
      → (((2 ^ w - 1 - c / 128 == 0) && not (not (bit_and (127 - c % 128) 0x40 == 0)))
          || ((2 ^ w - 1 - c / 128 == 2 ^ w - 1) && not (bit_and (127 - c % 128) 0x40 == 0)))
        ≡ false
  goes_on_negative c large small =
      let twice = two_halves w (omega arith) in
      let some_left : (2 ^ w - 1 - c / 128 == 0) ≡ false = ground (arith, twice, whole) in
      elim (dec_lt c 128) [
        | yes h ↦
            let ones_left : (2 ^ w - 1 - c / 128 == 2 ^ w - 1) ≡ true = ground arith in
            rw (some_left, ones_left, sign_clear (127 - c % 128) (omega arith)) refl
        | no h ↦
            let zeros_left : (2 ^ w - 1 - c / 128 == 2 ^ w - 1) ≡ false = ground (arith, twice) in
            rw (some_left, zeros_left) refl
      ]

scaled_suc : (v p t : ℕ) → v < p → v * t + t ≤ p * t
scaled_suc v p t h =
    let e : p ≡ v + 1 + (p - (v + 1)) = omega arith in
    let f : (v + 1 + (p - (v + 1))) * t ≡ v * t + t + (p - (v + 1)) * t = grind arith in
    let g : p * t ≡ v * t + t + (p - (v + 1)) * t = ap (λ (i : ℕ). i * t) e ∙ f in omega arith

sub_scaled : (a b t : ℕ) → b ≤ a → (a - b) * t ≡ a * t - b * t
sub_scaled a b t h =
    let e : a ≡ a - b + b = omega arith in
    let f : (a - b + b) * t ≡ (a - b) * t + b * t = grind arith in
    let g : a * t ≡ (a - b) * t + b * t = ap (λ (i : ℕ). i * t) e ∙ f in omega arith

module _ (w shift k : ℕ) (is : w ≡ shift + suc k) where
  -- The bits of a last byte of ones but for `c`, with the sign above it.
  last_byte-extended :
      (c : ℕ)
      → c < 64
      → shift + 7 < w
      → (q : ℕ) × (2 ^ w - 2 ^ (shift + 7) ≡ q * 2 ^ (shift + 7))
        × ((127 - c) * 2 ^ shift < 2 ^ w)
        × ((127 - c) * 2 ^ shift + q * 2 ^ (shift + 7) ≡ 2 ^ w - (c * 2 ^ shift + 2 ^ shift))
  last_byte-extended c small below =
      let e : w ≡ w - (shift + 7) + (shift + 7) = omega arith in
      let split : 2 ^ w ≡ 2 ^ (w - (shift + 7)) * 2 ^ (shift + 7) =
        ap (λ (i : ℕ). 2 ^ i) e ∙ pow-add (w - (shift + 7)) (shift + 7) in
      let least : 2 ^ (shift + 7) ≤ 2 ^ w =
        pow-le-pow_right {n = 2} (omega arith) {i = shift + 7} {j = w} (omega arith) in
      let above =
        sub_scaled (2 ^ (w - (shift + 7))) 1 (2 ^ (shift + 7)) (pow-pos (w - (shift + 7))) in
      let byte = sub_scaled 127 c (2 ^ shift) (omega arith) in
      let part = scaled c 64 (2 ^ shift) small (pow-pos shift) in
      let t = pow-add7 shift in
      (2 ^ (w - (shift + 7)) - 1, omega arith, omega (arith, pow-pos shift), omega arith)

  -- The same where the byte goes beyond the word.
  last_byte-cut :
      (c : ℕ)
      → c < 2 ^ k
      → c < 64
      → w ≤ shift + 7
      → (r : ℕ) × ((127 - c) * 2 ^ shift % 2 ^ w ≡ r * 2 ^ shift)
        × (r * 2 ^ shift ≡ 2 ^ w - (c * 2 ^ shift + 2 ^ shift))
  last_byte-cut c fits small beyond =
      let word = word_split w shift k is in
      let r : ℕ = 2 * 2 ^ k - (c + 1) in
      let bits = sub_scaled (2 * 2 ^ k) (c + 1) (2 ^ shift) (omega arith) in
      let one_more : (c + 1) * 2 ^ shift ≡ c * 2 ^ shift + 2 ^ shift = grind arith in
      let whole_word : 2 * 2 ^ k * 2 ^ shift ≡ 2 ^ w = rw word (grind arith) in
      let byte = sub_scaled 127 c (2 ^ shift) (omega arith) in
      let e : 7 ≡ 6 - k + suc k = omega arith in
      let seven : 128 ≡ 2 ^ (6 - k) * (2 ^ k * 2) =
        ap (λ (i : ℕ). 2 ^ i) e
        ∙ (pow-add (6 - k) (suc k) ∙ ap (λ (i : ℕ). 2 ^ (6 - k) * i) (pow-suc 2 k)) in
      let spread : 2 ^ (6 - k) * 2 ^ w ≡ 128 * 2 ^ shift = rw (word, seven) (grind arith) in
      let over = sub_scaled (2 ^ (6 - k)) 1 (2 ^ w) (pow-pos (6 - k)) in
      let low : c * 2 ^ shift + 2 ^ shift ≤ 2 ^ w =
        omega (arith, scaled_suc c (2 ^ k) (2 ^ shift) fits) in
      let least : 2 ^ w ≤ 128 * 2 ^ shift =
        rw (← pow-add7 shift)
          (pow-le-pow_right {n = 2} (omega arith) {i = w} {j = shift + 7} beyond) in
      let split : (127 - c) * 2 ^ shift ≡ r * 2 ^ shift + (2 ^ (6 - k) - 1) * 2 ^ w = omega arith in
      let below : r * 2 ^ shift < 2 ^ w = omega (arith, pow-pos shift) in
      (
        r,
        rw split
            (add-mul-mod_self_right (r * 2 ^ shift) (2 ^ (6 - k) - 1) (2 ^ w) ∙ mod-eq_of_lt below),
        omega arith,
      )

-- From any bit on, with as many rounds as the writer had; `k` bits and the sign are left.
pub leb_s_loop-negative :
    (w n k shift res c : ℕ) (start rest : Ptr)
    → w ≡ shift + suc k
    → 7 ≤ w
    → res < 2 ^ shift
    → c < 2 ^ k
    → 2 * c < 2 ^ (n * 7)
    → 0 < c + n
    → leb_s_loop w n shift res start (put_leb_s w n (2 ^ w - 1 - c) ++ rest)
      ≡ ok (res + (2 ^ w - (c * 2 ^ shift + 2 ^ shift)), rest)
leb_s_loop-negative w zero k shift res c start rest is wide low small few pos = absurd (omega arith)
leb_s_loop-negative w (suc n) k shift res c start rest is wide low small few pos =
    let under : c < 2 ^ (w - 1) = below_half w shift k is c small in
    let byte = low_septet-negative w wide c under in
    let left = shift_right7-negative w wide c under in
    elim (dec_lt c 64) [
      | yes tiny ↦
          let b : bit_and (2 ^ w - 1 - c) 0x7f ≡ 127 - c = omega arith in
          let ones_left : shift_right7 w (2 ^ w - 1 - c) ≡ 2 ^ w - 1 = omega arith in
          rw
            (put_leb_s-last_negative w n (2 ^ w - 1 - c) (127 - c) b (omega arith) (omega arith)
              (omega (arith, whole w wide, pow-pos (w - 7))) ones_left)
            (last_byte w n k shift res c start rest is low small tiny)
      | no large ↦
          let less = seven_less w shift k is c (omega arith) small in
          let septet : 127 - c % 128 < 128 = omega arith in
          let room : 2 ^ (shift + 7) ≤ 2 ^ w =
            pow-le-pow_right {n = 2} (omega arith) {i = shift + 7} {j = w} (omega arith) in
          let t = pow-add7 shift in
          let inside : (127 - c % 128) * 2 ^ shift < 2 ^ w =
            omega (arith, scaled (127 - c % 128) 128 (2 ^ shift) septet (pow-pos shift)) in
          rw
            (
              put_leb_s-more w n (2 ^ w - 1 - c) (127 - c % 128) (2 ^ w - 1 - c / 128) byte left
                  (goes_on_negative w wide c (omega arith) under),
              leb_s_loop-more w n shift res (127 - c % 128) start
                  (put_leb_s w n (2 ^ w - 1 - c / 128) ++ rest) septet low inside,
            )
            (leb_s_loop-negative w n (k - 7) (shift + 7) (res + (127 - c % 128) * 2 ^ shift)
                (c / 128) start rest less.0 wide (septet_lt shift res (127 - c % 128) septet low)
                less.1 (fewer n c few) (rounds_left n c few (omega arith))
              ∙ ap (λ (i : ℕ). ok (i, rest)) (same_sum w shift k res c is small less))
    ]
  where
    same_sum :
        (w shift k res c : ℕ)
        → w ≡ shift + suc k
        → c < 2 ^ k
        → (w ≡ shift + 7 + suc (k - 7)) × (c / 128 < 2 ^ (k - 7))
        → res
            + (127 - c % 128) * 2 ^ shift
            + (2 ^ w - (c / 128 * 2 ^ (shift + 7) + 2 ^ (shift + 7)))
          ≡ res + (2 ^ w - (c * 2 ^ shift + 2 ^ shift))
    same_sum w shift k res c is small less =
        let t = pow-add7 shift in
        let split : c * 2 ^ shift ≡ c / 128 * 2 ^ (shift + 7) + c % 128 * 2 ^ shift =
          rw t (septet_split c (2 ^ shift)) in
        let byte = sub_scaled 127 (c % 128) (2 ^ shift) (omega arith) in
        let part = scaled_suc (c % 128) 128 (2 ^ shift) (omega arith) in
        let here = word_split w shift k is in
        let there = word_split w (shift + 7) (k - 7) less.0 in
        let fits = scaled_suc c (2 ^ k) (2 ^ shift) small in
        let fits' = scaled_suc (c / 128) (2 ^ (k - 7)) (2 ^ (shift + 7)) less.1 in omega arith

    last_byte :
        (w n k shift res c : ℕ) (start rest : Ptr)
        → w ≡ shift + suc k
        → res < 2 ^ shift
        → c < 2 ^ k
        → c < 64
        → leb_s_loop w (suc n) shift res start ((127 - c) ∷ rest)
          ≡ ok (res + (2 ^ w - (c * 2 ^ shift + 2 ^ shift)), rest)
    last_byte w n k shift res c start rest is low small tiny = elim (dec_lt (shift + 7) w) [
      | yes below ↦
          let bits = last_byte-extended w shift k is c tiny below in
          leb_s_loop-last_extended w n shift res (127 - c) bits.0 start rest (omega arith)
            (omega arith) low below bits.2 bits.1
          ∙ ap (λ (i : ℕ). ok (i, rest)) (omega (arith, bits.3))
      | no beyond ↦
          let bits = last_byte-cut w shift k is c small tiny (omega arith) in
          leb_s_loop-last_cut w n shift res (127 - c) bits.0 start rest (omega arith) low
            (omega arith) bits.1
          ∙ ap (λ (i : ℕ). ok (res + i, rest)) bits.2
    ]
