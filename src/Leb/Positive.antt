-- ===== src/Leb/Positive.antt =====
-- The readers, signed or not, on the values of the signed writers that are not negative.
use native.Mathlib.Decide.{dec_lt}
use deepvm.Base.{
  ℕ, zero, suc, ◌+◌, ◌-◌, ◌*◌, ◌/◌, ◌%◌, ◌^◌, ◌≤◌, ◌<◌, bit_and, bit_or, ◌≡◌, ap, ◌∙◌, ◌∷◌, ◌++◌,
  Result, ok, arith, bit_and_low, pow-add7,
}
use deepvm.Leb.{Ptr}
use deepvm.Leb.Write.{put_leb_s, shift_right7}
use deepvm.Leb.Unsigned.{septet_split, septet_lt}
use deepvm.Leb.Rounds.{
  put_leb_s-last_positive, put_leb_s-more, fewer, rounds_left, two_halves, below_half, below_word,
  septet_below_word, seven_less, goes_on_positive, shift_right7-positive,
}

-- A reader's loop that takes a last byte below 64, and one with others behind it.
module _ (loop : ℕ → ℕ → ℕ → ℕ → Ptr → Ptr → Result (ℕ × Ptr))
    (last : (w n shift res b : ℕ) (start buf : Ptr)
      → b < 64
      → res < 2 ^ shift
      → b * 2 ^ shift < 2 ^ w
      → loop w (suc n) shift res start (b ∷ buf) ≡ ok (res + b * 2 ^ shift, buf))
    (more : (w n shift res b : ℕ) (start buf : Ptr)
      → b < 128
      → res < 2 ^ shift
      → b * 2 ^ shift < 2 ^ w
      → loop w (suc n) shift res start (bit_or b 0x80 ∷ buf)
        ≡ loop w n (shift + 7) (res + b * 2 ^ shift) start buf) where
  -- From any bit on, with as many rounds as the writer had; `k` bits and the sign are left.
  pub loop-positive :
      (w n k shift res v : ℕ) (start rest : Ptr)
      → w ≡ shift + suc k
      → 2 ≤ w
      → res < 2 ^ shift
      → v < 2 ^ k
      → 2 * v < 2 ^ (n * 7)
      → 0 < v + n
      → loop w n shift res start (put_leb_s w n v ++ rest) ≡ ok (res + v * 2 ^ shift, rest)
  loop-positive w zero k shift res v start rest is wide low small few pos = absurd (omega arith)
  loop-positive w (suc n) k shift res v start rest is wide low small few pos =
      let left : shift_right7 w v ≡ v / 128 =
        shift_right7-positive w v (below_half w shift k is v small) in
      elim (dec_lt v 64) [
        | yes tiny ↦
            rw (put_leb_s-last_positive w n v tiny (left ∙ omega arith))
              (last w n shift res v start rest tiny low (below_word w shift k is v small))
        | no large ↦
            let less = seven_less w shift k is v (omega arith) small in
            let byte : bit_and v 0x7f ≡ v % 128 = bit_and_low 7 v in
            let split : v * 2 ^ shift ≡ v / 128 * 2 ^ (shift + 7) + v % 128 * 2 ^ shift =
              rw (pow-add7 shift) (septet_split v (2 ^ shift)) in
            rw
              (
                put_leb_s-more w n v (v % 128) (v / 128) byte left (
                    goes_on_positive w v (omega arith) (below_half w shift k is v small)
                      (two_halves w wide)),
                more w n shift res (v % 128) start (put_leb_s w n (v / 128) ++ rest) (omega arith)
                    low (septet_below_word w shift k is v small),
              )
              (loop-positive w n (k - 7) (shift + 7) (res + v % 128 * 2 ^ shift) (v / 128) start
                  rest less.0 wide (septet_lt shift res (v % 128) (omega arith) low) less.1
                  (fewer n v few) (rounds_left n v few (omega arith))
                ∙ ap (λ (t : ℕ). ok (t, rest)) (omega arith))
      ]
